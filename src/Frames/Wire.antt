-- ===== src/Frames/Wire.antt =====
-- The layout of a frame in RFC 6455, section 5.2, as arithmetic on the fields: what the two encoders
-- have to write and the decoder has to read. It is written down independently of both.
use wust_socket.Prelude.{
  ℕ, ◌+◌, Bool, List, [], ◌∷◌, ◌++◌, ltb, if◌then◌else◌, length, u16_to_be_bytes, u64_to_be_bytes,
}
use wust_socket.Role.{Role, is_client}
use wust_socket.Protocol.Mask.{MaskKey, mask, key_bytes}
use wust_socket.Frames.Opcode.{Opcode, as_u8}

pub record Header : Type 0 where
  pub fin : Bool
  pub rsv1 : Bool
  pub opcode : Opcode

abbrev pub first_byte : Header → ℕ
first_byte h = (if h.fin then 128 else 0) + (if h.rsv1 then 64 else 0) + as_u8 h.opcode

-- Set in the second byte where the payload is masked.
abbrev pub mask_bit : Role → ℕ
mask_bit sender = if is_client sender then 128 else 0

-- The second byte, and the extended length behind it.
unfoldable pub length_bytes : Role → ℕ → List ℕ
length_bytes sender n =
    if ltb n 126
    then (mask_bit sender + n) ∷ []
    else if ltb n 65536
    then (mask_bit sender + 126) ∷ u16_to_be_bytes n
    else (mask_bit sender + 127) ∷ u64_to_be_bytes n

-- A client sends a key and the masked payload, a server the payload.
unfoldable pub body : Role → MaskKey → List ℕ → List ℕ
body sender key payload = if is_client sender then key_bytes key ++ mask payload key else payload

unfoldable pub wire : Role → Header → MaskKey → List ℕ → List ℕ
wire sender h key payload =
    first_byte h ∷ length_bytes sender (length payload) ++ body sender key payload
