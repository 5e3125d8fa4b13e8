-- ===== src/Frames/Data/Layout.antt =====
-- What one data frame is on the wire.
use wust_socket.Prelude.{
  ℕ, ◌%◌, ◌^◌, ◌<◌, ◌≡◌, ap, List, [], ◌∷◌, Bool, false, ◌&&◌, if◌then◌else◌, length, set, get_or,
  bit_or, arith, bit_or-80, bit_or_flags, take-length, drop-length, append_assoc,
}
use wust_socket.Role.{Role}
use wust_socket.Protocol.Mask.{MaskKey, mask, key_bytes}
use wust_socket.Frames.Opcode.{Opcode, as_u8, as_u8-lt}
use wust_socket.Frames.Wire.{Header, first_byte, wire, length_bytes, body}
use wust_socket.Frames.Data.{data_byte, single_frame, push_len}

-- The header of the frame that `single_frame` writes.
abbrev pub data_header : Opcode → Bool → Bool → Bool → Header
data_header opcode first last compressed = record {
  fin = last;
  rsv1 = first && compressed;
  opcode = if first then opcode else Opcode.cont;
}

first_byte-data :
    (opcode : Opcode) (first last compressed : Bool)
    → data_byte opcode first last compressed ≡ first_byte (data_header opcode first last compressed)
first_byte-data opcode first last compressed =
    bit_or_flags last (first && compressed) (as_u8 (if first then opcode else Opcode.cont))
      (as_u8-lt (if first then opcode else Opcode.cont))

length_bytes-push : (b n : ℕ) → n < 2 ^ 64 → push_len (b ∷ []) n ≡ b ∷ length_bytes Role.server n
unfolding push_len length_bytes
length_bytes-push b n h = ground arith

-- `buf[1] |= 0x80`
length_bytes-mask :
    (b n : ℕ)
    → n < 2 ^ 64
    → set (push_len (b ∷ []) n) 1 (bit_or (get_or (push_len (b ∷ []) n) 1 0) 0x80)
      ≡ b ∷ length_bytes Role.client n
unfolding push_len length_bytes
length_bytes-mask b n h = ground (arith, bit_or-80 n, bit_or-80 (n % 256))

-- `single_frame` on an empty buffer writes one frame in the layout of the RFC, for every chunk
-- whose length fits 64 bits.
pub single_frame-wire :
    (r : Role) (opcode : Opcode) (chunk : List ℕ) (first last compressed : Bool) (key : MaskKey)
    → length chunk < 2 ^ 64
    → single_frame r [] opcode chunk first last compressed key
      ≡ (wire r (data_header opcode first last compressed) key chunk, false)
unfolding single_frame wire body
single_frame-wire Role.server opcode chunk first last compressed key h = rw (
  length_bytes-push (data_byte opcode first last compressed) (length chunk) h,
  first_byte-data opcode first last compressed,
)
single_frame-wire Role.client opcode chunk first last compressed key h =
    rw
      (
        length_bytes-mask (data_byte opcode first last compressed) (length chunk) h,
        take-length,
        drop-length,
        first_byte-data opcode first last compressed,
      )
      (ap (λ t. (first_byte (data_header opcode first last compressed) ∷ t, false))
        (append_assoc (length_bytes Role.client (length chunk)) (key_bytes key) (mask chunk key)))
