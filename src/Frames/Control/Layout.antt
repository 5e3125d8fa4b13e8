-- ===== src/Frames/Control/Layout.antt =====
-- What the encoder of control frames writes.
use wust_socket.Prelude.{
  ℕ, ◌+◌, ◌%◌, ◌≤◌, ◌≡◌, refl, ap, ap₂, ◌∙◌, List, [], ◌∷◌, ◌++◌, some, true, false, length, take,
  drop, replicate, bit_or, arith, length-append, drop_past, take_past, append-nil, le→ltb, lt→ltb,
  bit_or-80,
}
use wust_socket.Role.{Role}
use wust_socket.Protocol.Mask.{MaskKey, mask, key_bytes, length-mask}
use wust_socket.Frames.Opcode.{Opcode, as_u8, as_u8-lt}
use wust_socket.Frames.Control.{copy_at, slice, encode}
use wust_socket.Frames.Wire.{Header, first_byte, wire, length_bytes, body}

-- A copy behind a part that is already written.
pub copy_at_past :
    (i : ℕ) (pre src rest : List ℕ)
    → i ≡ length pre
    → length src ≤ length rest
    → copy_at i src (pre ++ rest) ≡ some (pre ++ (src ++ drop (length src) rest))
unfolding copy_at
copy_at_past i pre src rest e h =
    rw (le→ltb (length (pre ++ rest)) (i + length src) (omega (arith, length-append pre rest))) (
      ap some (
        ap₂ ◌++◌ (take_past i 0 pre rest (omega arith) ∙ append-nil pre)
          (ap (λ t. src ++ t) (drop_past (i + length src) (length src) pre rest (omega arith)))))

-- A slice of a part that is written.
pub slice_past :
    (i n : ℕ) (pre src rest : List ℕ)
    → i ≡ length pre
    → n ≡ length src
    → slice i n (pre ++ (src ++ rest)) ≡ some src
unfolding slice
slice_past i n pre src rest e h =
    rw
      (le→ltb (length (pre ++ (src ++ rest))) (i + n)
        (omega (arith, length-append pre (src ++ rest), length-append src rest)))
      (ap some (
        ap (take n) (drop_past i 0 pre (src ++ rest) (omega arith))
        ∙ take_past n 0 src rest (omega arith)
        ∙ append-nil src))

-- The array behind its first two bytes.
abbrev zeros : List ℕ
zeros = replicate 129 0

encode-server :
    (opcode : Opcode) (payload : List ℕ) (key : MaskKey)
    → length payload ≤ 125
    → encode Role.server opcode payload key
      ≡ some (bit_or (as_u8 opcode) 0x80 ∷ (length payload % 256) ∷ payload)
unfolding encode
encode-server opcode payload key h =
    let head : List ℕ = bit_or (as_u8 opcode) 0x80 ∷ (length payload % 256) ∷ [] in
    rw (
      copy_at_past 2 head payload zeros refl (omega arith),
      slice_past 0 (2 + length payload) [] (head ++ payload) (drop (length payload) zeros) refl
          (omega arith),
    )

encode-client :
    (opcode : Opcode) (payload : List ℕ) (key : MaskKey)
    → length payload ≤ 125
    → encode Role.client opcode payload key
      ≡ some (
          bit_or (as_u8 opcode) 0x80
          ∷ bit_or (length payload % 256) 0x80
          ∷ (key_bytes key ++ mask payload key))
unfolding encode
encode-client opcode payload key h =
    let n = length payload in
    let pre : List ℕ = bit_or (as_u8 opcode) 0x80 ∷ bit_or (n % 256) 0x80 ∷ key_bytes key in
    let rest : List ℕ = drop 4 zeros in
    rw (
      copy_at_past 6 pre payload rest refl (omega arith),
      slice_past 6 n pre payload (drop n rest) refl refl,
      copy_at_past 6 pre (mask payload key) (payload ++ drop n rest) refl
          (omega (arith, length-append payload (drop n rest), length-mask payload key)),
      slice_past 0 (6 + n) [] (pre ++ mask payload key)
          (drop (length (mask payload key)) (payload ++ drop n rest)) refl
          (omega (arith, length-mask payload key)),
    )

-- A control frame: FIN, no extension bit.
abbrev pub control_header : Opcode → Header
control_header opcode = record { fin = true; rsv1 = false; opcode = opcode }

first_byte-encode :
    (opcode : Opcode) → bit_or (as_u8 opcode) 0x80 ≡ first_byte (control_header opcode)
first_byte-encode opcode = omega (arith, bit_or-80 (as_u8 opcode) (omega (arith, as_u8-lt opcode)))

-- `encode` writes one whole frame in the layout of the RFC, and does not panic, if the payload has
-- at most 125 bytes.
pub encode-wire :
    (r : Role) (opcode : Opcode) (payload : List ℕ) (key : MaskKey)
    → length payload ≤ 125
    → encode r opcode payload key ≡ some (wire r (control_header opcode) key payload)
unfolding wire length_bytes body
encode-wire Role.server opcode payload key h =
    let n : length payload % 256 ≡ 0 + length payload = omega arith in
    encode-server opcode payload key h
    ∙ rw (lt→ltb (length payload) 126 (omega arith))
        (ap some (ap₂ (λ a b. a ∷ b ∷ payload) (first_byte-encode opcode) n))
encode-wire Role.client opcode payload key h =
    let n : bit_or (length payload % 256) 0x80 ≡ 128 + length payload =
      omega (arith, bit_or-80 (length payload % 256) (omega arith)) in
    encode-client opcode payload key h
    ∙ rw (lt→ltb (length payload) 126 (omega arith)) (
        ap some
          (ap₂ (λ a b. a ∷ b ∷ (key_bytes key ++ mask payload key)) (first_byte-encode opcode) n))
