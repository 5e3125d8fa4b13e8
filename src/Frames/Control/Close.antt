-- ===== src/Frames/Control/Close.antt =====
-- `close`: it never panics, and what it writes.
use wust_socket.Prelude.{
  ℕ, zero, suc, ◌+◌, ◌≤◌, ◌≡◌, refl, List, [], ◌++◌, some, length, take, drop, replicate, arith,
  length-take, u16_to_be_bytes, le→ltb,
}
use wust_socket.Role.{Role}
use wust_socket.Error.{CloseReason, as_u16}
use wust_socket.Error
use wust_socket.Protocol.Mask.{MaskKey}
use wust_socket.Frames.Opcode.{Opcode}
use wust_socket.Frames.Wire.{wire}
use wust_socket.Frames.Control.{slice, close, floor_char_boundary, boundary_at_most}
use wust_socket.Frames.Control.Layout.{copy_at_past, slice_past, encode-wire, control_header}

boundary_at_most-le : (text : List ℕ) (i : ℕ) → boundary_at_most text i ≤ i
unfolding boundary_at_most
boundary_at_most-le text zero = omega arith
boundary_at_most-le text (suc i) = ground (arith, boundary_at_most-le text i)

-- The cut is in the text and not behind the index.
pub floor_char_boundary-le :
    (text : List ℕ) (i : ℕ)
    → (floor_char_boundary text i ≤ i) × (floor_char_boundary text i ≤ length text)
unfolding floor_char_boundary
floor_char_boundary-le text i = ground (arith, boundary_at_most-le text i)

-- The payload of a close frame: the code, and the text up to the cut.
abbrev pub close_payload : CloseReason → List ℕ → List ℕ
close_payload reason text =
    u16_to_be_bytes (as_u16 reason) ++ take (floor_char_boundary text 123) text

abbrev zeros : List ℕ
zeros = replicate 123 0

slice-take : (n : ℕ) (text : List ℕ) → n ≤ length text → slice 0 n text ≡ some (take n text)
unfolding slice
slice-take n text h = rw (le→ltb (length text) (0 + n) (omega arith))

-- `close` never panics: for every text it writes one close frame in the layout of the RFC, whose
-- payload is the code and the text, cut to at most 123 bytes.
pub close-wire :
    (r : Role) (reason : CloseReason) (text : List ℕ) (key : MaskKey)
    → close r reason text key
      ≡ some (wire r (control_header Opcode.close) key (close_payload reason text))
unfolding close u16_to_be_bytes Error.into_bytes
close-wire r reason text key =
    let n = floor_char_boundary text 123 in
    let (short, inside) = floor_char_boundary-le text 123 in
    let code = u16_to_be_bytes (as_u16 reason) in
    let cut = take n text in
    let size : length cut ≡ n = omega (arith, length-take n text) in
    rw
      (
        slice-take n text inside,
        copy_at_past 2 code cut zeros refl (omega arith),
        slice_past 0 (2 + n) [] (code ++ cut) (drop (length cut) zeros) refl (omega arith),
      )
      (encode-wire r Opcode.close (code ++ cut) key (omega arith))
