-- ===== src/Frames/Control.antt =====
-- src/frames/control.rs: control frames, built in an array of 131 bytes. `none` is a panic: a write
-- or a slice outside of an array. The key is what `rand::random` returns, if it is called.
pub mod Layout
pub mod Close
use wust_socket.Prelude.{
  ℕ, zero, suc, ◌+◌, ◌%◌, ◌≡◌, List, [], ◌∷◌, ◌++◌, Option, none, some, Bool, not, true, false, ltb,
  leb, if◌then◌else◌, length, take, drop, set, get_or, replicate, bit_or,
}
use wust_socket.Prelude.Utf8.{is_cont_byte}
use wust_socket.Role.{Role, is_client}
use wust_socket.Error.{CloseReason}
use wust_socket.Error
use wust_socket.Protocol.Mask.{MaskKey, mask, key_bytes}
use wust_socket.Frames.Opcode.{Opcode, as_u8}

infixl 5 ◌>>=◌
abbrev ◌>>=◌ : Option (List ℕ) → (List ℕ → Option (List ℕ)) → Option (List ℕ)
none >>= f = none
some a >>= f = f a

-- `buf[i..i + src.len()].copy_from_slice(src)`
unfoldable pub copy_at : ℕ → List ℕ → List ℕ → Option (List ℕ)
copy_at i src buf =
    if ltb (length buf) (i + length src)
    then none
    else some (take i buf ++ (src ++ drop (i + length src) buf))

-- `&buf[i..j]`, for `j = i + n`.
unfoldable pub slice : ℕ → ℕ → List ℕ → Option (List ℕ)
slice i n buf = if ltb (length buf) (i + n) then none else some (take n (drop i buf))

-- `encode`: FIN is always set, the length is cut to a byte, and a client masks.
unfoldable pub encode : Role → Opcode → List ℕ → MaskKey → Option (List ℕ)
unfolding copy_at slice
encode r opcode payload key =
    let n = length payload in
    let buf0 : List ℕ = replicate 131 0 in
    let buf1 = set buf0 0 (bit_or (as_u8 opcode) 0x80) in
    let buf2 = set buf1 1 (n % 256) in
    if is_client r
    then (do
      let buf3 = set buf2 1 (bit_or (get_or buf2 1 0) 0x80)
      buf4 ← copy_at 2 (key_bytes key) buf3
      buf5 ← copy_at 6 payload buf4
      p ← slice 6 n buf5
      buf6 ← copy_at 6 (mask p key) buf5
      slice 0 (6 + n) buf6)
    else (do buf3 ← copy_at 2 payload buf2; slice 0 (2 + n) buf3)

unfoldable pub ping : Role → List ℕ → MaskKey → Option (List ℕ)
ping r payload key = encode r Opcode.ping payload key

unfoldable pub pong : Role → List ℕ → MaskKey → Option (List ℕ)
pong r payload key = encode r Opcode.pong payload key

-- `str::is_char_boundary` at an index inside of the text: the byte there begins a character.
abbrev pub is_char_boundary : List ℕ → ℕ → Bool
is_char_boundary text i = not (is_cont_byte (get_or text i 0))

-- The search of `str::floor_char_boundary` downwards; index 0 is a boundary.
unfoldable pub boundary_at_most : List ℕ → ℕ → ℕ
boundary_at_most text zero = zero
boundary_at_most text (suc i) =
    if is_char_boundary text (suc i) then suc i else boundary_at_most text i

unfoldable pub floor_char_boundary : List ℕ → ℕ → ℕ
floor_char_boundary text i = if leb (length text) i then length text else boundary_at_most text i

-- `close`: the code, and at most 123 bytes of the text.
unfoldable pub close : Role → CloseReason → List ℕ → MaskKey → Option (List ℕ)
unfolding copy_at slice
close r reason text key = do
  payload1 ← copy_at 0 (Error.into_bytes reason) (replicate 125 0)
  let len = floor_char_boundary text 123
  bytes ← slice 0 len text
  payload2 ← copy_at 2 bytes payload1
  payload ← slice 0 (2 + len) payload2
  encode r Opcode.close payload key
