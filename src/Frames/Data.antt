-- ===== src/Frames/Data.antt =====
-- src/frames/data.rs: a message as one frame or several. The keys are what `rand::fill` gives, one
-- for each frame. The deflate encoder and the channel to the writer are not part of the program:
-- they are parameters, `Deflater` and `Sender`.
pub mod Layout
pub mod Message
pub mod Parts
pub mod Fragments
use wust_socket.Prelude.{
  ℕ, zero, suc, ◌+◌, ◌-◌, ◌%◌, ◌^◌, List, [], ◌∷◌, ◌++◌, Option, none, some, Bool, not, true, false,
  ◌&&◌, ◌||◌, leb, ◌==◌, if◌then◌else◌, length, is_empty, take, drop, set, get_or, bit_or,
  u16_to_be_bytes, u64_to_be_bytes, Result, ok, err, Chunks, as_chunks,
}
use wust_socket.Channel.{Sender, Deflater}
use wust_socket.Role.{Role, is_client}
use wust_socket.Protocol.Mask.{MaskKey, mask, key_bytes}
use wust_socket.Frames.Limits.{max_frame_payload}
use wust_socket.Frames.Opcode.{Opcode, as_u8}

-- The `match chunk.len()`.
unfoldable pub push_len : List ℕ → ℕ → List ℕ
push_len buf n =
    if leb n 125
    then buf ++ n % 256 ∷ []
    else if leb n 65535
    then (buf ++ 126 ∷ []) ++ u16_to_be_bytes (n % 2 ^ 16)
    else (buf ++ 127 ∷ []) ++ u64_to_be_bytes (n % 2 ^ 64)

abbrev pub data_byte : Opcode → Bool → Bool → Bool → ℕ
data_byte opcode first last compressed =
    let b1 = as_u8 (if first then opcode else Opcode.cont) in
    let b2 = bit_or b1 (if last then 0b1000_0000 else 0) in
    bit_or b2 (if first && compressed then 0b0100_0000 else 0)

-- Appends a frame to `buf`; the second part is `*first`, which is cleared.
unfoldable pub single_frame :
    Role → List ℕ → Opcode → List ℕ → Bool → Bool → Bool → MaskKey → List ℕ × Bool
unfolding push_len
single_frame r buf opcode chunk first last compressed key =
    let buf1 = buf ++ data_byte opcode first last compressed ∷ [] in
    let buf2 = push_len buf1 (length chunk) in
    let buf3 = set buf2 1 (bit_or (get_or buf2 1 0) 0x80) ++ key_bytes key in
    let start = length buf3 in
    let buf4 = buf3 ++ chunk in
    if is_client r
    then (take start buf4 ++ mask (drop start buf4) key, false)
    else (buf2 ++ chunk, false)

module _ (tx : Sender (List ℕ)) where
  open tx use {State, send}

  -- The loop over the whole chunks, from index `i` on, with `first`. It ends at a send that fails.
  unfoldable pub send_chunks :
      Role
      → Opcode
      → Bool
      → (ℕ → MaskKey)
      → Chunks ℕ
      → ℕ
      → List (List ℕ)
      → Bool
      → State
      → Result (List ℕ) Bool × State
  send_chunks r opcode compressed keys c i [] first s = (ok first, s)
  send_chunks r opcode compressed keys c i (chunk ∷ chunks) first s =
      let last = is_empty c.remainder && i == length c.chunked - 1 in
      let (buf, first') = single_frame r [] opcode chunk first last compressed (keys i) in
      let (sent, s') = send buf s in
      elim sent [
        | err e ↦ (err e, s')
        | ok _ ↦ send_chunks r opcode compressed keys c (i + 1) chunks first' s'
      ]

  -- The frame behind the whole chunks, if there is one.
  unfoldable pub send_remainder :
      Role
      → Opcode
      → Bool
      → (ℕ → MaskKey)
      → List ℕ
      → Chunks ℕ
      → Result (List ℕ) Bool × State
      → Result (List ℕ) (Unit {0}) × State
  send_remainder r opcode compressed keys payload c (err e, s) = (err e, s)
  send_remainder r opcode compressed keys payload c (ok first, s) =
      if not (is_empty c.remainder) || is_empty payload
      then send
          (single_frame r [] opcode c.remainder first true compressed (keys (length c.chunked))).0 s
      else (ok tt, s)

  -- `all_frames`, for chunks of `n` bytes.
  unfoldable pub all_frames_by :
      ℕ → Role → Opcode → List ℕ → Bool → (ℕ → MaskKey) → State → Result (List ℕ) (Unit {0}) × State
  all_frames_by n r opcode payload compressed keys s =
      let c = as_chunks n payload in
      send_remainder r opcode compressed keys payload c
        (send_chunks r opcode compressed keys c 0 c.chunked true s)

  unfoldable pub all_frames :
      Role → Opcode → List ℕ → Bool → (ℕ → MaskKey) → State → Result (List ℕ) (Unit {0}) × State
  all_frames = all_frames_by max_frame_payload

  module _ (z : Deflater) where
    open z use {Encoder, reset, write_all, flush, get_ref}

    -- The encoder after a message, with what the message added to its output.
    unfoldable pub deflate : Bool → List ℕ → Encoder → List ℕ × Encoder
    deflate use_context payload e =
        let end = if use_context then length (get_ref e) else 0 in
        let e1 = if use_context then e else reset e in
        let e2 = flush (flush (write_all payload e1)) in (drop end (get_ref e2), e2)

    -- `data`
    unfoldable pub data_frames :
        Role
        → List ℕ
        → Opcode
        → Option Encoder
        → Bool
        → (ℕ → MaskKey)
        → State
        → Result (List ℕ) (Unit {0}) × Option Encoder × State
    data_frames r payload opcode none use_context keys s =
        let (sent, s') = all_frames r opcode payload false keys s in (sent, none, s')
    data_frames r payload opcode (some e) use_context keys s =
        let (b, e') = deflate use_context payload e in
        let (sent, s') = all_frames r opcode b true keys s in (sent, some e', s')
