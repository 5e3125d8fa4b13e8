-- ===== src/Frames/Decode/Parse.antt =====
-- The decoder's data, and the parsers of the parts of a frame.
use wust_socket.Prelude.{
  ℕ, ◌^◌, List, [], ◌∷◌, Option, none, some, Result, ok, err, Bool, true, false, not, bool_ne, ◌&&◌,
  ◌||◌, ltb, leb, ◌==◌, if◌then◌else◌, length, take, drop, get_or, bit_and, from_be_bytes,
}
use wust_socket.Prelude.Utf8.{is_utf8}
use wust_socket.Role.{Role, is_server}
use wust_socket.Frames.Limits.{max_frame_payload}
use wust_socket.Frames.Opcode.{Opcode, is_control, opcode_eq, try_from}
use wust_socket.Protocol.Mask
use wust_socket.Protocol.Mask.{MaskKey}

pub record DecodedFrame : Type 0 where
  pub opcode : Opcode
  pub payload : List ℕ
  pub is_fin : Bool
  pub compressed : Bool

pub data FrameState : Type 0 where
  complete : DecodedFrame → FrameState
  incomplete : FrameState

pub data FrameParseError : Type 0 where
  proto_error size_err : FrameParseError

pub data DecodeState : Type 0 where
  header1 header2 extended_len mask payload : DecodeState

pub record DecodeContext : Type 0 where
  pub is_fin : Bool
  pub opcode : Opcode
  pub payload_len : ℕ
  pub mask_key : MaskKey
  pub compressed : Bool

pub record FrameDecoder : Type 0 where
  pub buf : List ℕ
  pub state : DecodeState
  pub ctx : DecodeContext
  pub compressed : Bool

-- `[u8; 4]` of four popped bytes.
abbrev pub key_of : List ℕ → MaskKey
key_of bs = record {
  k0 = get_or bs 0 0;
  k1 = get_or bs 1 0;
  k2 = get_or bs 2 0;
  k3 = get_or bs 3 0;
}

-- The first `n` bytes of the buffer, if they are there.
unfoldable pub pop_n : ℕ → FrameDecoder → Option (List ℕ) × FrameDecoder
pop_n n d =
    if ltb (length d.buf) n
    then (none, d)
    else (some (take n d.buf), record d { buf = drop n d.buf })

-- The close payload is empty, or a code that may be sent and text in UTF-8.
unfoldable pub is_valid_close_payload : List ℕ → Bool
is_valid_close_payload [] = true
is_valid_close_payload (b ∷ []) = false
is_valid_close_payload (b0 ∷ b1 ∷ text) =
    let code = from_be_bytes 0 (b0 ∷ b1 ∷ []) in
    (leb 1000 code && leb code 1011 || leb 3000 code && leb code 4999) && is_utf8 text

-- The context that the first byte gives, once its opcode is known.
abbrev header1_ctx : ℕ → Opcode → DecodeContext
header1_ctx b op = record {
  is_fin = ltb 0 (bit_and b 0b1000_0000);
  opcode = op;
  payload_len = 0;
  mask_key = record { k0 = 0; k1 = 0; k2 = 0; k3 = 0 };
  compressed = ltb 0 (bit_and b 0b0100_0000);
}

unfoldable pub parse_header1 : FrameDecoder → ℕ → Result FrameParseError DecodeState × FrameDecoder
parse_header1 d b =
    let rsv = ltb 0 (bit_and b 0b0011_0000) in
    let compressed = ltb 0 (bit_and b 0b0100_0000) in
    if rsv || compressed && not d.compressed
    then (err FrameParseError.proto_error, d)
    else elim (try_from (bit_and b 0b1111)) [
      | none ↦ (err FrameParseError.proto_error, d)
      | some op ↦ (ok DecodeState.header2, record d { ctx = header1_ctx b op })
    ]

-- Where the payload is preceded by a mask key.
abbrev pub mask_or_payload : Role → DecodeState
mask_or_payload r = if is_server r then DecodeState.mask else DecodeState.payload

-- The second byte, once it is split off.
unfoldable pub header2_byte :
    Role → FrameDecoder → ℕ → Result FrameParseError (Option DecodeState) × FrameDecoder
header2_byte r d b =
    let masked = ltb 0 (bit_and b 0b1000_0000) in
    let len = bit_and b 0b0111_1111 in
    let d' : FrameDecoder = record d { ctx = record (d.ctx) { payload_len = len } } in
    if bool_ne (is_server r) masked
    then (err FrameParseError.proto_error, d)
    else if is_control d.ctx.opcode && (not d.ctx.is_fin || d.ctx.compressed || ltb 125 len)
    then (err FrameParseError.proto_error, d')
    else (ok (some (if ltb 125 len then DecodeState.extended_len else mask_or_payload r)), d')

unfoldable pub header2_of :
    Role → FrameDecoder → List ℕ → Result FrameParseError (Option DecodeState) × FrameDecoder
unfolding header2_byte
header2_of r d [] = (ok none, d)
header2_of r d (b ∷ rest) = header2_byte r (record d { buf = rest }) b

unfoldable pub parse_header2 :
    Role → FrameDecoder → Result FrameParseError (Option DecodeState) × FrameDecoder
unfolding header2_of
parse_header2 r d = header2_of r d d.buf

-- `usize::try_from` on a machine whose `usize` has 64 bits.
abbrev usize_try_from : ℕ → Option ℕ
usize_try_from n = if ltb n (2 ^ 64) then some n else none

abbrev with_len : FrameDecoder → ℕ → FrameDecoder
with_len d n = record d { ctx = record (d.ctx) { payload_len = n } }

unfoldable pub extended_u16 :
    Role
    → Option (List ℕ) × FrameDecoder
    → Result FrameParseError (Option DecodeState) × FrameDecoder
extended_u16 r (none, d) = (ok none, d)
extended_u16 r (some len_bytes, d) =
    (ok (some (mask_or_payload r)), with_len d (from_be_bytes 0 len_bytes))

unfoldable pub extended_u64 :
    Role
    → Option (List ℕ) × FrameDecoder
    → Result FrameParseError (Option DecodeState) × FrameDecoder
extended_u64 r (none, d) = (ok none, d)
extended_u64 r (some len_bytes, d) = elim (usize_try_from (from_be_bytes 0 len_bytes)) [
  | none ↦ (err FrameParseError.size_err, d)
  | some n ↦ (ok (some (mask_or_payload r)), with_len d n)
]

unfoldable pub parse_extended_len :
    Role → FrameDecoder → Result FrameParseError (Option DecodeState) × FrameDecoder
unfolding extended_u16 extended_u64 pop_n
parse_extended_len r d =
    if d.ctx.payload_len == 126 then extended_u16 r (pop_n 2 d) else extended_u64 r (pop_n 8 d)

-- The payload once it is split off and unmasked.
unfoldable pub checked_payload :
    FrameDecoder → List ℕ → Result FrameParseError (Option (List ℕ)) × FrameDecoder
checked_payload d bytes =
    if opcode_eq d.ctx.opcode Opcode.close && not (is_valid_close_payload bytes)
    then (err FrameParseError.proto_error, d)
    else (ok (some bytes), d)

unfoldable pub parse_payload :
    Role → FrameDecoder → Result FrameParseError (Option (List ℕ)) × FrameDecoder
unfolding checked_payload
parse_payload r d =
    let n = d.ctx.payload_len in
    let raw = take n d.buf in
    if ltb (length d.buf) n
    then (ok none, d)
    else if ltb max_frame_payload n
    then (err FrameParseError.size_err, record d { buf = []; state = DecodeState.header1 })
    else checked_payload (record d { buf = drop n d.buf })
        (if is_server r then Mask.mask raw d.ctx.mask_key else raw)
