-- ===== src/Frames/RoundTrip/Steps.antt =====
-- The rounds of the decoder on the parts of a frame, one lemma for each part.
use wust_socket.Prelude.{
  ℕ, ◌+◌, ◌^◌, ◌≤◌, ◌<◌, ◌≡◌, refl, List, ◌∷◌, ◌++◌, some, Bool, true, false, ltb, if◌then◌else◌,
  length, u16_to_be_bytes, u64_to_be_bytes, ok, arith, bit_and, take-length, drop-length, take_past,
  drop_past, append-nil, bit_and-80, bit_and-7f, bit_and-40, bit_and-30, bit_and-0f, length-append,
  from_be_bytes-u16, from_be_bytes-u64,
}
use wust_socket.Role.{Role, is_server, peer}
use wust_socket.Protocol.Mask.{MaskKey, mask, key_bytes, mask-mask, length-mask}
use wust_socket.Frames.Limits.{max_frame_payload}
use wust_socket.Frames.Opcode.{Opcode, as_u8, as_u8-lt, is_control, try_from_iff}
use wust_socket.Frames.Wire.{Header, first_byte, mask_bit}
use wust_socket.Frames.Decode.Parse.{
  FrameDecoder, DecodeContext, DecodeState, DecodedFrame, FrameState, mask_or_payload,
  is_valid_close_payload, parse_header1, parse_header2, parse_extended_len, parse_payload, pop_n,
}
use wust_socket.Frames.Decode.{step, continues, returns}

-- The context of a frame with the header `h`.
abbrev pub context : Header → ℕ → MaskKey → DecodeContext
context h n key = record {
  is_fin = h.fin;
  opcode = h.opcode;
  payload_len = n;
  mask_key = key;
  compressed = h.rsv1;
}

abbrev pub zero_key : MaskKey
zero_key = record { k0 = 0; k1 = 0; k2 = 0; k3 = 0 }

-- A decoder in the middle of that frame.
abbrev pub in_frame : DecodeState → Bool → DecodeContext → List ℕ → FrameDecoder
in_frame s deflate ctx buf = record { buf = buf; state = s; ctx = ctx; compressed = deflate }

-- A header that the decoder takes, with a payload of `n` bytes: the extension bit only where
-- compression was agreed on, and a control frame whole, uncompressed and of at most 125 bytes.
pub record IsAllowed (deflate : Bool) (h : Header) (n : ℕ) : Type 0 where
  pub agreed : h.rsv1 ≡ true → deflate ≡ true
  pub whole : is_control h.opcode ≡ true → h.fin ≡ true
  pub plain : is_control h.opcode ≡ true → h.rsv1 ≡ false
  pub short : is_control h.opcode ≡ true → n ≤ 125

first_byte_fields :
    (h : Header)
    → let b = first_byte h in
      (bit_and b 0x30 ≡ 0)
      × (ltb 0 (bit_and b 0x40) ≡ h.rsv1)
      × (ltb 0 (bit_and b 0x80) ≡ h.fin)
      × (bit_and b 0x0f ≡ as_u8 h.opcode)
first_byte_fields h = ground (
  arith,
  as_u8-lt h.opcode,
  bit_and-30 (first_byte h),
  bit_and-40 (first_byte h),
  bit_and-80 (first_byte h),
  bit_and-0f (first_byte h),
)

pub reads_first :
    (r : Role) (deflate : Bool) (h : Header) (n : ℕ) (ctx : DecodeContext) (buf : List ℕ)
    → IsAllowed deflate h n
    → step r (in_frame DecodeState.header1 deflate ctx (first_byte h ∷ buf))
      ≡ continues (in_frame DecodeState.header2 deflate (context h 0 zero_key) buf)
unfolding step parse_header1
reads_first r deflate h n ctx buf a =
    ground (arith, first_byte_fields h, (try_from_iff (as_u8 h.opcode) h.opcode).1 refl, a.agreed)

-- The second byte: a length below 126, or the marker of an extended length.
pub reads_short :
    (r : Role) (deflate : Bool) (h : Header) (n : ℕ) (buf : List ℕ)
    → IsAllowed deflate h n
    → n < 126
    → step r (
        in_frame DecodeState.header2 deflate (context h 0 zero_key) ((mask_bit (peer r) + n) ∷ buf))
      ≡ continues (in_frame (mask_or_payload r) deflate (context h n zero_key) buf)
unfolding step parse_header2
reads_short Role.client deflate h n buf a l =
    ground (arith, bit_and-80 (0 + n), bit_and-7f (0 + n), a.whole, a.plain, a.short)
reads_short Role.server deflate h n buf a l =
    ground (arith, bit_and-80 (128 + n), bit_and-7f (128 + n), a.whole, a.plain, a.short)

pub reads_marker :
    (r : Role) (deflate : Bool) (h : Header) (m : ℕ) (buf : List ℕ)
    → is_control h.opcode ≡ false
    → 126 ≤ m
    → m < 128
    → step r (
        in_frame DecodeState.header2 deflate (context h 0 zero_key) ((mask_bit (peer r) + m) ∷ buf))
      ≡ continues (in_frame DecodeState.extended_len deflate (context h m zero_key) buf)
unfolding step parse_header2
reads_marker Role.client deflate h m buf a k l =
    ground (arith, bit_and-80 (0 + m), bit_and-7f (0 + m))
reads_marker Role.server deflate h m buf a k l =
    ground (arith, bit_and-80 (128 + m), bit_and-7f (128 + m))

pub reads_u16 :
    (r : Role) (deflate : Bool) (h : Header) (n : ℕ) (buf : List ℕ)
    → n < 65536
    → step r (
        in_frame DecodeState.extended_len deflate
          (context h 126 zero_key)
          (u16_to_be_bytes n ++ buf))
      ≡ continues (in_frame (mask_or_payload r) deflate (context h n zero_key) buf)
unfolding step parse_extended_len u16_to_be_bytes
reads_u16 r deflate h n buf l = ground (arith, from_be_bytes-u16 n)

pub reads_u64 :
    (r : Role) (deflate : Bool) (h : Header) (n : ℕ) (buf : List ℕ)
    → n < 2 ^ 64
    → step r (
        in_frame DecodeState.extended_len deflate
          (context h 127 zero_key)
          (u64_to_be_bytes n ++ buf))
      ≡ continues (in_frame (mask_or_payload r) deflate (context h n zero_key) buf)
unfolding step parse_extended_len u64_to_be_bytes
reads_u64 r deflate h n buf l = ground (arith, from_be_bytes-u64 n)

pub reads_key :
    (deflate : Bool) (h : Header) (n : ℕ) (key : MaskKey) (buf : List ℕ)
    → step Role.server
        (in_frame DecodeState.mask deflate (context h n zero_key) (key_bytes key ++ buf))
      ≡ continues (in_frame DecodeState.payload deflate (context h n key) buf)
unfolding step pop_n
reads_key deflate h n key buf = ground arith

-- The payload as it stands in the buffer.
abbrev pub raw : Role → MaskKey → List ℕ → List ℕ
raw r key payload = if is_server r then mask payload key else payload

pub raw-length :
    (r : Role) (key : MaskKey) (payload : List ℕ) → length (raw r key payload) ≡ length payload
raw-length Role.client key payload = refl
raw-length Role.server key payload = length-mask payload key

-- The frame that is handed out.
abbrev pub decoded : Header → List ℕ → DecodedFrame
decoded h payload = record {
  opcode = h.opcode;
  payload = payload;
  is_fin = h.fin;
  compressed = h.rsv1;
}

pub reads_payload :
    (r : Role) (deflate : Bool) (h : Header) (key : MaskKey) (payload buf : List ℕ)
    → length payload ≤ max_frame_payload
    → (h.opcode ≡ Opcode.close → is_valid_close_payload payload ≡ true)
    → step r (
        in_frame DecodeState.payload deflate
          (context h (length payload) key)
          (raw r key payload ++ buf))
      ≡ returns
          (ok (some (FrameState.complete (decoded h payload))))
          (in_frame DecodeState.header1 deflate (context h (length payload) key) buf)
unfolding step parse_payload
reads_payload Role.client deflate h key payload buf l c =
    ground (arith, length-append payload buf, take-length payload buf, drop-length payload buf, c)
reads_payload Role.server deflate h key payload buf l c = ground (
  arith,
  length-append (mask payload key) buf,
  length-mask payload key,
  take_past (length payload) 0 (mask payload key) buf,
  drop_past (length payload) 0 (mask payload key) buf,
  append-nil (mask payload key),
  mask-mask payload key,
  c,
)
