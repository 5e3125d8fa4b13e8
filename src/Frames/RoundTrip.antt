-- ===== src/Frames/RoundTrip.antt =====
-- The decoder reads back a frame in the layout of the RFC that the other end sent.
pub mod Steps
use wust_socket.Prelude.{
  ℕ, zero, suc, ◌+◌, ◌^◌, ◌≤◌, ◌<◌, ◌≡◌, refl, ap, ◌∙◌, List, [], ◌∷◌, ◌++◌, Option, none, some,
  Bool, true, false, ltb, length, u16_to_be_bytes, u64_to_be_bytes, Result, ok, err, arith,
  append_assoc, inl, inr, le→ltb, lt→ltb, Bool-cases,
}
use wust_socket.Role.{Role, peer}
use wust_socket.Role
use wust_socket.Protocol.Mask.{MaskKey, key_bytes}
use wust_socket.Frames.Limits.{max_frame_payload}
use wust_socket.Frames.Opcode.{Opcode, is_control}
use wust_socket.Frames.Wire.{Header, first_byte, wire, length_bytes, body, mask_bit}
use wust_socket.Frames.Decode.Parse.{
  FrameDecoder, DecodeContext, DecodeState, DecodedFrame, FrameState, mask_or_payload,
  is_valid_close_payload,
}
use wust_socket.Frames.Decode.{next_frame}
use wust_socket.Frames.Decode.Progress.{next_frame-continues, next_frame-returns}
use Steps.{
  IsAllowed, context, zero_key, in_frame, decoded, raw, reads_first, reads_short, reads_marker,
  reads_u16, reads_u64, reads_key, reads_payload,
}

-- A longer payload is no control frame's.
not_control :
    {deflate : Bool} {h : Header} {n : ℕ}
    → IsAllowed deflate h n
    → 126 ≤ n
    → is_control h.opcode ≡ false
not_control {h} a l = elim (Bool-cases (is_control h.opcode)) [
  | inl c ↦ absurd (omega (arith, a.short c))
  | inr c ↦ c
]

reads_length :
    (r : Role) (deflate : Bool) (h : Header) (n : ℕ) (buf : List ℕ)
    → IsAllowed deflate h n
    → n < 2 ^ 64
    → next_frame r (
        in_frame DecodeState.header2 deflate
          (context h 0 zero_key)
          (length_bytes (peer r) n ++ buf))
      ≡ next_frame r (in_frame (mask_or_payload r) deflate (context h n zero_key) buf)
unfolding length_bytes
reads_length r deflate h n buf a l = elim (Bool-cases (ltb n 126)) [
  | inl short ↦
      rw short (next_frame-continues r _ _ (reads_short r deflate h n buf a (ground arith)))
  | inr long ↦ elim (Bool-cases (ltb n 65536)) [
    | inl two ↦
        rw (long, two)
          (next_frame-continues r _ _ (
              reads_marker r deflate h 126 (u16_to_be_bytes n ++ buf) (not_control a (ground arith))
                (omega arith) (omega arith))
            ∙ next_frame-continues r _ _ (reads_u16 r deflate h n buf (ground arith)))
    | inr eight ↦
        rw (long, eight)
          (next_frame-continues r _ _ (
              reads_marker r deflate h 127 (u64_to_be_bytes n ++ buf) (not_control a (ground arith))
                (omega arith) (omega arith))
            ∙ next_frame-continues r _ _ (reads_u64 r deflate h n buf l))
  ]
]

-- The key that the receiver is left with.
abbrev key_seen : Role → MaskKey → MaskKey
key_seen Role.client key = zero_key
key_seen Role.server key = key

reads_body :
    (r : Role) (deflate : Bool) (h : Header) (n : ℕ) (key : MaskKey) (payload rest : List ℕ)
    → next_frame r (
        in_frame
          (mask_or_payload r)
          deflate
          (context h n zero_key)
          (body (peer r) key payload ++ rest))
      ≡ next_frame r (
          in_frame DecodeState.payload deflate
            (context h n (key_seen r key))
            (raw r (key_seen r key) payload ++ rest))
unfolding body
reads_body Role.client deflate h n key payload rest = refl
reads_body Role.server deflate h n key payload rest =
    next_frame-continues Role.server _ _ (reads_key deflate h n key _)

-- The decoder after a frame: it waits for the next one, with what stands behind the frame.
pub record IsReady (d : FrameDecoder) (deflate : Bool) (rest : List ℕ) : Type 0 where
  pub at_start : d.state ≡ DecodeState.header1
  pub buffered : d.buf ≡ rest
  pub setting : d.compressed ≡ deflate

-- A decoder that waits for a frame gives, from the bytes of a frame that the other end may send,
-- exactly that frame: header and unmasked payload. What stands behind the frame stays buffered.
pub next_frame-wire :
    (r : Role) (deflate : Bool) (h : Header) (key : MaskKey) (payload rest : List ℕ)
    (d : FrameDecoder)
    → IsReady d deflate (wire (peer r) h key payload ++ rest)
    → IsAllowed deflate h (length payload)
    → length payload ≤ max_frame_payload
    → (h.opcode ≡ Opcode.close → is_valid_close_payload payload ≡ true)
    → (d' : FrameDecoder) × (next_frame r d
        ≡ some (ok (some (FrameState.complete (decoded h payload))), d'))
      × IsReady d' deflate rest
unfolding wire
next_frame-wire r deflate h key payload rest d ready a l c = (
  in_frame DecodeState.header1 deflate (context h (length payload) (key_seen r key)) rest,
  ap (next_frame r) start
      ∙ next_frame-continues r _ _ (reads_first r deflate h (length payload) d.ctx _ a)
      ∙ ap (λ b. next_frame r (in_frame DecodeState.header2 deflate (context h 0 zero_key) b))
          (append_assoc (length_bytes (peer r) (length payload)) (body (peer r) key payload) rest)
      ∙ reads_length r deflate h (length payload) (body (peer r) key payload ++ rest) a
          (omega arith)
      ∙ reads_body r deflate h (length payload) key payload rest
      ∙ next_frame-returns r _ _ (reads_payload r deflate h (key_seen r key) payload rest l c),
  record { at_start = refl; buffered = refl; setting = refl },
)
  where
    start :
        d
        ≡ in_frame DecodeState.header1 deflate d.ctx (
            first_byte h
            ∷ ((length_bytes (peer r) (length payload) ++ body (peer r) key payload) ++ rest))
    start = λ i. record {
      buf = ready.buffered i;
      state = ready.at_start i;
      ctx = d.ctx;
      compressed = ready.setting i;
    }
