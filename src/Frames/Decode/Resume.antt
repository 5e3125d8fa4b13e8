-- ===== src/Frames/Decode/Resume.antt =====
-- Bytes that arrive later: what a round does is not changed by bytes behind those that it reads.
use wust_socket.Prelude.{
  ℕ, zero, suc, ◌<◌, ◌≡◌, ◌≢◌, refl, sym, ◌⊎◌, inl, inr, arith, Option, none, some, Result, ok, err,
  ap, ◌∙◌, List, Bool, true, false, length-append, take-append, drop-append,
}
use wust_socket.Role.{Role}
use wust_socket.Frames.Decode.Parse.{
  FrameDecoder, FrameState, FrameParseError, DecodedFrame, parse_header1, parse_header2,
  parse_extended_len, parse_payload,
}
use wust_socket.Frames.Decode.Progress.{
  Step-cases, next_frame-continues, next_frame-returns, step-rank, rank, rank-lt,
}
use wust_socket.Frames.Decode.{continues, returns, step, next_frame, push_bytes}

-- The results after which the caller reads more bytes and calls again.
abbrev pub is_wait : Result FrameParseError (Option FrameState) → Bool
is_wait (ok none) = true
is_wait (ok (some FrameState.incomplete)) = true
is_wait (ok (some (FrameState.complete f))) = false
is_wait (err e) = false

abbrev pub Poll : Type 0
Poll = Result FrameParseError (Option FrameState)

-- A round that has to wait has changed nothing.
pub step-wait :
    (r : Role) (d d' : FrameDecoder) (x : Result FrameParseError (Option FrameState))
    → step r d ≡ returns x d'
    → is_wait x ≡ true
    → d' ≡ d
unfolding step parse_header1 parse_header2 parse_extended_len parse_payload
step-wait r d d' x e w = ground arith

pub step-push_continues :
    (r : Role) (d d' : FrameDecoder) (bytes : List ℕ)
    → step r d ≡ continues d'
    → step r (push_bytes d bytes) ≡ continues (push_bytes d' bytes)
unfolding step parse_header1 parse_header2 parse_extended_len parse_payload push_bytes
step-push_continues r d d' bytes e = ground (
  arith,
  length-append d.buf bytes,
  take-append 2 d.buf bytes,
  take-append 4 d.buf bytes,
  take-append 8 d.buf bytes,
  drop-append 2 d.buf bytes,
  drop-append 4 d.buf bytes,
  drop-append 8 d.buf bytes,
  take-append d.ctx.payload_len d.buf bytes,
  drop-append d.ctx.payload_len d.buf bytes,
)

pub step-push_returns :
    (r : Role) (d d' : FrameDecoder) (bytes : List ℕ)
    (x : Result FrameParseError (Option FrameState))
    → step r d ≡ returns x d'
    → is_wait x ≡ false
    → x ≢ err FrameParseError.size_err
    → step r (push_bytes d bytes) ≡ returns x (push_bytes d' bytes)
unfolding step parse_header1 parse_header2 parse_extended_len parse_payload push_bytes
step-push_returns r d d' bytes x e w s = ground (
  arith,
  length-append d.buf bytes,
  take-append 8 d.buf bytes,
  drop-append 8 d.buf bytes,
  take-append d.ctx.payload_len d.buf bytes,
  drop-append d.ctx.payload_len d.buf bytes,
)

-- The limit on the payload empties the buffer, the limit of `usize` leaves it.
step-push_size_err :
    (r : Role) (d d' : FrameDecoder) (bytes : List ℕ)
    → step r d ≡ returns (err FrameParseError.size_err) d'
    → (step r (push_bytes d bytes) ≡ returns (err FrameParseError.size_err) d')
      ⊎ (step r (push_bytes d bytes) ≡ returns (err FrameParseError.size_err) (push_bytes d' bytes))
unfolding step parse_header1 parse_header2 parse_extended_len parse_payload push_bytes
step-push_size_err r d d' bytes e =
    ground (arith, length-append d.buf bytes, take-append 8 d.buf bytes, drop-append 8 d.buf bytes)

pub step-push_error :
    (r : Role) (d d' : FrameDecoder) (bytes : List ℕ) (x : FrameParseError)
    → step r d ≡ returns (err x) d'
    → (d'' : FrameDecoder) × (step r (push_bytes d bytes) ≡ returns (err x) d'')
step-push_error r d d' bytes FrameParseError.proto_error e =
    (push_bytes d' bytes, step-push_returns r d d' bytes _ e refl (λ h. cc))
step-push_error r d d' bytes FrameParseError.size_err e = elim (step-push_size_err r d d' bytes e) [
  | inl s ↦ (d', s)
  | inr s ↦ (push_bytes d' bytes, s)
]

-- The rounds of `next_frame` as an induction: a property of a call holds if the last round gives
-- it, and the rounds before carry it over.
pub next_frame_rounds {ℓ} :
    (r : Role) (P : FrameDecoder → Poll → FrameDecoder → Type ℓ)
    → ((d d' : FrameDecoder) (x : Poll) → step r d ≡ returns x d' → P d x d')
    → ((d d1 d' : FrameDecoder) (x : Poll) → step r d ≡ continues d1 → P d1 x d' → P d x d')
    → (rounds : ℕ) (d d' : FrameDecoder) (x : Poll) → rank d.state < rounds
    → next_frame r d ≡ some (x, d')
    → P d x d'
next_frame_rounds r P last before zero d d' x h e = absurd (omega arith)
next_frame_rounds r P last before (suc rounds) d d' x h e = elim (Step-cases (step r d)) [
  | inl (d1, s) ↦ before d d1 d' x s (
      next_frame_rounds r P last before rounds d1 d' x (omega (arith, step-rank r d d1 s))
        (sym (next_frame-continues r d d1 s) ∙ e))
  | inr (y, d1, s) ↦ last d d' x (cc (next_frame-returns r d d1 s))
]

-- A call that waits may as well have been made when the further bytes were there.
pub next_frame-push_wait :
    (r : Role) (d d' : FrameDecoder) (x : Poll) (bytes : List ℕ)
    → next_frame r d ≡ some (x, d')
    → is_wait x ≡ true
    → next_frame r (push_bytes d bytes) ≡ next_frame r (push_bytes d' bytes)
next_frame-push_wait r d d' x bytes e w =
    next_frame_rounds r
      (λ d x d'.
        is_wait x ≡ true → next_frame r (push_bytes d bytes) ≡ next_frame r (push_bytes d' bytes))
      (λ d d' x s w. ap (λ c. next_frame r (push_bytes c bytes)) (sym (step-wait r d d' x s w)))
      (λ d d1 d' x s ih w. next_frame-continues r _ _ (step-push_continues r d d1 bytes s) ∙ ih w) 5
      d d' x (rank-lt d.state) e w

-- A frame that is complete is the same with bytes behind it, and they stay in the buffer.
pub next_frame-push_complete :
    (r : Role) (d d' : FrameDecoder) (f : DecodedFrame) (bytes : List ℕ)
    → next_frame r d ≡ some (ok (some (FrameState.complete f)), d')
    → next_frame r (push_bytes d bytes)
      ≡ some (ok (some (FrameState.complete f)), push_bytes d' bytes)
next_frame-push_complete r d d' f bytes e =
    next_frame_rounds r
      (λ d x d'.
        x ≡ ok (some (FrameState.complete f))
        → next_frame r (push_bytes d bytes) ≡ some (x, push_bytes d' bytes))
      (λ d d' x s h. next_frame-returns r _ _ (step-push_returns r d d' bytes x s (rw h) (λ k. cc)))
      (λ d d1 d' x s ih h. next_frame-continues r _ _ (step-push_continues r d d1 bytes s) ∙ ih h) 5
      d d' _ (rank-lt d.state) e refl

-- An error is the same with bytes behind it.
pub next_frame-push_error :
    (r : Role) (d d' : FrameDecoder) (x : FrameParseError) (bytes : List ℕ)
    → next_frame r d ≡ some (err x, d')
    → (d'' : FrameDecoder) × (next_frame r (push_bytes d bytes) ≡ some (err x, d''))
next_frame-push_error r d d' x bytes e =
    next_frame_rounds r
      (λ d y d'.
        y ≡ err x → (d'' : FrameDecoder) × (next_frame r (push_bytes d bytes) ≡ some (err x, d'')))
      (λ d d' y s h.
        let (d'', t) = step-push_error r d d' bytes x (s ∙ ap (λ z. returns z d') h) in
        (d'', next_frame-returns r _ _ t))
      (λ d d1 d' y s ih h.
        let (d'', t) = ih h in
        (d'', next_frame-continues r _ _ (step-push_continues r d d1 bytes s) ∙ t))
      5 d d' _ (rank-lt d.state) e refl
