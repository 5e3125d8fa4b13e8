-- ===== src/Frames/Decode/Stream.antt =====
-- A decoder that is called until it has no frame left, and a connection whose bytes arrive in
-- several reads. The calls are those of the test `fuzz_decoder` and of the inner loop of the reader.
use wust_socket.Prelude.{
  ℕ, zero, suc, ◌+◌, ◌≤◌, ◌<◌, ◌≡◌, ◌≢◌, refl, sym, ◌⊎◌, inl, inr, arith, Option, none, some,
  Result, ok, err, ap, Option-cases, ◌∙◌, List, [], ◌∷◌, ◌++◌, Bool, true, false, length,
  length-drop, append_assoc, append-nil, if◌then◌else◌,
}
pub mod Reads
use native.Mathlib.Nat.{le_trans}
use wust_socket.Role.{Role}
use wust_socket.Frames.Decode.Parse.{
  FrameDecoder, DecodeState, FrameState, FrameParseError, DecodedFrame, parse_header1,
  parse_header2, parse_extended_len, parse_payload,
}
use wust_socket.Frames.Decode.{Step, continues, returns, step, next_frame, push_bytes}
use wust_socket.Frames.Decode.Progress.{next_frame_total, rank-lt}
use wust_socket.Frames.Decode.Resume.{
  Poll, is_wait, next_frame_rounds, next_frame-push_wait, next_frame-push_complete,
  next_frame-push_error,
}

abbrev pub frame_of : Poll → Option DecodedFrame
frame_of (ok (some (FrameState.complete f))) = some f
frame_of (ok (some FrameState.incomplete)) = none
frame_of (ok none) = none
frame_of (err e) = none

-- What the calls gave: the frames, the result that ended them, and the decoder.
pub record Drained : Type 0 where
  pub frames : List DecodedFrame
  pub last : Poll
  pub decoder : FrameDecoder

abbrev pub prepend : DecodedFrame → Drained → Drained
prepend f r = record r { frames = f ∷ r.frames }

abbrev pub prepend_first : DecodedFrame → Option Drained → Option Drained
prepend_first f none = none
prepend_first f (some rest) = some (prepend f rest)

-- `while let Ok(Some(state)) = fd.next_frame()`, until the state is `Incomplete`.
unfoldable pub drain_loop : Role → ℕ → FrameDecoder → Option Drained
drain_loop r zero d = none
drain_loop r (suc fuel) d = elim (next_frame r d) [
  | none ↦ none
  | some (x, d') ↦ elim (frame_of x) [
    | none ↦ some (record { frames = []; last = x; decoder = d' })
    | some f ↦ prepend_first f (drain_loop r fuel d')
  ]
]

-- Every frame takes two bytes, but for one whose header was read before.
unfoldable pub drain : Role → FrameDecoder → Option Drained
drain r d = drain_loop r (length d.buf + 2) d

-- What bounds the number of frames.
abbrev pub weight : FrameDecoder → ℕ
weight d = length d.buf + (elim d.state [ DecodeState.header1 ↦ 0 | _ ↦ 1 ])

step-weight : (r : Role) (d d' : FrameDecoder) → step r d ≡ continues d' → weight d' ≤ weight d
unfolding step parse_header1 parse_header2 parse_extended_len parse_payload
step-weight r d d' e = ground (arith, length-drop 2 d.buf, length-drop 4 d.buf, length-drop 8 d.buf)

step_complete-weight :
    (r : Role) (d d' : FrameDecoder) (x : Poll)
    → step r d ≡ returns x d'
    → frame_of x ≢ none
    → weight d' < weight d
unfolding step parse_header1 parse_header2 parse_extended_len parse_payload
step_complete-weight r d d' x e h = ground (arith, length-drop d.ctx.payload_len d.buf)

-- Handing out a frame makes the weight smaller.
pub next_frame-weight :
    (r : Role) (d d' : FrameDecoder) (x : Poll)
    → next_frame r d ≡ some (x, d')
    → frame_of x ≢ none
    → weight d' < weight d
next_frame-weight r d d' x e h =
    next_frame_rounds r (λ d x d'. frame_of x ≢ none → weight d' < weight d)
      (λ d d' x s h. step_complete-weight r d d' x s h)
      (λ d d1 d' x s ih h. le_trans (ih h) (step-weight r d d1 s)) 5 d d' x (rank-lt d.state) e h

-- The first call gives a frame, or the last result.
pub drain_loop_cases {ℓ} :
    (r : Role) (P : FrameDecoder → Type ℓ)
    → ((d d' : FrameDecoder) (x : Poll) → next_frame r d ≡ some (x, d') → frame_of x ≡ none → P d)
    → ((d d' : FrameDecoder) (x : Poll) (f : DecodedFrame)
        → next_frame r d ≡ some (x, d')
        → frame_of x ≡ some f
        → P d'
        → P d)
    → (fuel : ℕ) (d : FrameDecoder) → weight d < fuel
    → P d
drain_loop_cases r P last more zero d h = absurd (omega arith)
drain_loop_cases r P last more (suc fuel) d h =
    let ((x, d'), e) = next_frame_total r d in
    elim (Option-cases (frame_of x)) [
      | inl n ↦ last d d' x e n
      | inr (f, s) ↦ more d d' x f e s (
          drain_loop_cases r P last more fuel d'
            (omega (arith, next_frame-weight r d d' x e (λ k. cc))))
    ]

-- Past the weight, the fuel does not matter.
drain_loop_fuel :
    (r : Role) (n m : ℕ) (d : FrameDecoder)
    → weight d < n
    → weight d < m
    → drain_loop r n d ≡ drain_loop r m d
unfolding drain_loop
drain_loop_fuel r zero m d h k = absurd (omega arith)
drain_loop_fuel r (suc n) zero d h k = absurd (omega arith)
drain_loop_fuel r (suc n) (suc m) d h k =
    let ((x, d'), e) = next_frame_total r d in
    elim (Option-cases (frame_of x)) [
      | inl last ↦ rw (e, drain_loop, last)
      | inr (f, s) ↦
          let less = next_frame-weight r d d' x e (λ k. cc) in
          rw (e, drain_loop, s)
            (ap (prepend_first f) (drain_loop_fuel r n m d' (omega arith) (omega arith)))
    ]

pub weight-lt : (d : FrameDecoder) → weight d < length d.buf + 2
weight-lt d = ground arith

pub drain-last :
    (r : Role) (d d' : FrameDecoder) (x : Poll)
    → next_frame r d ≡ some (x, d')
    → frame_of x ≡ none
    → drain r d ≡ some (record { frames = []; last = x; decoder = d' })
unfolding drain
drain-last r d d' x e n =
    drain_loop_fuel r _ (suc (length d.buf + 2)) d (weight-lt d) (omega (arith, weight-lt d))
    ∙ unfold drain_loop in rw (e, drain_loop, n)

pub drain-frame :
    (r : Role) (d d' : FrameDecoder) (x : Poll) (f : DecodedFrame)
    → next_frame r d ≡ some (x, d')
    → frame_of x ≡ some f
    → drain r d ≡ prepend_first f (drain r d')
unfolding drain
drain-frame r d d' x f e s =
    drain_loop_fuel r _ (suc (length d.buf + 2)) d (weight-lt d) (omega (arith, weight-lt d))
    ∙ unfold drain_loop in
      rw (e, drain_loop, s)
        (ap (prepend_first f) (
          drain_loop_fuel r _ _ d'
            (omega (arith, weight-lt d, next_frame-weight r d d' x e (λ k. cc))) (weight-lt d')))
