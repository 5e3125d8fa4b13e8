-- ===== src/Frames/Decode/Progress.antt =====
-- The loop of `next_frame` ends: the states are passed in one order, so five rounds are enough.
use wust_socket.Prelude.{ℕ, zero, suc, ◌<◌, ◌≡◌, refl, ◌⊎◌, inl, inr, arith, Option, some, Result}
use wust_socket.Role.{Role}
use wust_socket.Frames.Decode.Parse.{
  FrameDecoder, DecodeState, FrameState, FrameParseError, parse_header1, parse_header2,
  parse_extended_len, parse_payload,
}
use wust_socket.Frames.Decode.{Step, continues, returns, step, loop, next_frame}

-- The rounds that are left after this state.
abbrev pub rank : DecodeState → ℕ
rank DecodeState.header1 = 4
rank DecodeState.header2 = 3
rank DecodeState.extended_len = 2
rank DecodeState.mask = 1
rank DecodeState.payload = 0

pub Step-cases :
    (s : Step)
    → ((d : FrameDecoder) × (s ≡ continues d))
      ⊎ ((x : Result FrameParseError (Option FrameState)) × (d : FrameDecoder) × (s ≡ returns x d))
Step-cases (continues d) = inl (d, refl)
Step-cases (returns x d) = inr (x, d, refl)

pub step-rank :
    (r : Role) (d d' : FrameDecoder) → step r d ≡ continues d' → rank d'.state < rank d.state
unfolding step parse_header1 parse_header2 parse_extended_len parse_payload
step-rank r d d' e = ground arith

pub loop_total :
    (r : Role) (rounds : ℕ) (d : FrameDecoder)
    → rank d.state < rounds
    → (x : Result FrameParseError (Option FrameState) × FrameDecoder) × (loop r rounds d ≡ some x)
unfolding loop
loop_total r zero d h = absurd (omega arith)
loop_total r (suc rounds) d h = elim (Step-cases (step r d)) [
  | inl (d', e) ↦ rw (e, loop) (loop_total r rounds d' (omega (arith, step-rank r d d' e)))
  | inr (x, d', e) ↦ ((x, d'), rw (e, loop))
]

-- Past the rank of the state, the number of rounds does not matter.
pub loop_rounds :
    (r : Role) (n m : ℕ) (d : FrameDecoder)
    → rank d.state < n
    → rank d.state < m
    → loop r n d ≡ loop r m d
unfolding loop
loop_rounds r zero m d h k = absurd (omega arith)
loop_rounds r (suc n) zero d h k = absurd (omega arith)
loop_rounds r (suc n) (suc m) d h k = elim (Step-cases (step r d)) [
  | inl (d', e) ↦
      rw (e, loop)
        (loop_rounds r n m d' (omega (arith, step-rank r d d' e))
          (omega (arith, step-rank r d d' e)))
  | inr (x, d', e) ↦ rw (e, loop)
]

pub rank-lt : (s : DecodeState) → rank s < 5
rank-lt s = ground arith

-- `next_frame` always returns: its loop takes at most five rounds.
pub next_frame_total :
    (r : Role) (d : FrameDecoder)
    → (x : Result FrameParseError (Option FrameState) × FrameDecoder) × (next_frame r d ≡ some x)
unfolding next_frame
next_frame_total r d = loop_total r 5 d (rank-lt d.state)

-- One round of the loop, seen from `next_frame`.
pub next_frame-continues :
    (r : Role) (d d' : FrameDecoder) → step r d ≡ continues d' → next_frame r d ≡ next_frame r d'
unfolding next_frame loop
next_frame-continues r d d' e = ground (
  arith,
  loop_rounds r 4 5 d' (omega (arith, step-rank r d d' e, rank-lt d.state)) (rank-lt d'.state),
)

pub next_frame-returns :
    (r : Role) (d d' : FrameDecoder) {x : Result FrameParseError (Option FrameState)}
    → step r d ≡ returns x d'
    → next_frame r d ≡ some (x, d')
unfolding next_frame loop
next_frame-returns r d d' e = ground arith
