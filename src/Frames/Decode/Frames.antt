-- ===== src/Frames/Decode/Frames.antt =====
-- What a decoded frame is known to be, from any input: the invariant of the decoder behind it.
use wust_socket.Prelude.{
  ℕ, ◌≤◌, ◌≡◌, refl, ap, ◌∙◌, arith, some, ok, List, length, Bool, true, false, length-take, take,
}
use wust_socket.Role.{Role}
use wust_socket.Protocol.Mask.{length-mask}
use wust_socket.Frames.Limits.{max_frame_payload}
use wust_socket.Frames.Opcode.{Opcode, is_control}
use wust_socket.Frames.Decode.Parse.{
  FrameDecoder, DecodeState, DecodeContext, DecodedFrame, FrameState, is_valid_close_payload,
  parse_header1, parse_header2, parse_extended_len, parse_payload, pop_n,
}
use wust_socket.Frames.Decode.{continues, returns, step, next_frame, new, push_bytes}
use wust_socket.Frames.Decode.Progress.{rank-lt}
use wust_socket.Frames.Decode.Resume.{Poll, next_frame_rounds}

-- The header of a control frame has been checked: whole, uncompressed, at most 125 bytes.
abbrev pub IsChecked : DecodeContext → Type 0
IsChecked c =
    is_control c.opcode ≡ true → (c.is_fin ≡ true) × (c.compressed ≡ false) × (c.payload_len ≤ 125)

-- What the context holds in each state.
abbrev pub Holds : DecodeState → DecodeContext → Type 0
Holds DecodeState.header1 c = Unit {0}
Holds DecodeState.header2 c = Unit {0}
Holds DecodeState.extended_len c = is_control c.opcode ≡ false
Holds DecodeState.mask c = IsChecked c
Holds DecodeState.payload c = IsChecked c

pub record IsSound (d : FrameDecoder) : Type 0 where
  pub holds : Holds d.state d.ctx

-- A frame that may be handled.
pub record IsWellFormed (f : DecodedFrame) : Type 0 where
  pub bounded : length f.payload ≤ max_frame_payload
  pub whole : is_control f.opcode ≡ true → f.is_fin ≡ true
  pub plain : is_control f.opcode ≡ true → f.compressed ≡ false
  pub short : is_control f.opcode ≡ true → length f.payload ≤ 125
  pub valid_close : f.opcode ≡ Opcode.close → is_valid_close_payload f.payload ≡ true

pub new-IsSound : (compressed : Bool) → IsSound (new compressed)
unfolding new
new-IsSound compressed = record { holds = tt }

pub push_bytes-IsSound :
    {d : FrameDecoder} (bytes : List ℕ) → IsSound d → IsSound (push_bytes d bytes)
unfolding push_bytes
push_bytes-IsSound bytes v = record { holds = v.holds }

step_continues-Holds :
    (r : Role) (s : DecodeState) (d d' : FrameDecoder)
    → d.state ≡ s
    → step r d ≡ continues d'
    → Holds d.state d.ctx
    → Holds d'.state d'.ctx
unfolding step parse_header1 parse_header2 parse_extended_len parse_payload pop_n
step_continues-Holds r DecodeState.header1 d d' q e v = ground arith
step_continues-Holds r DecodeState.header2 d d' q e v = ground arith
step_continues-Holds r DecodeState.extended_len d d' q e v = ground arith
step_continues-Holds r DecodeState.mask d d' q e v = ground arith
step_continues-Holds r DecodeState.payload d d' q e v = ground arith

step_returns-Holds :
    (r : Role) (s : DecodeState) (d d' : FrameDecoder) (x : Poll)
    → d.state ≡ s
    → step r d ≡ returns x d'
    → Holds d.state d.ctx
    → Holds d'.state d'.ctx
unfolding step parse_header1 parse_header2 parse_extended_len parse_payload pop_n
step_returns-Holds r DecodeState.header1 d d' x q e v = ground arith
step_returns-Holds r DecodeState.header2 d d' x q e v = ground arith
step_returns-Holds r DecodeState.extended_len d d' x q e v = ground arith
step_returns-Holds r DecodeState.mask d d' x q e v = ground arith
step_returns-Holds r DecodeState.payload d d' x q e v = ground arith

-- A frame is handed out in the state `payload` only.
step-IsWellFormed :
    (r : Role) (s : DecodeState) (d d' : FrameDecoder) (f : DecodedFrame)
    → d.state ≡ s
    → step r d ≡ returns (ok (some (FrameState.complete f))) d'
    → Holds d.state d.ctx
    → IsWellFormed f
unfolding step parse_header1 parse_header2 parse_extended_len parse_payload pop_n
step-IsWellFormed r DecodeState.header1 d d' f q e v = absurd (ground arith)
step-IsWellFormed r DecodeState.header2 d d' f q e v = absurd (ground arith)
step-IsWellFormed r DecodeState.extended_len d d' f q e v = absurd (ground arith)
step-IsWellFormed r DecodeState.mask d d' f q e v = absurd (ground arith)
step-IsWellFormed r DecodeState.payload d d' f q e v =
    let n = d.ctx.payload_len in
    let size = length-take n d.buf in
    let masked = length-mask (take n d.buf) d.ctx.mask_key in
    record {
      bounded = ground (arith, size, masked);
      whole = ground arith;
      plain = ground arith;
      short = ground (arith, size, masked);
      valid_close = ground arith;
    }

-- Every call of the decoder keeps its invariant, whatever bytes it is given.
pub next_frame-IsSound :
    (r : Role) (d d' : FrameDecoder) (x : Poll)
    → IsSound d
    → next_frame r d ≡ some (x, d')
    → IsSound d'
next_frame-IsSound r d d' x v e =
    next_frame_rounds r (λ d x d'. IsSound d → IsSound d')
      (λ d d' x s v. record { holds = step_returns-Holds r d.state d d' x refl s v.holds })
      (λ d d1 d' x s ih v.
        ih (record { holds = step_continues-Holds r d.state d d1 refl s v.holds }))
      5 d d' x (rank-lt d.state) e v

-- Every frame that the decoder hands out is at most `MAX_FRAME_PAYLOAD` long; a control frame is
-- whole, uncompressed and at most 125 bytes long; a close frame has a valid payload.
pub next_frame-IsWellFormed :
    (r : Role) (d d' : FrameDecoder) (f : DecodedFrame)
    → IsSound d
    → next_frame r d ≡ some (ok (some (FrameState.complete f)), d')
    → IsWellFormed f
next_frame-IsWellFormed r d d' f v e =
    next_frame_rounds r
      (λ d x d'. x ≡ ok (some (FrameState.complete f)) → IsSound d → IsWellFormed f)
      (λ d d' x s h v.
        step-IsWellFormed r d.state d d' f refl (s ∙ ap (λ z. returns z d') h) v.holds)
      (λ d d1 d' x s ih h v.
        ih h (record { holds = step_continues-Holds r d.state d d1 refl s v.holds }))
      5 d d' _ (rank-lt d.state) e refl v
