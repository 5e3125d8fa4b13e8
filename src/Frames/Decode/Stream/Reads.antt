-- ===== src/Frames/Decode/Stream/Reads.antt =====
-- The bytes of a connection in several reads, as TCP delivers them: what the decoder gives does not
-- depend on where the reads were cut.
use wust_socket.Prelude.{
  ℕ, suc, ◌≡◌, refl, sym, ◌⊎◌, inl, inr, arith, Option, none, some, ok, err, ap, Option-cases, ◌∙◌,
  List, [], ◌∷◌, ◌++◌, true, false, append_assoc, append-nil,
}
use wust_socket.Role.{Role}
use wust_socket.Frames.Decode.Parse.{FrameDecoder, FrameState, FrameParseError, DecodedFrame}
use wust_socket.Frames.Decode.{next_frame, push_bytes}
use wust_socket.Frames.Decode.Progress.{next_frame_total}
use wust_socket.Frames.Decode.Resume.{
  Poll, is_wait, next_frame-push_wait, next_frame-push_complete, next_frame-push_error,
}
use wust_socket.Frames.Decode.Stream.{
  Drained, drain, prepend, prepend_first, frame_of, drain-last, drain-frame, drain_loop_cases,
  weight,
}

abbrev pub prepend_all : List DecodedFrame → Drained → Drained
prepend_all fs r = record r { frames = fs ++ r.frames }

-- A connection that reads `bytes` and then each of `reads`, and calls the decoder after each
-- read until it has no more frames. It ends at the first error.
unfoldable pub feed : Role → FrameDecoder → List ℕ → List (List ℕ) → Option Drained
feed r d bytes [] = drain r (push_bytes d bytes)
feed r d bytes (next ∷ reads) = elim (drain r (push_bytes d bytes)) [
  | none ↦ none
  | some now ↦ elim (is_wait now.last) [
    | false ↦ some now
    | true ↦ elim (feed r now.decoder next reads) [
      | none ↦ none
      | some later ↦ some (prepend_all now.frames later)
    ]
  ]
]

abbrev pub concat : List (List ℕ) → List ℕ
concat [] = []
concat (bytes ∷ reads) = bytes ++ concat reads

-- Two ways to decode agree: the same frames, the same end, and where the end waits for more bytes
-- the same decoder.
pub record Agree (r s : Drained) : Type 0 where
  pub same_frames : r.frames ≡ s.frames
  pub same_last : r.last ≡ s.last
  pub same_decoder : is_wait r.last ≡ true → r.decoder ≡ s.decoder

frame_of-eq_some :
    (x : Poll) (f : DecodedFrame) → frame_of x ≡ some f → x ≡ ok (some (FrameState.complete f))
frame_of-eq_some (ok none) f h = cc
frame_of-eq_some (ok (some FrameState.incomplete)) f h = cc
frame_of-eq_some (ok (some (FrameState.complete g))) f h = cc
frame_of-eq_some (err e) f h = cc

-- The first call decides how the calls go on.
drain-same :
    (r : Role) (d d' : FrameDecoder) → next_frame r d ≡ next_frame r d' → drain r d ≡ drain r d'
drain-same r d d' e =
    let ((x, d1), t) = next_frame_total r d' in
    elim (Option-cases (frame_of x)) [
      | inl n ↦ drain-last r d d1 x (e ∙ t) n ∙ sym (drain-last r d' d1 x t n)
      | inr (f, s) ↦ drain-frame r d d1 x f (e ∙ t) s ∙ sym (drain-frame r d' d1 x f t s)
    ]

-- What is behind the bytes that a run of calls has used up.
record Extends (r : Role) (d : FrameDecoder) (bytes : List ℕ) : Type 0 where
  result : Drained
  drains : drain r d ≡ some result
  no_frame : frame_of result.last ≡ none
  waits :
      is_wait result.last ≡ true
      → (y : Drained) → drain r (push_bytes result.decoder bytes) ≡ some y
      → drain r (push_bytes d bytes) ≡ some (prepend_all result.frames y)
  fails :
      (e : FrameParseError)
      → result.last ≡ err e
      → (y : Drained) × (drain r (push_bytes d bytes) ≡ some y)
        × (y.frames ≡ result.frames)
        × (y.last ≡ err e)

Extends-last :
    (r : Role) (bytes : List ℕ) (d d' : FrameDecoder) (x : Poll)
    → next_frame r d ≡ some (x, d')
    → frame_of x ≡ none
    → Extends r d bytes
Extends-last r bytes d d' x e n = record {
  result = record { frames = []; last = x; decoder = d' };
  drains = drain-last r d d' x e n;
  no_frame = n;
  waits = λ w y u. drain-same r _ _ (next_frame-push_wait r d d' x bytes e w) ∙ u;
  fails = λ k h.
      let (d2, t) = next_frame-push_error r d d' k bytes (e ∙ ap (λ z. some (z, d')) h) in
      (
        record { frames = []; last = err k; decoder = d2 },
        drain-last r _ d2 (err k) t refl,
        refl,
        refl,
      );
}

Extends-frame :
    (r : Role) (bytes : List ℕ) (d d' : FrameDecoder) (x : Poll) (f : DecodedFrame)
    → next_frame r d ≡ some (x, d')
    → frame_of x ≡ some f
    → Extends r d' bytes
    → Extends r d bytes
Extends-frame r bytes d d' x f e s rest = record {
  result = prepend f rest.result;
  drains = drain-frame r d d' x f e s ∙ ap (prepend_first f) rest.drains;
  no_frame = rest.no_frame;
  waits = λ w y u. behind ∙ ap (prepend_first f) (rest.waits w y u);
  fails = λ k h.
      let (y, u, p, q) = rest.fails k h in
      (prepend f y, behind ∙ ap (prepend_first f) u, ap (◌∷◌ f) p, q);
}
  where
    frame : x ≡ ok (some (FrameState.complete f))
    frame = frame_of-eq_some x f s

    behind : drain r (push_bytes d bytes) ≡ prepend_first f (drain r (push_bytes d' bytes))
    behind =
        drain-frame r _ _ _ f
          (next_frame-push_complete r d d' f bytes (e ∙ ap (λ z. some (z, d')) frame)) refl

drain-Extends : (r : Role) (d : FrameDecoder) (bytes : List ℕ) → Extends r d bytes
drain-Extends r d bytes =
    drain_loop_cases r (λ d. Extends r d bytes) (Extends-last r bytes) (Extends-frame r bytes)
      (suc (weight d)) d (omega arith)

-- Calling the decoder until it has no frame left always ends.
pub drain_total : (r : Role) (d : FrameDecoder) → (x : Drained) × (drain r d ≡ some x)
drain_total r d = let x = drain-Extends r d [] in (x.result, x.drains)

last_cases :
    (x : Poll) → frame_of x ≡ none → (is_wait x ≡ true) ⊎ ((e : FrameParseError) × (x ≡ err e))
last_cases (ok none) h = inl refl
last_cases (ok (some FrameState.incomplete)) h = inl refl
last_cases (ok (some (FrameState.complete f))) h = cc
last_cases (err e) h = inr (e, refl)

some_inj : {x y : Drained} → some x ≡ some y → x ≡ y
some_inj e = cc

-- Bytes behind those that a run of calls has used up: the calls go on from where the run has ended,
pub drain-push_wait :
    (r : Role) (d : FrameDecoder) (bytes : List ℕ) (x y : Drained)
    → drain r d ≡ some x
    → is_wait x.last ≡ true
    → drain r (push_bytes x.decoder bytes) ≡ some y
    → drain r (push_bytes d bytes) ≡ some (prepend_all x.frames y)
drain-push_wait r d bytes x y e w u =
    let v = drain-Extends r d bytes in
    let same : x ≡ v.result = some_inj (sym e ∙ v.drains) in
    v.waits (ap (λ x. is_wait x.last) (sym same) ∙ w) y
      (ap (λ x. drain r (push_bytes x.decoder bytes)) (sym same) ∙ u)
    ∙ ap (λ x. some (prepend_all x.frames y)) (sym same)

-- and a run that does not wait for more bytes does not end otherwise with them.
pub drain-push_stops :
    (r : Role) (d : FrameDecoder) (bytes : List ℕ) (x y : Drained)
    → drain r d ≡ some x
    → drain r (push_bytes d bytes) ≡ some y
    → is_wait y.last ≡ true
    → is_wait x.last ≡ true
drain-push_stops r d bytes x y e u w =
    let v = drain-Extends r d bytes in
    let same : x ≡ v.result = some_inj (sym e ∙ v.drains) in
    elim (last_cases v.result.last v.no_frame) [
      | inl h ↦ ap (λ x. is_wait x.last) same ∙ h
      | inr (k, h) ↦
          let (y', u', _, q) = v.fails k h in
          let other : err k ≡ y.last = sym q ∙ ap (λ y. y.last) (some_inj (sym u' ∙ u)) in
          let bad : false ≡ true = ap is_wait other ∙ w in cc
    ]

pub push_bytes-append :
    (d : FrameDecoder) (xs ys : List ℕ) → push_bytes (push_bytes d xs) ys ≡ push_bytes d (xs ++ ys)
unfolding push_bytes
push_bytes-append d xs ys = ap (λ b. record d { buf = b }) (append_assoc d.buf xs ys)

-- However the bytes of a connection are cut into reads, the reads end as one read of all the bytes
-- does: with the same frames in the same order, the same error or request for more bytes, and, if
-- there was no error, the same decoder.
pub feed-Agree :
    (r : Role) (d : FrameDecoder) (bytes : List ℕ) (reads : List (List ℕ))
    → (x y : Drained) × (feed r d bytes reads ≡ some x)
      × (drain r (push_bytes d (bytes ++ concat reads)) ≡ some y)
      × Agree x y
unfolding feed
feed-Agree r d bytes [] =
    let (x, e) = drain_total r (push_bytes d bytes) in
    (
      x,
      x,
      e,
      ap (λ b. drain r (push_bytes d b)) (append-nil bytes) ∙ e,
      record { same_frames = refl; same_last = refl; same_decoder = λ w. refl },
    )
feed-Agree r d bytes (next ∷ reads) =
    let now = drain-Extends r (push_bytes d bytes) (next ++ concat reads) in
    let whole = push_bytes-append d bytes (next ++ concat reads) in
    elim (last_cases now.result.last now.no_frame) [
      | inl w ↦
          let (x, y, e, u, a) = feed-Agree r now.result.decoder next reads in
          (
            prepend_all now.result.frames x,
            prepend_all now.result.frames y,
            rw (now.drains, feed, w, e),
            rw (← whole) (now.waits w y u),
            record {
              same_frames = ap (λ fs. now.result.frames ++ fs) a.same_frames;
              same_last = a.same_last;
              same_decoder = a.same_decoder;
            },
          )
      | inr (k, h) ↦
          let (y, u, p, q) = now.fails k h in
          (
            now.result,
            y,
            rw (now.drains, feed, h),
            rw (← whole) u,
            record { same_frames = sym p; same_last = h ∙ sym q; same_decoder = λ w. cc },
          )
    ]
