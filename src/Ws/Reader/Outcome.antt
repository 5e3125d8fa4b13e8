-- ===== src/Ws/Reader/Outcome.antt =====
-- The loop over the frames of a read, as a run of the handlers over what the decoder gives.
use wust_socket.Prelude.{
  ℕ, zero, suc, ◌+◌, ◌<◌, ◌≡◌, refl, sym, ap, ◌∙◌, arith, ◌++◌, Option, none, some, Bool, true,
  length, ok, err, append_assoc, append-nil,
}
use mathlib.Core.Path.{subst}
use wust_socket.Channel.{Inflater}
use wust_socket.Role.{Role}
use wust_socket.Protocol.Mask.{MaskKey}
use wust_socket.Frames.Decode.Parse.{FrameDecoder, DecodedFrame, FrameState}
use wust_socket.Frames.Decode.{next_frame}
use wust_socket.Frames.Decode.Progress.{next_frame_total}
use wust_socket.Frames.Decode.Resume.{Poll, is_wait}
use wust_socket.Frames.Decode.Stream.{
  Drained, drain, weight, next_frame-weight, drain-last, drain-frame, prepend, prepend_first,
  frame_of,
}
use wust_socket.Frames.Decode.Stream.Reads.{drain_total}
use wust_socket.Ws.FrameHandler.{Flow, Conn, Handled, handle_frame}
use wust_socket.Ws.FrameHandler.Assembly.{handle_frames, and_then-goes_on}
use wust_socket.Ws.Reader.{Reader, Ended, frame_loop, handled, on_error}

module _ (z : Inflater) (r : Role) (use_context : Bool) (keys : ℕ → MaskKey) where
  -- How the loop ends, by the last result of the decoder.
  abbrev pub conclude : Poll → Reader z r use_context keys → Ended z r use_context keys
  conclude (err e) s = on_error z r use_context keys e s
  conclude (ok x) s = Ended.breaks s

  pub conclude-waits :
      (x : Poll) (s : Reader z r use_context keys)
      → is_wait x ≡ true
      → conclude x s ≡ Ended.breaks s
  conclude-waits (err e) s h = cc
  conclude-waits (ok x) s h = refl

  -- The loop has handled what the decoder gave, `y`, and nothing else.
  pub record Outcome (now : ℕ) (s : Reader z r use_context keys) (y : Drained)
      (x : Option (Ended z r use_context keys)) : Type 0 where
    pub reader : Reader z r use_context keys
    pub result : x ≡ some (conclude y.last reader)
    pub decoder : reader.decoder ≡ y.decoder
    pub last_seen : reader.last_seen ≡ s.last_seen
    pub draws : reader.draws ≡ s.draws + length y.frames
    pub conn : reader.conn ≡ (handle_frames z r keys now use_context s.draws y.frames s.conn).conn
    pub actions :
        reader.actions
        ≡ s.actions ++ (handle_frames z r keys now use_context s.draws y.frames s.conn).actions

  pub some_inj : {y w : Drained} → some y ≡ some w → y ≡ w
  some_inj e = cc

  abbrev Goes : ℕ → Reader z r use_context keys → Drained → Type 0
  Goes now s y =
      (handle_frames z r keys now use_context s.draws y.frames s.conn).flow ≡ Flow.goes_on

  after_frame :
      (fuel now : ℕ)
      → ((s : Reader z r use_context keys) (y : Drained)
          → weight s.decoder < fuel
          → drain r s.decoder ≡ some y
          → Goes now s y
          → Outcome now s y (frame_loop z r use_context keys fuel now s))
      → (s : Reader z r use_context keys) (f : DecodedFrame) (d : FrameDecoder) (y : Drained)
      → weight s.decoder < suc fuel
      → next_frame r s.decoder ≡ some (ok (some (FrameState.complete f)), d)
      → drain r d ≡ some y
      → Goes now s (prepend f y)
      → Outcome now s (prepend f y) (frame_loop z r use_context keys (suc fuel) now s)
  unfolding frame_loop handle_frames
  after_frame fuel now ih s f d y h e t g =
      let h1 = handle_frame z r (keys s.draws) now use_context f s.conn in
      let rest : Conn z → Handled z =
        λ c. handle_frames z r keys now use_context (s.draws + 1) y.frames c in
      let (goes, later, both) = and_then-goes_on z r keys now use_context h1 rest g in
      let s1 = handled z r use_context keys (record s { decoder = d }) h1 in
      let o = ih s1 y (omega (arith, next_frame-weight r s.decoder d _ e (λ k. cc))) t later in
      let goes_on : frame_loop z r use_context keys (suc fuel) now s
          ≡ frame_loop z r use_context keys fuel now s1 =
        rw (e, frame_loop, goes) refl in
      record {
        reader = o.reader;
        result = goes_on ∙ o.result;
        decoder = o.decoder;
        last_seen = o.last_seen;
        draws = omega (arith, o.draws);
        conn = o.conn ∙ sym (ap (λ x. x.conn) both);
        actions =
            o.actions
            ∙ append_assoc s.actions h1.actions (rest h1.conn).actions
            ∙ sym (ap (λ x. s.actions ++ x.actions) both);
      }

  -- The decoder gives no frame.
  ends :
      (fuel now : ℕ) (s : Reader z r use_context keys) (x : Poll) (d : FrameDecoder) (y : Drained)
      → frame_of x ≡ none
      → next_frame r s.decoder ≡ some (x, d)
      → drain r s.decoder ≡ some y
      → frame_loop z r use_context keys (suc fuel) now s
        ≡ some (conclude x (record s { decoder = d }))
      → Outcome now s y (frame_loop z r use_context keys (suc fuel) now s)
  unfolding handle_frames
  ends fuel now s x d y no_frame e t result =
      let q = some_inj (sym (drain-last r s.decoder d x e no_frame) ∙ t) in
      subst (λ y. Outcome now s y (frame_loop z r use_context keys (suc fuel) now s)) q
        (record {
          reader = record s { decoder = d };
          result = result;
          decoder = refl;
          last_seen = refl;
          draws = omega arith;
          conn = refl;
          actions = sym (append-nil s.actions);
        })

  round :
      (fuel now : ℕ)
      → ((s : Reader z r use_context keys) (y : Drained)
          → weight s.decoder < fuel
          → drain r s.decoder ≡ some y
          → Goes now s y
          → Outcome now s y (frame_loop z r use_context keys fuel now s))
      → (s : Reader z r use_context keys) (x : Poll) (d : FrameDecoder) (y : Drained)
      → weight s.decoder < suc fuel
      → next_frame r s.decoder ≡ some (x, d)
      → drain r s.decoder ≡ some y
      → Goes now s y
      → Outcome now s y (frame_loop z r use_context keys (suc fuel) now s)
  unfolding frame_loop handle_frames
  round fuel now ih s (err k) d y h e t g =
      ends fuel now s (err k) d y refl e t (rw (e, frame_loop) refl)
  round fuel now ih s (ok (some FrameState.incomplete)) d y h e t g =
      ends fuel now s (ok (some FrameState.incomplete)) d y refl e t (rw (e, frame_loop) refl)
  round fuel now ih s (ok none) d y h e t g =
      ends fuel now s (ok none) d y refl e t (rw (e, frame_loop) refl)
  round fuel now ih s (ok (some (FrameState.complete f))) d y h e t g =
      let (y1, t1) = drain_total r d in
      let q : prepend f y1 ≡ y =
        some_inj (ap (prepend_first f) (sym t1) ∙ sym (drain-frame r s.decoder d _ f e refl) ∙ t) in
      subst (λ y. Outcome now s y (frame_loop z r use_context keys (suc fuel) now s)) q
        (after_frame fuel now ih s f d y1 h e t1
          (ap (λ y. (handle_frames z r keys now use_context s.draws y.frames s.conn).flow) q ∙ g))

  pub frame_loop-Outcome :
      (fuel now : ℕ) (s : Reader z r use_context keys) (y : Drained)
      → weight s.decoder < fuel
      → drain r s.decoder ≡ some y
      → Goes now s y
      → Outcome now s y (frame_loop z r use_context keys fuel now s)
  frame_loop-Outcome zero now s y h t g = absurd (omega arith)
  frame_loop-Outcome (suc fuel) now s y h t g =
      let ((x, d), e) = next_frame_total r s.decoder in
      round fuel now (frame_loop-Outcome fuel now) s x d y h e t g
