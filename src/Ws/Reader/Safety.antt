-- ===== src/Ws/Reader/Safety.antt =====
-- The reader task never runs out of fuel and never dies of a panic, and how it ends.
use wust_socket.Prelude.{
  ℕ, zero, suc, ◌<◌, ◌≡◌, ◌≢◌, ◌⊎◌, inl, inr, refl, arith, List, [], ◌∷◌, ◌++◌, Option, none, some,
  Bool, true, ok, err, All, All-append,
}
use wust_socket.Channel.{Inflater}
use wust_socket.Role.{Role}
use wust_socket.Error.{CloseReason}
use wust_socket.Protocol.Mask.{MaskKey}
use wust_socket.Frames.Control.Close.{close-wire}
use wust_socket.Frames.Decode.Parse.{FrameDecoder, FrameState, FrameParseError}
use wust_socket.Frames.Decode.{next_frame, push_bytes}
use wust_socket.Frames.Decode.Progress.{next_frame_total}
use wust_socket.Frames.Decode.Resume.{Poll}
use wust_socket.Frames.Decode.Stream.{weight, weight-lt, next_frame-weight}
use wust_socket.Frames.Decode.Frames.{
  IsSound, next_frame-IsSound, next_frame-IsWellFormed, push_bytes-IsSound,
}
use wust_socket.Ws.Event.{Event}
use wust_socket.Ws.FrameHandler.{Action, Flow, handle_frame}
use wust_socket.Ws.FrameHandler.Kept.{Fits, IsProper, handle_frame-IsKept}
use wust_socket.Ws.FrameHandler.Safety.{handle_frame-never_panics}
use wust_socket.Ws.Reader.{
  Read, Reader, Ended, frame_loop, on_bytes, reader_loop, on_error, violation, handled, fuel_for,
  finish_reading,
}

module _ (z : Inflater) (r : Role) (use_context : Bool) (keys : ℕ → MaskKey) where
  -- What the task keeps: a sound decoder, a message in progress within the limit, and text in
  -- valid UTF-8 among its actions.
  pub record IsGood (s : Reader z r use_context keys) : Type 0 where
    pub sound : IsSound s.decoder
    pub fits : Fits s.conn.partial_msg
    pub proper : All IsProper s.actions

  -- The loop breaks, in a good state.
  pub record Breaks (x : Option (Ended z r use_context keys)) : Type 0 where
    pub reader : Reader z r use_context keys
    pub result : x ≡ some (Ended.breaks reader)
    pub good : IsGood reader

  at_break : (s : Reader z r use_context keys) → IsGood s → Breaks (some (Ended.breaks s))
  at_break s v = record { reader = s; result = refl; good = v }

  violation-Breaks :
      (reason : CloseReason) (text : List ℕ) (s : Reader z r use_context keys)
      → IsGood s
      → Breaks (some (violation z r use_context keys reason text s))
  violation-Breaks reason text s v =
      rw (close-wire r reason text (keys s.draws), violation)
        (at_break _ (record {
          sound = v.sound;
          fits = v.fits;
          proper = All-append IsProper s.actions _ v.proper (tt, tt);
        }))

  on_error-Breaks :
      (e : FrameParseError) (s : Reader z r use_context keys)
      → IsGood s
      → Breaks (some (on_error z r use_context keys e s))
  on_error-Breaks FrameParseError.proto_error s v = violation-Breaks _ _ s v
  on_error-Breaks FrameParseError.size_err s v = violation-Breaks _ _ s v

  -- What follows a handler, given what follows if it goes on.
  flow-Breaks :
      (flow : Flow) (go : Option (Ended z r use_context keys)) (s : Reader z r use_context keys)
      → flow ≢ Flow.panics
      → Breaks go
      → IsGood s
      → Breaks (elim flow [
        | Flow.goes_on ↦ go
        | Flow.stops ↦ some (Ended.breaks s)
        | Flow.panics ↦ some (Ended.panics s)
      ])
  flow-Breaks Flow.goes_on go s n b v = b
  flow-Breaks Flow.stops go s n b v = at_break s v
  flow-Breaks Flow.panics go s n b v = absurd (n refl)

  after_call :
      (s : Reader z r use_context keys) (d : FrameDecoder) (x : Poll)
      → IsGood s
      → next_frame r s.decoder ≡ some (x, d)
      → IsGood (record s { decoder = d })
  after_call s d x v e = record {
    sound = next_frame-IsSound r s.decoder d x v.sound e;
    fits = v.fits;
    proper = v.proper;
  }

  -- A round, by the result of the decoder, given the rounds after it.
  round-Breaks :
      (fuel now : ℕ)
      → ((s : Reader z r use_context keys)
          → IsGood s
          → weight s.decoder < fuel
          → Breaks (frame_loop z r use_context keys fuel now s))
      → (s : Reader z r use_context keys) (x : Poll) (d : FrameDecoder) → IsGood s
      → weight s.decoder < suc fuel
      → next_frame r s.decoder ≡ some (x, d)
      → Breaks (frame_loop z r use_context keys (suc fuel) now s)
  unfolding frame_loop
  round-Breaks fuel now ih s (err k) d v h e =
      let v' = after_call s d _ v e in rw (e, frame_loop) (on_error-Breaks k _ v')
  round-Breaks fuel now ih s (ok none) d v h e =
      let v' = after_call s d _ v e in rw (e, frame_loop) (at_break _ v')
  round-Breaks fuel now ih s (ok (some FrameState.incomplete)) d v h e =
      let v' = after_call s d _ v e in rw (e, frame_loop) (at_break _ v')
  round-Breaks fuel now ih s (ok (some (FrameState.complete f))) d v h e =
      let v' = after_call s d _ v e in
      let safe = next_frame-IsWellFormed r s.decoder d f v.sound e in
      let out = handle_frame z r (keys s.draws) now use_context f s.conn in
      let s' = handled z r use_context keys (record s { decoder = d }) out in
      let kept = handle_frame-IsKept z r (keys s.draws) now use_context f s.conn v.fits in
      let v2 : IsGood s' = record {
        sound = v'.sound;
        fits = kept.fits;
        proper = All-append IsProper s.actions _ v.proper kept.proper;
      } in
      rw (e, frame_loop)
        (flow-Breaks out.flow (frame_loop z r use_context keys fuel now s') s'
          (handle_frame-never_panics z r (keys s.draws) now use_context f s.conn safe)
          (ih s' v2 (omega (arith, next_frame-weight r s.decoder d _ e (λ k. cc)))) v2)

  frame_loop-Breaks :
      (fuel now : ℕ) (s : Reader z r use_context keys)
      → IsGood s
      → weight s.decoder < fuel
      → Breaks (frame_loop z r use_context keys fuel now s)
  frame_loop-Breaks zero now s v h = absurd (omega arith)
  frame_loop-Breaks (suc fuel) now s v h =
      let ((x, d), e) = next_frame_total r s.decoder in
      round-Breaks fuel now (frame_loop-Breaks fuel now) s x d v h e

  finish-IsGood :
      (s : Reader z r use_context keys) → IsGood s → IsGood (finish_reading z r use_context keys s)
  finish-IsGood s v = record {
    sound = v.sound;
    fits = v.fits;
    proper = All-append IsProper s.actions _ v.proper (tt, tt);
  }

  -- Whatever bytes a read gives, the loop over its frames ends with a break: it does not run out of
  -- rounds, and no slice or copy of a handler is out of range. What `IsGood` says is kept.
  pub on_bytes-Breaks :
      (now : ℕ) (bytes : List ℕ) (s : Reader z r use_context keys)
      → IsGood s
      → Breaks (on_bytes z r use_context keys now bytes s)
  unfolding on_bytes
  on_bytes-Breaks now bytes s v =
      let d = push_bytes s.decoder bytes in
      frame_loop-Breaks (fuel_for z r use_context keys d) now
        (record s { last_seen = now; decoder = d })
        (record { sound = push_bytes-IsSound bytes v.sound; fits = v.fits; proper = v.proper })
        (weight-lt d)

  -- The reader task, for every sequence of reads, from a good state: it does not run out of rounds
  -- and does not panic; the message in progress never exceeds `MAX_MESSAGE_SIZE`; all text that it
  -- hands out is valid UTF-8.
  pub reader_loop-Breaks :
      (reads : List Read) (s : Reader z r use_context keys)
      → IsGood s
      → Breaks (reader_loop z r use_context keys reads s)
  unfolding reader_loop
  reader_loop-Breaks [] s v = at_break s v
  reader_loop-Breaks (Read.fin ∷ reads) s v = at_break _ (finish-IsGood s v)
  reader_loop-Breaks (Read.failed ∷ reads) s v = at_break _ (finish-IsGood s v)
  reader_loop-Breaks (Read.bytes now bytes ∷ reads) s v =
      let b = on_bytes-Breaks now bytes s v in
      rw (b.result, reader_loop) (reader_loop-Breaks reads b.reader b.good)

  -- A connection whose stream ends or fails ends closed: after any reads before that, `closing` and
  -- `closed` are set, and the last action of the task is the event `Closed`. Later reads are not
  -- made.
  pub reader_loop_closes :
      (reads later : List Read) (last : Read) (s : Reader z r use_context keys)
      → IsGood s
      → (last ≡ Read.fin) ⊎ (last ≡ Read.failed)
      → (s' : Reader z r use_context keys) × (actions : List Action) × (reader_loop z r use_context
            keys
            (reads ++ last ∷ later)
            s
          ≡ some (Ended.breaks s'))
        × (s'.conn.closing ≡ true)
        × (s'.conn.closed ≡ true)
        × (s'.actions ≡ actions ++ Action.event Event.closed ∷ [])
  unfolding reader_loop
  reader_loop_closes [] later Read.fin s v h = (_, s.actions, refl, refl, refl, refl)
  reader_loop_closes [] later Read.failed s v h = (_, s.actions, refl, refl, refl, refl)
  reader_loop_closes [] later (Read.bytes now bytes) s v (inl h) = cc
  reader_loop_closes [] later (Read.bytes now bytes) s v (inr h) = cc
  reader_loop_closes (Read.fin ∷ reads) later last s v h = (_, s.actions, refl, refl, refl, refl)
  reader_loop_closes (Read.failed ∷ reads) later last s v h = (_, s.actions, refl, refl, refl, refl)
  reader_loop_closes (Read.bytes now bytes ∷ reads) later last s v h =
      let b = on_bytes-Breaks now bytes s v in
      rw (b.result, reader_loop) (reader_loop_closes reads later last b.reader b.good h)
