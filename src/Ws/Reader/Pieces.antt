-- ===== src/Ws/Reader/Pieces.antt =====
-- The bytes of a connection in several reads: what the reader task does with frames but pongs does not
-- depend on where the reads were cut, nor on their times.
use wust_socket.Prelude.{
  ℕ, ◌+◌, ◌≡◌, refl, sym, ap, ◌∙◌, arith, List, [], ◌∷◌, ◌++◌, some, Bool, true, length,
  length-append, append_assoc, append-nil, All, All-append,
}
use mathlib.Core.Path.{subst}
use wust_socket.Channel.{Inflater}
use wust_socket.Role.{Role}
use wust_socket.Protocol.Mask.{MaskKey}
use wust_socket.Frames.Decode.Parse.{DecodedFrame}
use wust_socket.Frames.Decode.{push_bytes}
use wust_socket.Frames.Decode.Resume.{is_wait}
use wust_socket.Frames.Decode.Stream.{Drained, drain, weight-lt}
use wust_socket.Frames.Decode.Stream.Reads.{
  drain_total, drain-push_wait, drain-push_stops, push_bytes-append, prepend_all,
}
use wust_socket.Ws.FrameHandler.{Flow, Conn, Handled}
use wust_socket.Ws.FrameHandler.Assembly.{handle_frames, after_actions}
use wust_socket.Ws.FrameHandler.Runs.{IsTimeless, handle_frames-now, run-split, run-join}
use wust_socket.Ws.Reader.{Reader, Ended, Read, on_bytes, fuel_for, reader_loop}
use wust_socket.Ws.Reader.Outcome.{conclude-waits, frame_loop-Outcome, some_inj}

-- Reads that give bytes, each at its time.
abbrev pub as_reads : List (ℕ × List ℕ) → List Read
as_reads [] = []
as_reads ((now, bytes) ∷ rest) = Read.bytes now bytes ∷ as_reads rest

abbrev pub bytes_of : List (ℕ × List ℕ) → List ℕ
bytes_of [] = []
bytes_of ((now, bytes) ∷ rest) = bytes ++ bytes_of rest

All-split :
    (fs gs : List DecodedFrame) → All IsTimeless (fs ++ gs) → All IsTimeless fs × All IsTimeless gs
All-split [] gs h = (tt, h)
All-split (f ∷ fs) gs h = let (a, b) = All-split fs gs h.1 in ((h.0, a), b)

module _ (z : Inflater) (r : Role) (use_context : Bool) (keys : ℕ → MaskKey) where
  -- The handlers on frames of data; the time does not matter.
  abbrev run : ℕ → List DecodedFrame → Conn z → Handled z
  run i fs c = handle_frames z r keys 0 use_context i fs c

  -- What the handlers make of these bytes: the decoder gives frames of data and then waits for more
  -- bytes, and no handler stops the loop. The states before and after are those of the task, but for
  -- the time of the last read.
  pub record Handles (s : Reader z r use_context keys) (bytes : List ℕ)
      (s' : Reader z r use_context keys) : Type 0 where
    pub drained : Drained
    pub drains : drain r (push_bytes s.decoder bytes) ≡ some drained
    pub waits : is_wait drained.last ≡ true
    pub timeless : All IsTimeless drained.frames
    pub goes_on : (run s.draws drained.frames s.conn).flow ≡ Flow.goes_on
    pub decoder : s'.decoder ≡ drained.decoder
    pub draws : s'.draws ≡ s.draws + length drained.frames
    pub conn : s'.conn ≡ (run s.draws drained.frames s.conn).conn
    pub actions : s'.actions ≡ s.actions ++ (run s.draws drained.frames s.conn).actions

  pub same_reader :
      (a b : Reader z r use_context keys)
      → a.decoder ≡ b.decoder
      → a.conn ≡ b.conn
      → a.last_seen ≡ b.last_seen
      → a.draws ≡ b.draws
      → a.actions ≡ b.actions
      → a ≡ b
  same_reader a b e1 e2 e3 e4 e5 = cc

  -- One read of the bytes.
  pub on_bytes-Handles :
      (now : ℕ) (s s' : Reader z r use_context keys) (bytes : List ℕ)
      → Handles s bytes s'
      → on_bytes z r use_context keys now bytes s
        ≡ some (Ended.breaks (record s' { last_seen = now }))
  unfolding on_bytes
  on_bytes-Handles now s s' bytes h =
      let s1 : Reader z r use_context keys = record s {
        last_seen = now;
        decoder = push_bytes s.decoder bytes;
      } in
      let same =
        handle_frames-now z r use_context keys now s.draws h.drained.frames s.conn h.timeless in
      let o =
        frame_loop-Outcome z r use_context keys (fuel_for z r use_context keys s1.decoder) now s1
          h.drained (weight-lt s1.decoder) h.drains (ap (λ x. x.flow) same ∙ h.goes_on) in
      o.result
      ∙ ap some (conclude-waits z r use_context keys h.drained.last o.reader h.waits)
      ∙ ap (λ x. some (Ended.breaks x))
          (same_reader o.reader (record s' { last_seen = now }) (o.decoder ∙ sym h.decoder)
            (o.conn ∙ ap (λ x. x.conn) same ∙ sym h.conn) o.last_seen (o.draws ∙ sym h.draws)
            (o.actions ∙ ap (λ x. s.actions ++ x.actions) same ∙ sym h.actions))

  -- What is handled in one piece may be cut in two.
  pub Handles-cut :
      (s s2 : Reader z r use_context keys) (xs ys : List ℕ)
      → Handles s (xs ++ ys) s2
      → (s1 : Reader z r use_context keys) × Handles s xs s1 × Handles s1 ys s2
  Handles-cut s s2 xs ys h =
      let (x, ex) = drain_total r (push_bytes s.decoder xs) in
      let (y, ey) = drain_total r (push_bytes x.decoder ys) in
      let whole = ap (drain r) (push_bytes-append s.decoder xs ys) ∙ h.drains in
      let w = drain-push_stops r (push_bytes s.decoder xs) ys x h.drained ex whole h.waits in
      let same : h.drained ≡ prepend_all x.frames y =
        some_inj z r use_context keys
          (sym whole ∙ drain-push_wait r (push_bytes s.decoder xs) ys x y ex w ey) in
      let frames : h.drained.frames ≡ x.frames ++ y.frames = ap (λ d. d.frames) same in
      let (is_x, is_y) = All-split x.frames y.frames (subst (All IsTimeless) frames h.timeless) in
      let run_whole = ap (λ fs. run s.draws fs s.conn) frames in
      let (one, two, both) =
        run-split z r use_context keys s.draws x.frames y.frames s.conn
          (ap (λ k. k.flow) (sym run_whole) ∙ h.goes_on) in
      let first = run s.draws x.frames s.conn in
      let second = run (s.draws + length x.frames) y.frames first.conn in
      (
        record s {
          decoder = x.decoder;
          conn = first.conn;
          draws = s.draws + length x.frames;
          actions = s.actions ++ first.actions;
        },
        record {
          drained = x;
          drains = ex;
          waits = w;
          timeless = is_x;
          goes_on = one;
          decoder = refl;
          draws = refl;
          conn = refl;
          actions = refl;
        },
        record {
          drained = y;
          drains = ey;
          waits = ap (λ d. is_wait d.last) (sym same) ∙ h.waits;
          timeless = is_y;
          goes_on = two;
          decoder = h.decoder ∙ ap (λ d. d.decoder) same;
          draws = omega (arith, h.draws, ap length frames, length-append x.frames y.frames);
          conn = h.conn ∙ ap (λ k. k.conn) (run_whole ∙ both);
          actions =
              h.actions
              ∙ ap (λ k. s.actions ++ k.actions) (run_whole ∙ both)
              ∙ sym (append_assoc s.actions first.actions second.actions);
        },
      )

  -- Two pieces, one behind the other, are handled as one.
  pub Handles-append :
      (s s1 s2 : Reader z r use_context keys) (xs ys : List ℕ)
      → Handles s xs s1
      → Handles s1 ys s2
      → Handles s (xs ++ ys) s2
  Handles-append s s1 s2 xs ys h k =
      let x = h.drained in
      let y = k.drained in
      let ey = ap (λ d. drain r (push_bytes d ys)) (sym h.decoder) ∙ k.drains in
      let first = run s.draws x.frames s.conn in
      let second = run (s.draws + length x.frames) y.frames first.conn in
      let same : run s1.draws y.frames s1.conn ≡ second =
        ap (λ n. run n y.frames s1.conn) h.draws
        ∙ ap (run (s.draws + length x.frames) y.frames) h.conn in
      let both = run-join z r use_context keys s.draws x.frames y.frames s.conn h.goes_on in
      record {
        drained = prepend_all x.frames y;
        drains =
            ap (drain r) (sym (push_bytes-append s.decoder xs ys))
            ∙ drain-push_wait r (push_bytes s.decoder xs) ys x y h.drains h.waits ey;
        waits = k.waits;
        timeless = All-append IsTimeless x.frames y.frames h.timeless k.timeless;
        goes_on =
            ap (λ j. j.flow)
              (both ∙ ap (after_actions z r keys 0 use_context first.actions) (sym same))
            ∙ k.goes_on;
        decoder = k.decoder;
        draws = omega (arith, h.draws, k.draws, length-append x.frames y.frames);
        conn = k.conn ∙ ap (λ j. j.conn) same ∙ ap (λ j. j.conn) (sym both);
        actions =
            k.actions
            ∙ ap (λ a. a ++ (run s1.draws y.frames s1.conn).actions) h.actions
            ∙ ap (λ j. (s.actions ++ first.actions) ++ j.actions) same
            ∙ append_assoc s.actions first.actions second.actions
            ∙ ap (λ j. s.actions ++ j.actions) (sym both);
      }

  Handles-last_seen :
      (now : ℕ) (s s' : Reader z r use_context keys) (bytes : List ℕ)
      → Handles s bytes s'
      → Handles (record s { last_seen = now }) bytes s'
  Handles-last_seen now s s' bytes h = record {
    drained = h.drained;
    drains = h.drains;
    waits = h.waits;
    timeless = h.timeless;
    goes_on = h.goes_on;
    decoder = h.decoder;
    draws = h.draws;
    conn = h.conn;
    actions = h.actions;
  }

  -- Bytes that are handled as one piece end in the same state, whatever the reads that bring them.
  -- There is a read, at least.
  pub reader_loop-Handles :
      (now : ℕ) (bytes : List ℕ) (reads : List (ℕ × List ℕ)) (s s' : Reader z r use_context keys)
      → Handles s (bytes ++ bytes_of reads) s'
      → (last : ℕ) × (reader_loop z r use_context keys (as_reads ((now, bytes) ∷ reads)) s
          ≡ some (Ended.breaks (record s' { last_seen = last })))
  unfolding reader_loop
  reader_loop-Handles now bytes [] s s' h =
      let e = on_bytes-Handles now s s' bytes (subst (λ b. Handles s b s') (append-nil bytes) h) in
      (now, rw (e, reader_loop) refl)
  reader_loop-Handles now bytes ((later, next) ∷ reads) s s' h =
      let (s1, one, two) = Handles-cut s s' bytes (bytes_of ((later, next) ∷ reads)) h in
      let e = on_bytes-Handles now s s1 bytes one in
      let (last, rest) =
        reader_loop-Handles later next reads (record s1 { last_seen = now }) s'
          (Handles-last_seen now s1 s' _ two) in
      (last, rw (e, reader_loop) rest)
