-- ===== src/Ws/Writer/Drain.antt =====
-- What the writer makes of what waits, if nothing fails and nothing else is sent.
use wust_socket.Prelude.{
  ℕ, zero, suc, ◌+◌, ◌≡◌, refl, sym, ap, ◌∙◌, arith, List, [], ◌∷◌, ◌++◌, true, false, map, length,
  append_assoc, append-nil, if◌then◌else◌,
}
use wust_socket.Ws.Writer.{Channel, Chunk, Writer, Io, turn, select, finish}

abbrev pub works : Io
works = record { writes = true; flushes = true }

-- A number of turns.
unfoldable pub turns : ℕ → Writer → Writer
turns zero w = w
turns (suc n) w = turns n (turn works w)

abbrev pub waiting : List (List ℕ) → Channel
waiting queue = record { queue = queue; is_open = true }

abbrev pub writer_with : List (List ℕ) → List (List ℕ) → List (List ℕ) → List Chunk → Writer
writer_with closes ctrls datas written = record {
  close_rx = waiting closes;
  ctrl_rx = waiting ctrls;
  data_rx = waiting datas;
  written = written;
  running = true;
}

turns-data :
    (datas : List (List ℕ)) (written : List Chunk)
    → turns (length datas) (writer_with [] [] datas written)
      ≡ writer_with [] [] [] (written ++ map Chunk.data_frame datas)
unfolding turns turn
turns-data [] written = ap (writer_with [] [] []) (sym (append-nil written))
turns-data (b ∷ datas) written =
    turns-data datas (written ++ Chunk.data_frame b ∷ [])
    ∙ ap (writer_with [] [] [])
        (append_assoc written (Chunk.data_frame b ∷ []) (map Chunk.data_frame datas))

-- Without a close frame, all control frames are written, and then all data frames, each in the
-- order of the sends, in as many turns as there are frames; the task then waits.
pub turns-all :
    (ctrls datas : List (List ℕ)) (written : List Chunk)
    → turns (length ctrls + length datas) (writer_with [] ctrls datas written)
      ≡ writer_with [] [] [] (written ++ map Chunk.ctrl ctrls ++ map Chunk.data_frame datas)
unfolding turns turn
turns-all [] datas written =
    let e : 0 + length datas ≡ length datas = omega arith in
    ap (λ n. turns n (writer_with [] [] datas written)) e
    ∙ turns-data datas written
    ∙ ap (λ t. writer_with [] [] [] (t ++ map Chunk.data_frame datas)) (sym (append-nil written))
turns-all (b ∷ ctrls) datas written =
    let e : suc (length ctrls) + length datas ≡ suc (length ctrls + length datas) = omega arith in
    ap (λ n. turns n (writer_with [] (b ∷ ctrls) datas written)) e
    ∙ turns-all ctrls datas (written ++ Chunk.ctrl b ∷ [])
    ∙ ap (λ t. writer_with [] [] [] (t ++ map Chunk.data_frame datas))
        (append_assoc written (Chunk.ctrl b ∷ []) (map Chunk.ctrl ctrls))

stopped-turns : (n : ℕ) (w : Writer) → w.running ≡ false → turns n w ≡ w
unfolding turns turn
stopped-turns zero w r = refl
stopped-turns (suc n) w r =
    ap (turns n)
      (ap (λ b. if b then select works w.close_rx.queue w.ctrl_rx.queue w.data_rx.queue w else w) r)
    ∙ stopped-turns n w r

-- A close frame that waits overtakes everything: after any number of turns, but none, it is all that
-- was written, and the control and data frames that were sent before it are never written.
pub turns-close :
    (n : ℕ) (b : List ℕ) (closes ctrls datas : List (List ℕ)) (written : List Chunk)
    → let w = turns (suc n) (writer_with (b ∷ closes) ctrls datas written) in
      (w.written ≡ written ++ Chunk.close b ∷ [])
      × (w.running ≡ false)
      × (w.ctrl_rx.queue ≡ ctrls)
      × (w.data_rx.queue ≡ datas)
unfolding turns turn
turns-close n b closes ctrls datas written =
    rw (stopped-turns n (finish works b (writer_with closes ctrls datas written)) refl)
      (refl, refl, refl, refl)
