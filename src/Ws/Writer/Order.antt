-- ===== src/Ws/Writer/Order.antt =====
-- The order of what is written: by channel, as it was sent; and nothing after a close frame.
use wust_socket.Prelude.{
  ℕ, ◌≡◌, ◌⊎◌, inl, inr, refl, sym, ap, ◌∙◌, List, [], ◌∷◌, ◌++◌, Bool, true, false, ◌&&◌,
  if◌then◌else◌,
}
use mathlib.Core.Path.{subst}
use wust_socket.Ws.Writer.{Channel, Chunk, Writer, Io, turn, start, select, logged}
use wust_socket.Ws.Writer.Chunks.{
  closes, ctrls, datas, ctrls-append, datas-append, ctrls-logged, datas-logged, others, keep_ctrls,
  keep_datas, keep_closes, close_cases, writes_of,
}
use wust_socket.Ws.Writer.InOrder.{InOrder, InOrder-send, InOrder-stop, InOrder-take}

-- The task, and what was sent on its channels so far.
pub record Run : Type 0 where
  pub writer : Writer
  pub sent_close : List (List ℕ)
  pub sent_ctrl : List (List ℕ)
  pub sent_data : List (List ℕ)

abbrev pub push : Channel → List ℕ → Channel
push c b = record c { queue = c.queue ++ b ∷ [] }

abbrev pub dropped : Channel → Channel
dropped c = record c { is_open = false }

-- A send succeeds while the task runs and the sender is there; the last sender of a channel may be
-- dropped; the task takes a turn.
pub data Step : Run → Run → Type 0 where
  sends_close :
      (s : Run) (b : List ℕ)
      → s.writer.running ≡ true
      → s.writer.close_rx.is_open ≡ true
      → Step s (record s {
        writer = record (s.writer) { close_rx = push s.writer.close_rx b };
        sent_close = s.sent_close ++ b ∷ [];
      })
  sends_ctrl :
      (s : Run) (b : List ℕ)
      → s.writer.running ≡ true
      → s.writer.ctrl_rx.is_open ≡ true
      → Step s (record s {
        writer = record (s.writer) { ctrl_rx = push s.writer.ctrl_rx b };
        sent_ctrl = s.sent_ctrl ++ b ∷ [];
      })
  sends_data :
      (s : Run) (b : List ℕ)
      → s.writer.running ≡ true
      → s.writer.data_rx.is_open ≡ true
      → Step s (record s {
        writer = record (s.writer) { data_rx = push s.writer.data_rx b };
        sent_data = s.sent_data ++ b ∷ [];
      })
  drops_close :
      (s : Run)
      → Step s (record s { writer = record (s.writer) { close_rx = dropped s.writer.close_rx } })
  drops_ctrl :
      (s : Run)
      → Step s (record s { writer = record (s.writer) { ctrl_rx = dropped s.writer.ctrl_rx } })
  drops_data :
      (s : Run)
      → Step s (record s { writer = record (s.writer) { data_rx = dropped s.writer.data_rx } })
  turns : (s : Run) (io : Io) → Step s (record s { writer = turn io s.writer })

pub data Reach (s : Run) : Run → Type 0 where
  here : Reach s s
  next : {t u : Run} → Reach s t → Step t u → Reach s u

pub record IsOrdered (s : Run) : Type 0 where
  pub ctrl : InOrder (ctrls s.writer.written) s.writer.ctrl_rx.queue s.sent_ctrl s.writer.running
  pub data_frame :
      InOrder (datas s.writer.written) s.writer.data_rx.queue s.sent_data s.writer.running
  -- No close frame was written, or it is the last that was written, and the task has ended.
  pub last_close :
      (closes s.writer.written ≡ [])
      ⊎ ((front : List Chunk) × (b : List ℕ) × (s.writer.written ≡ front ++ Chunk.close b ∷ [])
          × (closes front ≡ [])
          × (s.writer.running ≡ false))

no_close : {s : Run} → s.writer.running ≡ true → IsOrdered s → closes s.writer.written ≡ []
no_close r v = elim v.last_close [ inl e ↦ e | inr (front, b, e, n, stopped) ↦ cc ]

select-IsOrdered :
    (io : Io) (a b c : List (List ℕ)) (s : Run)
    → s.writer.running ≡ true
    → s.writer.ctrl_rx.queue ≡ b
    → s.writer.data_rx.queue ≡ c
    → IsOrdered s
    → IsOrdered (record s { writer = select io a b c s.writer })
unfolding select
select-IsOrdered io (x ∷ rest) b c s r eb ec v =
    let ws = s.writer.written in
    let l = logged io (Chunk.close x) in
    record {
      ctrl =
          subst (λ w. InOrder w s.writer.ctrl_rx.queue s.sent_ctrl false)
            (sym (keep_ctrls ws l (others io x).0)) (InOrder-stop false r v.ctrl);
      data_frame =
          subst (λ w. InOrder w s.writer.data_rx.queue s.sent_data false)
            (sym (keep_datas ws l (others io x).1)) (InOrder-stop false r v.data_frame);
      last_close = close_cases io.writes ws x (no_close r v);
    }
select-IsOrdered io [] (x ∷ rest) c s r eb ec v =
    let ws = s.writer.written in
    let l = logged io (Chunk.ctrl x) in
    let still = io.writes && io.flushes in
    record {
      ctrl =
          subst (λ w. InOrder w rest s.sent_ctrl still)
            (sym (ctrls-append ws l ∙ ap (λ t. ctrls ws ++ t) (ctrls-logged io x)))
            (InOrder-take io.writes still r (writes_of io)
              (subst (λ q. InOrder (ctrls ws) q s.sent_ctrl s.writer.running) eb v.ctrl));
      data_frame =
          subst (λ w. InOrder w s.writer.data_rx.queue s.sent_data still)
            (sym (keep_datas ws l (others io x).2)) (InOrder-stop still r v.data_frame);
      last_close = inl (keep_closes ws l (others io x).3 ∙ no_close r v);
    }
select-IsOrdered io [] [] (x ∷ rest) s r eb ec v =
    let ws = s.writer.written in
    let l = logged io (Chunk.data_frame x) in
    let still = io.writes && io.flushes in
    record {
      ctrl =
          subst (λ w. InOrder w s.writer.ctrl_rx.queue s.sent_ctrl still)
            (sym (keep_ctrls ws l (others io x).4)) (InOrder-stop still r v.ctrl);
      data_frame =
          subst (λ w. InOrder w rest s.sent_data still)
            (sym (datas-append ws l ∙ ap (λ t. datas ws ++ t) (datas-logged io x)))
            (InOrder-take io.writes still r (writes_of io)
              (subst (λ q. InOrder (datas ws) q s.sent_data s.writer.running) ec v.data_frame));
      last_close = inl (keep_closes ws l (others io x).5 ∙ no_close r v);
    }
select-IsOrdered io [] [] [] s r eb ec v = record {
  ctrl = InOrder-stop _ r v.ctrl;
  data_frame = InOrder-stop _ r v.data_frame;
  last_close = inl (no_close r v);
}

by_running :
    (b : Bool) (taken : Writer) (s : Run)
    → IsOrdered s
    → (b ≡ true → IsOrdered (record s { writer = taken }))
    → IsOrdered (record s { writer = if b then taken else s.writer })
by_running true taken s v h = h refl
by_running false taken s v h = v

turn-IsOrdered :
    (io : Io) (s : Run) → IsOrdered s → IsOrdered (record s { writer = turn io s.writer })
unfolding turn
turn-IsOrdered io s v =
    let taken =
      select io s.writer.close_rx.queue s.writer.ctrl_rx.queue s.writer.data_rx.queue s.writer in
    by_running s.writer.running taken s v (λ r.
      select-IsOrdered io s.writer.close_rx.queue s.writer.ctrl_rx.queue s.writer.data_rx.queue s r
        refl refl v)

Step-IsOrdered : {s t : Run} → Step s t → IsOrdered s → IsOrdered t
Step-IsOrdered (sends_close s b r o) v = record {
  ctrl = v.ctrl;
  data_frame = v.data_frame;
  last_close = v.last_close;
}
Step-IsOrdered (sends_ctrl s b r o) v = record {
  ctrl = InOrder-send b r v.ctrl;
  data_frame = v.data_frame;
  last_close = v.last_close;
}
Step-IsOrdered (sends_data s b r o) v = record {
  ctrl = v.ctrl;
  data_frame = InOrder-send b r v.data_frame;
  last_close = v.last_close;
}
Step-IsOrdered (drops_close s) v = record {
  ctrl = v.ctrl;
  data_frame = v.data_frame;
  last_close = v.last_close;
}
Step-IsOrdered (drops_ctrl s) v = record {
  ctrl = v.ctrl;
  data_frame = v.data_frame;
  last_close = v.last_close;
}
Step-IsOrdered (drops_data s) v = record {
  ctrl = v.ctrl;
  data_frame = v.data_frame;
  last_close = v.last_close;
}
Step-IsOrdered (turns s io) v = turn-IsOrdered io s v

abbrev pub initial : Run
initial = record { writer = start; sent_close = []; sent_ctrl = []; sent_data = [] }

initial-IsOrdered : IsOrdered initial
unfolding start
initial-IsOrdered = record {
  ctrl = record { lost = []; in_order = refl; kept = λ k. refl };
  data_frame = record { lost = []; in_order = refl; kept = λ k. refl };
  last_close = inl refl;
}

-- However sends, dropped senders, failing writes and turns of the writer follow each other: what is
-- written of the control frames, and of the data frames, is what was sent, in order, up to what
-- still waits or a failed write has lost, and while the task runs nothing is lost; and a close frame
-- is the last thing that is written, and only one is.
pub Reach-IsOrdered : {s : Run} → Reach initial s → IsOrdered s
Reach-IsOrdered here = initial-IsOrdered
Reach-IsOrdered (next r st) = Step-IsOrdered st (Reach-IsOrdered r)
