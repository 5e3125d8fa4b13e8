-- ===== src/Examples/Handle.antt =====
-- The handle, the writer and the ping task at concrete runs.
use wust_socket.Prelude.{
  ℕ, ◌+◌, ◌≤◌, ◌≡◌, refl, sym, arith, List, [], ◌∷◌, ◌++◌, none, some, true, false, ok, append-nil,
  codes, replicate,
}
use wust_socket.Role.{Role}
use wust_socket.Error.{CloseReason}
use wust_socket.Channel.{Deflater}
use wust_socket.Protocol.Mask.{MaskKey, mask_lin}
use wust_socket.Protocol.Mask.Simd.{mask_avx2, mask_avx2-mask_lin}
use wust_socket.Protocol.Ping.{PingStats, on_pong}
use wust_socket.Protocol.Ping
use wust_socket.Ws.Event.{Event, Text}
use wust_socket.Ws.FrameHandler.{Action, Flow}
use wust_socket.Ws.FrameHandler.Safety.{close_bytes}
use wust_socket.Ws.Writer.{Chunk, turn, start}
use wust_socket.Ws.Writer.Order.{Run, Step, Reach, IsOrdered, initial, Reach-IsOrdered, push}
use wust_socket.Ws.Writer.Drain.{turns, writer_with, works, turns-close}
use wust_socket.Ws.PingLoop.{Tick, PingLoop, run}
use wust_socket.Ws.PingLoop.Timeouts.{run-closes, pings, run-pings_once}
use wust_socket.Ws.WebSocket.{WebSocket, MessageHandler, Message, send_text, recv_loop}
use wust_socket.Ws.WebSocket.Sends.{close_once, close_all, handed, send_each, recv_loop_closes}
use wust_socket.Frames.Data.{data_frames, all_frames, all_frames_by, send_chunks, send_remainder}
use wust_socket.Prelude.Slices.{as_chunks}
use wust_socket.Examples.Setup.{list_sender, key, hi}

-- A deflate stream that stores its input.
abbrev stores : Deflater
stores = record {
  Encoder = List ℕ;
  reset = λ e. [];
  write_all = λ bytes e. e ++ bytes;
  flush = λ e. e;
  get_ref = λ e. e;
  write_all_appends = λ bytes e. (bytes, refl);
  flush_appends = λ e. ([], sym (append-nil e));
}

abbrev draws : ℕ → ℕ → MaskKey
draws call frame = key

abbrev hi_text : Text
hi_text = record { inner = hi }

abbrev ws : WebSocket list_sender stores
ws = record {
  ping_stats = Ping.new 100;
  closing = false;
  close_tx = [];
  ctrl_tx = [];
  data_tx = [];
  deflater = none;
  use_context = false;
  calls = 0;
}

sent-ok : (send_text list_sender stores Role.client draws hi_text ws).0 ≡ ok tt
unfolding send_text data_frames all_frames all_frames_by send_remainder send_chunks as_chunks
sent-ok = refl

abbrev first_close : List ℕ
first_close = close_bytes Role.client CloseReason.normal [] (draws ws.calls 0)

close_once_example :
    (ws' : WebSocket list_sender stores) × (close_all list_sender stores Role.client draws
        ((CloseReason.normal, []) ∷ (CloseReason.too_big, codes "again") ∷ [])
        ws
      ≡ some ws')
    × (ws'.closing ≡ true)
    × (ws'.close_tx
        ≡ ws.close_tx
          ++ handed list_sender stores Role.client draws first_close
              (list_sender.send first_close ws.close_tx).0)
    × (ws'.ctrl_tx ≡ ws.ctrl_tx)
    × (ws'.data_tx ≡ ws.data_tx)
close_once_example =
    close_once list_sender stores Role.client draws CloseReason.normal []
      ((CloseReason.too_big, codes "again") ∷ []) ws refl

abbrev nonce : List ℕ
nonce = 1 ∷ 2 ∷ 3 ∷ 4 ∷ 5 ∷ 6 ∷ 7 ∷ 8 ∷ []

-- It echoes text and counts what it is told.
abbrev echo : MessageHandler
echo = record {
  State = ℕ;
  on_text = λ t n. (some (Message.text t.inner), n + 1);
  on_binary = λ b n. (none, n + 1);
  on_close = λ n. n + 100;
  on_pong = λ latency n. n;
}

abbrev two_events : List Event
two_events = Event.text hi_text ∷ Event.pong 5 ∷ []

recv_loop_closes_example :
    recv_loop list_sender stores Role.client draws echo
      (two_events ++ Event.closed ∷ Event.pong 6 ∷ [])
      0
      ws
    ≡ (
      101,
      send_each list_sender stores Role.client draws echo (Message.text hi ∷ []) ws,
      Event.pong 6 ∷ [],
    )
recv_loop_closes_example =
    recv_loop_closes list_sender stores Role.client draws echo two_events (Event.pong 6 ∷ []) 0 ws
      (refl, (refl, tt))

-- A ping was sent at second 20, and the last read was just now.
abbrev waiting : PingLoop
waiting = record { ping_sent = some 20000; ping_stats = Ping.new 100 }

abbrev late : Tick
late = record {
  now = 80000;
  closing = false;
  last_seen = 79999;
  nonce = nonce;
  key = key;
  sends = true;
}

abbrev early : Tick
early = record late { now = 50000; last_seen = 49999 }

run-closes_example :
    let out = run Role.server 30 ((early, Ping.new 100) ∷ (late, Ping.new 100) ∷ []) waiting in
    (out.flow ≡ Flow.goes_on)
    × (out.state.ping_sent ≡ some 20000)
    × (out.actions
        ≡ Action.close (close_bytes Role.server CloseReason.policy (codes "ping timed out") key)
          ∷ [])
run-closes_example =
    run-closes Role.server 30 ((early, Ping.new 100) ∷ (late, Ping.new 100) ∷ []) waiting 20000 refl
      (refl, (refl, tt))

run-pings_once_example :
    pings
      (run Role.server 30
        ((late, Ping.new 100) ∷ (late, Ping.new 100) ∷ [])
        (record { ping_sent = none; ping_stats = Ping.new 100 })).actions
    ≤ 1
run-pings_once_example =
    run-pings_once Role.server 30 ((late, Ping.new 100) ∷ (late, Ping.new 100) ∷ []) (Ping.new 100)

abbrev ctrl_sent : List (List ℕ)
ctrl_sent = (1 ∷ []) ∷ []

abbrev data_sent : List (List ℕ)
data_sent = (2 ∷ []) ∷ []

turns-close_example :
    let w = turns 3 (writer_with ((9 ∷ []) ∷ []) ctrl_sent data_sent []) in
    (w.written ≡ [] ++ Chunk.close (9 ∷ []) ∷ [])
    × (w.running ≡ false)
    × (w.ctrl_rx.queue ≡ ctrl_sent)
    × (w.data_rx.queue ≡ data_sent)
turns-close_example = turns-close 2 (9 ∷ []) [] ctrl_sent data_sent []

-- A data frame and a close frame are sent, and the writer takes a turn.
abbrev run1 : Run
run1 = record initial {
  writer = record (initial.writer) { data_rx = push initial.writer.data_rx (2 ∷ []) };
  sent_data = initial.sent_data ++ (2 ∷ []) ∷ [];
}

abbrev run2 : Run
run2 = record run1 {
  writer = record (run1.writer) { close_rx = push run1.writer.close_rx (9 ∷ []) };
  sent_close = run1.sent_close ++ (9 ∷ []) ∷ [];
}

abbrev run3 : Run
run3 = record run2 { writer = turn works run2.writer }

run3-Reach : Reach initial run3
unfolding start
run3-Reach =
    Reach.next
      (Reach.next (Reach.next Reach.here (Step.sends_data initial (2 ∷ []) refl refl))
        (Step.sends_close run1 (9 ∷ []) refl refl))
      (Step.turns run2 works)

Reach-IsOrdered_example : IsOrdered run3
Reach-IsOrdered_example = Reach-IsOrdered run3-Reach

mask_avx2-mask_lin_example : mask_avx2 (replicate 40 7) key ≡ some (mask_lin (replicate 40 7) key)
mask_avx2-mask_lin_example =
    mask_avx2-mask_lin (replicate 40 7) key
      (omega arith, (omega arith, (omega arith, (omega arith, tt))))
