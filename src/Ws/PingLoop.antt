-- ===== src/Ws/PingLoop.antt =====
-- The ping task of src/ws/websocket.rs, `ping_loop`. What the task finds at a tick of its interval
-- is an argument: the time in milliseconds, which stands for all the readings of the clock in that
-- tick, the flag, the time of the last read, the random bytes, and whether the send succeeds.
pub mod Timeouts
use wust_socket.Prelude.{
  ℕ, ◌+◌, ◌-◌, ◌*◌, List, [], ◌∷◌, ◌++◌, Option, none, some, Bool, true, false, ◌&&◌, leb,
  if◌then◌else◌, codes,
}
use wust_socket.Role.{Role}
use wust_socket.Error.{CloseReason}
use wust_socket.Protocol.Mask.{MaskKey}
use wust_socket.Protocol.Ping.{PingStats, new_nonce}
use wust_socket.Frames.Control
use wust_socket.Ws.FrameHandler.{Action, Flow}

pub record Tick : Type 0 where
  pub now : ℕ
  pub closing : Bool
  pub last_seen : ℕ
  pub nonce : List ℕ
  pub key : MaskKey
  pub sends : Bool

-- `ping_stats` is shared with the reader task.
pub record PingLoop : Type 0 where
  pub ping_sent : Option ℕ
  pub ping_stats : PingStats

pub record Ticked : Type 0 where
  pub flow : Flow
  pub state : PingLoop
  pub actions : List Action

abbrev is_none : Option ℕ → Bool
is_none none = true
is_none (some t) = false

-- What is handed to the sender; the encoder may panic.
abbrev send_ping : Tick → PingLoop → Option (List ℕ) → Ticked
send_ping t s none = record { flow = Flow.panics; state = s; actions = [] }
send_ping t s (some frame) =
    if t.sends
    then record {
      flow = Flow.goes_on;
      state = record s { ping_sent = some t.now };
      actions = Action.ctrl frame ∷ [];
    }
    else record { flow = Flow.stops; state = s; actions = [] }

abbrev send_close : PingLoop → Option (List ℕ) → Ticked
send_close s none = record { flow = Flow.panics; state = s; actions = [] }
send_close s (some frame) = record {
  flow = Flow.goes_on;
  state = s;
  actions = Action.close frame ∷ [];
}

-- `else if let Some(sent) = ping_sent && ..`
unfoldable pub check_timeout : Role → ℕ → Tick → PingLoop → Ticked
check_timeout r interval_secs t s = elim s.ping_sent [
  | none ↦ record { flow = Flow.goes_on; state = s; actions = [] }
  | some sent ↦
      if leb (interval_secs * 2 * 1000) (t.now - sent)
      then send_close s (Control.close r CloseReason.policy (codes "ping timed out") t.key)
      else record { flow = Flow.goes_on; state = s; actions = [] }
]

-- A round of the loop.
unfoldable pub tick : Role → ℕ → Tick → PingLoop → Ticked
unfolding check_timeout
tick r interval_secs t s =
    if t.closing
    then record { flow = Flow.stops; state = s; actions = [] }
    else if leb (interval_secs * 1000) (t.now - t.last_seen) && is_none s.ping_sent
    then (let (nonce, stats) = new_nonce s.ping_stats t.now t.nonce in
        send_ping t (record s { ping_stats = stats }) (Control.ping r nonce t.key))
    else check_timeout r interval_secs t s

-- The loop over some ticks. The reader task may change the statistics between them.
unfoldable pub run : Role → ℕ → List (Tick × PingStats) → PingLoop → Ticked
run r interval_secs [] s = record { flow = Flow.goes_on; state = s; actions = [] }
run r interval_secs ((t, stats) ∷ ticks) s =
    let out = tick r interval_secs t (record s { ping_stats = stats }) in
    elim out.flow [
      | Flow.goes_on ↦
          (let rest = run r interval_secs ticks out.state in
            record rest { actions = out.actions ++ rest.actions })
      | _ ↦ out
    ]
