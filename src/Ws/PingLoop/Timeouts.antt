-- ===== src/Ws/PingLoop/Timeouts.antt =====
-- How often the task pings, and when it closes the connection.
use wust_socket.Prelude.{
  ℕ, suc, ◌+◌, ◌-◌, ◌*◌, ◌≤◌, ◌≡◌, ◌≢◌, arith, List, [], ◌∷◌, ◌++◌, Option, none, some, false,
  length, codes, All, leb, if◌then◌else◌, refl, ap, ◌∙◌, ◌<◌, inl, inr, Bool-cases,
}
use wust_socket.Role.{Role}
use wust_socket.Error.{CloseReason}
use wust_socket.Protocol.Ping.{PingStats, new_nonce, nonce_len}
use wust_socket.Frames.Opcode.{Opcode}
use wust_socket.Frames.Control
use wust_socket.Frames.Control.Layout.{encode-wire}
use wust_socket.Frames.Control.Close.{close-wire}
use wust_socket.Ws.FrameHandler.{Action, Flow}
use wust_socket.Ws.FrameHandler.Safety.{close_bytes}
use wust_socket.Ws.PingLoop.{Tick, Ticked, PingLoop, tick, run}

-- With a nonce of eight bytes no tick panics: the ping fits a control frame.
pub tick-never_panics :
    (r : Role) (interval_secs : ℕ) (t : Tick) (s : PingLoop)
    → length t.nonce ≡ nonce_len
    → (tick r interval_secs t s).flow ≢ Flow.panics
unfolding tick Control.ping new_nonce
tick-never_panics r interval_secs t s h = ground (
  arith,
  encode-wire r Opcode.ping t.nonce t.key (omega arith),
  close-wire r CloseReason.policy (codes "ping timed out") t.key,
)

-- A tick from twice the interval after the ping on.
tick-closes :
    (r : Role) (interval_secs : ℕ) (t : Tick) (s : PingLoop) (sent : ℕ)
    → s.ping_sent ≡ some sent
    → t.closing ≡ false
    → interval_secs * 2 * 1000 ≤ t.now - sent
    → tick r interval_secs t s ≡ record {
      flow = Flow.goes_on;
      state = s;
      actions = Action.close (close_bytes r CloseReason.policy (codes "ping timed out") t.key) ∷ [];
    }
unfolding tick
tick-closes r interval_secs t s sent e c h =
    ground (arith, close-wire r CloseReason.policy (codes "ping timed out") t.key)

-- A tick before that.
tick-waits :
    (r : Role) (interval_secs : ℕ) (t : Tick) (s : PingLoop) (sent : ℕ)
    → s.ping_sent ≡ some sent
    → t.closing ≡ false
    → t.now - sent < interval_secs * 2 * 1000
    → tick r interval_secs t s ≡ record { flow = Flow.goes_on; state = s; actions = [] }
unfolding tick
tick-waits r interval_secs t s sent e c h = ground arith

abbrev and_then : Ticked → (PingLoop → Ticked) → Ticked
and_then h k = elim h.flow [
  | Flow.goes_on ↦ record (k h.state) { actions = h.actions ++ (k h.state).actions }
  | _ ↦ h
]

goes_on-and_then :
    (h : Ticked) (k : PingLoop → Ticked)
    → h.flow ≡ Flow.goes_on
    → and_then h k ≡ record (k h.state) { actions = h.actions ++ (k h.state).actions }
goes_on-and_then h k g = rw g refl

-- A tick after which the task goes on, and then the others.
run-next :
    (r : Role) (interval_secs : ℕ) (t : Tick) (stats : PingStats) (ticks : List (Tick × PingStats))
    (s : PingLoop) (h : Ticked)
    → tick r interval_secs t (record s { ping_stats = stats }) ≡ h
    → h.flow ≡ Flow.goes_on
    → let rest = run r interval_secs ticks h.state in
      run r interval_secs ((t, stats) ∷ ticks) s
      ≡ record rest { actions = h.actions ++ rest.actions }
unfolding run
run-next r interval_secs t stats ticks s h e g =
    ap (λ x. and_then x (run r interval_secs ticks)) e
    ∙ goes_on-and_then h (run r interval_secs ticks) g

-- What the ticks after a ping at `sent` are to do: a close frame at each that comes too late.
abbrev pub timeouts : Role → ℕ → ℕ → List (Tick × PingStats) → List Action
timeouts r interval_secs sent [] = []
timeouts r interval_secs sent ((t, stats) ∷ ticks) =
    let later = timeouts r interval_secs sent ticks in
    if leb (interval_secs * 2 * 1000) (t.now - sent)
    then Action.close (close_bytes r CloseReason.policy (codes "ping timed out") t.key) ∷ later
    else later

-- The task after its ping, over any number of ticks of an open connection, whatever was read
-- between them and whatever the reader task made of the statistics, so also if the pong came: every
-- tick from twice the interval after that ping on sends a close frame, no tick sends anything else,
-- and the task goes on with the same ping as its last one.
pub run-closes :
    (r : Role) (interval_secs : ℕ) (ticks : List (Tick × PingStats)) (s : PingLoop) (sent : ℕ)
    → s.ping_sent ≡ some sent
    → All (λ x. x.0.closing ≡ false) ticks
    → let out = run r interval_secs ticks s in
      (out.flow ≡ Flow.goes_on)
      × (out.state.ping_sent ≡ some sent)
      × (out.actions ≡ timeouts r interval_secs sent ticks)
unfolding run
run-closes r interval_secs [] s sent e open_ = (refl, e, refl)
run-closes r interval_secs ((t, stats) ∷ ticks) s sent e open_ =
    let s0 : PingLoop = record s { ping_stats = stats } in
    let (flow, kept, actions) = run-closes r interval_secs ticks s0 sent e open_.1 in
    elim (Bool-cases (leb (interval_secs * 2 * 1000) (t.now - sent))) [
      | inl late ↦
          let l : interval_secs * 2 * 1000 ≤ t.now - sent = ground arith in
          let next =
            run-next r interval_secs t stats ticks s _
              (tick-closes r interval_secs t s0 sent e open_.0 l) refl in
          let close =
            Action.close (close_bytes r CloseReason.policy (codes "ping timed out") t.key) in
          (
            ap (λ x. x.flow) next ∙ flow,
            ap (λ x. x.state.ping_sent) next ∙ kept,
            ap (λ x. x.actions) next ∙ ap (◌∷◌ close) actions ∙ rw late refl,
          )
      | inr early ↦
          let l : t.now - sent < interval_secs * 2 * 1000 = ground arith in
          let next =
            run-next r interval_secs t stats ticks s _
              (tick-waits r interval_secs t s0 sent e open_.0 l) refl in
          (
            ap (λ x. x.flow) next ∙ flow,
            ap (λ x. x.state.ping_sent) next ∙ kept,
            ap (λ x. x.actions) next ∙ actions ∙ rw early refl,
          )
    ]

abbrev pub pings : List Action → ℕ
pings [] = 0
pings (Action.ctrl b ∷ actions) = suc (pings actions)
pings (Action.close b ∷ actions) = pings actions
pings (Action.event e ∷ actions) = pings actions

abbrev allowed : Option ℕ → ℕ
allowed none = 1
allowed (some t) = 0

pings-append : (xs ys : List Action) → pings (xs ++ ys) ≡ pings xs + pings ys
pings-append [] ys = omega arith
pings-append (Action.ctrl b ∷ xs) ys = omega (arith, pings-append xs ys)
pings-append (Action.close b ∷ xs) ys = pings-append xs ys
pings-append (Action.event e ∷ xs) ys = pings-append xs ys

tick-allowed :
    (r : Role) (interval_secs : ℕ) (t : Tick) (s : PingLoop)
    → let out = tick r interval_secs t s in
      pings out.actions + allowed out.state.ping_sent ≤ allowed s.ping_sent
unfolding tick
tick-allowed r interval_secs t s = ground arith

run-allowed :
    (r : Role) (interval_secs : ℕ) (ticks : List (Tick × PingStats)) (s : PingLoop)
    → pings (run r interval_secs ticks s).actions ≤ allowed s.ping_sent
unfolding run
run-allowed r interval_secs [] s = omega arith
run-allowed r interval_secs ((t, stats) ∷ ticks) s =
    let s0 : PingLoop = record s { ping_stats = stats } in
    let out = tick r interval_secs t s0 in
    let rest = run r interval_secs ticks out.state in
    ground (
      arith,
      tick-allowed r interval_secs t s0,
      run-allowed r interval_secs ticks out.state,
      pings-append out.actions rest.actions,
    )

-- The task sends at most one ping in the life of a connection.
pub run-pings_once :
    (r : Role) (interval_secs : ℕ) (ticks : List (Tick × PingStats)) (stats : PingStats)
    → pings (run r interval_secs ticks (record { ping_sent = none; ping_stats = stats })).actions
      ≤ 1
run-pings_once r interval_secs ticks stats = run-allowed r interval_secs ticks _
