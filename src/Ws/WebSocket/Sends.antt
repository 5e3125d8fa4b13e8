-- ===== src/Ws/WebSocket/Sends.antt =====
-- What the calls of the handle do to the channels and to the other end.
use wust_socket.Prelude.{
  ℕ, ◌+◌, ◌-◌, ◌^◌, ◌<◌, ◌≡◌, refl, arith, List, [], ◌∷◌, ◌++◌, some, Bool, true, false, Result, ok,
  length, All, inl, inr, err, Option, none, ap, ◌∙◌, sym, append-nil, Result-cases,
}
use wust_socket.Channel.{Sender, Deflater}
use wust_socket.Role.{Role}
use wust_socket.Error.{CloseReason}
use wust_socket.Protocol.Mask.{MaskKey}
use wust_socket.Protocol.Ping.{on_pong, new_nonce, nonce_len}
use wust_socket.Frames.Opcode.{Opcode}
use wust_socket.Frames.Control
use wust_socket.Frames.Control.Close.{close-wire}
use wust_socket.Frames.Control.Layout.{encode-wire, control_header}
use wust_socket.Frames.Wire.{wire}
use wust_socket.Ws.FrameHandler.Safety.{close_bytes}
use wust_socket.Protocol.Ping.Nonce.{on_pong-ok_iff}
use wust_socket.Ws.Event.{Event}
use wust_socket.Ws.WebSocket.{
  WebSocket, Message, MessageHandler, close_reason, send_text, send_bytes, ping, recv_loop,
  handle_ws_message,
}

module _ (tx : Sender (List ℕ)) (z : Deflater) (r : Role) (keys : ℕ → ℕ → MaskKey) where
  -- Any calls of `close_reason`, one after the other; `close` is one of them.
  abbrev pub close_all : List (CloseReason × List ℕ) → WebSocket tx z → Option (WebSocket tx z)
  close_all [] ws = some ws
  close_all ((reason, why) ∷ calls) ws = elim (close_reason tx z r keys reason why ws) [
    | none ↦ none
    | some ws' ↦ close_all calls ws'
  ]

  close_all-closing :
      (calls : List (CloseReason × List ℕ)) (ws : WebSocket tx z)
      → ws.closing ≡ true
      → close_all calls ws ≡ some ws
  close_all-closing [] ws c = refl
  close_all-closing ((reason, why) ∷ calls) ws c =
      let nothing : close_reason tx z r keys reason why ws ≡ some ws =
        unfold close_reason in ground arith in
      rw (nothing, close_all) (close_all-closing calls ws c)

  -- What a send hands over, by its result.
  abbrev pub handed : List ℕ → Result (List ℕ) (Unit {0}) → List (List ℕ)
  handed frame (ok u) = frame ∷ []
  handed frame (err x) = []

  sent-handed :
      (frame : List ℕ) (s : tx.State)
      → tx.sent (tx.send frame s).1 ≡ tx.sent s ++ handed frame (tx.send frame s).0
  sent-handed frame s = elim (Result-cases (tx.send frame s).0) [
    | inl (u, e) ↦ rw e (tx.send_ok frame s u e)
    | inr (x, e) ↦ rw e (tx.send_err frame x s e ∙ sym (append-nil (tx.sent s)))
  ]

  -- However often an open connection is closed by its handle, with whatever reasons: nothing
  -- panics, `closing` is set, and what the calls send is one close frame, that of the first call,
  -- and nothing else: that frame alone has been handed over more than before, or nothing has, if the
  -- channel gave it back. The other channels are not used.
  pub close_once :
      (reason : CloseReason) (why : List ℕ) (calls : List (CloseReason × List ℕ))
      (ws : WebSocket tx z)
      → ws.closing ≡ false
      → let frame = close_bytes r reason why (keys ws.calls 0) in
        (ws' : WebSocket tx z) × (close_all ((reason, why) ∷ calls) ws ≡ some ws')
        × (ws'.closing ≡ true)
        × (tx.sent ws'.close_tx ≡ tx.sent ws.close_tx ++ handed frame (tx.send frame ws.close_tx).0)
        × (ws'.ctrl_tx ≡ ws.ctrl_tx)
        × (ws'.data_tx ≡ ws.data_tx)
  close_once reason why calls ws c =
      let frame = close_bytes r reason why (keys ws.calls 0) in
      let ws' : WebSocket tx z = record ws {
        closing = true;
        close_tx = (tx.send frame ws.close_tx).1;
        calls = ws.calls + 1;
      } in
      let first : close_reason tx z r keys reason why ws ≡ some ws' =
        unfold close_reason in ground (arith, close-wire r reason why (keys ws.calls 0)) in
      (
        ws',
        rw (first, close_all) (close_all-closing calls ws' refl),
        refl,
        sent-handed frame ws.close_tx,
        refl,
        refl,
      )

  -- A ping with eight bytes does not panic, and a pong with the same bytes, less than 2 ^ 16
  -- milliseconds later, is accepted with the time between the two as its latency.
  pub ping-on_pong :
      (now later : ℕ) (bytes : List ℕ) (ws : WebSocket tx z)
      → length bytes ≡ nonce_len
      → later - now < 2 ^ 16
      → (sent : Result (List ℕ) (Unit {0})) × (ws' : WebSocket tx z) × (ping tx z r keys now bytes
            ws
          ≡ some (sent, ws'))
        × ((on_pong ws'.ping_stats later bytes).0 ≡ ok (later - now))
  unfolding ping
  ping-on_pong now later bytes ws h l =
      let key = keys ws.calls 0 in
      let (sent, ctrl_tx) = tx.send (wire r (control_header Opcode.ping) key bytes) ws.ctrl_tx in
      let stats = (new_nonce ws.ping_stats now bytes).1 in
      (
        sent,
        record ws { ping_stats = stats; ctrl_tx = ctrl_tx; calls = ws.calls + 1 },
        unfold Control.ping new_nonce in
            ground (arith, encode-wire r Opcode.ping bytes key (omega arith)),
        (on_pong-ok_iff stats later (later - now) bytes).1 (unfold new_nonce in (refl, refl, l)),
      )

  module _ (h : MessageHandler) where
    abbrev is_closed : Event → Bool
    is_closed Event.closed = true
    is_closed _ = false

    -- The handler of an event: the reply, and the handler's state.
    abbrev pub on_event : Event → h.State → Option Message × h.State
    on_event (Event.text t) s = h.on_text t s
    on_event (Event.binary b) s = h.on_binary b s
    on_event (Event.pong latency) s = (none, h.on_pong latency s)
    on_event Event.closed s = (none, h.on_close s)

    -- The state after the handlers of all these events, in order, and their replies.
    abbrev pub state_after : List Event → h.State → h.State
    state_after [] s = s
    state_after (e ∷ events) s = state_after events (on_event e s).1

    abbrev pub replies : List Event → h.State → List Message
    replies [] s = []
    replies (e ∷ events) s =
        let later = replies events (on_event e s).1 in
        elim (on_event e s).0 [ none ↦ later | some m ↦ m ∷ later ]

    -- Each message is sent, with its kind; errors are dropped.
    abbrev pub send_each : List Message → WebSocket tx z → WebSocket tx z
    send_each [] ws = ws
    send_each (Message.text v ∷ ms) ws =
        send_each ms (send_text tx z r keys (record { inner = v }) ws).1
    send_each (Message.binary b ∷ ms) ws = send_each ms (send_bytes tx z r keys b ws).1

    replied :
        (reply : Option Message) (ms : List Message) (ws : WebSocket tx z)
        → send_each ms (handle_ws_message tx z r keys reply ws)
          ≡ send_each (elim reply [ none ↦ ms | some m ↦ m ∷ ms ]) ws
    unfolding handle_ws_message send_text send_bytes
    replied none ms ws = refl
    replied (some (Message.text v)) ms ws = refl
    replied (some (Message.binary b)) ms ws = refl

    -- `recv_loop` handles every event before `Closed` exactly once, in order: it ends at the first
    -- `Closed`, with the handler's state after the handlers of all of them, each by its kind, and then
    -- that of `on_close`; the handle has sent the replies, in order, and nothing else; and the events
    -- behind `Closed` are not received.
    pub recv_loop_closes :
        (events later : List Event) (s : h.State) (ws : WebSocket tx z)
        → All (λ e. is_closed e ≡ false) events
        → recv_loop tx z r keys h (events ++ Event.closed ∷ later) s ws
          ≡ (h.on_close (state_after events s), send_each (replies events s) ws, later)
    unfolding recv_loop
    recv_loop_closes [] later s ws v = refl
    recv_loop_closes (Event.text t ∷ events) later s ws v =
        let (reply, s') = h.on_text t s in
        recv_loop_closes events later s' (handle_ws_message tx z r keys reply ws) v.1
        ∙ ap (λ w. (h.on_close (state_after events s'), w, later))
            (replied reply (replies events s') ws)
    recv_loop_closes (Event.binary b ∷ events) later s ws v =
        let (reply, s') = h.on_binary b s in
        recv_loop_closes events later s' (handle_ws_message tx z r keys reply ws) v.1
        ∙ ap (λ w. (h.on_close (state_after events s'), w, later))
            (replied reply (replies events s') ws)
    recv_loop_closes (Event.pong latency ∷ events) later s ws v =
        recv_loop_closes events later (h.on_pong latency s) ws v.1
    recv_loop_closes (Event.closed ∷ events) later s ws v = cc (v.0)
