-- ===== src/Ws/PingPong.antt =====
-- A ping on its way there and back: `ping` of src/ws/websocket.rs at one end, and the reader tasks of
-- both.
use wust_socket.Prelude.{
  ℕ, ◌+◌, ◌-◌, ◌^◌, ◌≤◌, ◌<◌, ◌≡◌, ◌≢◌, refl, sym, ap, ◌∙◌, arith, List, [], ◌∷◌, ◌++◌, some, Bool,
  length, Result, ok,
}
use wust_socket.Channel.{send-handed, Sender, Deflater, Inflater}
use wust_socket.Role.{Role, peer, peer-peer}
use wust_socket.Protocol.Mask.{MaskKey}
use wust_socket.Protocol.Ping.{on_pong, new_nonce, nonce_len}
use wust_socket.Protocol.Ping.Nonce.{on_pong-ok_iff}
use wust_socket.Frames.Opcode.{Opcode}
use wust_socket.Frames.Control
use wust_socket.Frames.Control.Layout.{encode-wire, control_header}
use wust_socket.Frames.Wire.{wire}
use wust_socket.Frames.RoundTrip.{IsReady}
use wust_socket.Frames.RoundTrip.Steps.{decoded}
use wust_socket.Frames.Sequence.{Frame, IsTaken, wires, decoded_all, wires-Gives}
use mathlib.Core.Path.{subst}
use wust_socket.Prelude.{append-nil}
use wust_socket.Frames.Decode.{push_bytes}
use wust_socket.Frames.Delivery.{IsReady-push}
use wust_socket.Ws.FrameHandler.Assembly.{handle_frames, and_then}
use wust_socket.Ws.Reader.Pieces.{Handles}
use wust_socket.Ws.Reader.Delivery.{Gives-Handles}
use wust_socket.Ws.Event.{Event}
use wust_socket.Ws.FrameHandler.{
  Handled, Action, Flow, Conn, handle_frame, by_opcode, handle_pong, after_pong,
}
use wust_socket.Ws.FrameHandler.Interleaved.{by_opcode-ping}
use wust_socket.Ws.Reader.{Reader, Ended, on_bytes}
use wust_socket.Ws.Reader.OneFrame.{on_bytes-frame}
use wust_socket.Ws.WebSocket.{WebSocket, ping}

-- A control frame.
abbrev pub control_frame : Opcode → MaskKey → List ℕ → Frame
control_frame o key payload = record { header = control_header o; key = key; payload = payload }

pub control_frame-IsTaken :
    (deflate : Bool) (o : Opcode) (key : MaskKey) (payload : List ℕ)
    → length payload ≤ 125
    → o ≢ Opcode.close
    → IsTaken deflate (control_frame o key payload)
control_frame-IsTaken deflate o key payload short other = record {
  allowed = record { agreed = λ e. cc; whole = λ e. refl; plain = λ e. refl; short = λ e. short };
  fits = omega arith;
  valid_close = λ e. absurd (other e);
}

-- A pong that `on_pong` accepts.
pub handle_pong-accepted :
    (z : Inflater) (r : Role) (key : MaskKey) (now latency : ℕ) (use_context deflate : Bool)
    (payload : List ℕ) (c : Conn z)
    → length payload ≡ nonce_len
    → (on_pong c.ping_stats now payload).0 ≡ ok latency
    → by_opcode z r key now use_context Opcode.pong (decoded (control_header Opcode.pong) payload) c
      ≡ record {
        flow = Flow.goes_on;
        conn = record c { ping_stats = (on_pong c.ping_stats now payload).1 };
        actions = Action.event (Event.pong latency) ∷ [];
      }
unfolding by_opcode handle_pong after_pong
handle_pong-accepted z r key now latency use_context deflate payload c size accepted = ground arith

-- The handle after `ping`.
abbrev pub pinged :
    (tx : Sender (List ℕ)) (zd : Deflater) (r : Role) (keys : ℕ → ℕ → MaskKey) (now : ℕ)
    (bytes : List ℕ) (ws : WebSocket tx zd)
    → Result (List ℕ) (Unit {0}) × WebSocket tx zd
pinged tx zd r keys now bytes ws =
    let (sent, ctrl_tx) =
      tx.send (wire r (control_header Opcode.ping) (keys ws.calls 0) bytes) ws.ctrl_tx in
    (
      sent,
      record ws {
        ping_stats = (new_nonce ws.ping_stats now bytes).1;
        ctrl_tx = ctrl_tx;
        calls = ws.calls + 1;
      },
    )

pub ping-lem :
    (tx : Sender (List ℕ)) (zd : Deflater) (r : Role) (keys : ℕ → ℕ → MaskKey) (now : ℕ)
    (bytes : List ℕ) (ws : WebSocket tx zd)
    → length bytes ≡ nonce_len
    → ping tx zd r keys now bytes ws ≡ some (pinged tx zd r keys now bytes ws)
unfolding ping Control.ping new_nonce
ping-lem tx zd r keys now bytes ws size =
    ground (arith, encode-wire r Opcode.ping bytes (keys ws.calls 0) (omega arith))

module _ (tx : Sender (List ℕ)) (zd : Deflater) (za zb : Inflater) (r : Role) (use_context : Bool)
    (a_reads b_reads : ℕ → MaskKey) (keys : ℕ → ℕ → MaskKey) where
  ping-sent :
      (ws ws' : WebSocket tx zd) (now : ℕ) (bytes frame : List ℕ)
      (result : Result (List ℕ) (Unit {0}))
      → length bytes ≡ nonce_len
      → ping tx zd (peer r) keys now bytes ws ≡ some (result, ws')
      → tx.sent ws'.ctrl_tx ≡ tx.sent ws.ctrl_tx ++ frame ∷ []
      → (frame ≡ wire (peer r) (control_header Opcode.ping) (keys ws.calls 0) bytes)
        × (ws'.ping_stats ≡ (new_nonce ws.ping_stats now bytes).1)
  ping-sent ws ws' now bytes frame result size pings sent =
      let b = wire (peer r) (control_header Opcode.ping) (keys ws.calls 0) bytes in
      let same : pinged tx zd (peer r) keys now bytes ws ≡ (result, ws') =
        ground (arith, ping-lem tx zd (peer r) keys now bytes ws size) in
      (
        sym (send-handed tx b frame ws.ctrl_tx (ap (λ x. tx.sent x.1.ctrl_tx) same ∙ sent)),
        ap (λ x. x.1.ping_stats) (sym same),
      )

  -- A ping there and back. One end calls `ping`, with eight random bytes, and its frame is handed
  -- over. The reader task of the other end answers it with one pong, and does nothing else. The
  -- reader task of the first end, which shares the statistics with `ping` and reads the pong less
  -- than 2 ^ 16 milliseconds later, hands out one event, with the time in between as the latency,
  -- and sends nothing. Both readers have nothing buffered, take the same settings, and each frame
  -- comes in one read.
  pub ping-returns :
      (ws ws' : WebSocket tx zd) (bytes frame : List ℕ) (result : Result (List ℕ) (Unit {0}))
      (a : Reader za (peer r) use_context a_reads) (b : Reader zb r use_context b_reads)
      (deflate : Bool) (now between later : ℕ)
      → length bytes ≡ nonce_len
      → later - now < 2 ^ 16
      → ping tx zd (peer r) keys now bytes ws ≡ some (result, ws')
      → tx.sent ws'.ctrl_tx ≡ tx.sent ws.ctrl_tx ++ frame ∷ []
      → IsReady a.decoder deflate []
      → IsReady b.decoder deflate []
      → a.conn.ping_stats ≡ ws'.ping_stats
      → let answer = wire r (control_header Opcode.pong) (b_reads b.draws) bytes in
        (b' : Reader zb r use_context b_reads) × (a' : Reader za (peer r) use_context a_reads)
        × (on_bytes zb r use_context b_reads between frame b ≡ some (Ended.breaks b'))
        × (b'.actions ≡ b.actions ++ Action.ctrl answer ∷ [])
        × (b'.conn ≡ b.conn)
        × (on_bytes za (peer r) use_context a_reads later answer a ≡ some (Ended.breaks a'))
        × (a'.actions ≡ a.actions ++ Action.event (Event.pong (later - now)) ∷ [])
        × (a'.conn ≡ record (a.conn) { ping_stats = (on_pong a.conn.ping_stats later bytes).1 })
  unfolding handle_frame
  ping-returns ws ws' bytes frame result a b deflate now between later size soon pings sent ready_a
        ready_b shared =
      let (is_frame, stats) = ping-sent ws ws' now bytes frame result size pings sent in
      let accepted : (on_pong a.conn.ping_stats later bytes).0 ≡ ok (later - now) =
        ap (λ s. (on_pong s later bytes).0) (shared ∙ stats)
        ∙ (on_pong-ok_iff (new_nonce ws.ping_stats now bytes).1 later (later - now) bytes).1
            (unfold new_nonce in (refl, refl, soon)) in
      let (b', reads_b, conn_b, actions_b, _) =
        on_bytes-frame zb r use_context b_reads deflate between
          (control_frame Opcode.ping (keys ws.calls 0) bytes) b _ ready_b
          (control_frame-IsTaken deflate Opcode.ping (keys ws.calls 0) bytes (omega arith)
            (λ e. cc))
          (by_opcode-ping zb r use_context between (b_reads b.draws)
            (decoded (control_header Opcode.ping) bytes) b.conn (omega arith))
          refl in
      let (a', reads_a, conn_a, actions_a, _) =
        on_bytes-frame za (peer r) use_context a_reads deflate later
          (control_frame Opcode.pong (b_reads b.draws) bytes) a _ ready_a
          (control_frame-IsTaken deflate Opcode.pong (b_reads b.draws) bytes (omega arith)
            (λ e. cc))
          (handle_pong-accepted za (peer r) (a_reads a.draws) later (later - now) use_context
            deflate bytes a.conn size accepted)
          refl in
      (
        b',
        a',
        ap (λ x. on_bytes zb r use_context b_reads between x b) is_frame ∙ reads_b,
        actions_b,
        conn_b,
        ap
              (λ p.
                on_bytes za (peer r) use_context a_reads later
                  (wire p (control_header Opcode.pong) (b_reads b.draws) bytes) a)
              (sym (peer-peer r))
            ∙ reads_a,
        actions_a,
        conn_a,
      )

-- A ping that is read in several pieces, or together with what comes behind it.
pub ping-Handles :
    (z : Inflater) (r : Role) (use_context : Bool) (reads : ℕ → MaskKey) (deflate : Bool)
    (key : MaskKey) (payload : List ℕ) (s : Reader z r use_context reads)
    → IsReady s.decoder deflate []
    → length payload ≤ 125
    → (s' : Reader z r use_context reads) × Handles z r use_context reads s
        (wire (peer r) (control_header Opcode.ping) key payload)
        s'
      × (s'.conn ≡ s.conn)
      × (s'.actions
          ≡ s.actions
            ++ Action.ctrl (wire r (control_header Opcode.pong) (reads s.draws) payload) ∷ [])
      × IsReady s'.decoder deflate []
unfolding handle_frames handle_frame
ping-Handles z r use_context reads deflate key payload s ready short =
    let f = control_frame Opcode.ping key payload in
    let bytes = wire (peer r) (control_header Opcode.ping) key payload in
    let pushed : IsReady (push_bytes s.decoder bytes) deflate (wires (peer r) (f ∷ [])) =
      subst (λ b. IsReady (push_bytes s.decoder bytes) deflate b) (sym (append-nil bytes))
        (IsReady-push ready bytes) in
    let taken = control_frame-IsTaken deflate Opcode.ping key payload short (λ e. cc) in
    let gives = wires-Gives r deflate (f ∷ []) (push_bytes s.decoder bytes) (taken, tt) pushed in
    let out : Handled z = record {
      flow = Flow.goes_on;
      conn = s.conn;
      actions = Action.ctrl (wire r (control_header Opcode.pong) (reads s.draws) payload) ∷ [];
    } in
    let handled : handle_frames z r reads 0 use_context s.draws (decoded_all (f ∷ [])) s.conn
        ≡ out =
      ap
        (λ x.
          and_then z r reads 0 use_context x
            (λ c. handle_frames z r reads 0 use_context (s.draws + 1) [] c))
        (by_opcode-ping z r use_context 0 (reads s.draws)
          (decoded (control_header Opcode.ping) payload) s.conn short) in
    (
      _,
      Gives-Handles z r use_context reads deflate bytes (decoded_all (f ∷ [])) s out gives
          (λ e. cc, tt) handled refl,
      refl,
      refl,
      gives.ready,
    )
