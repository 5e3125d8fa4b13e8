-- ===== src/Ws/Closing.antt =====
-- The closing handshake: `close` of src/ws/websocket.rs at one end, and the reader tasks of both.
use wust_socket.Prelude.{
  ℕ, ◌+◌, ◌≡◌, refl, sym, ap, ◌∙◌, arith, List, [], ◌∷◌, ◌++◌, some, Bool, true, false, codes,
  append-nil, u16_to_be_bytes, from_be_bytes,
}
use wust_socket.Prelude.Utf8.{is_utf8, utf8_run, utf8_next}
use wust_socket.Channel.{send-handed, Sender, Deflater, Inflater}
use wust_socket.Role.{Role, peer, peer-peer}
use wust_socket.Error.{CloseReason, as_u16}
use wust_socket.Protocol.Mask.{MaskKey}
use wust_socket.Frames.Opcode.{Opcode}
use wust_socket.Frames.Control.{floor_char_boundary, boundary_at_most}
use wust_socket.Frames.Control.Close.{close_payload, close-wire}
use wust_socket.Frames.Control.Layout.{control_header}
use wust_socket.Frames.Wire.{wire}
use wust_socket.Frames.Decode.Parse.{is_valid_close_payload}
use wust_socket.Frames.RoundTrip.{IsReady}
use wust_socket.Ws.FrameHandler.{Action}
use wust_socket.Ws.FrameHandler.Safety.{close_bytes, expected_reason}
use wust_socket.Ws.Reader.{Reader, Ended, on_bytes}
use wust_socket.Ws.Reader.Closing.{on_bytes-close, answers}
use wust_socket.Ws.WebSocket.{WebSocket, close, close_reason}

close_payload-valid : is_valid_close_payload (close_payload CloseReason.normal []) ≡ true
unfolding is_valid_close_payload is_utf8 utf8_run utf8_next floor_char_boundary boundary_at_most
    u16_to_be_bytes from_be_bytes as_u16
close_payload-valid = refl

answer_payload-valid :
    is_valid_close_payload (close_payload CloseReason.normal (codes "peer closed")) ≡ true
unfolding is_valid_close_payload is_utf8 utf8_run utf8_next floor_char_boundary boundary_at_most
    u16_to_be_bytes from_be_bytes as_u16
answer_payload-valid = refl

answer_reason : expected_reason (close_payload CloseReason.normal []) ≡ CloseReason.normal
unfolding floor_char_boundary boundary_at_most u16_to_be_bytes from_be_bytes as_u16
answer_reason = refl

-- The frame that a first `close` hands over to the writer.
close-sent :
    (tx : Sender (List ℕ)) (zd : Deflater) (r : Role) (keys : ℕ → ℕ → MaskKey)
    (ws ws' : WebSocket tx zd) (frame : List ℕ)
    → ws.closing ≡ false
    → close tx zd r keys ws ≡ some ws'
    → tx.sent ws'.close_tx ≡ tx.sent ws.close_tx ++ frame ∷ []
    → (frame ≡ close_bytes r CloseReason.normal [] (keys ws.calls 0)) × (ws'.closing ≡ true)
unfolding close close_reason
close-sent tx zd r keys ws ws' frame opened closes sent =
    let bytes = close_bytes r CloseReason.normal [] (keys ws.calls 0) in
    let now : WebSocket tx zd = record ws {
      closing = true;
      close_tx = (tx.send bytes ws.close_tx).1;
      calls = ws.calls + 1;
    } in
    let done : now ≡ ws' = ground (arith, close-wire r CloseReason.normal [] (keys ws.calls 0)) in
    let sent' = ap (λ w. tx.sent w.close_tx) done ∙ sent in
    (sym (send-handed tx bytes frame ws.close_tx sent'), ap (λ w. w.closing) (sym done))

module _ (tx : Sender (List ℕ)) (zd : Deflater) (za zb : Inflater) (r : Role) (use_context : Bool)
    (a_reads b_reads : ℕ → MaskKey) (keys : ℕ → ℕ → MaskKey) where
  -- The closing handshake. One end calls `close` on an open connection, and its close frame is
  -- handed over. The reader task of the other end, which has closed nothing, answers it with one
  -- close frame with the code of a normal close and nothing else, and is closing. The reader task
  -- of the first end, whose flag `close` has set, sends nothing for that answer. So each end sends
  -- one close frame, and both are closing. Both readers have nothing buffered, take the same settings,
  -- and each frame comes in one read.
  pub close-answered :
      (ws ws' : WebSocket tx zd) (frame : List ℕ) (a : Reader za (peer r) use_context a_reads)
      (b : Reader zb r use_context b_reads) (deflate : Bool) (now later : ℕ)
      → ws.closing ≡ false
      → close tx zd (peer r) keys ws ≡ some ws'
      → tx.sent ws'.close_tx ≡ tx.sent ws.close_tx ++ frame ∷ []
      → IsReady a.decoder deflate []
      → IsReady b.decoder deflate []
      → a.conn.closing ≡ ws'.closing
      → b.conn.closing ≡ false
      → let answer = close_bytes r CloseReason.normal (codes "peer closed") (b_reads b.draws) in
        (b' : Reader zb r use_context b_reads) × (a' : Reader za (peer r) use_context a_reads)
        × (on_bytes zb r use_context b_reads now frame b ≡ some (Ended.breaks b'))
        × (b'.actions ≡ b.actions ++ Action.close answer ∷ [])
        × (b'.conn ≡ record (b.conn) { closing = true })
        × (on_bytes za (peer r) use_context a_reads later answer a ≡ some (Ended.breaks a'))
        × (a'.actions ≡ a.actions)
        × (a'.conn ≡ record (a.conn) { closing = true })
  unfolding u16_to_be_bytes floor_char_boundary
  close-answered ws ws' frame a b deflate now later opened closes sent ready_a ready_b shared
        b_open =
      let (is_frame, closing) = close-sent tx zd (peer r) keys ws ws' frame opened closes sent in
      let payload = close_payload CloseReason.normal [] in
      let text = close_payload CloseReason.normal (codes "peer closed") in
      let h = control_header Opcode.close in
      let (b', reads_b, conn_b, actions_b, _) =
        on_bytes-close zb r use_context b_reads deflate now (keys ws.calls 0) payload b ready_b
          (omega arith) close_payload-valid in
      let (a', reads_a, conn_a, actions_a, _) =
        on_bytes-close za (peer r) use_context a_reads deflate later (b_reads b.draws) text a
          ready_a (omega arith) answer_payload-valid in
      let quiet : answers za (peer r) use_context a_reads text a ≡ [] =
        ground (arith, shared, closing) in
      let speaks : answers zb r use_context b_reads payload b
          ≡ Action.close (close_bytes r CloseReason.normal (codes "peer closed") (b_reads b.draws))
            ∷ [] =
        rw b_open (
          ap (λ c. Action.close (close_bytes r c (codes "peer closed") (b_reads b.draws)) ∷ [])
            answer_reason) in
      (
        b',
        a',
        ap (λ f. on_bytes zb r use_context b_reads now f b) is_frame ∙ reads_b,
        actions_b ∙ ap (λ x. b.actions ++ x) speaks,
        conn_b,
        ap (λ p. on_bytes za (peer r) use_context a_reads later (wire p h (b_reads b.draws) text) a)
              (sym (peer-peer r))
            ∙ reads_a,
        actions_a ∙ ap (λ x. a.actions ++ x) quiet ∙ append-nil a.actions,
        conn_a,
      )
