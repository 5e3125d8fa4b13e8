-- ===== src/Session/Copy.antt =====
-- The example client (src/bin/client.rs) against the echo server (src/bin/server.rs): its ping, the
-- messages that it sends, and the file that it writes at the end. What both print is left out.
use wust_socket.Prelude.{
  ℕ, ◌≤◌, ◌≡◌, refl, ap, ◌∙◌, List, [], ◌∷◌, ◌++◌, Option, some, none, true, false, ok, concat,
  length,
}
use wust_socket.Prelude.Utf8.{is_utf8}
use wust_socket.Channel.{Sender, Deflater, Inflater}
use wust_socket.Role.{Role}
use wust_socket.Protocol.Mask.{MaskKey}
use wust_socket.Frames.Limits.{max_message_size}
use wust_socket.Http.Headers.{Lowercase}
use wust_socket.Http.Accept.{Digest, Settings}
use wust_socket.Server
use wust_socket.Client
use wust_socket.Client.{ClientContext, request}
use wust_socket.Handshake.Lines.{LineReader}
use wust_socket.Handshake.RequestText.{IsPlain}
use wust_socket.Ws.Event.{Event}
use wust_socket.Ws.Reader.{Reader, Ended, reader_loop, new_reader}
use wust_socket.Ws.Reader.Pieces.{as_reads, bytes_of}
use wust_socket.Ws.WebSocket.{WebSocket, from_stream, recv_loop}
use wust_socket.Ws.WebSocket.Compressed.{Codec}
use wust_socket.Ws.WebSocket.Messages.{as_events}
use wust_socket.Echo.{echo_handler, events}
use wust_socket.Echo.Transfer.{
  transfer, write_events, in_time, without_pongs-as_events, write_events-transfer,
}
use wust_socket.Echo.Sending.{send_all, send_all-Sends, transfer-IsSendable}
use wust_socket.Prelude.{◌-◌, ◌^◌, ◌<◌, arith, inl}
use wust_socket.Protocol.Ping.{on_pong, new_nonce, nonce_len}
use wust_socket.Protocol.Ping.Nonce.{on_pong-ok_iff}
use wust_socket.Frames.Opcode.{Opcode}
use wust_socket.Frames.Wire.{wire}
use wust_socket.Frames.Control.Layout.{control_header}
use wust_socket.Ws.FrameHandler.{Action, handle_frame}
use wust_socket.Ws.Reader.{Read}
use wust_socket.Ws.Reader.OneFrame.{on_bytes-frame}
use wust_socket.Ws.Reader.Delivery.{Handles-nothing}
use wust_socket.Ws.PingPong.{
  ping-Handles, control_frame, control_frame-IsTaken, handle_pong-accepted,
}
use wust_socket.Ws.WebSocket.Conversation.{new-IsReady, delivers_after}
use wust_socket.Handshake.Request.{try_upgrade-agrees}
use wust_socket.Echo.{recv_loop-Sends}
use wust_socket.Echo.Sending.{send_transfer, send_transfer-ok}

module _ (tx : Sender (List ℕ)) (zd : Deflater) (zi : Inflater) (codec : Codec zd zi)
    (digest : Digest) (lower : Lowercase) (lines : LineReader) where
  -- An end after the handshake of the example client, which asks for no compression.
  abbrev opened : (now : ℕ) (close_tx ctrl_tx data_tx : tx.State) (e : zd.Encoder) → WebSocket tx zd
  opened now close_tx ctrl_tx data_tx e =
      from_stream tx zd now close_tx ctrl_tx data_tx e false true

  -- The client has sent its ping and then its text, twice, and the chunks of its file, all without
  -- an error, and the echo server has sent its echoes without an error. The server reads the ping and
  -- the messages, in whatever pieces; the client reads the pong that the server has answered, by
  -- itself and less than 2 ^ 16 milliseconds after the ping, and then the echoes, in whatever pieces.
  -- Then the handshake succeeds, with the streams kept; the server's reader answers with that one pong
  -- and hands out the messages, `recv_loop` there echoes them, and the file that the client writes
  -- from the events it gets, up to the first wait without one, is the file that it has read. The host
  -- has no white space, and the path has none and is not empty; the nonce has eight bytes; the text
  -- is valid UTF-8 of at most `MAX_MESSAGE_SIZE` bytes; the statistics of the client's ping are those
  -- that its reader task shares.
  pub session-copies :
      (ctx : ClientContext) (key nonce lorem file ping_frame : List ℕ)
      (server_reads client_reads : ℕ → MaskKey) (client_keys server_keys : ℕ → ℕ → MaskKey)
      (client' server' : WebSocket tx zd) (now pinged_at later : ℕ)
      (close_tx ctrl_tx data_tx : tx.State) (close_tx2 ctrl_tx2 data_tx2 : tx.State)
      (e e2 : zd.Encoder) (sent replied : List (List ℕ)) (reads reads2 : List (ℕ × List ℕ))
      (more : List (Option Event)) (u v : Unit {0})
      → IsPlain ctx
      → is_utf8 lorem ≡ true
      → length lorem ≤ max_message_size
      → length nonce ≡ nonce_len
      → later - pinged_at < 2 ^ 16
      → send_transfer tx zd Role.client client_keys pinged_at nonce lorem file
          (opened now close_tx ctrl_tx data_tx e)
        ≡ some (ok u, client')
      → send_all tx zd Role.server server_keys
          (transfer lorem file)
          (opened now close_tx2 ctrl_tx2 data_tx2 e2)
        ≡ (ok v, server')
      → tx.sent client'.ctrl_tx ≡ tx.sent ctrl_tx ++ ping_frame ∷ []
      → tx.sent client'.data_tx ≡ tx.sent data_tx ++ sent
      → bytes_of reads ≡ ping_frame ++ concat sent
      → tx.sent server'.data_tx ≡ tx.sent data_tx2 ++ replied
      → bytes_of reads2 ≡ concat replied
      → let settings : Settings = record { compressed = false; use_context = true } in
        let req = request ctx (digest.base64 key) false true in
        let pong = wire Role.server (control_header Opcode.pong) (server_reads 0) nonce in
        let fresh = new_reader zi Role.client true client_reads now none in
        let stats = (new_nonce fresh.conn.ping_stats pinged_at nonce).1 in
        let shared : Reader zi Role.client true client_reads = record fresh {
          conn = record (fresh.conn) { ping_stats = stats };
        } in
        (response : List ℕ) × (s : Reader zi Role.server true server_reads) × (c : Reader zi
          Role.client true client_reads)
        × (Server.try_upgrade digest lower true true (lines.read req)
            ≡ (response ∷ [], ok settings))
        × (Client.try_upgrade digest lower ctx key false true true true (lines.read response)
            ≡ (req ∷ [], ok settings))
        × (reader_loop zi Role.server true server_reads
              (as_reads reads)
              (new_reader zi Role.server true server_reads now none)
            ≡ some (Ended.breaks s))
        × (s.actions ≡ Action.ctrl pong ∷ as_events (transfer lorem file))
        × (recv_loop tx zd Role.server server_keys echo_handler
              (events s.actions)
              tt
              (opened now close_tx2 ctrl_tx2 data_tx2 e2)
            ≡ (tt, server', []))
        × (reader_loop zi Role.client true client_reads
              (Read.bytes later pong ∷ as_reads reads2)
              shared
            ≡ some (Ended.breaks c))
        × (write_events (in_time (events c.actions) ++ none ∷ more) [] ≡ file)
  unfolding from_stream new_reader reader_loop handle_frame
  session-copies ctx key nonce lorem file ping_frame server_reads client_reads client_keys
        server_keys client' server' now pinged_at later close_tx ctrl_tx data_tx close_tx2 ctrl_tx2
        data_tx2 e e2 sent replied reads reads2 more u v plain utf8 fits size soon sends echoes
        handed all whole all2 whole2 =
      let ms = transfer lorem file in
      let client = opened now close_tx ctrl_tx data_tx e in
      let pong = wire Role.server (control_header Opcode.pong) (server_reads 0) nonce in
      let s0 = new_reader zi Role.server true server_reads now none in
      let fresh = new_reader zi Role.client true client_reads now none in
      let c0 : Reader zi Role.client true client_reads = record fresh {
        conn = record (fresh.conn) {
          ping_stats = (new_nonce fresh.conn.ping_stats pinged_at nonce).1;
        };
      } in
      let can = transfer-IsSendable lorem file utf8 fits in
      let (later_sends, is_ping) =
        send_transfer-ok tx zd Role.client client_keys pinged_at nonce lorem file ping_frame client
          client' u size sends handed in
      let there =
        send_all-Sends tx zd Role.server true client_keys ms _ client' u refl can later_sends in
      let back = send_all-Sends tx zd Role.client true server_keys ms _ server' v refl can echoes in
      let (response, (answered, accepted)) =
        try_upgrade-agrees digest lower lines ctx key false true plain in
      let (s1, pinged, same_conn, ponged, ready1) =
        ping-Handles zi Role.server true server_reads false (client_keys 0 0) nonce s0
          (new-IsReady tx zd zi codec Role.server false true server_reads client_keys false)
          (omega arith) in
      let (s, reading, got) =
        delivers_after tx zd zi codec Role.server false true server_reads client_keys
          (wire Role.client (control_header Opcode.ping) (client_keys 0 0) nonce) s0 s1 sent reads
          (new-IsReady tx zd zi codec Role.server false true server_reads client_keys false) pinged
          (record {
            streams = inl (refl, refl, ap (λ x. x.inflater) same_conn);
            context = refl;
            ready = ready1;
            whole = ap (λ x. x.partial_msg) same_conn;
          })
          there all (whole ∙ ap (λ x. x ++ concat sent) is_ping) in
      let accepts : (on_pong c0.conn.ping_stats later nonce).0 ≡ ok (later - pinged_at) =
        (on_pong-ok_iff c0.conn.ping_stats later (later - pinged_at) nonce).1
          (unfold new_nonce in (refl, refl, soon)) in
      let (c1, first, conn1, events1, ready2) =
        on_bytes-frame zi Role.client true client_reads false later
          (control_frame Opcode.pong (server_reads 0) nonce) c0 _
          (new-IsReady tx zd zi codec Role.client false true client_reads server_keys false)
          (control_frame-IsTaken false Opcode.pong (server_reads 0) nonce (omega arith) (λ k. cc))
          (handle_pong-accepted zi Role.client (client_reads 0) later (later - pinged_at) true false
            nonce c0.conn size accepts)
          refl in
      let (c, reading2, got2) =
        delivers_after tx zd zi codec Role.client false true client_reads server_keys [] c1 c1
          replied reads2 ready2 (Handles-nothing zi Role.client true client_reads false c1 ready2)
          (record {
            streams = inl (refl, refl, ap (λ x. x.inflater) conn1);
            context = refl;
            ready = ready2;
            whole = ap (λ x. x.partial_msg) conn1;
          })
          back all2 whole2 in
      let acted = got ∙ ap (λ a. a ++ as_events ms) ponged in
      let client_acted = got2 ∙ ap (λ a. a ++ as_events ms) events1 in
      (
        response,
        s,
        c,
        answered,
        accepted,
        reading,
        acted,
        ap
              (λ a.
                recv_loop tx zd Role.server server_keys echo_handler (events a) tt
                  (opened now close_tx2 ctrl_tx2 data_tx2 e2))
              acted
            ∙ recv_loop-Sends tx zd zi codec false true client_reads server_keys back,
        rw (first, reader_loop) reading2,
        ap (λ a. write_events (in_time (events a) ++ none ∷ more) []) client_acted
            ∙ write_events-transfer lorem file
                (Event.pong (later - pinged_at) ∷ events (as_events ms)) more
                (without_pongs-as_events ms),
      )
