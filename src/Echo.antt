-- ===== src/Echo.antt =====
-- src/bin/server.rs: the handler of the echo server, and messages that go there and back. What the
-- handler prints is left out.
pub mod Transfer
pub mod Sending
use wust_socket.Prelude.{
  ℕ, ◌≡◌, refl, ap, ◌∙◌, List, [], ◌∷◌, ◌++◌, Option, none, some, Bool, if◌then◌else◌, concat,
}
use wust_socket.Channel.{Sender, Deflater, Inflater}
use wust_socket.Role.{Role}
use wust_socket.Protocol.Mask.{MaskKey}
use wust_socket.Ws.Event.{Event}
use wust_socket.Ws.FrameHandler.{Action}
use wust_socket.Ws.Reader.{Reader, Ended, reader_loop, new_reader}
use wust_socket.Ws.Reader.Pieces.{as_reads, bytes_of}
use wust_socket.Ws.WebSocket.{
  WebSocket, Message, MessageHandler, from_stream, send_text, send_bytes, recv_loop,
  handle_ws_message,
}
use wust_socket.Ws.WebSocket.Compressed.{Codec}
use wust_socket.Ws.WebSocket.Messages.{Sends, as_events}
use wust_socket.Ws.WebSocket.Conversation.{from_stream-delivers}

-- `EchoHandler`
abbrev pub echo_handler : MessageHandler
echo_handler = record {
  State = Unit {0};
  on_text = λ t s. (some (Message.text t.inner), s);
  on_binary = λ b s. (some (Message.binary b), s);
  on_close = λ s. s;
  on_pong = λ latency s. s;
}

-- What the reader task puts into the channel of the events.
abbrev pub events : List Action → List Event
events [] = []
events (Action.event e ∷ actions) = e ∷ events actions
events (Action.ctrl b ∷ actions) = events actions
events (Action.close b ∷ actions) = events actions

module _ (tx : Sender (List ℕ)) (zd : Deflater) (zi : Inflater) (codec : Codec zd zi)
    (compressed use_context : Bool) where
  open codec use {Linked}

  -- On the events of messages the echo server sends these messages.
  pub recv_loop-Sends :
      (reader_keys : ℕ → MaskKey) (keys : ℕ → ℕ → MaskKey) {ms : List Message}
      {ws ws' : WebSocket tx zd}
      → Sends tx zd Role.client use_context keys ms ws ws'
      → recv_loop tx zd Role.server keys echo_handler (events (as_events ms)) tt ws ≡ (tt, ws', [])
  unfolding recv_loop handle_ws_message send_text send_bytes
  recv_loop-Sends reader_keys keys Sends.done = refl
  recv_loop-Sends reader_keys keys (Sends.text t u sent utf8 fits later) =
      recv_loop-Sends reader_keys keys later
  recv_loop-Sends reader_keys keys (Sends.binary b u sent fits later) =
      recv_loop-Sends reader_keys keys later

  -- A connection from its start: what a new client has sent, and what a new echo server sends
  -- back, each read by the other end in whatever pieces. All the messages that the client sends come
  -- back, in order and unchanged: the server's reader hands them out, `recv_loop` there sends each
  -- of them and nothing else, and the client's reader hands them out again. No send returns an
  -- error, text is valid UTF-8, and what is sent for each message has at most `MAX_MESSAGE_SIZE`
  -- bytes; both ends have the same settings.
  pub recv_loop-echoes :
      (server_reads client_reads : ℕ → MaskKey) (client_keys server_keys : ℕ → ℕ → MaskKey)
      {ms : List Message} {client' server' : WebSocket tx zd} (now : ℕ)
      (close_tx ctrl_tx data_tx : tx.State) (close_tx2 ctrl_tx2 data_tx2 : tx.State)
      (e e2 : zd.Encoder) (d d2 : zi.Decoder) (sent replied : List (List ℕ))
      (reads reads2 : List (ℕ × List ℕ))
      → Linked e d
      → Linked e2 d2
      → Sends tx zd Role.server use_context client_keys ms
          (from_stream tx zd now close_tx ctrl_tx data_tx e compressed use_context)
          client'
      → Sends tx zd Role.client use_context server_keys ms
          (from_stream tx zd now close_tx2 ctrl_tx2 data_tx2 e2 compressed use_context)
          server'
      → tx.sent client'.data_tx ≡ tx.sent data_tx ++ sent
      → bytes_of reads ≡ concat sent
      → tx.sent server'.data_tx ≡ tx.sent data_tx2 ++ replied
      → bytes_of reads2 ≡ concat replied
      → (s : Reader zi Role.server use_context server_reads) × (c : Reader zi Role.client
          use_context client_reads)
        × (reader_loop zi Role.server use_context server_reads (as_reads reads) (
              new_reader zi Role.server use_context server_reads now
                (if compressed then some d else none))
            ≡ some (Ended.breaks s))
        × (recv_loop tx zd Role.server server_keys echo_handler
              (events s.actions)
              tt
              (from_stream tx zd now close_tx2 ctrl_tx2 data_tx2 e2 compressed use_context)
            ≡ (tt, server', []))
        × (reader_loop zi Role.client use_context client_reads (as_reads reads2) (
              new_reader zi Role.client use_context client_reads now
                (if compressed then some d2 else none))
            ≡ some (Ended.breaks c))
        × (c.actions ≡ as_events ms)
  recv_loop-echoes server_reads client_reads client_keys server_keys now close_tx ctrl_tx data_tx
        close_tx2 ctrl_tx2 data_tx2 e e2 d d2 sent replied reads reads2 linked linked2 sends echoes
        all whole all2 whole2 =
      let (s, there, got) =
        from_stream-delivers tx zd zi codec Role.server compressed use_context server_reads
          client_keys now close_tx ctrl_tx data_tx e d sent reads linked sends all whole in
      let (c, back, got2) =
        from_stream-delivers tx zd zi codec Role.client compressed use_context client_reads
          server_keys now close_tx2 ctrl_tx2 data_tx2 e2 d2 replied reads2 linked2 echoes all2
          whole2 in
      let ws = from_stream tx zd now close_tx2 ctrl_tx2 data_tx2 e2 compressed use_context in
      (
        s,
        c,
        there,
        ap (λ a. recv_loop tx zd Role.server server_keys echo_handler (events a) tt ws) got
            ∙ recv_loop-Sends client_reads server_keys echoes,
        back,
        got2,
      )
