-- ===== src/Session.antt =====
-- A whole session of this crate's client with its echo server: the opening handshake, and then all
-- messages there and back.
pub mod Copy
use wust_socket.Prelude.{
  ℕ, ◌≡◌, List, [], ◌∷◌, ◌++◌, some, none, Bool, true, ok, not, ◌||◌, if◌then◌else◌, concat,
}
use wust_socket.Channel.{Sender, Deflater, Inflater}
use wust_socket.Role.{Role}
use wust_socket.Protocol.Mask.{MaskKey}
use wust_socket.Http.Headers.{Lowercase}
use wust_socket.Http.Accept.{Digest, Settings}
use wust_socket.Server
use wust_socket.Client
use wust_socket.Client.{ClientContext, request}
use wust_socket.Handshake.Lines.{LineReader}
use wust_socket.Handshake.Request.{try_upgrade-agrees}
use wust_socket.Handshake.RequestText.{IsPlain}
use wust_socket.Ws.Reader.{Reader, Ended, reader_loop, new_reader}
use wust_socket.Ws.Reader.Pieces.{as_reads, bytes_of}
use wust_socket.Ws.WebSocket.{WebSocket, Message, from_stream, recv_loop}
use wust_socket.Ws.WebSocket.Compressed.{Codec}
use wust_socket.Ws.WebSocket.Messages.{Sends, as_events}
use wust_socket.Echo.{echo_handler, events, recv_loop-echoes}

module _ (tx : Sender (List ℕ)) (zd : Deflater) (zi : Inflater) (codec : Codec zd zi)
    (digest : Digest) (lower : Lowercase) (lines : LineReader) where
  open codec use {Linked}

  -- A client that asks for these settings is upgraded by the server, both take the settings that
  -- it asked for, with the streams kept where compression is off, and on the handles that both ends
  -- then set up with these settings every message that the client sends comes back from the echo
  -- server, in order and unchanged, in whatever pieces the bytes are read. The host has no white
  -- space, and the path has none and is not empty; no send returns an error, text is valid UTF-8,
  -- and what is sent for each message has at most `MAX_MESSAGE_SIZE` bytes; the new encoder of each
  -- end and the new decoder of the other are in step.
  pub session-echoes :
      (ctx : ClientContext) (nonce : List ℕ) (compressed keep : Bool)
      (server_reads client_reads : ℕ → MaskKey) (client_keys server_keys : ℕ → ℕ → MaskKey)
      {ms : List Message} {client' server' : WebSocket tx zd} (now : ℕ)
      (close_tx ctrl_tx data_tx : tx.State) (close_tx2 ctrl_tx2 data_tx2 : tx.State)
      (e e2 : zd.Encoder) (d d2 : zi.Decoder) (sent replied : List (List ℕ))
      (reads reads2 : List (ℕ × List ℕ))
      → IsPlain ctx
      → Linked e d
      → Linked e2 d2
      → Sends tx zd Role.server
          (not compressed || keep)
          client_keys
          ms
          (from_stream tx zd now close_tx ctrl_tx data_tx e compressed (not compressed || keep))
          client'
      → Sends tx zd Role.client
          (not compressed || keep)
          server_keys
          ms
          (from_stream tx zd now close_tx2 ctrl_tx2 data_tx2 e2 compressed (not compressed || keep))
          server'
      → tx.sent client'.data_tx ≡ tx.sent data_tx ++ sent
      → bytes_of reads ≡ concat sent
      → tx.sent server'.data_tx ≡ tx.sent data_tx2 ++ replied
      → bytes_of reads2 ≡ concat replied
      → let settings : Settings = record {
        compressed = compressed;
        use_context = not compressed || keep;
      } in
        let req = request ctx (digest.base64 nonce) compressed keep in
        let kept = settings.use_context in
        (response : List ℕ) × (s : Reader zi Role.server kept server_reads) × (c : Reader zi
          Role.client kept client_reads)
        × (Server.try_upgrade digest lower true true (lines.read req)
            ≡ (response ∷ [], ok settings))
        × (Client.try_upgrade digest lower ctx nonce compressed keep true true (lines.read response)
            ≡ (req ∷ [], ok settings))
        × (reader_loop zi Role.server kept server_reads (as_reads reads) (
              new_reader zi Role.server kept server_reads now (if compressed then some d else none))
            ≡ some (Ended.breaks s))
        × (recv_loop tx zd Role.server server_keys echo_handler
              (events s.actions)
              tt
              (from_stream tx zd now close_tx2 ctrl_tx2 data_tx2 e2 compressed kept)
            ≡ (tt, server', []))
        × (reader_loop zi Role.client kept client_reads (as_reads reads2) (
              new_reader zi Role.client kept client_reads now
                (if compressed then some d2 else none))
            ≡ some (Ended.breaks c))
        × (c.actions ≡ as_events ms)
  session-echoes ctx nonce compressed keep server_reads client_reads client_keys server_keys now
        close_tx ctrl_tx data_tx close_tx2 ctrl_tx2 data_tx2 e e2 d d2 sent replied reads reads2
        plain linked linked2 sends echoes all whole all2 whole2 =
      let (response, (answered, accepted)) =
        try_upgrade-agrees digest lower lines ctx nonce compressed keep plain in
      let (s, c, there, echoed, back, got) =
        recv_loop-echoes tx zd zi codec compressed (not compressed || keep) server_reads
          client_reads client_keys server_keys now close_tx ctrl_tx data_tx close_tx2 ctrl_tx2
          data_tx2 e e2 d d2 sent replied reads reads2 linked linked2 sends echoes all whole all2
          whole2 in
      (response, s, c, answered, accepted, there, echoed, back, got)
