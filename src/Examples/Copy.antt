-- ===== src/Examples/Copy.antt =====
-- The example client and the echo server with a short text and a file of three bytes.
use wust_socket.Prelude.{
  ℕ, ◌≡◌, refl, ap, arith, List, [], ◌∷◌, ◌++◌, none, some, true, false, ok, concat, codes,
}
use wust_socket.Prelude.Slices.{as_chunks}
use wust_socket.Prelude.Utf8.{is_utf8, utf8_run, utf8_next}
use wust_socket.Role.{Role}
use wust_socket.Protocol.Ping.{new_nonce}
use wust_socket.Frames.Opcode.{Opcode}
use wust_socket.Frames.Wire.{wire}
use wust_socket.Frames.Control.Layout.{control_header}
use wust_socket.Frames.Data.{data_frames, all_frames, all_frames_by, send_chunks, send_remainder}
use wust_socket.Http.Accept.{Settings}
use wust_socket.Server
use wust_socket.Client
use wust_socket.Client.{request}
use wust_socket.Ws.FrameHandler.{Action}
use wust_socket.Ws.PingPong.{pinged, ping-lem}
use wust_socket.Ws.Reader.{Reader, Ended, Read, reader_loop, new_reader}
use wust_socket.Ws.Reader.Pieces.{as_reads}
use wust_socket.Ws.WebSocket.{WebSocket, recv_loop, from_stream, send_text, send_bytes}
use wust_socket.Ws.WebSocket.Messages.{as_events}
use wust_socket.Echo.{echo_handler, events}
use wust_socket.Echo.Transfer.{transfer, chunks, write_events, in_time}
use wust_socket.Echo.Sending.{send_transfer, send_all, after_ping}
use wust_socket.Session.Copy.{session-copies}
use wust_socket.Examples.Setup.{list_sender, key, keys}
use wust_socket.Examples.Handshake.{lines, lower, digest, ctx, ctx-IsPlain}
use wust_socket.Examples.Conversation.{marks, unmarks, codec, draws, cut, bytes_of-cut}

abbrev lorem : List ℕ
lorem = codes "Lorem"

abbrev file : List ℕ
file = 1 ∷ 2 ∷ 3 ∷ []

abbrev nonce : List ℕ
nonce = 1 ∷ 2 ∷ 3 ∷ 4 ∷ 5 ∷ 6 ∷ 7 ∷ 8 ∷ []

abbrev fresh : WebSocket list_sender marks
fresh = from_stream list_sender marks 100 [] [] [] [] false true

-- The client after its ping at 1000, and both ends after all sends.
abbrev after : WebSocket list_sender marks
after = (pinged list_sender marks Role.client draws 1000 nonce fresh).1

abbrev client' : WebSocket list_sender marks
client' = (send_all list_sender marks Role.client draws (transfer lorem file) after).1

abbrev server' : WebSocket list_sender marks
server' = (send_all list_sender marks Role.server draws (transfer lorem file) fresh).1

-- The bytes on the stream.
abbrev ping_frame : List ℕ
ping_frame = wire Role.client (control_header Opcode.ping) key nonce

abbrev pong_frame : List ℕ
pong_frame = wire Role.server (control_header Opcode.pong) key nonce

abbrev upstream : List ℕ
upstream = ping_frame ++ concat client'.data_tx

abbrev downstream : List ℕ
downstream = concat server'.data_tx

client_sent :
    send_transfer list_sender marks Role.client draws 1000 nonce lorem file fresh
    ≡ some (ok tt, client')
unfolding send_transfer send_all transfer chunks as_chunks from_stream send_text send_bytes
    data_frames all_frames all_frames_by send_remainder send_chunks
client_sent =
    ap (after_ping list_sender marks Role.client draws (transfer lorem file))
      (ping-lem list_sender marks Role.client draws 1000 nonce fresh refl)

server_sent :
    send_all list_sender marks Role.server draws (transfer lorem file) fresh ≡ (ok tt, server')
unfolding send_all transfer chunks as_chunks from_stream send_text send_bytes data_frames all_frames
    all_frames_by send_remainder send_chunks
server_sent = refl

handed : client'.ctrl_tx ≡ [] ++ ping_frame ∷ []
unfolding send_all transfer chunks as_chunks from_stream send_text send_bytes data_frames all_frames
    all_frames_by send_remainder send_chunks
handed = refl

lorem-utf8 : is_utf8 lorem ≡ true
unfolding is_utf8 utf8_run utf8_next
lorem-utf8 = refl

session-copies_example :
    let settings : Settings = record { compressed = false; use_context = true } in
    let req = request ctx (digest.base64 []) false true in
    let fresh_reader = new_reader unmarks Role.client true keys 100 none in
    let shared : Reader unmarks Role.client true keys = record fresh_reader {
      conn = record (fresh_reader.conn) {
        ping_stats = (new_nonce fresh_reader.conn.ping_stats 1000 nonce).1;
      };
    } in
    (response : List ℕ) × (s : Reader unmarks Role.server true keys) × (c : Reader unmarks
      Role.client true keys)
    × (Server.try_upgrade digest lower true true (lines.read req) ≡ (response ∷ [], ok settings))
    × (Client.try_upgrade digest lower ctx [] false true true true (lines.read response)
        ≡ (req ∷ [], ok settings))
    × (reader_loop unmarks Role.server true keys
          (as_reads (cut upstream))
          (new_reader unmarks Role.server true keys 100 none)
        ≡ some (Ended.breaks s))
    × (s.actions ≡ Action.ctrl pong_frame ∷ as_events (transfer lorem file))
    × (recv_loop list_sender marks Role.server draws echo_handler (events s.actions) tt fresh
        ≡ (tt, server', []))
    × (reader_loop unmarks Role.client true keys
          (Read.bytes 1025 pong_frame ∷ as_reads (cut downstream))
          shared
        ≡ some (Ended.breaks c))
    × (write_events (in_time (events c.actions) ++ none ∷ []) [] ≡ file)
session-copies_example =
    session-copies list_sender marks unmarks codec digest lower lines ctx [] nonce lorem file
      ping_frame keys keys draws draws client' server' 100 1000 1025 [] [] [] [] [] [] [] []
      client'.data_tx server'.data_tx (cut upstream) (cut downstream) [] tt tt ctx-IsPlain
      lorem-utf8 (omega arith) refl (omega arith) client_sent server_sent handed refl
      (bytes_of-cut upstream) refl (bytes_of-cut downstream)
