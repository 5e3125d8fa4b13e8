-- ===== src/Examples/PingPong.antt =====
-- A ping of the client and its pong at concrete ends.
use wust_socket.Prelude.{ℕ, ◌-◌, ◌≡◌, refl, arith, List, [], ◌∷◌, ◌++◌, some, true, ok}
use wust_socket.Role.{Role}
use wust_socket.Protocol.Ping.{new_nonce, on_pong}
use wust_socket.Frames.Opcode.{Opcode}
use wust_socket.Frames.Control.Layout.{control_header}
use wust_socket.Frames.Wire.{wire}
use wust_socket.Frames.Decode
use wust_socket.Frames.RoundTrip.{IsReady}
use wust_socket.Ws.Event.{Event}
use wust_socket.Ws.FrameHandler.{Action}
use wust_socket.Ws.Reader.{Reader, Ended, on_bytes, new_reader}
use wust_socket.Ws.WebSocket.{WebSocket, from_stream, ping}
use wust_socket.Ws.PingPong.{ping-lem, ping-returns}
use wust_socket.Examples.Setup.{list_sender, key, keys}
use wust_socket.Examples.Conversation.{marks, unmarks, draws, client}

abbrev nonce : List ℕ
nonce = 1 ∷ 2 ∷ 3 ∷ 4 ∷ 5 ∷ 6 ∷ 7 ∷ 8 ∷ []

abbrev ping_bytes : List ℕ
ping_bytes = wire Role.client (control_header Opcode.ping) key nonce

-- The client has sent a ping at 1000.
abbrev after_ping : WebSocket list_sender marks
after_ping = record client {
  ping_stats = (new_nonce client.ping_stats 1000 nonce).1;
  ctrl_tx = ping_bytes ∷ [];
  calls = 1;
}

pings : ping list_sender marks Role.client draws 1000 nonce client ≡ some (ok tt, after_ping)
unfolding from_stream
pings = ping-lem list_sender marks Role.client draws 1000 nonce client refl

-- Its reader task shares the statistics.
abbrev at_client : Reader unmarks Role.client true keys
at_client =
    let s = new_reader unmarks Role.client true keys 100 (some []) in
    record s { conn = record (s.conn) { ping_stats = after_ping.ping_stats } }

abbrev at_server : Reader unmarks Role.server true keys
at_server = new_reader unmarks Role.server true keys 100 (some [])

at_client-IsReady : IsReady at_client.decoder true []
unfolding new_reader Decode.new
at_client-IsReady = record { at_start = refl; buffered = refl; setting = refl }

at_server-IsReady : IsReady at_server.decoder true []
unfolding new_reader Decode.new
at_server-IsReady = record { at_start = refl; buffered = refl; setting = refl }

ping-returns_example :
    let answer = wire Role.server (control_header Opcode.pong) (keys at_server.draws) nonce in
    (b' : Reader unmarks Role.server true keys) × (a' : Reader unmarks Role.client true keys)
    × (on_bytes unmarks Role.server true keys 1010 ping_bytes at_server ≡ some (Ended.breaks b'))
    × (b'.actions ≡ at_server.actions ++ Action.ctrl answer ∷ [])
    × (b'.conn ≡ at_server.conn)
    × (on_bytes unmarks Role.client true keys 1025 answer at_client ≡ some (Ended.breaks a'))
    × (a'.actions ≡ at_client.actions ++ Action.event (Event.pong (1025 - 1000)) ∷ [])
    × (a'.conn
        ≡ record (at_client.conn) { ping_stats = (on_pong at_client.conn.ping_stats 1025 nonce).1 })
unfolding from_stream
ping-returns_example =
    ping-returns list_sender marks unmarks unmarks Role.server true keys keys draws client
      after_ping nonce ping_bytes (ok tt) at_client at_server true 1000 1010 1025 refl (omega arith)
      pings refl at_client-IsReady at_server-IsReady refl
