-- ===== src/Examples/Closing.antt =====
-- The closing handshake at concrete ends.
use wust_socket.Prelude.{ℕ, ◌≡◌, refl, List, [], ◌∷◌, ◌++◌, some, true, codes}
use wust_socket.Role.{Role}
use wust_socket.Error.{CloseReason}
use wust_socket.Frames.Control.Close.{close-wire}
use wust_socket.Frames.RoundTrip.{IsReady}
use wust_socket.Frames.Decode
use wust_socket.Ws.FrameHandler.{Action}
use wust_socket.Ws.FrameHandler.Safety.{close_bytes}
use wust_socket.Ws.Reader.{Reader, Ended, on_bytes, new_reader}
use wust_socket.Ws.WebSocket.{WebSocket, from_stream, close, close_reason}
use wust_socket.Ws.Closing.{close-answered}
use wust_socket.Examples.Setup.{list_sender, key, keys}
use wust_socket.Examples.Conversation.{marks, unmarks, draws, client}

-- The client has called `close`.
abbrev close_frame : List ℕ
close_frame = close_bytes Role.client CloseReason.normal [] key

abbrev closed : WebSocket list_sender marks
closed = record client { closing = true; close_tx = close_frame ∷ []; calls = 1 }

closes : close list_sender marks Role.client draws client ≡ some closed
unfolding close close_reason from_stream
closes = rw (close-wire Role.client CloseReason.normal [] key) refl

-- Its reader task sees the flag.
abbrev at_client : Reader unmarks Role.client true keys
at_client =
    let s = new_reader unmarks Role.client true keys 100 (some []) in
    record s { conn = record (s.conn) { closing = true } }

abbrev at_server : Reader unmarks Role.server true keys
at_server = new_reader unmarks Role.server true keys 100 (some [])

at_client-IsReady : IsReady at_client.decoder true []
unfolding new_reader Decode.new
at_client-IsReady = record { at_start = refl; buffered = refl; setting = refl }

at_server-IsReady : IsReady at_server.decoder true []
unfolding new_reader Decode.new
at_server-IsReady = record { at_start = refl; buffered = refl; setting = refl }

close-answered_example :
    let answer =
      close_bytes Role.server CloseReason.normal (codes "peer closed") (keys at_server.draws) in
    (b' : Reader unmarks Role.server true keys) × (a' : Reader unmarks Role.client true keys)
    × (on_bytes unmarks Role.server true keys 200 close_frame at_server ≡ some (Ended.breaks b'))
    × (b'.actions ≡ at_server.actions ++ Action.close answer ∷ [])
    × (b'.conn ≡ record (at_server.conn) { closing = true })
    × (on_bytes unmarks Role.client true keys 300 answer at_client ≡ some (Ended.breaks a'))
    × (a'.actions ≡ at_client.actions)
    × (a'.conn ≡ record (at_client.conn) { closing = true })
unfolding from_stream new_reader
close-answered_example =
    close-answered list_sender marks unmarks unmarks Role.server true keys keys draws client closed
      close_frame at_client at_server true 200 300 refl closes refl at_client-IsReady
      at_server-IsReady refl refl
