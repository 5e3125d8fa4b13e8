-- ===== src/Examples/Session.antt =====
-- A whole session, the tasks of a server and the example client at concrete inputs.
use wust_socket.Prelude.{
  ℕ, ◌≡◌, refl, List, [], ◌∷◌, ◌++◌, none, some, true, false, ok, not, ◌||◌, concat, codes,
}
use wust_socket.Role.{Role}
use wust_socket.Http.Text.{starts_with}
use wust_socket.Http.Headers.{LineRead}
use wust_socket.Http.Accept.{Settings}
use wust_socket.Server
use wust_socket.Server.{Peek, Attempt, attempt, answer, respond}
use wust_socket.Server.Run.{
  Connection, WebSocketServer, Served, IsAllowed, serve, serve-plain, serve-upgraded,
}
use wust_socket.Client
use wust_socket.Client.{request}
use wust_socket.Ws.Reader.{Reader, Ended, reader_loop, new_reader}
use wust_socket.Ws.Reader.Pieces.{as_reads}
use wust_socket.Ws.WebSocket.{recv_loop, from_stream, send_text, send_bytes}
use wust_socket.Frames.Data.{
  data_frames, all_frames, all_frames_by, send_chunks, send_remainder, deflate,
}
use wust_socket.Prelude.Slices.{as_chunks}
use wust_socket.Ws.WebSocket.Messages.{as_events}
use wust_socket.Ws.Writer.{turn, select, start}
use wust_socket.Ws.Writer.Order.{Run, Step, Reach, initial, push}
use wust_socket.Ws.Writer.Drain.{works}
use wust_socket.Ws.Stream.{stream_bytes, HasWritten, writer-delivers}
use wust_socket.Echo.{echo_handler, events}
use wust_socket.Session.{session-echoes}
use wust_socket.Examples.Setup.{list_sender, keys}
use wust_socket.Examples.Handshake.{
  lines, lower, digest, ctx, ctx-IsPlain, request_lines, first_line, answered, key as host_key,
}
use wust_socket.Examples.Conversation.{
  marks, unmarks, codec, draws, both, client, after_both, two_messages, two_echoes, cut,
  bytes_of-cut, marked,
}

abbrev upstream : List (List ℕ)
upstream = (after_both Role.client).data_tx

abbrev downstream : List (List ℕ)
downstream = (after_both Role.server).data_tx

abbrev fresh_reader : (r : Role) → Reader unmarks r true keys
fresh_reader r = new_reader unmarks r true keys 100 (some [])

session-echoes_example :
    let settings : Settings = record { compressed = true; use_context = not true || true } in
    let req = request ctx (digest.base64 []) true true in
    (response : List ℕ) × (s : Reader unmarks Role.server true keys) × (c : Reader unmarks
      Role.client true keys)
    × (Server.try_upgrade digest lower true true (lines.read req) ≡ (response ∷ [], ok settings))
    × (Client.try_upgrade digest lower ctx [] true true true true (lines.read response)
        ≡ (req ∷ [], ok settings))
    × (reader_loop unmarks Role.server true keys
          (as_reads (cut (concat upstream)))
          (fresh_reader Role.server)
        ≡ some (Ended.breaks s))
    × (recv_loop list_sender marks Role.server draws echo_handler (events s.actions) tt client
        ≡ (tt, after_both Role.server, []))
    × (reader_loop unmarks Role.client true keys
          (as_reads (cut (concat downstream)))
          (fresh_reader Role.client)
        ≡ some (Ended.breaks c))
    × (c.actions ≡ as_events both)
session-echoes_example =
    session-echoes list_sender marks unmarks codec digest lower lines ctx [] true true keys keys
      draws draws 100 [] [] [] [] [] [] [] [] [] [] upstream downstream (cut (concat upstream))
      (cut (concat downstream)) ctx-IsPlain tt tt two_messages two_echoes refl
      (bytes_of-cut (concat upstream)) refl (bytes_of-cut (concat downstream))

-- The writer is handed one frame and writes it; here that is a run for the first message alone.
abbrev pushed : List ℕ → Run → Run
pushed b s = record s {
  writer = record (s.writer) { data_rx = push s.writer.data_rx b };
  sent_data = s.sent_data ++ b ∷ [];
}

abbrev turned : Run → Run
turned s = record s { writer = turn works s.writer }

abbrev head_of : List (List ℕ) → List ℕ
head_of [] = []
head_of (x ∷ xs) = x

abbrev tail_of : List (List ℕ) → List (List ℕ)
tail_of [] = []
tail_of (x ∷ xs) = xs

-- The two frames that the client has sent.
abbrev frame1 : List ℕ
frame1 = head_of upstream

abbrev frame2 : List ℕ
frame2 = head_of (tail_of upstream)

two_frames : upstream ≡ frame1 ∷ frame2 ∷ []
unfolding from_stream send_text send_bytes data_frames deflate all_frames all_frames_by
    send_remainder send_chunks as_chunks marked
two_frames = refl

-- The writer is handed the second frame once it has written the first.
abbrev run1 : Run
run1 = pushed frame1 initial

abbrev run2 : Run
run2 = pushed frame2 (turned run1)

abbrev run3 : Run
run3 = turned run2

run3-Reach : Reach initial run3
unfolding start turn select
run3-Reach =
    Reach.next
      (Reach.next
        (Reach.next (Reach.next Reach.here (Step.sends_data initial frame1 refl refl))
          (Step.turns run1 works))
        (Step.sends_data (turned run1) frame2 refl refl))
      (Step.turns run2 works)

run3-HasWritten : HasWritten run3 (frame1 ∷ frame2 ∷ [])
unfolding start turn select
run3-HasWritten = record { runs = refl; all = refl; no_ctrl = refl; nothing_left = refl }

abbrev on_stream : List ℕ
on_stream = stream_bytes run3.writer.written

writer-delivers_example :
    (s' : Reader unmarks Role.server true keys) × (reader_loop unmarks Role.server true keys
        (as_reads (cut on_stream))
        (fresh_reader Role.server)
      ≡ some (Ended.breaks s'))
    × (s'.actions ≡ as_events both)
writer-delivers_example =
    writer-delivers list_sender marks unmarks codec Role.server true true keys draws 100 [] [] [] []
      [] (frame1 ∷ frame2 ∷ []) run3 (cut on_stream) tt two_messages two_frames run3-Reach
      run3-HasWritten (bytes_of-cut on_stream)

-- A server on address 1 that takes plain connections, and a request from address 2.
abbrev server : WebSocketServer ℕ
server = record { addr = 1; insecure = true; ssl = false }

abbrev plain_conn : Connection ℕ
plain_conn = record {
  addr = 2;
  peek = Peek.bytes (codes "GET ");
  accepted = false;
  lines = LineRead.line first_line ∷ request_lines;
  written = true;
  flushed = true;
}

is_plain : attempt true false (Peek.bytes (codes "GET ")) false ≡ Attempt.plain
unfolding attempt starts_with
is_plain = refl

served :
    serve digest lower server plain_conn
    ≡ Served.upgraded ((respond digest host_key none).0 ∷ []) (respond digest host_key none).1 2 1
served =
    serve-plain digest lower server plain_conn (respond digest host_key none).0
      (respond digest host_key none).1 is_plain answered refl refl

serve-upgraded_example :
    IsAllowed digest lower server plain_conn
    × (text : List ℕ) × (answer digest lower plain_conn.lines
        ≡ ok (text, (respond digest host_key none).1))
    × ((respond digest host_key none).0 ∷ [] ≡ text ∷ [])
    × (plain_conn.written ≡ true)
    × (plain_conn.flushed ≡ true)
    × (2 ≡ plain_conn.addr)
    × (1 ≡ server.addr)
serve-upgraded_example =
    serve-upgraded digest lower server plain_conn 2 1 ((respond digest host_key none).0 ∷ [])
      (respond digest host_key none).1 served
