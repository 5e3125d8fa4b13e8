-- ===== src/Examples/Ws.antt =====
-- The handlers and the reader at concrete frames.
use wust_socket.Prelude.{
  ℕ, ◌≡◌, ◌≢◌, refl, inl, arith, List, [], ◌∷◌, ◌++◌, none, some, true, false, if◌then◌else◌, codes,
  from_be_bytes, concat,
}
use wust_socket.Prelude.Utf8.{is_utf8, utf8_run, utf8_next}
use wust_socket.Role.{Role}
use wust_socket.Frames.Opcode.{Opcode}
use wust_socket.Frames.Decode.Parse.{DecodedFrame, is_valid_close_payload}
use wust_socket.Frames.Decode.Frames.{IsWellFormed, new-IsSound}
use wust_socket.Frames.RoundTrip.Steps.{decoded}
use wust_socket.Frames.Delivery.{message_frames}
use wust_socket.Ws.Event.{Event, PartialMessage, into_message, to_event}
use wust_socket.Ws.FrameHandler.{Action, Flow, handle_close, handle_frame}
use wust_socket.Ws.FrameHandler.Assembly.{handle_frames, delivered, handle_frames-message}
use wust_socket.Ws.FrameHandler.Safety.{
  handle_frame-never_panics, handle_close-answers, close_bytes, expected_reason,
}
use wust_socket.Ws.FrameHandler.Kept.{IsKept, handle_frame-IsKept}
use wust_socket.Ws.Reader.{Read, Reader, Ended, reader_loop}
use wust_socket.Ws.Reader.Safety.{Breaks, IsGood, reader_loop-Breaks, reader_loop_closes}
use wust_socket.Ws.FrameHandler.Compression.{handle_frame-ignores_rsv1}
use wust_socket.Ws.Reader.Delivery.{all_frames-delivered}
use wust_socket.Frames.Data.{all_frames}
use wust_socket.Frames.RoundTrip.{IsReady}
use wust_socket.Ws.Reader.{on_bytes}
use wust_socket.Examples.Setup.{
  list_sender, start-IsReady, all_frames-ok, stored, key, keys, hi, text_header, conn, reader,
}

abbrev hi_event : Event
hi_event = Event.text (record { inner = hi })

-- "H" and "i" as two frames.
abbrev two_parts : List (List ℕ)
two_parts = (72 ∷ []) ∷ (105 ∷ []) ∷ []

handle_frames-message_example :
    handle_frames stored Role.server keys 0 false 0
      (message_frames Opcode.text false true two_parts)
      conn
    ≡ delivered stored Role.server keys 0 false conn none hi_event
handle_frames-message_example =
    handle_frames-message stored Role.server keys 0 false Opcode.text false 0 two_parts
      (PartialMessage.text []) conn hi_event none refl refl refl (omega arith)
      (unfold into_message to_event is_utf8 utf8_run utf8_next in refl)

abbrev pong_frame : DecodedFrame
pong_frame = record { opcode = Opcode.pong; payload = hi; is_fin = true; compressed = false }

pong_frame-IsWellFormed : IsWellFormed pong_frame
pong_frame-IsWellFormed = record {
  bounded = omega arith;
  whole = λ e. refl;
  plain = λ e. refl;
  short = λ e. omega arith;
  valid_close = λ e. cc;
}

handle_frame-never_panics_example :
    (handle_frame stored Role.server key 0 false pong_frame conn).flow ≢ Flow.panics
handle_frame-never_panics_example =
    handle_frame-never_panics stored Role.server key 0 false pong_frame conn pong_frame-IsWellFormed

handle_frame-IsKept_example :
    IsKept stored Role.server key
      (handle_frame stored Role.server key 0 false (decoded text_header hi) conn)
handle_frame-IsKept_example =
    handle_frame-IsKept stored Role.server key 0 false (decoded text_header hi) conn tt

-- A close frame with the code 1000 and the text "Hi".
abbrev close_frame : DecodedFrame
close_frame = record {
  opcode = Opcode.close;
  payload = 3 ∷ 232 ∷ hi;
  is_fin = true;
  compressed = false;
}

handle_close-answers_example :
    let out = handle_close stored Role.server key close_frame conn in
    (out.flow ≡ Flow.stops)
    × (out.conn ≡ record conn { closing = true })
    × (out.actions ≡ (
        if conn.closing
        then []
        else Action.close (
            close_bytes Role.server (expected_reason close_frame.payload) (codes "peer closed") key)
          ∷ []))
handle_close-answers_example =
    handle_close-answers stored Role.server key close_frame conn
      (unfold is_valid_close_payload is_utf8 utf8_run utf8_next from_be_bytes in refl)

reader-IsGood : IsGood stored Role.server false keys reader
reader-IsGood = record { sound = new-IsSound false; fits = tt; proper = tt }

abbrev two_reads : List Read
two_reads = Read.bytes 200 (0x81 ∷ 0x82 ∷ 1 ∷ []) ∷ Read.bytes 300 (2 ∷ 3 ∷ 4 ∷ 73 ∷ 107 ∷ []) ∷ []

reader_loop-Breaks_example :
    Breaks stored Role.server false keys
      (reader_loop stored Role.server false keys two_reads reader)
reader_loop-Breaks_example =
    reader_loop-Breaks stored Role.server false keys two_reads reader reader-IsGood

reader_loop_closes_example :
    (s' : Reader stored Role.server false keys) × (actions : List Action) × (reader_loop stored
        Role.server false keys
        (two_reads ++ Read.fin ∷ [])
        reader
      ≡ some (Ended.breaks s'))
    × (s'.conn.closing ≡ true)
    × (s'.conn.closed ≡ true)
    × (s'.actions ≡ actions ++ Action.event Event.closed ∷ [])
reader_loop_closes_example =
    reader_loop_closes stored Role.server false keys two_reads [] Read.fin reader reader-IsGood
      (inl refl)

-- A client sends "Hi", and the server's reader hands it out.
all_frames-delivered_example :
    (bytes : List (List ℕ)) × (s' : Reader stored Role.server false keys) × ((all_frames list_sender
        Role.client Opcode.text hi false keys []).1
      ≡ bytes)
    × (on_bytes stored Role.server false keys 200 (concat bytes) reader ≡ some (Ended.breaks s'))
    × (s'.conn ≡ record conn { partial_msg = none; inflater = none })
    × (s'.actions ≡ Action.event hi_event ∷ [])
    × IsReady s'.decoder false []
all_frames-delivered_example =
    all_frames-delivered stored Role.server false keys list_sender false Opcode.text false keys hi
      [] 200 reader (PartialMessage.text []) hi_event none start-IsReady refl (λ e. cc) refl
      (omega arith) (unfold into_message to_event is_utf8 utf8_run utf8_next in refl) tt
      all_frames-ok

handle_frame-ignores_rsv1_example :
    handle_frame stored Role.server key 0 false
      (record (decoded text_header hi) { compressed = true })
      conn
    ≡ handle_frame stored Role.server key 0 false (decoded text_header hi) conn
handle_frame-ignores_rsv1_example =
    handle_frame-ignores_rsv1 stored Role.server key 0 false (decoded text_header hi) true conn refl
