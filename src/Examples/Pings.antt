-- ===== src/Examples/Pings.antt =====
-- A message in two frames with a ping between them, read in two pieces.
use wust_socket.Prelude.{◌≡◌, inl, inr, refl, arith, List, [], ◌∷◌, ◌++◌, some, true, false, All}
use wust_socket.Prelude.Utf8.{is_utf8, utf8_run, utf8_next}
use wust_socket.Role.{Role}
use wust_socket.Frames.Opcode.{Opcode}
use wust_socket.Frames.RoundTrip.{IsReady}
use wust_socket.Frames.Sequence.{Frame, IsTaken, wires, decoded_all}
use wust_socket.Ws.Event.{into_message, to_event}
use wust_socket.Ws.FrameHandler.{
  Flow, handle_frame, by_opcode, handle_data, append_frame, target, finish,
}
use wust_socket.Ws.FrameHandler.Assembly.{handle_frames}
use wust_socket.Ws.FrameHandler.Interleaved.{without_pings, events_of, ctrls_of, pongs}
use wust_socket.Ws.Reader.{Reader, Ended, reader_loop}
use wust_socket.Ws.Reader.Pieces.{as_reads}
use wust_socket.Ws.Reader.Pings.{reader_loop-pings}
use wust_socket.Examples.Setup.{stored, key, keys, reader, start-IsReady}
use wust_socket.Examples.Conversation.{cut, bytes_of-cut}

abbrev fragment1 : Frame
fragment1 = record {
  header = record { fin = false; rsv1 = false; opcode = Opcode.text };
  key = key;
  payload = 72 ∷ [];
}

abbrev ping_frame : Frame
ping_frame = record {
  header = record { fin = true; rsv1 = false; opcode = Opcode.ping };
  key = key;
  payload = 7 ∷ [];
}

abbrev fragment2 : Frame
fragment2 = record {
  header = record { fin = true; rsv1 = false; opcode = Opcode.cont };
  key = key;
  payload = 105 ∷ [];
}

abbrev with_ping : List Frame
with_ping = fragment1 ∷ ping_frame ∷ fragment2 ∷ []

All-IsTaken : All (IsTaken false) with_ping
All-IsTaken = (
  record {
    allowed = record { agreed = λ e. cc; whole = λ e. cc; plain = λ e. cc; short = λ e. cc };
    fits = omega arith;
    valid_close = λ e. cc;
  },
  (
    record {
      allowed = record {
        agreed = λ e. cc;
        whole = λ e. refl;
        plain = λ e. refl;
        short = λ e. omega arith;
      };
      fits = omega arith;
      valid_close = λ e. cc;
    },
    (
      record {
        allowed = record { agreed = λ e. cc; whole = λ e. cc; plain = λ e. cc; short = λ e. cc };
        fits = omega arith;
        valid_close = λ e. cc;
      },
      tt,
    ),
  ),
)

goes_on-fragments :
    (handle_frames stored Role.server keys 0 false 0
      (without_pings (decoded_all with_ping))
      reader.conn).flow
    ≡ Flow.goes_on
unfolding handle_frames handle_frame by_opcode handle_data append_frame target finish into_message
    to_event is_utf8 utf8_run utf8_next
goes_on-fragments = refl

reader_loop-pings_example :
    let plain =
      handle_frames stored Role.server keys 0 false 0
        (without_pings (decoded_all with_ping))
        reader.conn in
    (s' : Reader stored Role.server false keys) × (reader_loop stored Role.server false keys
        (as_reads (cut (wires Role.client with_ping)))
        reader
      ≡ some (Ended.breaks s'))
    × (s'.conn ≡ plain.conn)
    × (events_of s'.actions ≡ events_of reader.actions ++ events_of plain.actions)
    × (ctrls_of s'.actions
        ≡ ctrls_of reader.actions
          ++ pongs stored Role.server false 0 keys 0 (decoded_all with_ping))
    × IsReady s'.decoder false []
reader_loop-pings_example =
    reader_loop-pings stored Role.server false keys false with_ping
      (cut (wires Role.client with_ping)) reader start-IsReady All-IsTaken
      (inl refl, (inr (refl, omega arith), (inl refl, tt)))
      (bytes_of-cut (wires Role.client with_ping)) goes_on-fragments
