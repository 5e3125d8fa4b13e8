-- ===== src/Examples/Errors.antt =====
-- A frame of a client, and then one without a mask, which a server does not take.
use wust_socket.Prelude.{ℕ, ◌+◌, ◌≡◌, refl, List, [], ◌∷◌, ◌++◌, some, err, true, false, length}
use wust_socket.Prelude.Utf8.{is_utf8, utf8_run, utf8_next}
use wust_socket.Role.{Role}
use wust_socket.Protocol.Mask.{mask, mask_lin, mask_from}
use wust_socket.Frames.Opcode.{Opcode, try_from}
use wust_socket.Frames.Decode
use wust_socket.Frames.Decode.Parse.{
  DecodeState, FrameParseError, parse_header1, parse_header2, parse_extended_len, parse_payload,
  checked_payload, is_valid_close_payload,
}
use wust_socket.Frames.Decode.{next_frame, push_bytes, loop, step}
use wust_socket.Frames.Decode.Stream.{Drained, drain, drain_loop}
use wust_socket.Ws.Event.{into_message, to_event}
use wust_socket.Ws.FrameHandler.{
  Action, Flow, handle_frame, by_opcode, handle_data, append_frame, target, finish,
}
use wust_socket.Ws.FrameHandler.Assembly.{handle_frames}
use wust_socket.Ws.FrameHandler.Safety.{close_bytes}
use wust_socket.Ws.Reader.{Reader, Ended, on_bytes}
use wust_socket.Ws.Reader.Errors.{reason_of, text_of, on_bytes-error}
use wust_socket.Examples.Setup.{stored, keys, hi, hi_frame, reader, start}

abbrev bytes : List ℕ
bytes = hi_frame ++ 0x81 ∷ 0x00 ∷ []

abbrev result : Drained
result = record {
  frames = record { opcode = Opcode.text; payload = hi; is_fin = true; compressed = false } ∷ [];
  last = err FrameParseError.proto_error;
  decoder = record {
    buf = [];
    state = DecodeState.header2;
    ctx = record {
      is_fin = true;
      opcode = Opcode.text;
      payload_len = 0;
      mask_key = record { k0 = 0; k1 = 0; k2 = 0; k3 = 0 };
      compressed = false;
    };
    compressed = false;
  };
}

drains : drain Role.server (push_bytes start bytes) ≡ some result
unfolding drain drain_loop next_frame loop step push_bytes parse_header1 parse_header2
    parse_extended_len parse_payload checked_payload is_valid_close_payload mask mask_lin mask_from
    try_from Decode.new
drains = refl

goes_on-first :
    (handle_frames stored Role.server keys 200 false 0 result.frames reader.conn).flow
    ≡ Flow.goes_on
unfolding handle_frames handle_frame by_opcode handle_data append_frame target finish into_message
    to_event is_utf8 utf8_run utf8_next
goes_on-first = refl

on_bytes-error_example :
    let before = handle_frames stored Role.server keys 200 false 0 result.frames reader.conn in
    let close =
      close_bytes Role.server
        (reason_of FrameParseError.proto_error)
        (text_of FrameParseError.proto_error)
        (keys (0 + length result.frames)) in
    (s' : Reader stored Role.server false keys) × (on_bytes stored Role.server false keys 200 bytes
        reader
      ≡ some (Ended.breaks s'))
    × (s'.conn ≡ record (before.conn) { closing = true })
    × (s'.actions ≡ reader.actions ++ before.actions ++ Action.close close ∷ [])
    × (s'.decoder ≡ result.decoder)
on_bytes-error_example =
    on_bytes-error stored Role.server false keys 200 bytes reader result FrameParseError.proto_error
      drains refl goes_on-first
