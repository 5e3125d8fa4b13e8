-- ===== src/Ws/Reader.antt =====
-- The reader task of src/ws/websocket.rs, `reader_loop`: bytes from the stream go through the
-- decoder to the handlers. What the stream gives is a list of reads, each at its time. The sends of
-- the task drop their results and are listed as actions, in order.
pub mod Safety
pub mod Outcome
pub mod Pieces
pub mod Delivery
pub mod Closing
pub mod Pings
pub mod OneFrame
pub mod Errors
use wust_socket.Prelude.{
  ℕ, zero, suc, ◌+◌, List, [], ◌∷◌, ◌++◌, Option, none, some, Bool, true, false, length, Result, ok,
  err, codes,
}
use wust_socket.Channel.{Inflater}
use wust_socket.Role.{Role}
use wust_socket.Error.{CloseReason}
use wust_socket.Protocol.Mask.{MaskKey}
use wust_socket.Frames.Control
use wust_socket.Frames.Decode.Parse.{FrameDecoder, DecodedFrame, FrameState, FrameParseError}
use wust_socket.Frames.Decode.{next_frame, push_bytes}
use wust_socket.Frames.Decode
use wust_socket.Protocol.Ping
use wust_socket.Ws.Event.{Event}
use wust_socket.Ws.FrameHandler.{Action, Flow, Conn, Handled, handle_frame}

-- A result of `read_buf`: some bytes at a time, the end of the stream, or an error.
pub data Read : Type 0 where
  bytes : ℕ → List ℕ → Read
  fin failed : Read

abbrev is_some : {A : Type 0} → Option A → Bool
is_some none = false
is_some (some a) = true

module _ (z : Inflater) (r : Role) (use_context : Bool) (keys : ℕ → MaskKey) where
  -- The variables of the task. `draws` counts the keys that were offered to the handlers.
  pub record Reader : Type 0 where
    pub decoder : FrameDecoder
    pub conn : Conn z
    pub last_seen : ℕ
    pub draws : ℕ
    pub actions : List Action

  -- The variables at the start of the task; the decoder takes RSV1 if there is an inflate stream.
  unfoldable pub new_reader : ℕ → Option z.Decoder → Reader
  new_reader now inflater = record {
    decoder = Decode.new (is_some inflater);
    conn = record {
      ping_stats = Ping.new now;
      closing = false;
      closed = false;
      partial_msg = none;
      inflater = inflater;
    };
    last_seen = now;
    draws = 0;
    actions = [];
  }

  -- How the loop over the frames ends: it breaks, or the task dies of a panic.
  pub data Ended : Type 0 where
    breaks panics : Reader → Ended

  -- `closing.store(true)` and a close frame, after an error of the decoder.
  abbrev pub violation : CloseReason → List ℕ → Reader → Ended
  violation reason text s =
      let s' : Reader = record s {
        conn = record (s.conn) { closing = true };
        draws = s.draws + 1;
      } in
      elim (Control.close r reason text (keys s.draws)) [
        | none ↦ Ended.panics s'
        | some frame ↦ Ended.breaks (record s' { actions = s.actions ++ Action.close frame ∷ [] })
      ]

  abbrev pub on_error : FrameParseError → Reader → Ended
  on_error FrameParseError.proto_error s =
      violation CloseReason.proto_error (codes "There was a ws protocol violation.") s
  on_error FrameParseError.size_err s =
      violation CloseReason.too_big (codes "Frame exceeded maximum size") s

  -- A handler's part of the state.
  abbrev pub handled : Reader → Handled z → Reader
  handled s h = record s { conn = h.conn; draws = s.draws + 1; actions = s.actions ++ h.actions }

  -- The loop over the frames; `none` means that the fuel ran out.
  unfoldable pub frame_loop : ℕ → ℕ → Reader → Option Ended
  frame_loop zero now s = none
  frame_loop (suc fuel) now s = elim (next_frame r s.decoder) [
    | none ↦ none
    | some (x, d) ↦
        let s' : Reader = record s { decoder = d } in
        elim x [
          | err e ↦ some (on_error e s')
          | ok none ↦ some (Ended.breaks s')
          | ok (some FrameState.incomplete) ↦ some (Ended.breaks s')
          | ok (some (FrameState.complete f)) ↦
              let h = handle_frame z r (keys s.draws) now use_context f s.conn in
              elim h.flow [
                | Flow.goes_on ↦ frame_loop fuel now (handled s' h)
                | Flow.stops ↦ some (Ended.breaks (handled s' h))
                | Flow.panics ↦ some (Ended.panics (handled s' h))
              ]
        ]
  ]

  -- What a frame takes at least bounds the rounds, as for `drain`.
  abbrev pub fuel_for : FrameDecoder → ℕ
  fuel_for d = length d.buf + 2

  -- A read that gives bytes.
  unfoldable pub on_bytes : ℕ → List ℕ → Reader → Option Ended
  unfolding frame_loop
  on_bytes now bs s =
      let d = push_bytes s.decoder bs in
      frame_loop (fuel_for d) now (record s { last_seen = now; decoder = d })

  -- The lines behind the outer loop.
  abbrev pub finish_reading : Reader → Reader
  finish_reading s = record s {
    conn = record (s.conn) { closing = true; closed = true };
    actions = s.actions ++ Action.event Event.closed ∷ [];
  }

  -- The outer loop. Where the reads end with neither `fin` nor `failed`, the task waits.
  unfoldable pub reader_loop : List Read → Reader → Option Ended
  reader_loop [] s = some (Ended.breaks s)
  reader_loop (Read.fin ∷ reads) s = some (Ended.breaks (finish_reading s))
  reader_loop (Read.failed ∷ reads) s = some (Ended.breaks (finish_reading s))
  reader_loop (Read.bytes now bs ∷ reads) s = elim (on_bytes now bs s) [
    | none ↦ none
    | some (Ended.panics s') ↦ some (Ended.panics s')
    | some (Ended.breaks s') ↦ reader_loop reads s'
  ]
