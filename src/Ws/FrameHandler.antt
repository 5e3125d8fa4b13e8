-- ===== src/Ws/FrameHandler.antt =====
-- src/ws/frame_handler.rs: what a connection does with a decoded frame. The sends of a handler drop
-- their results, so they are listed as actions, in order. A handler goes on (`Some(())`), stops the
-- caller's loop (`None`), or panics. The key is what `rand::random` returns to the encoder of the
-- one control frame that a call may send, the time is that of `Instant::now`.
pub mod Safety
pub mod Assembly
pub mod Kept
pub mod Compression
pub mod Interleaved
pub mod Runs
use wust_socket.Prelude.{
  ℕ, ◌+◌, List, [], ◌∷◌, Option, none, some, Bool, true, false, not, ltb, ◌==◌, if◌then◌else◌,
  length, Result, ok, err, codes,
}
use wust_socket.Prelude.Utf8.{is_utf8}
use wust_socket.Channel.{Inflater}
use wust_socket.Role.{Role}
use wust_socket.Error.{CloseReason, from_bytes}
use wust_socket.Protocol.Mask.{MaskKey}
use wust_socket.Protocol.Ping.{PingStats, PongError, on_pong}
use wust_socket.Protocol.Ping
use wust_socket.Frames.Limits.{max_message_size}
use wust_socket.Frames.Opcode.{Opcode}
use wust_socket.Frames.Control
use wust_socket.Frames.Decode.Parse.{DecodedFrame}
use wust_socket.Ws.Event.{
  Event, PartialMessage, MessageError, push_bytes, partial_len, into_message,
}

pub data Action : Type 0 where
  ctrl close : List ℕ → Action
  event : Event → Action

pub data Flow : Type 0 where
  goes_on stops panics : Flow

-- The answer to a close code.
unfoldable pub reply_reason : CloseReason → CloseReason
reply_reason CloseReason.rsv = CloseReason.proto_error
reply_reason CloseReason.none_given = CloseReason.proto_error
reply_reason CloseReason.abnormal = CloseReason.proto_error
reply_reason CloseReason.tls = CloseReason.proto_error
reply_reason _ = CloseReason.normal

-- The message that a data frame belongs to; `none` is the `_` of the `match`.
unfoldable pub target : Option PartialMessage → Opcode → Bool → Option PartialMessage
target none Opcode.text compressed = some (PartialMessage.text [])
target none Opcode.bin compressed = some (PartialMessage.binary [])
target (some p) Opcode.cont false = some p
target _ _ _ = none

module _ (z : Inflater) where
  open z use {Decoder}

  -- The state that the handlers share: `inner`, and the reader's own variables.
  pub record Conn : Type 0 where
    pub ping_stats : PingStats
    pub closing : Bool
    pub closed : Bool
    pub partial_msg : Option PartialMessage
    pub inflater : Option Decoder

  pub record Handled : Type 0 where
    pub flow : Flow
    pub conn : Conn
    pub actions : List Action

  abbrev panicked : Conn → Handled
  panicked c = record { flow = Flow.panics; conn = c; actions = [] }

  -- A frame that was encoded is sent on; the encoder may have panicked.
  abbrev send_frame : Option (List ℕ) → (List ℕ → Action) → Flow → Conn → Handled
  send_frame none action flow c = panicked c
  send_frame (some bytes) action flow c = record {
    flow = flow;
    conn = c;
    actions = action bytes ∷ [];
  }

  abbrev send_nothing : Flow → Conn → Handled
  send_nothing flow c = record { flow = flow; conn = c; actions = [] }

  unfoldable pub handle_ping : Role → MaskKey → DecodedFrame → Conn → Handled
  handle_ping r key frame c =
      send_frame (Control.pong r frame.payload key) Action.ctrl Flow.goes_on c

  unfoldable pub after_pong : Role → MaskKey → Result PongError ℕ × PingStats → Conn → Handled
  after_pong r key (ok latency, s) c = record {
    flow = Flow.goes_on;
    conn = record c { ping_stats = s };
    actions = Action.event (Event.pong latency) ∷ [];
  }
  after_pong r key (err (PongError.late latency), s) c =
      send_frame (Control.close r CloseReason.policy (codes "ping timeout") key) Action.close
        Flow.goes_on (record c { ping_stats = s })
  after_pong r key (err (PongError.nonce expected), s) c =
      send_nothing Flow.goes_on (record c { ping_stats = s })

  -- Only a payload of eight bytes is a nonce.
  unfoldable pub handle_pong : Role → MaskKey → ℕ → DecodedFrame → Conn → Handled
  unfolding after_pong
  handle_pong r key now frame c =
      if length frame.payload == Ping.nonce_len
      then after_pong r key (on_pong c.ping_stats now frame.payload) c
      else send_nothing Flow.goes_on c

  -- `closing.swap(true)`, and the close frame if it was not set.
  unfoldable pub answer_close : Role → MaskKey → CloseReason → Conn → Handled
  unfolding reply_reason
  answer_close r key code c =
      let c' : Conn = record c { closing = true } in
      if c.closing
      then send_nothing Flow.stops c'
      else send_frame (Control.close r (reply_reason code) (codes "peer closed") key) Action.close
          Flow.stops c'

  -- By the payload. The slice from 2 on panics if there is one byte.
  unfoldable pub handle_close_payload : Role → MaskKey → List ℕ → Conn → Handled
  unfolding answer_close
  handle_close_payload r key [] c = answer_close r key CloseReason.normal c
  handle_close_payload r key (b ∷ []) c = panicked c
  handle_close_payload r key (b0 ∷ b1 ∷ text) c =
      if is_utf8 text
      then answer_close r key (from_bytes b0 b1) c
      else send_frame (Control.close r CloseReason.proto_error (codes "invalid close message") key)
          Action.close Flow.stops c

  unfoldable pub handle_close : Role → MaskKey → DecodedFrame → Conn → Handled
  unfolding handle_close_payload
  handle_close r key frame c = handle_close_payload r key frame.payload c

  -- Closes the connection from `handle_data`.
  abbrev refuse : Role → MaskKey → CloseReason → List ℕ → Conn → Handled
  refuse r key reason text c =
      send_frame (Control.close r reason text key) Action.close Flow.stops c

  unfoldable pub finish :
      Role → MaskKey → Result MessageError Event × Option Decoder → Conn → Handled
  finish r key (ok msg, i) c = record {
    flow = Flow.goes_on;
    conn = record c { inflater = i };
    actions = Action.event msg ∷ [];
  }
  finish r key (err MessageError.utf8, i) c =
      refuse r key CloseReason.data_error (codes "Invalid UTF-8") (record c { inflater = i })
  finish r key (err MessageError.deflate, i) c =
      refuse r key CloseReason.proto_error (codes "bad deflate stream") (record c { inflater = i })

  -- The message `p` gets the payload, and is handed out after the last frame.
  unfoldable pub append_frame :
      Role → MaskKey → Bool → DecodedFrame → PartialMessage → Conn → Handled
  unfolding finish
  append_frame r key use_context frame p c =
      let p' = push_bytes p frame.payload in
      if ltb max_message_size (partial_len p + length frame.payload)
      then refuse r key CloseReason.too_big (codes "Message exceeded maximum size")
          (record c { partial_msg = some p })
      else if frame.is_fin
      then finish r key (into_message z p' c.inflater use_context) (record c { partial_msg = none })
      else send_nothing Flow.goes_on (record c { partial_msg = some p' })

  unfoldable pub handle_data : Role → MaskKey → Bool → DecodedFrame → Conn → Handled
  unfolding append_frame target
  handle_data r key use_context frame c =
      elim (target c.partial_msg frame.opcode frame.compressed) [
        | some p ↦ append_frame r key use_context frame p c
        | none ↦ refuse r key CloseReason.proto_error (codes "Unexpected frame") c
      ]

  unfoldable pub by_opcode : Role → MaskKey → ℕ → Bool → Opcode → DecodedFrame → Conn → Handled
  by_opcode r key now use_context Opcode.text frame c = handle_data r key use_context frame c
  by_opcode r key now use_context Opcode.bin frame c = handle_data r key use_context frame c
  by_opcode r key now use_context Opcode.cont frame c = handle_data r key use_context frame c
  by_opcode r key now use_context Opcode.pong frame c = handle_pong r key now frame c
  by_opcode r key now use_context Opcode.ping frame c = handle_ping r key frame c
  by_opcode r key now use_context Opcode.close frame c = handle_close r key frame c

  unfoldable pub handle_frame : Role → MaskKey → ℕ → Bool → DecodedFrame → Conn → Handled
  unfolding by_opcode
  handle_frame r key now use_context frame c = by_opcode r key now use_context frame.opcode frame c
