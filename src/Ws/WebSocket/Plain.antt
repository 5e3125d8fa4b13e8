-- ===== src/Ws/WebSocket/Plain.antt =====
-- A message on a connection without compression: what `send_data` sends, the other end hands out.
use wust_socket.Prelude.{
  ℕ, ◌≤◌, ◌≡◌, refl, sym, ap, ◌∙◌, List, [], ◌∷◌, ◌++◌, none, some, Bool, true, false, ok, length,
  concat,
}
use wust_socket.Prelude.Utf8.{is_utf8}
use wust_socket.Channel.{Sender, Deflater, Inflater}
use wust_socket.Role.{Role, peer}
use wust_socket.Protocol.Mask.{MaskKey}
use wust_socket.Frames.Limits.{max_message_size}
use wust_socket.Frames.Opcode.{Opcode}
use wust_socket.Frames.Data.{data_frames}
use wust_socket.Frames.RoundTrip.{IsReady}
use wust_socket.Ws.Event.{Event, PartialMessage, into_message, to_event, is_text, contents}
use wust_socket.Ws.FrameHandler.{Action}
use wust_socket.Ws.Reader.{Reader}
use wust_socket.Ws.WebSocket.{WebSocket}
use wust_socket.Ws.Reader.Pieces.{Handles}
use wust_socket.Ws.Reader.Delivery.{all_frames-Handles}
use wust_socket.Ws.FrameHandler.Assembly.{starts}
use wust_socket.Ws.WebSocket.{Message, send_data}
use wust_socket.Ws.Event.{push_bytes as extend}

abbrev pub opcode_of : Message → Opcode
opcode_of (Message.text v) = Opcode.text
opcode_of (Message.binary v) = Opcode.bin

abbrev pub content : Message → List ℕ
content (Message.text v) = v
content (Message.binary v) = v

abbrev pub event_of : Message → Event
event_of (Message.text v) = Event.text (record { inner = v })
event_of (Message.binary v) = Event.binary v

-- Text is valid UTF-8.
abbrev pub IsProper : Message → Type 0
IsProper (Message.text v) = is_utf8 v ≡ true
IsProper (Message.binary v) = Unit

abbrev pub empty_message : Message → PartialMessage
empty_message (Message.text v) = PartialMessage.text []
empty_message (Message.binary v) = PartialMessage.binary []

pub starts-empty_message : (m : Message) → starts (opcode_of m) ≡ some (empty_message m)
starts-empty_message (Message.text v) = refl
starts-empty_message (Message.binary v) = refl

-- The whole of a message, once it is inflated.
pub to_event-message :
    (m : Message) → IsProper m → to_event (is_text (empty_message m)) (content m) ≡ ok (event_of m)
unfolding to_event
to_event-message (Message.text v) h = rw h refl
to_event-message (Message.binary v) h = refl

pub extend-empty_message :
    (m : Message) (bytes : List ℕ)
    → (contents (extend (empty_message m) bytes) ≡ bytes)
      × (is_text (extend (empty_message m) bytes) ≡ is_text (empty_message m))
extend-empty_message (Message.text v) bytes = (refl, refl)
extend-empty_message (Message.binary v) bytes = (refl, refl)

as_event :
    (z : Inflater) (m : Message) (use_context : Bool)
    → IsProper m
    → into_message z (extend (empty_message m) (content m)) none use_context
      ≡ (ok (event_of m), none)
unfolding into_message
as_event z m use_context h =
    let (c, t) = extend-empty_message m (content m) in
    rw (c, t) (ap (λ x. (x, none)) (to_event-message m h))

-- The bytes that a successful send without compression has sent are handled, at the other end, as
-- that message and nothing else, and both ends are as before the next message.
pub send_data-Handles :
    (tx : Sender (List ℕ)) (zd : Deflater) (zi : Inflater) (r : Role) (use_context deflate : Bool)
    (reader_keys : ℕ → MaskKey) (keys : ℕ → ℕ → MaskKey) (m : Message) (ws : WebSocket tx zd)
    (s : Reader zi r use_context reader_keys)
    → ws.deflater ≡ none
    → IsReady s.decoder deflate []
    → s.conn.inflater ≡ none
    → s.conn.partial_msg ≡ none
    → IsProper m
    → length (content m) ≤ max_message_size
    → (u : Unit {0}) → (send_data tx zd (peer r) keys (content m) (opcode_of m) ws).0 ≡ ok u
    → let ws' = (send_data tx zd (peer r) keys (content m) (opcode_of m) ws).1 in
      (bytes : List (List ℕ)) × (s' : Reader zi r use_context reader_keys) × (tx.sent ws'.data_tx
        ≡ tx.sent ws.data_tx ++ bytes)
      × Handles zi r use_context reader_keys s (concat bytes) s'
      × (s'.actions ≡ s.actions ++ Action.event (event_of m) ∷ [])
      × (ws'.deflater ≡ none)
      × (s'.conn.inflater ≡ none)
      × IsReady s'.decoder deflate []
      × (s'.conn.partial_msg ≡ none)
unfolding send_data data_frames
send_data-Handles tx zd zi r use_context deflate reader_keys keys m ws s plain ready i idle proper
      fits u e =
    let bytes = content m in
    let op = opcode_of m in
    let event : into_message zi (extend (empty_message m) bytes) s.conn.inflater use_context
        ≡ (ok (event_of m), none) =
      ap (λ x. into_message zi (extend (empty_message m) bytes) x use_context) i
      ∙ as_event zi m use_context proper in
    let same : data_frames tx zd (peer r) bytes op ws.deflater ws.use_context (keys ws.calls)
          ws.data_tx
        ≡ data_frames tx zd (peer r) bytes op none ws.use_context (keys ws.calls) ws.data_tx =
      ap (λ x. data_frames tx zd (peer r) bytes op x ws.use_context (keys ws.calls) ws.data_tx)
        plain in
    let (sent, s', in_order, handles, conn, actions, next) =
      all_frames-Handles zi r use_context reader_keys tx deflate op false (keys ws.calls) bytes
        ws.data_tx s (empty_message m) (event_of m) none ready (starts-empty_message m) (λ k. cc)
        idle fits event u (ap (λ x. x.0) (sym same) ∙ e) in
    (
      sent,
      s',
      ap (λ x. tx.sent x.2) same ∙ in_order,
      handles,
      actions,
      ap (λ x. x.1) same,
      ap (λ c. c.inflater) conn,
      next,
      ap (λ c. c.partial_msg) conn,
    )
