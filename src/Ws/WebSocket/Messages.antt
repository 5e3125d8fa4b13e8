-- ===== src/Ws/WebSocket/Messages.antt =====
-- What an end sends on a connection: messages, one after the other, each by `send_text` or
-- `send_bytes`.
use wust_socket.Prelude.{ℕ, ◌≤◌, ◌≡◌, List, [], ◌∷◌, Option, none, some, Bool, true, ok, length}
use wust_socket.Prelude.Utf8.{is_utf8}
use wust_socket.Channel.{Sender, Deflater}
use wust_socket.Role.{Role, peer}
use wust_socket.Protocol.Mask.{MaskKey}
use wust_socket.Frames.Limits.{max_message_size}
use wust_socket.Frames.Data.{deflate}
use wust_socket.Ws.Event.{Text}
use wust_socket.Ws.FrameHandler.{Action}
use wust_socket.Ws.WebSocket.{WebSocket, Message, send_text, send_bytes}
use wust_socket.Ws.WebSocket.Plain.{content, event_of}

-- The events of these messages at the other end.
abbrev pub as_events : List Message → List Action
as_events [] = []
as_events (m ∷ ms) = Action.event (event_of m) ∷ as_events ms

-- The role is that of the end that reads.
module _ (tx : Sender (List ℕ)) (zd : Deflater) (r : Role) (use_context : Bool)
    (keys : ℕ → ℕ → MaskKey) where
  -- The payload of the frames of a message.
  abbrev pub sent_payload : Option zd.Encoder → Message → List ℕ
  sent_payload none m = content m
  sent_payload (some e) m = (deflate tx zd use_context (content m) e).0

  -- Messages that one end sends one after the other, all without an error. Text is valid UTF-8, and
  -- what is sent for each message has at most `MAX_MESSAGE_SIZE` bytes.
  pub data Sends : List Message → WebSocket tx zd → WebSocket tx zd → Type 0 where
    done : {ws : WebSocket tx zd} → Sends [] ws ws
    text :
        {ms : List Message} {ws ws' : WebSocket tx zd} (t : Text) (u : Unit {0})
        → (send_text tx zd (peer r) keys t ws).0 ≡ ok u
        → is_utf8 t.inner ≡ true
        → length (sent_payload ws.deflater (Message.text t.inner)) ≤ max_message_size
        → Sends ms (send_text tx zd (peer r) keys t ws).1 ws'
        → Sends (Message.text t.inner ∷ ms) ws ws'
    binary :
        {ms : List Message} {ws ws' : WebSocket tx zd} (b : List ℕ) (u : Unit {0})
        → (send_bytes tx zd (peer r) keys b ws).0 ≡ ok u
        → length (sent_payload ws.deflater (Message.binary b)) ≤ max_message_size
        → Sends ms (send_bytes tx zd (peer r) keys b ws).1 ws'
        → Sends (Message.binary b ∷ ms) ws ws'
