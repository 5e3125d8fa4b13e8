-- ===== src/Ws/WebSocket.antt =====
-- The handle of a connection, `WebSocket` in src/ws/websocket.rs: what a user calls. The channels to
-- the writer are the parameter `Sender`, the encoder is the parameter `Deflater`. Each call of the
-- handle is one step; what other tasks do goes on between the calls.
pub mod Sends
pub mod Plain
pub mod Messages
pub mod Compressed
pub mod Conversation
use wust_socket.Prelude.{
  ℕ, ◌+◌, List, [], ◌∷◌, ◌++◌, Option, none, some, Bool, true, false, Result, ok, err,
  if◌then◌else◌, codes,
}
use wust_socket.Channel.{Sender, Deflater}
use wust_socket.Role.{Role}
use wust_socket.Error.{CloseReason}
use wust_socket.Protocol.Mask.{MaskKey}
use wust_socket.Protocol.Ping.{PingStats, new_nonce, average}
use wust_socket.Protocol.Ping
use wust_socket.Frames.Opcode.{Opcode}
use wust_socket.Frames.Control
use wust_socket.Frames.Data.{data_frames}
use wust_socket.Ws.Event.{Event, Text}

pub data Message : Type 0 where
  text binary : List ℕ → Message

-- `MessageHandler`, which a user of the crate implements.
pub record MessageHandler : Type 1 where
  pub State : Type 0
  pub on_text : Text → State → Option Message × State
  pub on_binary : List ℕ → State → Option Message × State
  pub on_close : State → State
  pub on_pong : ℕ → State → State

module _ (tx : Sender (List ℕ)) (z : Deflater) where
  -- The handle, and the part of `Inner` that it uses. The keys of the frames to come are a function
  -- of the number of the call and of the frame in it.
  pub record WebSocket : Type 0 where
    pub ping_stats : PingStats
    pub closing : Bool
    pub close_tx : tx.State
    pub ctrl_tx : tx.State
    pub data_tx : tx.State
    pub deflater : Option z.Encoder
    pub use_context : Bool
    pub calls : ℕ

  -- What `from_stream` sets up, with the state of three new channels and of a new encoder.
  unfoldable pub from_stream :
      ℕ → tx.State → tx.State → tx.State → z.Encoder → Bool → Bool → WebSocket
  from_stream now close_tx ctrl_tx data_tx encoder compressed use_context = record {
    ping_stats = Ping.new now;
    closing = false;
    close_tx = close_tx;
    ctrl_tx = ctrl_tx;
    data_tx = data_tx;
    deflater = if compressed then some encoder else none;
    use_context = use_context;
    calls = 0;
  }

  module _ (r : Role) (keys : ℕ → ℕ → MaskKey) where
    unfoldable pub send_data : List ℕ → Opcode → WebSocket → Result (List ℕ) (Unit {0}) × WebSocket
    send_data bytes opcode ws =
        let (sent, deflater, data_tx) =
          data_frames tx z r bytes opcode ws.deflater ws.use_context (keys ws.calls) ws.data_tx in
        (sent, record ws { deflater = deflater; data_tx = data_tx; calls = ws.calls + 1 })

    unfoldable pub send_text : Text → WebSocket → Result (List ℕ) (Unit {0}) × WebSocket
    unfolding send_data
    send_text s ws = send_data s.inner Opcode.text ws

    unfoldable pub send_bytes : List ℕ → WebSocket → Result (List ℕ) (Unit {0}) × WebSocket
    unfolding send_data
    send_bytes bytes ws = send_data bytes Opcode.bin ws

    -- `closing.swap(true)`, and the close frame if it was not set; `none` is a panic of the encoder.
    unfoldable pub close_reason : CloseReason → List ℕ → WebSocket → Option WebSocket
    close_reason reason why ws =
        if ws.closing then some ws else elim (Control.close r reason why (keys ws.calls 0)) [
          | none ↦ none
          | some frame ↦ some (record ws {
            closing = true;
            close_tx = (tx.send frame ws.close_tx).1;
            calls = ws.calls + 1;
          })
        ]

    unfoldable pub close : WebSocket → Option WebSocket
    unfolding close_reason
    close ws = close_reason CloseReason.normal [] ws

    -- `ping`, at the time `now` and with random bytes.
    unfoldable pub ping : ℕ → List ℕ → WebSocket → Option (Result (List ℕ) (Unit {0}) × WebSocket)
    ping now bytes ws =
        let (nonce, stats) = new_nonce ws.ping_stats now bytes in
        elim (Control.ping r nonce (keys ws.calls 0)) [
          | none ↦ none
          | some frame ↦
              (let (sent, ctrl_tx) = tx.send frame ws.ctrl_tx in
                some
                  (sent, record ws { ping_stats = stats; ctrl_tx = ctrl_tx; calls = ws.calls + 1 }))
        ]

    unfoldable pub latency : WebSocket → Option ℕ
    latency ws = average ws.ping_stats

    -- `Drop`
    unfoldable pub drop : WebSocket → WebSocket
    drop ws = record ws { closing = true }

    -- An error of the send is logged and dropped.
    unfoldable pub handle_ws_message : Option Message → WebSocket → WebSocket
    unfolding send_data send_bytes
    handle_ws_message none ws = ws
    handle_ws_message (some (Message.text s)) ws = (send_data s Opcode.text ws).1
    handle_ws_message (some (Message.binary b)) ws = (send_bytes b ws).1

    module _ (h : MessageHandler) where
      -- `recv_loop` on the events that the channel gives, up to the end of the channel; the rest of
      -- the events is not received.
      unfoldable pub recv_loop : List Event → h.State → WebSocket → h.State × WebSocket × List Event
      recv_loop [] s ws = (s, ws, [])
      recv_loop (Event.text t ∷ events) s ws =
          let (reply, s') = h.on_text t s in recv_loop events s' (handle_ws_message reply ws)
      recv_loop (Event.binary b ∷ events) s ws =
          let (reply, s') = h.on_binary b s in recv_loop events s' (handle_ws_message reply ws)
      recv_loop (Event.closed ∷ events) s ws = (h.on_close s, ws, events)
      recv_loop (Event.pong latency ∷ events) s ws = recv_loop events (h.on_pong latency s) ws

-- `recv`, on the events that the channel gives up to its end, with those that are left.
unfoldable pub recv : List Event → Option Event × List Event
recv [] = (none, [])
recv (e ∷ events) = (some e, events)

-- `recv_timeout`; the flag says that the time is over before the next event.
unfoldable pub recv_timeout : Bool → List Event → Option Event × List Event
recv_timeout true events = (none, events)
recv_timeout false events = recv events
