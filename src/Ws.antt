-- ===== src/Ws.antt =====
-- src/ws: the connection.
pub mod Event
pub mod FrameHandler
pub mod Reader
pub mod Writer
pub mod PingLoop
pub mod WebSocket
pub mod Stream
pub mod Closing
pub mod PingPong
