-- ===== src/Examples.antt =====
-- Concrete runs: tests of the definitions, and the theorems at concrete inputs.
mod Setup
mod Frames
mod Ws
mod Protocol
mod Handshake
mod Handle
mod Conversation
mod Session
mod Copy
mod Errors
mod PingPong
mod Pings
mod Closing
