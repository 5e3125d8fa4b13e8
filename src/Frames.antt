-- ===== src/Frames.antt =====
-- src/frames: the frames on the wire.
pub mod Limits
pub mod Opcode
pub mod Wire
pub mod Control
pub mod Data
pub mod Decode
pub mod RoundTrip
pub mod Delivery
pub mod Sequence
