-- ===== src/Protocol.antt =====
-- src/protocol: masking and latency statistics.
pub mod Mask
pub mod Ping
