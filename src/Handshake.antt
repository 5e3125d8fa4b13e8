-- ===== src/Handshake.antt =====
-- The two ends of the opening handshake together.
pub mod Scan
pub mod Lines
pub mod Response
pub mod Reply
pub mod RequestText
pub mod Request
pub mod Offers
