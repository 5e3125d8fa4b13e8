-- ===== src/Http.antt =====
-- What the two ends of the opening handshake share: text, header lines, and the table of headers.
pub mod Text
pub mod Headers
pub mod Accept
