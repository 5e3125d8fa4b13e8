-- ===== src/Frames/Limits.antt =====
-- src/lib.rs: the limits, without the feature `autobahn`.
use wust_socket.Prelude.{ℕ, ◌*◌}

abbrev pub max_frame_payload : ℕ
max_frame_payload = 16 * 1024

abbrev pub max_message_size : ℕ
max_message_size = 16 * 1024 * 1024
