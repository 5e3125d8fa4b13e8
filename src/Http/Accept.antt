-- ===== src/Http/Accept.antt =====
-- `hash_key` of src/ws/websocket.rs, and what an upgrade settles.
use wust_socket.Prelude.{ℕ, List, ◌++◌, Bool, true, codes, All, leb, ◌==◌, ◌&&◌, ◌||◌, ◌≡◌}
use wust_socket.Http.Text.{as_bytes}

-- The characters of base64, with padding.
abbrev pub is_base64 : ℕ → Bool
is_base64 c =
    leb b'A' c && leb c b'Z'
    || leb b'a' c && leb c b'z'
    || leb b'0' c && leb c b'9'
    || c == b'+'
    || c == b'/'
    || c == b'='

-- The crates sha1 and base64: a digest of bytes, and bytes as text of 64 characters and padding.
pub record Digest : Type 0 where
  pub sha1 : List ℕ → List ℕ
  pub base64 : List ℕ → List ℕ
  pub base64_text : (bytes : List ℕ) → All (λ c. is_base64 c ≡ true) (base64 bytes)

unfoldable pub hash_key : Digest → List ℕ → List ℕ
hash_key digest s =
    digest.base64 (digest.sha1 (as_bytes s ++ codes "258EAFA5-E914-47DA-95CA-C5AB0DC85B11"))

-- The arguments of `from_stream` that the handshake decides.
pub record Settings : Type 0 where
  pub compressed : Bool
  pub use_context : Bool
