-- ===== src/Client.antt =====
-- src/client.rs: the opening handshake of the client. `Connect` has what comes before it.
pub mod Connect
use wust_socket.Prelude.{
  ℕ, zero, suc, ◌+◌, ◌/◌, ◌%◌, List, [], ◌∷◌, ◌++◌, Option, none, some, Bool, true, false, not,
  ◌&&◌, ◌||◌, Result, ok, err, ◌>>=◌, if◌then◌else◌, codes, list_eq, ltb,
}
use wust_socket.Error.{UpgradeError}
use wust_socket.Http.Text.{trim, split, split_whitespace}
use wust_socket.Http.Headers.{Lowercase, LineRead, Table, get, validate_header, collect}
use wust_socket.Http.Accept.{Digest, hash_key, Settings}

-- The parts of `ClientContext` that are sent.
pub record ClientContext : Type 0 where
  pub host : List ℕ
  pub path : List ℕ
  pub port : ℕ

-- `{}` on a `u16`: its decimal digits, at most five.
unfoldable pub digits : ℕ → ℕ → List ℕ
digits zero n = []
digits (suc fuel) n =
    let high = digits fuel (n / 10) in (if ltb n 10 then [] else high) ++ (b'0' + n % 10) ∷ []

abbrev pub display_u16 : ℕ → List ℕ
display_u16 n = digits 5 n

unfoldable pub offer : Bool → Bool → List ℕ
offer compressed use_context =
    if compressed
    then codes "Sec-WebSocket-Extensions: permessage-deflate"
      ++ (if use_context
          then []
          else codes "; client_no_context_takeover; server_no_context_takeover")
      ++ codes "\r\n"
    else []

-- The request; `key` is the text of 16 random bytes.
unfoldable pub request : ClientContext → List ℕ → Bool → Bool → List ℕ
unfolding offer
request ctx key compressed use_context =
    codes "GET "
    ++ ctx.path
    ++ codes " HTTP/1.1\r\nHost: "
    ++ ctx.host
    ++ codes ":"
    ++ display_u16 ctx.port
    ++ codes "\r\nUpgrade: websocket\r\nConnection: Upgrade\r\nSec-WebSocket-Key: "
    ++ key
    ++ codes "\r\nSec-WebSocket-Version: 13\r\n"
    ++ offer compressed use_context
    ++ codes "\r\n"

unfoldable pub is_switching : List (List ℕ) → Bool
is_switching (version ∷ status ∷ more) =
    list_eq version (codes "HTTP/1.1") && list_eq status (codes "101")
is_switching _ = false

-- The loop over the tokens behind the name of the extension.
unfoldable pub keeps_context : List (List ℕ) → Bool → Bool
keeps_context [] use_context = use_context
keeps_context (token ∷ tokens) use_context =
    let t = trim token in
    keeps_context tokens (
      if list_eq t (codes "client_no_context_takeover")
        || list_eq t (codes "server_no_context_takeover")
      then false
      else use_context)

unfoldable pub read_tokens : List (List ℕ) → Settings
read_tokens [] = record { compressed = false; use_context = true }
read_tokens (ext ∷ tokens) =
    if list_eq ext (codes "permessage-deflate")
    then record { compressed = true; use_context = keeps_context tokens true }
    else record { compressed = false; use_context = true }

-- The settings, by the header of the reply, if there is one.
unfoldable pub read_reply : Option (List ℕ) → Settings
unfolding read_tokens
read_reply none = record { compressed = false; use_context = true }
read_reply (some ext_reply) = read_tokens (split b';' ext_reply)

module _ (digest : Digest) (lower : Lowercase) where
  unfoldable pub check_headers : List ℕ → Table → Result UpgradeError (Unit {0})
  check_headers key t = validate_header t (codes "upgrade") (codes "websocket") >>= (λ _.
      validate_header t (codes "connection") (codes "upgrade")
      >>= (λ _. validate_header t (codes "sec-websocket-accept") (hash_key digest key)))

  unfoldable pub accept_headers : List ℕ → List LineRead → Result UpgradeError Settings
  unfolding check_headers read_reply
  accept_headers key lines = collect lower lines [] >>= (λ t.
      check_headers key t >>= (λ _. ok (read_reply (get t (codes "sec-websocket-extensions")))))

  -- What `try_upgrade` makes of the lines of the response.
  unfoldable pub accept : List ℕ → List LineRead → Result UpgradeError Settings
  unfolding accept_headers
  accept key [] = err (UpgradeError.status_line [])
  accept key (LineRead.failed ∷ lines) = err UpgradeError.read
  accept key (LineRead.line s ∷ lines) =
      if is_switching (split_whitespace s)
      then accept_headers key lines
      else err (UpgradeError.status_line s)

  -- `try_upgrade`: what is written, and the result. `nonce` is what `rand::random` returns; the
  -- flags say whether `write_all` and `flush` succeed.
  unfoldable pub try_upgrade :
      ClientContext
      → List ℕ
      → Bool
      → Bool
      → Bool
      → Bool
      → List LineRead
      → List (List ℕ) × Result UpgradeError Settings
  unfolding accept request
  try_upgrade ctx nonce compressed use_context written flushed lines =
      let key = digest.base64 nonce in
      let req = request ctx key compressed use_context in
      if not written
      then ([], err UpgradeError.write)
      else if not flushed
      then (req ∷ [], err UpgradeError.write)
      else (req ∷ [], accept key lines)
