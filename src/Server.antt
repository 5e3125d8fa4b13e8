-- ===== src/Server.antt =====
-- src/server.rs: the opening handshake of the server, and the choice between TCP and TLS. The lines
-- that `read_line` gives are a list; whether the writes succeed is an argument.
pub mod Policy
pub mod Run
use wust_socket.Prelude.{
  ℕ, List, [], ◌∷◌, ◌++◌, Option, none, some, Bool, true, false, not, ◌&&◌, ◌||◌, Result, ok, err,
  ◌>>=◌, if◌then◌else◌, codes, list_eq,
}
use wust_socket.Error.{UpgradeError}
use wust_socket.Http.Text.{trim, split, split_once, split_whitespace, starts_with}
use wust_socket.Http.Headers.{
  Lowercase, LineRead, Table, get, contains_key, validate_header, collect,
}
use wust_socket.Http.Accept.{Digest, hash_key, Settings}

-- The variables of `parse_extensions` that an option of an offer may set.
pub record Options : Type 0 where
  pub use_context : Bool
  pub client_max_bits : Bool
  pub server_max_bits : Bool

-- The value of a `max_window_bits` option, if any, has to be 15.
abbrev is_max_bits : List ℕ → Bool
is_max_bits option = elim (split_once b'=' option) [
  | none ↦ true
  | some (name, value) ↦ list_eq value (codes "15")
]

-- One option; `none` is the `break`.
unfoldable pub read_option : List ℕ → Options → Option Options
read_option option o =
    if list_eq option (codes "client_no_context_takeover")
      || list_eq option (codes "server_no_context_takeover")
    then some (record o { use_context = false })
    else if starts_with (codes "client_max_window_bits") option
    then (if is_max_bits option then some (record o { client_max_bits = true }) else none)
    else if starts_with (codes "server_max_window_bits") option
    then (if is_max_bits option then some (record o { server_max_bits = true }) else none)
    else some o

unfoldable pub read_options : List (List ℕ) → Options → Options
read_options [] o = o
read_options (option ∷ options) o = elim (read_option (trim option) o) [
  | none ↦ o
  | some o' ↦ read_options options o'
]

-- The header line of the answer.
unfoldable pub extension_reply : Options → List ℕ
extension_reply o =
    codes "Sec-WebSocket-Extensions: permessage-deflate"
    ++ (if o.use_context
        then []
        else codes "; server_no_context_takeover; client_no_context_takeover")
    ++ (if o.client_max_bits then codes "; client_max_window_bits=15" else [])
    ++ (if o.server_max_bits then codes "; server_max_window_bits=15" else [])
    ++ codes "\r\n"

-- What `parse_extensions` appends to the response, and what it returns.
abbrev pub Extensions : Type 0
Extensions = List ℕ × Settings

-- The loop over the offers; the parts of an offer are its name and its options.
unfoldable pub read_offers : List (List (List ℕ)) → Bool → Extensions
read_offers [] use_context = ([], record { compressed = false; use_context = use_context })
read_offers ([] ∷ offers) use_context = read_offers offers use_context
read_offers ((ext ∷ options) ∷ offers) use_context =
    let o =
      read_options options
        (record { use_context = use_context; client_max_bits = false; server_max_bits = false }) in
    let later = read_offers offers use_context in
    if list_eq ext (codes "permessage-deflate")
    then (extension_reply o, record { compressed = true; use_context = o.use_context })
    else later

abbrev pub parts : List (List ℕ) → List (List (List ℕ))
parts [] = []
parts (offer ∷ offers) = split b';' offer ∷ parts offers

unfoldable pub parse_extensions : List ℕ → Extensions
parse_extensions value = read_offers (parts (split b',' value)) true

-- The first line has to begin with `GET`, a path, and `HTTP/1.1`.
unfoldable pub is_get : List (List ℕ) → Bool
is_get (method ∷ path ∷ version ∷ more) =
    list_eq method (codes "GET") && list_eq version (codes "HTTP/1.1")
is_get _ = false

abbrev pub upgraded : Option (List ℕ) → Extensions
upgraded none = ([], record { compressed = false; use_context = true })
upgraded (some value) = parse_extensions value

module _ (digest : Digest) where
  -- The response, and the settings.
  unfoldable pub respond : List ℕ → Option (List ℕ) → List ℕ × Settings
  unfolding parse_extensions
  respond key extensions =
      let (reply, settings) = upgraded extensions in
      (
        codes
              "HTTP/1.1 101 Switching Protocols\r\nUpgrade: websocket\r\nConnection: Upgrade\r\nSec-WebSocket-Accept: "
            ++ hash_key digest key
            ++ codes "\r\n"
            ++ reply
            ++ codes "\r\n",
        settings,
      )

  -- The checks of the headers; the result is the key.
  unfoldable pub check_headers : Table → Result UpgradeError (List ℕ)
  check_headers t =
      if contains_key t (codes "host")
      then validate_header t (codes "upgrade") (codes "websocket") >>= (λ _.
        validate_header t (codes "connection") (codes "upgrade") >>= (λ _.
          validate_header t (codes "sec-websocket-version") (codes "13") >>= (λ _.
            elim (get t (codes "sec-websocket-key")) [
              | none ↦ err (UpgradeError.missing_header (codes "sec-websocket-key"))
              | some key ↦ ok key
            ])))
      else err (UpgradeError.missing_header (codes "host"))

  module _ (lower : Lowercase) where
    -- What `try_upgrade` answers to the lines behind the first.
    unfoldable pub answer_headers : List LineRead → Result UpgradeError (List ℕ × Settings)
    unfolding respond check_headers
    answer_headers lines = collect lower lines [] >>= (λ t.
        check_headers t >>= (λ key. ok (respond key (get t (codes "sec-websocket-extensions")))))

    unfoldable pub answer : List LineRead → Result UpgradeError (List ℕ × Settings)
    unfolding answer_headers
    answer [] = err (UpgradeError.status_line [])
    answer (LineRead.failed ∷ lines) = err UpgradeError.read
    answer (LineRead.line s ∷ lines) =
        if is_get (split_whitespace s)
        then answer_headers lines
        else err (UpgradeError.status_line s)

    -- `try_upgrade`: what is written to the stream, and the result. The flags say whether
    -- `write_all` and `flush` succeed.
    unfoldable pub try_upgrade :
        Bool → Bool → List LineRead → List (List ℕ) × Result UpgradeError Settings
    unfolding answer
    try_upgrade written flushed lines = elim (answer lines) [
      | err e ↦ ([], err e)
      | ok (response, settings) ↦
          if not written
          then ([], err UpgradeError.write)
          else if not flushed
          then (response ∷ [], err UpgradeError.write)
          else (response ∷ [], ok settings)
    ]

-- What `peek` finds at the start of a connection: its end, an error, or the array of four bytes.
pub data Peek : Type 0 where
  end failed : Peek
  bytes : List ℕ → Peek

-- What the task of a connection tries.
pub data Attempt : Type 0 where
  returns plain secure : Attempt
  fails : UpgradeError → Attempt

-- The choice of `run`; the last argument says whether the TLS handshake succeeds.
unfoldable pub attempt : Bool → Bool → Peek → Bool → Attempt
attempt insecure ssl Peek.end accepted = Attempt.returns
attempt insecure ssl Peek.failed accepted = Attempt.returns
attempt insecure ssl (Peek.bytes peeker) accepted =
    if insecure && starts_with (codes "GET ") peeker
    then Attempt.plain
    else if ssl
    then (if accepted then Attempt.secure else Attempt.fails UpgradeError.connect)
    else Attempt.fails UpgradeError.protocol
