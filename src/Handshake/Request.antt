-- ===== src/Handshake/Request.antt =====
-- The request of the client, as the server reads it.
use wust_socket.Prelude.{
  ℕ, ◌≡◌, refl, ap, ◌∙◌, List, [], ◌∷◌, ◌++◌, Bool, true, false, ◌||◌, not, ok, All, All-append,
  codes, list_eq,
}
use wust_socket.Http.Text.{is_whitespace, eq_ignore_ascii_case}
use wust_socket.Http.Headers.{
  Lowercase, LineRead, Table, collect, get, contains_key, validate_header,
}
use wust_socket.Http.Accept.{Digest, Settings}
use wust_socket.Server
use wust_socket.Server.{
  Options, extension_reply, read_offers, read_options, read_option, parse_extensions, respond,
  answer, answer_headers, is_get,
}
use wust_socket.Client.{ClientContext, request, offer, digits, display_u16}
use wust_socket.Client
use wust_socket.Handshake.Scan.{IsSolid, Avoids}
use wust_socket.Handshake.Lines.{
  LineReader, lines_of, read-text_of, header_line, IsSolid-IsValue, collect-header, Avoids-IsSolid,
  Avoids-literal,
}
use wust_socket.Handshake.Reply.{accept-respond}
use wust_socket.Handshake.Response.{
  base64-IsSolid, websocket-IsValue, upgrade-IsValue, line_upgrade, line_connection, line_end,
  collect_end,
}
use wust_socket.Handshake.RequestText.{
  offer_value, offered, more_lines, host_value, get_line, request_lines, request-text_of,
  parse_offer, IsPlain, host_value-IsSolid, request-is_get, version-IsValue, offer-IsValue,
  more_avoid,
}

abbrev base_table : ClientContext → List ℕ → Table
base_table ctx key =
    (codes "sec-websocket-version", codes "13")
    ∷ (codes "sec-websocket-key", key)
    ∷ (codes "connection", codes "Upgrade")
    ∷ (codes "upgrade", codes "websocket")
    ∷ (codes "host", host_value ctx)
    ∷ []

module _ (digest : Digest) (lower : Lowercase) (ctx : ClientContext) (key : List ℕ)
    (plain : IsPlain ctx) (solid : IsSolid key) where
  collect_base :
      (lines : List LineRead)
      → collect lower
          (lines_of
            (header_line (codes "Host") (host_value ctx)
              ∷ codes "Upgrade: websocket\r"
              ∷ codes "Connection: Upgrade\r"
              ∷ header_line (codes "Sec-WebSocket-Key") key
              ∷ codes "Sec-WebSocket-Version: 13\r"
              ∷ [])
            lines)
          []
        ≡ collect lower lines (base_table ctx key)
  collect_base lines =
      collect-header lower (codes "Host") (host_value ctx) _ [] (unfold is_whitespace in refl)
        (IsSolid-IsValue _ (host_value-IsSolid ctx plain))
      ∙ collect-header lower (codes "Upgrade") (codes "websocket") _ _
          (unfold is_whitespace in refl) websocket-IsValue
      ∙ collect-header lower (codes "Connection") (codes "Upgrade") _ _
          (unfold is_whitespace in refl) upgrade-IsValue
      ∙ collect-header lower (codes "Sec-WebSocket-Key") key _ _ (unfold is_whitespace in refl)
          (IsSolid-IsValue key solid)
      ∙ collect-header lower (codes "Sec-WebSocket-Version") (codes "13") _ _
          (unfold is_whitespace in refl) version-IsValue

  answer_headers-ok :
      (lines : List LineRead) (t : Table)
      → collect lower lines [] ≡ ok t
      → Server.check_headers digest t ≡ ok key
      → answer_headers digest lower lines
        ≡ ok (respond digest key (get t (codes "sec-websocket-extensions")))
  unfolding answer_headers
  answer_headers-ok lines t e h = rw (e, h) refl

  checks : Server.check_headers digest (base_table ctx key) ≡ ok key
  unfolding Server.check_headers contains_key validate_header get list_eq eq_ignore_ascii_case
  checks = refl

  checks_offered :
      (v : List ℕ)
      → Server.check_headers digest ((codes "sec-websocket-extensions", v) ∷ base_table ctx key)
        ≡ ok key
  unfolding Server.check_headers contains_key validate_header get list_eq eq_ignore_ascii_case
  checks_offered v = refl

  answer_status :
      (lines : List LineRead)
      → answer digest lower (LineRead.line (get_line ctx.path ++ b'\n' ∷ []) ∷ lines)
        ≡ answer_headers digest lower lines
  unfolding answer
  answer_status lines = rw (request-is_get ctx plain, answer) refl

  answer-lines :
      (compressed use_context : Bool) (rest : List LineRead)
      → answer digest lower
          (lines_of (request_lines ctx key (more_lines compressed use_context)) rest)
        ≡ ok (respond digest key (offered compressed use_context))
  answer-lines true use_context rest =
      let v = offer_value use_context in
      answer_status _
      ∙ answer_headers-ok _ ((codes "sec-websocket-extensions", v) ∷ base_table ctx key)
          (collect_base _
            ∙ collect-header lower (codes "Sec-WebSocket-Extensions") v _ _
                (unfold is_whitespace in refl) (offer-IsValue use_context)
            ∙ collect_end lower rest _)
          (checks_offered v)
      ∙ unfold get list_eq in refl
  answer-lines false use_context rest =
      answer_status _
      ∙ answer_headers-ok _ (base_table ctx key) (collect_base _ ∙ collect_end lower rest _) checks
      ∙ unfold get list_eq in refl

  lines_avoid :
      (compressed use_context : Bool)
      → All (Avoids b'\n') (request_lines ctx key (more_lines compressed use_context))
  lines_avoid compressed use_context =
      let get : Avoids b'\n' (get_line ctx.path) =
        All-append _ (codes "GET ") _ (Avoids-literal (codes "GET ") refl) (
          All-append _ ctx.path (codes " HTTP/1.1\r") (Avoids-IsSolid ctx.path plain.path)
            (Avoids-literal (codes " HTTP/1.1\r") refl)) in
      let host : Avoids b'\n' (header_line (codes "Host") (host_value ctx)) =
        All-append _ (codes "Host: ") _ (Avoids-literal (codes "Host: ") refl) (
          All-append _ (host_value ctx) (codes "\r")
            (Avoids-IsSolid (host_value ctx) (host_value-IsSolid ctx plain)) line_end) in
      let sent_key : Avoids b'\n' (header_line (codes "Sec-WebSocket-Key") key) =
        All-append _ (codes "Sec-WebSocket-Key: ") _
          (Avoids-literal (codes "Sec-WebSocket-Key: ") refl)
          (All-append _ key (codes "\r") (Avoids-IsSolid key solid) line_end) in
      let version : Avoids b'\n' (codes "Sec-WebSocket-Version: 13\r") =
        Avoids-literal (codes "Sec-WebSocket-Version: 13\r") refl in
      let more =
        All-append (Avoids b'\n') (more_lines compressed use_context) (codes "\r" ∷ [])
          (more_avoid compressed use_context) (line_end, tt) in
      (get, (host, (line_upgrade, (line_connection, (sent_key, (version, more))))))

  -- The server answers the request of the client with `respond`, for the key and the offer in it.
  pub answer-request :
      (reader : LineReader) (compressed use_context : Bool)
      → answer digest lower (reader.read (request ctx key compressed use_context))
        ≡ ok (respond digest key (offered compressed use_context))
  answer-request reader compressed use_context =
      ap (λ s. answer digest lower (reader.read s)) (request-text_of ctx key compressed use_context)
      ∙ ap (answer digest lower) (
          read-text_of reader (request_lines ctx key (more_lines compressed use_context))
            (lines_avoid compressed use_context))
      ∙ answer-lines compressed use_context (reader.read [])

respond-offered :
    (digest : Digest) (key : List ℕ) (compressed use_context : Bool)
    → (respond digest key (offered compressed use_context)).1
      ≡ record { compressed = compressed; use_context = not compressed || use_context }
unfolding respond
respond-offered digest key true use_context = parse_offer use_context
respond-offered digest key false use_context = refl

-- The opening handshake of a client and a server of this crate succeeds, and both ends take the same
-- settings: those that the client asked for, with the streams kept where compression is off. What
-- each end sends is read line by line by the other. The host has no white space, and the path has
-- none and is not empty.
pub try_upgrade-agrees :
    (digest : Digest) (lower : Lowercase) (reader : LineReader) (ctx : ClientContext)
    (nonce : List ℕ) (compressed use_context : Bool)
    → IsPlain ctx
    → (response : List ℕ) × (let settings : Settings = record {
      compressed = compressed;
      use_context = not compressed || use_context;
    } in
        let sent = request ctx (digest.base64 nonce) compressed use_context in
        (Server.try_upgrade digest lower true true (reader.read sent)
          ≡ (response ∷ [], ok settings))
        × (Client.try_upgrade digest lower ctx nonce compressed use_context true true
              (reader.read response)
            ≡ (sent ∷ [], ok settings)))
unfolding Server.try_upgrade Client.try_upgrade
try_upgrade-agrees digest lower reader ctx nonce compressed use_context plain =
    let key = digest.base64 nonce in
    let solid = base64-IsSolid key (digest.base64_text nonce) in
    let same = respond-offered digest key compressed use_context in
    let both = accept-respond digest lower key reader (offered compressed use_context) in
    (
      (respond digest key (offered compressed use_context)).0,
      (
        rw
            (
              answer-request digest lower ctx key plain solid reader compressed use_context,
              Server.try_upgrade,
              same,
            )
            refl,
        rw (both, Client.try_upgrade, same) refl,
      ),
    )
