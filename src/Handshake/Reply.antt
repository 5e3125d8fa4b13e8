-- ===== src/Handshake/Reply.antt =====
-- The response of the server, as the client reads it.
use wust_socket.Prelude.{
  ℕ, ◌≡◌, refl, ap, ◌∙◌, List, [], ◌∷◌, ◌++◌, Option, true, false, ◌==◌, ok, All, All-append, codes,
  list_eq,
}
use wust_socket.Http.Text.{is_whitespace, words_from, eq_ignore_ascii_case}
use wust_socket.Http.Headers.{Lowercase, LineRead, Table, collect, get, validate_header}
use wust_socket.Http.Accept.{Digest, hash_key}
use wust_socket.Server
use wust_socket.Server.{Options, extension_reply, read_offers, parse_extensions, respond}
use wust_socket.Client
use wust_socket.Client.{
  accept, accept_headers, read_reply, read_tokens, keeps_context, is_switching,
}
use wust_socket.Handshake.Scan.{IsSolid, eq_ignore_ascii_case_refl}
use wust_socket.Handshake.Lines.{
  LineReader, lines_of, read-text_of, header_line, IsSolid-IsValue, collect-header, Avoids-IsSolid,
  Avoids-literal,
}
use wust_socket.Handshake.Response.{
  reply_value, read_reply-reply_value, Answered, upgraded-Answered, base64-IsSolid, response_lines,
  prefix, response_plain, response_agreed, websocket-IsValue, upgrade-IsValue, reply_value-IsValue,
  more_avoids, line_status, line_upgrade, line_connection, line_end, collect_end,
}

-- The table of the response, newest header first.
abbrev base_table : List ℕ → Table
base_table hash =
    (codes "sec-websocket-accept", hash)
    ∷ (codes "connection", codes "Upgrade")
    ∷ (codes "upgrade", codes "websocket")
    ∷ []

module _ (digest : Digest) (lower : Lowercase) (key : List ℕ) where
  hash-IsSolid : IsSolid (hash_key digest key)
  unfolding hash_key
  hash-IsSolid = base64-IsSolid _ (digest.base64_text _)

  collect_base :
      (lines : List LineRead)
      → collect lower
          (lines_of
            (codes "Upgrade: websocket\r"
              ∷ codes "Connection: Upgrade\r"
              ∷ header_line (codes "Sec-WebSocket-Accept") (hash_key digest key)
              ∷ [])
            lines)
          []
        ≡ collect lower lines (base_table (hash_key digest key))
  collect_base lines =
      collect-header lower (codes "Upgrade") (codes "websocket") _ [] (unfold is_whitespace in refl)
        websocket-IsValue
      ∙ collect-header lower (codes "Connection") (codes "Upgrade") _ _
          (unfold is_whitespace in refl) upgrade-IsValue
      ∙ collect-header lower (codes "Sec-WebSocket-Accept") (hash_key digest key) _ _
          (unfold is_whitespace in refl) (IsSolid-IsValue _ hash-IsSolid)

  checks_base : Client.check_headers digest lower key (base_table (hash_key digest key)) ≡ ok tt
  unfolding Client.check_headers validate_header get list_eq
  checks_base =
      rw (eq_ignore_ascii_case_refl (hash_key digest key)) (unfold eq_ignore_ascii_case in refl)

  checks_agreed :
      (v : List ℕ)
      → Client.check_headers digest lower key
          ((codes "sec-websocket-extensions", v) ∷ base_table (hash_key digest key))
        ≡ ok tt
  unfolding Client.check_headers validate_header get list_eq
  checks_agreed v =
      rw (eq_ignore_ascii_case_refl (hash_key digest key)) (unfold eq_ignore_ascii_case in refl)

  accept_headers-ok :
      (lines : List LineRead) (t : Table)
      → collect lower lines [] ≡ ok t
      → Client.check_headers digest lower key t ≡ ok tt
      → accept_headers digest lower key lines
        ≡ ok (read_reply (get t (codes "sec-websocket-extensions")))
  unfolding accept_headers
  accept_headers-ok lines t e h = rw (e, h) refl

  accept_status :
      (lines : List LineRead)
      → accept digest lower key
          (LineRead.line (codes "HTTP/1.1 101 Switching Protocols\r\n") ∷ lines)
        ≡ accept_headers digest lower key lines
  unfolding accept is_switching words_from is_whitespace list_eq
  accept_status lines = refl

  accept_plain :
      (rest : List LineRead)
      → accept digest lower key (lines_of (response_lines (hash_key digest key) []) rest)
        ≡ ok (record { compressed = false; use_context = true })
  accept_plain rest =
      accept_status _
      ∙ accept_headers-ok _ (base_table (hash_key digest key))
          (collect_base _ ∙ collect_end lower rest _) checks_base
      ∙ unfold get list_eq read_reply in refl

  accept_agreed :
      (o : Options) (rest : List LineRead)
      → accept digest lower key (
          lines_of
            (response_lines
              (hash_key digest key)
              (header_line (codes "Sec-WebSocket-Extensions") (reply_value o) ∷ []))
            rest)
        ≡ ok (record { compressed = true; use_context = o.use_context })
  accept_agreed o rest =
      let v = reply_value o in
      accept_status _
      ∙ accept_headers-ok _
          ((codes "sec-websocket-extensions", v) ∷ base_table (hash_key digest key))
          (collect_base _
            ∙ collect-header lower (codes "Sec-WebSocket-Extensions") v _ _
                (unfold is_whitespace in refl)
                (reply_value-IsValue o.use_context o.client_max_bits o.server_max_bits)
            ∙ collect_end lower rest _)
          (checks_agreed v)
      ∙ unfold get list_eq in
        ap ok (read_reply-reply_value o.use_context o.client_max_bits o.server_max_bits)

  hash_line :
      All
        (λ c. (c == b'\n') ≡ false)
        (header_line (codes "Sec-WebSocket-Accept") (hash_key digest key))
  hash_line =
      All-append _ (codes "Sec-WebSocket-Accept: ") _
        (Avoids-literal (codes "Sec-WebSocket-Accept: ") refl)
        (All-append _ (hash_key digest key) (b'\r' ∷ []) (Avoids-IsSolid _ hash-IsSolid) (refl, tt))

  accept-Answered :
      (reader : LineReader) {x : Server.Extensions}
      → Answered x
      → accept digest lower key
          (reader.read (prefix ++ hash_key digest key ++ codes "\r\n" ++ x.0 ++ codes "\r\n"))
        ≡ ok x.1
  accept-Answered reader Answered.plain =
      let hash = hash_key digest key in
      ap (λ s. accept digest lower key (reader.read s)) (response_plain hash)
      ∙ ap (accept digest lower key) (
          read-text_of reader (response_lines hash [])
            (line_status, (line_upgrade, (line_connection, (hash_line, (line_end, tt))))))
      ∙ accept_plain (reader.read [])
  accept-Answered reader (Answered.agreed o) =
      let hash = hash_key digest key in
      let more = header_line (codes "Sec-WebSocket-Extensions") (reply_value o) in
      ap (λ s. accept digest lower key (reader.read s)) (response_agreed hash o)
      ∙ ap (accept digest lower key) (
          read-text_of reader (response_lines hash (more ∷ [])) (
            line_status,
            (
              line_upgrade,
              (
                line_connection,
                (
                  hash_line,
                  (
                    Avoids-literal more
                        (more_avoids o.use_context o.client_max_bits o.server_max_bits),
                    (line_end, tt),
                  ),
                ),
              ),
            ),
          ))
      ∙ accept_agreed o (reader.read [])

  -- Whatever the request asked for, the client reads from the response of the server exactly the
  -- settings that the server has taken, if the server answered the client's key: compression is on
  -- at both ends or at none, and the streams are kept or reset at both.
  pub accept-respond :
      (reader : LineReader) (extensions : Option (List ℕ))
      → accept digest lower key (reader.read (respond digest key extensions).0)
        ≡ ok (respond digest key extensions).1
  unfolding respond
  accept-respond reader extensions = accept-Answered reader (upgraded-Answered extensions)
