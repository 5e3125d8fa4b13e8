-- ===== src/Handshake/Offers.antt =====
-- Which requests and which offers the server accepts.
use wust_socket.Prelude.{
  ℕ, ◌≡◌, ◌↔◌, refl, ap, ◌∙◌, sym, arith, List, [], ◌∷◌, ◌++◌, some, true, ◌==◌, ok, append_assoc,
  append-nil, Bool-cases, inl, inr, codes, list_eq, if-eq_ok, bind-eq_ok, ok_inj, Option-cases,
  list_eq_iff, map,
}
use wust_socket.Http.Text.{split_from, split_whitespace, eq_ignore_ascii_case, ascii_lower}
use wust_socket.Http.Headers.{
  Lowercase, LineRead, Table, collect, get, contains_key, validate_header,
}
use wust_socket.Http.Accept.{Digest, Settings}
use wust_socket.Server.{
  read_offers, parse_extensions, respond, check_headers, answer, answer_headers, is_get, parts,
}

-- The header is there, with the expected value but for the case of ASCII letters.
abbrev pub HasValue : Table → List ℕ → List ℕ → Type 0
HasValue t field expected =
    (value : List ℕ) × (get t field ≡ some value)
    × (map ascii_lower value ≡ map ascii_lower expected)

-- The headers that the server asks for, with this key.
pub record IsUpgrade (t : Table) (key : List ℕ) : Type 0 where
  pub host : (value : List ℕ) × (get t (codes "host") ≡ some value)
  pub upgrade : HasValue t (codes "upgrade") (codes "websocket")
  pub connection : HasValue t (codes "connection") (codes "upgrade")
  pub version : HasValue t (codes "sec-websocket-version") (codes "13")
  pub key_header : get t (codes "sec-websocket-key") ≡ some key

validate_header-HasValue :
    (t : Table) (field expected : List ℕ)
    → (validate_header t field expected ≡ ok tt) ↔ HasValue t field expected
unfolding validate_header eq_ignore_ascii_case
validate_header-HasValue t field expected = (
  λ h. elim (Option-cases (get t field)) [
    | inr (value, e) ↦
        (value, e, ground (arith, list_eq_iff (map ascii_lower value) (map ascii_lower expected)))
    | inl e ↦ absurd (ground arith)
  ],
  λ (value, e, same).
      let equal = (list_eq_iff (map ascii_lower value) (map ascii_lower expected)).1 same in
      ground arith,
)

contains_key-some :
    (t : Table) (field : List ℕ)
    → (contains_key t field ≡ true) ↔ ((value : List ℕ) × (get t field ≡ some value))
unfolding contains_key
contains_key-some t field = (
  λ h. elim (Option-cases (get t field)) [
    | inr (value, e) ↦ (value, e)
    | inl e ↦ absurd (ground arith)
  ],
  λ (value, e). ground arith,
)

-- The words of a request line for HTTP/1.1; what stands behind them does not matter.
abbrev pub IsGet : List (List ℕ) → Type 0
IsGet words =
    (target : List ℕ) × (more : List (List ℕ)) × (words
      ≡ codes "GET" ∷ target ∷ codes "HTTP/1.1" ∷ more)

is_get-IsGet : (words : List (List ℕ)) → (is_get words ≡ true) ↔ IsGet words
unfolding is_get
is_get-IsGet [] = (λ h. cc, λ (target, more, e). cc)
is_get-IsGet (a ∷ []) = (λ h. cc, λ (target, more, e). cc)
is_get-IsGet (a ∷ b ∷ []) = (λ h. cc, λ (target, more, e). cc)
is_get-IsGet (a ∷ b ∷ c ∷ more) =
    let method = list_eq_iff a (codes "GET") in
    let version = list_eq_iff c (codes "HTTP/1.1") in
    (
      λ h.
          let m : a ≡ codes "GET" = ground (arith, method) in
          let v : c ≡ codes "HTTP/1.1" = ground (arith, version) in (b, more, rw (m, v) refl),
      λ (target, later, e).
          let m : a ≡ codes "GET" = cc in
          let v : c ≡ codes "HTTP/1.1" = cc in
          let first = method.1 m in let last = version.1 v in ground arith,
    )

module _ (digest : Digest) where
  check_headers-ok : (t : Table) (key : List ℕ) → IsUpgrade t key → check_headers digest t ≡ ok key
  unfolding check_headers
  check_headers-ok t key v =
      rw
        (
          (contains_key-some t (codes "host")).1 v.host,
          (validate_header-HasValue t (codes "upgrade") (codes "websocket")).1 v.upgrade,
          (validate_header-HasValue t (codes "connection") (codes "upgrade")).1 v.connection,
          (validate_header-HasValue t (codes "sec-websocket-version") (codes "13")).1 v.version,
          v.key_header,
        )
        refl

  check_headers-IsUpgrade :
      (t : Table) (key : List ℕ) → check_headers digest t ≡ ok key → IsUpgrade t key
  unfolding check_headers
  check_headers-IsUpgrade t key h =
      let has_host : contains_key t (codes "host") ≡ true = ground arith in
      let upgrade : validate_header t (codes "upgrade") (codes "websocket") ≡ ok tt =
        ground arith in
      let connection : validate_header t (codes "connection") (codes "upgrade") ≡ ok tt =
        ground arith in
      let version : validate_header t (codes "sec-websocket-version") (codes "13") ≡ ok tt =
        ground arith in
      record {
        host = (contains_key-some t (codes "host")).0 has_host;
        upgrade = (validate_header-HasValue t (codes "upgrade") (codes "websocket")).0 upgrade;
        connection =
            (validate_header-HasValue t (codes "connection") (codes "upgrade")).0 connection;
        version =
            (validate_header-HasValue t (codes "sec-websocket-version") (codes "13")).0 version;
        key_header = ground arith;
      }

-- The server answers a request exactly if the words of its first line begin with `GET`, some
-- target and `HTTP/1.1`, and its header lines can be read into a table that has a host, the values
-- `websocket`, `upgrade` and `13` of the headers Upgrade, Connection and Sec-WebSocket-Version, but
-- for the case of ASCII letters, and a key. What it answers is `respond` to that key and to the offer
-- in the table.
pub answer-ok_iff :
    (digest : Digest) (lower : Lowercase) (s : List ℕ) (lines : List LineRead)
    (x : List ℕ × Settings)
    → (answer digest lower (LineRead.line s ∷ lines) ≡ ok x) ↔ (
        IsGet (split_whitespace s)
        × (t : Table) × (key : List ℕ) × (collect lower lines [] ≡ ok t)
        × IsUpgrade t key
        × (x ≡ respond digest key (get t (codes "sec-websocket-extensions"))))
unfolding answer
answer-ok_iff digest lower s lines x = (
  λ h.
      let (first, rest) = if-eq_ok (is_get (split_whitespace s)) _ h in
      let (t, read, later) = bind-eq_ok (collect lower lines []) (unfold answer_headers in rest) in
      let (key, checked, answered) = bind-eq_ok (check_headers digest t) later in
      (
        (is_get-IsGet (split_whitespace s)).0 first,
        t,
        key,
        read,
        check_headers-IsUpgrade digest t key checked,
        sym (ok_inj answered),
      ),
  λ (words, t, key, read, v, e).
      rw ((is_get-IsGet (split_whitespace s)).1 words, answer)
        (unfold answer_headers in rw (read, check_headers-ok digest t key v) (ap ok (sym e))),
)

split_from-head :
    (sep : ℕ) (cur s : List ℕ)
    → (a : List ℕ) × (rest : List (List ℕ)) × (split_from sep cur s ≡ (cur ++ a) ∷ rest)
unfolding split_from
split_from-head sep cur [] = ([], [], ap (λ x. x ∷ []) (sym (append-nil cur)))
split_from-head sep cur (c ∷ s) = elim (Bool-cases (c == sep)) [
  | inl e ↦ ([], split_from sep [] s, rw (e, append-nil) refl)
  | inr e ↦
      let (a, rest, h) = split_from-head sep (cur ++ c ∷ []) s in
      (c ∷ a, rest, rw e (h ∙ ap (λ x. x ∷ rest) (append_assoc cur (c ∷ []) a)))
]

-- An offer of `permessage-deflate` is accepted whatever options follow its name, also those that
-- the server does not support.
pub parse_extensions-accepts :
    (options : List ℕ)
    → (parse_extensions (codes "permessage-deflate;" ++ options)).1.compressed ≡ true
unfolding parse_extensions read_offers list_eq split_from
parse_extensions-accepts options =
    let (a, rest, h) = split_from-head b',' (codes "permessage-deflate;") options in
    ap (λ offers. (read_offers (parts offers) true).1.compressed) h
