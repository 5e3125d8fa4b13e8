-- ===== src/Examples/Handshake.antt =====
-- The opening handshake at a concrete client and server. The reader of lines, the digest and the
-- lower case here are concrete functions.
use wust_socket.Prelude.{
  ℕ, ◌≡◌, ◌↔◌, refl, ap, ◌∙◌, List, [], ◌∷◌, ◌++◌, none, some, true, false, ◌==◌, not, ◌||◌, ok,
  if◌then◌else◌, is_empty, append_assoc, codes, list_eq, map, All,
}
use wust_socket.Http.Text.{
  split_whitespace, words_from, is_whitespace, eq_ignore_ascii_case, split_once_from, trim_start,
  trim_end, ascii_lower,
}
use wust_socket.Http.Headers.{
  Lowercase, LineRead, Table, collect, get, contains_key, add_line, validate_header,
}
use wust_socket.Http.Accept.{Digest, Settings}
use wust_socket.Server
use wust_socket.Server.{respond, answer, is_get, parse_extensions}
use wust_socket.Client
use wust_socket.Client.{ClientContext, accept, request}
use wust_socket.Client.Connect.{IsReached, Url, Network, context, by_scheme, connect, connect-ok}
use wust_socket.Handshake.Scan.{Avoids}
use wust_socket.Handshake.Lines.{LineReader, Field, IsField, field_lines, tabled, collect-fields}
use wust_socket.Handshake.Reply.{accept-respond}
use wust_socket.Handshake.Request.{try_upgrade-agrees}
use wust_socket.Handshake.RequestText.{IsPlain}
use wust_socket.Handshake.Offers.{IsUpgrade, IsGet, answer-ok_iff, parse_extensions-accepts}

unfoldable pub read_from : List ℕ → List ℕ → List LineRead
read_from cur [] = if is_empty cur then [] else LineRead.line cur ∷ []
read_from cur (c ∷ s) =
    let later = read_from (if c == b'\n' then [] else cur ++ c ∷ []) s in
    if c == b'\n' then LineRead.line (cur ++ c ∷ []) ∷ later else later

pub read_from-line :
    (cur s rest : List ℕ)
    → Avoids b'\n' s
    → read_from cur (s ++ b'\n' ∷ rest)
      ≡ LineRead.line (cur ++ (s ++ b'\n' ∷ [])) ∷ read_from [] rest
unfolding read_from
read_from-line cur [] rest h = refl
read_from-line cur (c ∷ s) rest h = rw h.0 (
    read_from-line (cur ++ c ∷ []) s rest h.1
    ∙ ap (λ l. LineRead.line l ∷ read_from [] rest) (append_assoc cur (c ∷ []) (s ++ b'\n' ∷ [])))

abbrev pub lines : LineReader
lines = record { read = read_from []; at_line = λ s rest h. read_from-line [] s rest h }

abbrev pub lower : Lowercase
lower = record { to_lowercase = map ascii_lower; ascii = λ s h. refl }

-- All digests are written as one text.
abbrev pub digest : Digest
digest = record {
  sha1 = λ bytes. bytes;
  base64 = λ bytes. codes "YWI=";
  base64_text = λ bytes. (refl, (refl, (refl, (refl, tt))));
}

abbrev pub ctx : ClientContext
ctx = record { host = codes "example.org"; path = codes "/chat"; port = 80 }

pub ctx-IsPlain : IsPlain ctx
unfolding is_whitespace
ctx-IsPlain = record {
  host = (refl, (refl, (refl, (refl, (refl, (refl, (refl, (refl, (refl, (refl, (refl, tt)))))))))));
  path = (refl, (refl, (refl, (refl, (refl, tt)))));
  some_path = refl;
}

try_upgrade-agrees_example :
    (response : List ℕ) × (let settings : Settings = record {
      compressed = true;
      use_context = not true || false;
    } in
      let sent = request ctx (digest.base64 []) true false in
      (Server.try_upgrade digest lower true true (lines.read sent) ≡ (response ∷ [], ok settings))
      × (Client.try_upgrade digest lower ctx [] true false true true (lines.read response)
          ≡ (sent ∷ [], ok settings)))
try_upgrade-agrees_example = try_upgrade-agrees digest lower lines ctx [] true false ctx-IsPlain

abbrev pub key : List ℕ
key = codes "a2V5"

abbrev offers : List ℕ
offers = codes "x-other, permessage-deflate; client_max_window_bits"

accept-respond_example :
    accept digest lower key (lines.read (respond digest key (some offers)).0)
    ≡ ok (respond digest key (some offers)).1
accept-respond_example = accept-respond digest lower key lines (some offers)

parse_extensions-accepts_example :
    (parse_extensions (codes "permessage-deflate;" ++ codes "unknown=1")).1.compressed ≡ true
parse_extensions-accepts_example = parse_extensions-accepts (codes "unknown=1")

abbrev fields : List Field
fields = (codes "Host", codes "a") ∷ (codes "X-B", codes "c d") ∷ []

fields-IsField : All IsField fields
unfolding is_whitespace trim_start trim_end
fields-IsField = (
  (refl, record { front = refl; back = refl; line = refl }),
  ((refl, record { front = refl; back = refl; line = refl }), tt),
)

collect-fields_example :
    collect lower (field_lines fields (LineRead.line (codes "\r\n") ∷ [])) []
    ≡ ok (tabled fields [])
collect-fields_example = collect-fields lower fields [] [] fields-IsField

abbrev pub first_line : List ℕ
first_line = codes "GET / HTTP/1.1\r\n"

abbrev pub request_lines : List LineRead
request_lines =
    LineRead.line (codes "Host: a\r\n")
    ∷ LineRead.line (codes "Upgrade: websocket\r\n")
    ∷ LineRead.line (codes "Connection: upgrade\r\n")
    ∷ LineRead.line (codes "Sec-WebSocket-Version: 13\r\n")
    ∷ LineRead.line (codes "Sec-WebSocket-Key: a2V5\r\n")
    ∷ LineRead.line (codes "\r\n")
    ∷ []

answer-ok_iff_example :
    (answer digest lower (LineRead.line first_line ∷ request_lines) ≡ ok (respond digest key none))
    ↔ (IsGet (split_whitespace first_line)
        × (t : Table) × (key' : List ℕ) × (collect lower request_lines [] ≡ ok t)
        × IsUpgrade t key'
        × (respond digest key none
            ≡ respond digest key' (get t (codes "sec-websocket-extensions"))))
answer-ok_iff_example =
    answer-ok_iff digest lower first_line request_lines (respond digest key none)

-- The request is one that the server answers.
pub answered :
    answer digest lower (LineRead.line first_line ∷ request_lines) ≡ ok (respond digest key none)
unfolding answer is_get words_from is_whitespace collect trim_start trim_end get list_eq
    eq_ignore_ascii_case contains_key add_line split_once_from validate_header Server.check_headers
answered = refl

abbrev url : Url
url = record {
  scheme = codes "ws";
  host_str = some ctx.host;
  port_or_known_default = some ctx.port;
  path = ctx.path;
}

abbrev network : Network
network = record {
  parse = λ input. some url;
  tcp = λ host port. true;
  has_addrs = true;
  is_server_name = λ host. true;
  is_ip_addr = λ host. false;
  tls = true;
}

abbrev settings : Settings
settings = (respond digest (digest.base64 []) (some offers)).1

abbrev response_read : List LineRead
response_read = lines.read (respond digest (digest.base64 []) (some offers)).0

connected : (connect digest lower [] true true true true response_read network []).1 ≡ ok settings
unfolding connect context by_scheme Client.try_upgrade list_eq
connected = accept-respond digest lower (digest.base64 []) lines (some offers)

connect-ok_example :
    (u : Url) × (c : ClientContext) × (network.parse [] ≡ some u)
    × (u.host_str ≡ some c.host)
    × (u.port_or_known_default ≡ some c.port)
    × (c.path ≡ u.path)
    × (network.tcp c.host c.port ≡ true)
    × (network.has_addrs ≡ true)
    × IsReached digest lower [] true true true true response_read network u c
    × ((connect digest lower [] true true true true response_read network []).0
        ≡ request c (digest.base64 []) true true ∷ [])
    × (accept digest lower (digest.base64 []) response_read ≡ ok settings)
connect-ok_example =
    connect-ok digest lower [] true true true true response_read network [] settings connected
