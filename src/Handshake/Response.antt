-- ===== src/Handshake/Response.antt =====
-- The response of the server as a text of lines, and the settings that its parts stand for.
use wust_socket.Prelude.{
  ℕ, ◌≡◌, refl, ap, ◌∙◌, arith, List, [], ◌∷◌, ◌++◌, Option, none, some, Bool, true, false, ◌==◌,
  ok, if◌then◌else◌, All, append_assoc, codes, list_eq,
}
use wust_socket.Http.Text.{is_whitespace, split_from, trim_start, trim_end}
use wust_socket.Http.Headers.{Lowercase, LineRead, Table, collect}
use wust_socket.Http.Accept.{is_base64}
use wust_socket.Server
use wust_socket.Server.{Options, extension_reply, read_offers, parse_extensions, respond}
use wust_socket.Client.{read_reply, keeps_context}
use wust_socket.Handshake.Scan.{IsSolid}
use wust_socket.Handshake.Lines.{
  text_of, header_line, IsValue, IsSolid-IsValue, Avoids-literal, avoids_newline,
}

-- The value of the header that answers an offer.
abbrev pub reply_value : Options → List ℕ
reply_value o =
    codes "permessage-deflate"
    ++ (if o.use_context
        then []
        else codes "; server_no_context_takeover; client_no_context_takeover")
    ++ (if o.client_max_bits then codes "; client_max_window_bits=15" else [])
    ++ (if o.server_max_bits then codes "; server_max_window_bits=15" else [])

-- The client takes from the answer what the server had read from the offer.
pub read_reply-reply_value :
    (a b c : Bool)
    → let o : Options = record { use_context = a; client_max_bits = b; server_max_bits = c } in
      read_reply (some (reply_value o)) ≡ record { compressed = true; use_context = a }
unfolding read_reply keeps_context split_from trim_start trim_end is_whitespace list_eq
read_reply-reply_value true true true = refl
read_reply-reply_value true true false = refl
read_reply-reply_value true false true = refl
read_reply-reply_value true false false = refl
read_reply-reply_value false true true = refl
read_reply-reply_value false true false = refl
read_reply-reply_value false false true = refl
read_reply-reply_value false false false = refl

-- The server does not use compression, or answers an offer that it has read.
pub data Answered : Server.Extensions → Type 0 where
  plain : Answered ([], record { compressed = false; use_context = true })
  agreed :
      (o : Options)
      → Answered (extension_reply o, record { compressed = true; use_context = o.use_context })

Answered-if :
    (b : Bool) {x y : Server.Extensions} → Answered x → Answered y → Answered (if b then x else y)
Answered-if true hx hy = hx
Answered-if false hx hy = hy

read_offers-Answered : (offers : List (List (List ℕ))) → Answered (read_offers offers true)
unfolding read_offers
read_offers-Answered [] = plain
read_offers-Answered ([] ∷ offers) = read_offers-Answered offers
read_offers-Answered ((ext ∷ options) ∷ offers) =
    Answered-if (list_eq ext (codes "permessage-deflate")) (agreed _) (read_offers-Answered offers)

pub upgraded-Answered : (extensions : Option (List ℕ)) → Answered (Server.upgraded extensions)
unfolding parse_extensions
upgraded-Answered none = plain
upgraded-Answered (some value) = read_offers-Answered _

is_base64-solid : (c : ℕ) → is_base64 c ≡ true → is_whitespace c ≡ false
unfolding is_whitespace
is_base64-solid c h = ground arith

pub base64-IsSolid : (s : List ℕ) → All (λ c. is_base64 c ≡ true) s → IsSolid s
base64-IsSolid [] h = tt
base64-IsSolid (c ∷ s) h = (is_base64-solid c h.0, base64-IsSolid s h.1)

-- The lines of the response, without their newlines; `more` is the header that answers an offer.
abbrev pub response_lines : List ℕ → List (List ℕ) → List (List ℕ)
response_lines hash more =
    codes "HTTP/1.1 101 Switching Protocols\r"
    ∷ codes "Upgrade: websocket\r"
    ∷ codes "Connection: Upgrade\r"
    ∷ header_line (codes "Sec-WebSocket-Accept") hash
    ∷ (more ++ codes "\r" ∷ [])

glue :
    (xs ys zs : List ℕ)
    → xs ++ codes "\r\n" ++ ys ++ zs ≡ (xs ++ b'\r' ∷ []) ++ (b'\n' ∷ (ys ++ zs))
glue xs ys zs = simp append_assoc

abbrev pub prefix : List ℕ
prefix =
    codes
      "HTTP/1.1 101 Switching Protocols\r\nUpgrade: websocket\r\nConnection: Upgrade\r\nSec-WebSocket-Accept: "

pub response_plain :
    (hash : List ℕ)
    → prefix ++ hash ++ codes "\r\n" ++ [] ++ codes "\r\n" ≡ text_of (response_lines hash [])
response_plain hash = ap (λ s. prefix ++ s) (glue hash [] (codes "\r\n"))

reply_lines :
    (o : Options)
    → extension_reply o ++ codes "\r\n"
      ≡ text_of (header_line (codes "Sec-WebSocket-Extensions") (reply_value o) ∷ codes "\r" ∷ [])
unfolding extension_reply
reply_lines o =
    ap (λ s. codes "Sec-WebSocket-Extensions: permessage-deflate" ++ s) (simp append_assoc)

pub response_agreed :
    (hash : List ℕ) (o : Options)
    → prefix ++ hash ++ codes "\r\n" ++ extension_reply o ++ codes "\r\n"
      ≡ text_of (
          response_lines hash (header_line (codes "Sec-WebSocket-Extensions") (reply_value o) ∷ []))
response_agreed hash o =
    ap (λ s. prefix ++ s)
      (glue hash (extension_reply o) (codes "\r\n")
        ∙ ap (λ s. (hash ++ b'\r' ∷ []) ++ (b'\n' ∷ s)) (reply_lines o))

pub websocket-IsValue : IsValue (codes "websocket")
websocket-IsValue = IsSolid-IsValue (codes "websocket") (
    base64-IsSolid (codes "websocket")
      (refl, (refl, (refl, (refl, (refl, (refl, (refl, (refl, (refl, tt))))))))))

pub upgrade-IsValue : IsValue (codes "Upgrade")
upgrade-IsValue =
    IsSolid-IsValue (codes "Upgrade")
      (base64-IsSolid (codes "Upgrade") (refl, (refl, (refl, (refl, (refl, (refl, (refl, tt))))))))

pub reply_value-IsValue :
    (a b c : Bool)
    → IsValue (reply_value (record { use_context = a; client_max_bits = b; server_max_bits = c }))
unfolding trim_start trim_end is_whitespace
reply_value-IsValue true true true = record { front = refl; back = refl; line = refl }
reply_value-IsValue true true false = record { front = refl; back = refl; line = refl }
reply_value-IsValue true false true = record { front = refl; back = refl; line = refl }
reply_value-IsValue true false false = record { front = refl; back = refl; line = refl }
reply_value-IsValue false true true = record { front = refl; back = refl; line = refl }
reply_value-IsValue false true false = record { front = refl; back = refl; line = refl }
reply_value-IsValue false false true = record { front = refl; back = refl; line = refl }
reply_value-IsValue false false false = record { front = refl; back = refl; line = refl }

pub more_avoids :
    (a b c : Bool)
    → avoids_newline (
        header_line
          (codes "Sec-WebSocket-Extensions")
          (reply_value (record { use_context = a; client_max_bits = b; server_max_bits = c })))
      ≡ true
more_avoids true true true = refl
more_avoids true true false = refl
more_avoids true false true = refl
more_avoids true false false = refl
more_avoids false true true = refl
more_avoids false true false = refl
more_avoids false false true = refl
more_avoids false false false = refl

pub line_status : All (λ c. (c == b'\n') ≡ false) (codes "HTTP/1.1 101 Switching Protocols\r")
line_status = Avoids-literal (codes "HTTP/1.1 101 Switching Protocols\r") refl

pub line_upgrade : All (λ c. (c == b'\n') ≡ false) (codes "Upgrade: websocket\r")
line_upgrade = Avoids-literal (codes "Upgrade: websocket\r") refl

pub line_connection : All (λ c. (c == b'\n') ≡ false) (codes "Connection: Upgrade\r")
line_connection = Avoids-literal (codes "Connection: Upgrade\r") refl

pub line_end : All (λ c. (c == b'\n') ≡ false) (codes "\r")
line_end = (refl, tt)

pub collect_end :
    (lower : Lowercase) (lines : List LineRead) (t : Table)
    → collect lower (LineRead.line (codes "\r\n") ∷ lines) t ≡ ok t
unfolding collect trim_end is_whitespace
collect_end lower lines t = refl
