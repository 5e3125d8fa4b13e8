-- ===== src/Handshake/RequestText.antt =====
-- The request of the client as a text of lines, and the values in them.
use wust_socket.Prelude.{
  ℕ, zero, suc, ◌+◌, ◌/◌, ◌%◌, ◌≡◌, refl, ap, ◌∙◌, arith, List, [], ◌∷◌, ◌++◌, Option, none, some,
  Bool, true, false, if◌then◌else◌, is_empty, All, All-append, append_assoc, codes, list_eq, ltb,
}
use wust_socket.Http.Text.{
  is_whitespace, split_from, split_once_from, trim_start, trim_end, words_from, starts_with,
}
use wust_socket.Server.{read_offers, read_options, read_option, parse_extensions, is_get}
use wust_socket.Client.{ClientContext, request, offer, digits, display_u16}
use wust_socket.Handshake.Scan.{IsSolid, Avoids, words_from-IsSolid}
use wust_socket.Handshake.Lines.{text_of, header_line, IsValue, IsSolid-IsValue, Avoids-literal}
use wust_socket.Handshake.Response.{base64-IsSolid}

abbrev pub offer_value : Bool → List ℕ
offer_value use_context =
    codes "permessage-deflate"
    ++ (if use_context
        then []
        else codes "; client_no_context_takeover; server_no_context_takeover")

-- The header that the client sends to ask for compression.
abbrev pub offered : Bool → Bool → Option (List ℕ)
offered compressed use_context = if compressed then some (offer_value use_context) else none

abbrev pub more_lines : Bool → Bool → List (List ℕ)
more_lines compressed use_context =
    if compressed
    then header_line (codes "Sec-WebSocket-Extensions") (offer_value use_context) ∷ []
    else []

abbrev pub host_value : ClientContext → List ℕ
host_value ctx = ctx.host ++ b':' ∷ display_u16 ctx.port

abbrev pub get_line : List ℕ → List ℕ
get_line path = codes "GET " ++ (path ++ codes " HTTP/1.1\r")

abbrev pub request_lines : ClientContext → List ℕ → List (List ℕ) → List (List ℕ)
request_lines ctx key more =
    get_line ctx.path
    ∷ header_line (codes "Host") (host_value ctx)
    ∷ codes "Upgrade: websocket\r"
    ∷ codes "Connection: Upgrade\r"
    ∷ header_line (codes "Sec-WebSocket-Key") key
    ∷ codes "Sec-WebSocket-Version: 13\r"
    ∷ (more ++ codes "\r" ∷ [])

request_glue :
    (path host port key more : List ℕ)
    → codes "GET "
        ++ path
        ++ codes " HTTP/1.1\r\nHost: "
        ++ host
        ++ codes ":"
        ++ port
        ++ codes "\r\nUpgrade: websocket\r\nConnection: Upgrade\r\nSec-WebSocket-Key: "
        ++ key
        ++ codes "\r\nSec-WebSocket-Version: 13\r\n"
        ++ more
        ++ codes "\r\n"
      ≡ get_line path
        ++ (b'\n' ∷ header_line (codes "Host") (host ++ b':' ∷ port)
            ++ (b'\n' ∷ codes "Upgrade: websocket\r\nConnection: Upgrade\r\n"
                ++ (header_line (codes "Sec-WebSocket-Key") key
                    ++ (b'\n' ∷ codes "Sec-WebSocket-Version: 13\r\n" ++ (more ++ codes "\r\n")))))
request_glue path host port key more = simp append_assoc

pub request-text_of :
    (ctx : ClientContext) (key : List ℕ) (compressed use_context : Bool)
    → request ctx key compressed use_context
      ≡ text_of (request_lines ctx key (more_lines compressed use_context))
unfolding request offer
request-text_of ctx key true true =
    request_glue ctx.path ctx.host (display_u16 ctx.port) key (offer true true)
request-text_of ctx key true false =
    request_glue ctx.path ctx.host (display_u16 ctx.port) key (offer true false)
request-text_of ctx key false use_context =
    request_glue ctx.path ctx.host (display_u16 ctx.port) key []

IsSolid-append : (xs ys : List ℕ) → IsSolid xs → IsSolid ys → IsSolid (xs ++ ys)
IsSolid-append = All-append (λ c. is_whitespace c ≡ false)

digit_solid : (n : ℕ) → is_whitespace (b'0' + n % 10) ≡ false
unfolding is_whitespace
digit_solid n = ground arith

IsSolid-if : (b : Bool) (xs : List ℕ) → IsSolid xs → IsSolid (if b then [] else xs)
IsSolid-if true xs h = tt
IsSolid-if false xs h = h

digits-IsSolid : (fuel n : ℕ) → IsSolid (digits fuel n)
unfolding digits
digits-IsSolid zero n = tt
digits-IsSolid (suc fuel) n =
    IsSolid-append (if ltb n 10 then [] else digits fuel (n / 10)) ((b'0' + n % 10) ∷ [])
      (IsSolid-if (ltb n 10) (digits fuel (n / 10)) (digits-IsSolid fuel (n / 10)))
      (digit_solid n, tt)

pub parse_offer :
    (use_context : Bool)
    → (parse_extensions (offer_value use_context)).1
      ≡ record { compressed = true; use_context = use_context }
unfolding parse_extensions read_offers read_options read_option split_from split_once_from
    trim_start trim_end is_whitespace starts_with list_eq
parse_offer true = refl
parse_offer false = refl

-- What the parts of a URL may be in a request line and a header line.
pub record IsPlain (ctx : ClientContext) : Type 0 where
  pub host : IsSolid ctx.host
  pub path : IsSolid ctx.path
  pub some_path : is_empty ctx.path ≡ false

pub host_value-IsSolid : (ctx : ClientContext) → IsPlain ctx → IsSolid (host_value ctx)
host_value-IsSolid ctx v =
    IsSolid-append ctx.host (b':' ∷ display_u16 ctx.port) v.host
      (unfold is_whitespace in refl, digits-IsSolid 5 ctx.port)

pub request-is_get :
    (ctx : ClientContext)
    → IsPlain ctx
    → is_get (words_from [] (get_line ctx.path ++ b'\n' ∷ [])) ≡ true
unfolding is_get words_from is_whitespace list_eq
request-is_get ctx v =
    ap (λ w. is_get (codes "GET" ∷ w))
      (ap (words_from []) (append_assoc ctx.path (codes " HTTP/1.1\r") (b'\n' ∷ []))
        ∙ words_from-IsSolid [] ctx.path b' ' (codes "HTTP/1.1\r\n") v.path refl v.some_path)

pub version-IsValue : IsValue (codes "13")
version-IsValue = IsSolid-IsValue (codes "13") (base64-IsSolid (codes "13") (refl, (refl, tt)))

pub offer-IsValue : (use_context : Bool) → IsValue (offer_value use_context)
unfolding trim_start trim_end is_whitespace
offer-IsValue true = record { front = refl; back = refl; line = refl }
offer-IsValue false = record { front = refl; back = refl; line = refl }

pub more_avoid :
    (compressed use_context : Bool) → All (Avoids b'\n') (more_lines compressed use_context)
more_avoid true true =
    (Avoids-literal (header_line (codes "Sec-WebSocket-Extensions") (offer_value true)) refl, tt)
more_avoid true false =
    (Avoids-literal (header_line (codes "Sec-WebSocket-Extensions") (offer_value false)) refl, tt)
more_avoid false use_context = tt
