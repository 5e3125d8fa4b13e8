-- ===== src/Client/Connect.antt =====
-- src/client.rs: `connect` and `connect_timeout`. The crates url, tokio and rustls are a parameter,
-- with what they answer in one attempt to connect.
use wust_socket.Prelude.{
  ℕ, List, [], ◌∷◌, ◌++◌, Option, none, some, Bool, true, false, ◌||◌, ◌≡◌, ◌⊎◌, inl, inr, refl,
  arith, Result, ok, err, ◌>>=◌, if◌then◌else◌, codes, list_eq, list_eq_iff, Result-cases, ap, sym,
  ◌∙◌,
}
use wust_socket.Error.{UpgradeError}
use wust_socket.Http.Headers.{Lowercase, LineRead}
use wust_socket.Http.Accept.{Digest, Settings}
use wust_socket.Client.{ClientContext, display_u16, try_upgrade, request, accept}

-- `url::Url`
pub record Url : Type 0 where
  pub scheme : List ℕ
  pub host_str : Option (List ℕ)
  pub port_or_known_default : Option ℕ
  pub path : List ℕ

pub record Network : Type 0 where
  -- `Url::parse`
  pub parse : List ℕ → Option Url
  -- `TcpStream::connect`, and `local_addr` and `peer_addr` of the stream: whether they succeed.
  pub tcp : List ℕ → ℕ → Bool
  pub has_addrs : Bool
  -- `ServerName::try_from` and `IpAddr::try_from`: whether they succeed.
  pub is_server_name : List ℕ → Bool
  pub is_ip_addr : List ℕ → Bool
  -- `TlsConnector::connect`: whether it succeeds.
  pub tls : Bool

-- `ok_or`, and `map_err` of a result that is only looked at for success.
abbrev ok_or : {A : Type 0} → Option A → UpgradeError → Result UpgradeError A
ok_or none e = err e
ok_or (some a) e = ok a

abbrev ensure : Bool → UpgradeError → Result UpgradeError (Unit {0})
ensure true e = ok tt
ensure false e = err e

-- The URL, and the context that is made of it and of the stream.
unfoldable pub context : Network → List ℕ → Result UpgradeError (Url × ClientContext)
context net input = ok_or (net.parse input) UpgradeError.invalid_url >>= (λ url.
    ok_or url.host_str UpgradeError.invalid_url >>= (λ host.
      ok_or url.port_or_known_default UpgradeError.invalid_url >>= (λ port.
        ensure (net.tcp host port) UpgradeError.connect >>= (λ _.
          ensure net.has_addrs UpgradeError.addr
          >>= (λ _. ok (url, record { host = host; path = url.path; port = port }))))))

-- The branch of TLS: the host as a name, or with its port as an address, and the handshake.
unfoldable pub secure : Network → ClientContext → Result UpgradeError (Unit {0})
secure net ctx =
    ensure (net.is_server_name ctx.host || net.is_ip_addr (ctx.host ++ b':' ∷ display_u16 ctx.port))
      UpgradeError.invalid_url
    >>= (λ _. ensure net.tls UpgradeError.connect)

context-ok :
    (net : Network) (input : List ℕ) (url : Url) (ctx : ClientContext)
    → context net input ≡ ok (url, ctx)
    → (net.parse input ≡ some url)
      × (url.host_str ≡ some ctx.host)
      × (url.port_or_known_default ≡ some ctx.port)
      × (ctx.path ≡ url.path)
      × (net.tcp ctx.host ctx.port ≡ true)
      × (net.has_addrs ≡ true)
unfolding context
context-ok net input url ctx h = ground arith

module _ (digest : Digest) (lower : Lowercase) (nonce : List ℕ) (compressed use_context : Bool)
    (written flushed : Bool) (lines : List LineRead) where
  abbrev upgrade : ClientContext → List (List ℕ) × Result UpgradeError Settings
  upgrade ctx = try_upgrade digest lower ctx nonce compressed use_context written flushed lines

  -- By the scheme of the URL.
  unfoldable pub by_scheme :
      Network → Url × ClientContext → List (List ℕ) × Result UpgradeError Settings
  by_scheme net (url, ctx) =
      if list_eq url.scheme (codes "ws")
      then upgrade ctx
      else if list_eq url.scheme (codes "wss")
      then elim (secure net ctx) [ err e ↦ ([], err e) | ok _ ↦ upgrade ctx ]
      else ([], err UpgradeError.invalid_url)

  -- What is sent, and the result.
  unfoldable pub connect : Network → List ℕ → List (List ℕ) × Result UpgradeError Settings
  unfolding context by_scheme
  connect net input = elim (context net input) [ err e ↦ ([], err e) | ok x ↦ by_scheme net x ]

  -- What the scheme of the URL asks for.
  abbrev pub IsReached : Network → Url → ClientContext → Type 0
  IsReached net url ctx =
      (url.scheme ≡ codes "ws")
      ⊎ ((url.scheme ≡ codes "wss")
          × ((net.is_server_name ctx.host ≡ true)
              ⊎ (net.is_ip_addr (ctx.host ++ b':' ∷ display_u16 ctx.port) ≡ true))
          × (net.tls ≡ true))

  by_scheme-ok :
      (net : Network) (url : Url) (ctx : ClientContext) (settings : Settings)
      → (by_scheme net (url, ctx)).1 ≡ ok settings
      → IsReached net url ctx
        × ((by_scheme net (url, ctx)).0
            ≡ request ctx (digest.base64 nonce) compressed use_context ∷ [])
        × (accept digest lower (digest.base64 nonce) lines ≡ ok settings)
  unfolding by_scheme try_upgrade secure
  by_scheme-ok net url ctx settings h =
      ground (arith, list_eq_iff url.scheme (codes "ws"), list_eq_iff url.scheme (codes "wss"))

  -- `connect` succeeds only if the URL can be read, with a host and a port, the TCP connection is
  -- made and has its two addresses, the scheme is `ws`, or it is `wss`, the host is a server name,
  -- or an address together with the port, and the TLS handshake succeeds; and only if the response
  -- is accepted, with these settings. Exactly one request is sent.
  pub connect-ok :
      (net : Network) (input : List ℕ) (settings : Settings)
      → (connect net input).1 ≡ ok settings
      → (url : Url) × (ctx : ClientContext) × (net.parse input ≡ some url)
        × (url.host_str ≡ some ctx.host)
        × (url.port_or_known_default ≡ some ctx.port)
        × (ctx.path ≡ url.path)
        × (net.tcp ctx.host ctx.port ≡ true)
        × (net.has_addrs ≡ true)
        × IsReached net url ctx
        × ((connect net input).0 ≡ request ctx (digest.base64 nonce) compressed use_context ∷ [])
        × (accept digest lower (digest.base64 nonce) lines ≡ ok settings)
  unfolding connect
  connect-ok net input settings h = elim (Result-cases (context net input)) [
    | inr (e, failed) ↦
        let bad : connect net input ≡ ([], err e) = rw (failed, connect) refl in
        cc (ap (λ x. x.1) bad, h)
    | inl ((url, ctx), e) ↦
        let (parsed, host, port, path, tcp, addrs) = context-ok net input url ctx e in
        let same : connect net input ≡ by_scheme net (url, ctx) = rw (e, connect) refl in
        let (scheme, sent, accepted) =
          by_scheme-ok net url ctx settings (ap (λ x. x.1) (sym same) ∙ h) in
        (
          url,
          ctx,
          parsed,
          host,
          port,
          path,
          tcp,
          addrs,
          scheme,
          ap (λ x. x.0) same ∙ sent,
          accepted,
        )
  ]

-- `connect_timeout`, by what `connect` gives in time.
unfoldable pub connect_timeout :
    Option (Result UpgradeError Settings) → Result UpgradeError Settings
connect_timeout (some (ok settings)) = ok settings
connect_timeout _ = err UpgradeError.timeout
