-- ===== src/Server/Run.antt =====
-- `bind` and `run` of src/server.rs: the loop that accepts connections, and the task of each. The
-- sockets of tokio and rustls are arguments: what each call on them gives. An address is anything.
use wust_socket.Prelude.{
  ℕ, ◌≡◌, ◌⊎◌, inl, inr, refl, ap, arith, List, [], ◌∷◌, ◌++◌, Option, none, some, Bool, true,
  false, Result, ok, err, Result-cases, codes,
}
use wust_socket.Error.{UpgradeError}
use wust_socket.Http.Text.{starts_with}
use wust_socket.Http.Headers.{Lowercase, LineRead}
use wust_socket.Http.Accept.{Digest, Settings}
use wust_socket.Server.{Peek, Attempt, attempt, try_upgrade, answer}
use wust_socket.Server.Policy.{attempt-plain, attempt-secure, Attempt-cases}

-- What the task of a connection meets: its address, the first bytes, whether the TLS handshake
-- succeeds, the lines of the request, and whether the writes of the response succeed.
pub record Connection (Addr : Type 0) : Type 0 where
  pub addr : Addr
  pub peek : Peek
  pub accepted : Bool
  pub lines : List LineRead
  pub written : Bool
  pub flushed : Bool

-- A result of `accept`.
pub data Accept (Addr : Type 0) : Type 0 where
  connection : Connection Addr → Accept Addr
  failed : Accept Addr

pub record WebSocketServer (Addr : Type 0) : Type 0 where
  pub addr : Addr
  pub insecure : Bool
  pub ssl : Bool

-- How a task goes on: it ends, or it has a handle, with what was written before, the settings and
-- the two addresses that `from_stream` gets, and starts `recv_loop`.
pub data Served (Addr : Type 0) : Type 0 where
  ends : Served Addr
  fails : UpgradeError → Served Addr
  upgraded :
      (response : List (List ℕ)) (settings : Settings) (local_addr peer_addr : Addr) → Served Addr

module _ {Addr : Type 0} where
  -- By the address that the listener is bound to, if it is, and has one.
  unfoldable pub bind :
      Bool → Option Addr → Bool → Bool → Result UpgradeError (WebSocketServer Addr)
  bind false local_addr insecure ssl = err UpgradeError.bind
  bind true none insecure ssl = err UpgradeError.addr
  bind true (some addr) insecure ssl = ok (record { addr = addr; insecure = insecure; ssl = ssl })

  module _ (digest : Digest) (lower : Lowercase) where
    -- `try_upgrade` of a stream, with its two addresses.
    unfoldable pub upgrade : Connection Addr → Addr → Addr → Served Addr
    upgrade conn local_addr peer_addr =
        let (response, result) = try_upgrade digest lower conn.written conn.flushed conn.lines in
        elim result [
          | err e ↦ Served.fails e
          | ok settings ↦ Served.upgraded response settings local_addr peer_addr
        ]

    -- The task of a connection, up to `recv_loop`.
    unfoldable pub serve : WebSocketServer Addr → Connection Addr → Served Addr
    unfolding upgrade
    serve server conn = elim (attempt server.insecure server.ssl conn.peek conn.accepted) [
      | Attempt.returns ↦ Served.ends
      | Attempt.plain ↦ upgrade conn conn.addr server.addr
      | Attempt.secure ↦ upgrade conn conn.addr server.addr
      | Attempt.fails e ↦ Served.fails e
    ]

    -- `run`: the tasks that are spawned.
    unfoldable pub run : WebSocketServer Addr → List (Accept Addr) → List (Served Addr)
    run server [] = []
    run server (Accept.failed ∷ accepts) = []
    run server (Accept.connection conn ∷ accepts) = serve server conn ∷ run server accepts

    upgrade-upgraded :
        (conn : Connection Addr) (here there local_addr peer_addr : Addr) (response : List (List ℕ))
        (settings : Settings)
        → upgrade conn here there ≡ Served.upgraded response settings local_addr peer_addr
        → (text : List ℕ) × (answer digest lower conn.lines ≡ ok (text, settings))
          × (response ≡ text ∷ [])
          × (conn.written ≡ true)
          × (conn.flushed ≡ true)
          × (local_addr ≡ here)
          × (peer_addr ≡ there)
    unfolding upgrade try_upgrade
    upgrade-upgraded conn here there local_addr peer_addr response settings h =
        elim (Result-cases (answer digest lower conn.lines)) [
          | inl ((text, s), e) ↦ (
            text,
            ground arith,
            ground arith,
            ground arith,
            ground arith,
            ground arith,
            ground arith,
          )
          | inr (e, bad) ↦ absurd (ground arith)
        ]

    upgrade-answered :
        (conn : Connection Addr) (here there : Addr) (text : List ℕ) (settings : Settings)
        → answer digest lower conn.lines ≡ ok (text, settings)
        → conn.written ≡ true
        → conn.flushed ≡ true
        → upgrade conn here there ≡ Served.upgraded (text ∷ []) settings here there
    unfolding upgrade try_upgrade
    upgrade-answered conn here there text settings answers written flushed = ground arith

    -- What the policy of the server asks of an upgrade.
    abbrev pub IsAllowed : WebSocketServer Addr → Connection Addr → Type 0
    IsAllowed server conn =
        ((server.insecure ≡ true)
          × (bytes : List ℕ) × (conn.peek ≡ Peek.bytes bytes)
          × (starts_with (codes "GET ") bytes ≡ true))
        ⊎ ((server.ssl ≡ true) × (conn.accepted ≡ true))

    -- A connection is upgraded only where the server takes plain connections and this one begins
    -- with `GET `, or it takes TLS and the TLS handshake succeeds; and only if the request is one
    -- that it answers, and that answer, which is all that it writes, was written and flushed. The
    -- handle has the settings of the answer, the address of the peer as its local address, and that
    -- of the server as the address of its peer.
    pub serve-upgraded :
        (server : WebSocketServer Addr) (conn : Connection Addr) (local_addr peer_addr : Addr)
        (response : List (List ℕ)) (settings : Settings)
        → serve server conn ≡ Served.upgraded response settings local_addr peer_addr
        → IsAllowed server conn
          × (text : List ℕ) × (answer digest lower conn.lines ≡ ok (text, settings))
          × (response ≡ text ∷ [])
          × (conn.written ≡ true)
          × (conn.flushed ≡ true)
          × (local_addr ≡ conn.addr)
          × (peer_addr ≡ server.addr)
    unfolding serve
    serve-upgraded server conn local_addr peer_addr response settings h =
        elim (Attempt-cases (attempt server.insecure server.ssl conn.peek conn.accepted)) [
          | inl e ↦
              let (bytes, peek, insecure, get) =
                attempt-plain server.insecure server.ssl conn.peek conn.accepted e in
              let (text, answers, wrote, written, flushed, near, far) =
                upgrade-upgraded conn conn.addr server.addr local_addr peer_addr response settings
                  (rw (e, serve) at h) in
              (inl (insecure, bytes, peek, get), text, answers, wrote, written, flushed, near, far)
          | inr (inl e) ↦
              let (text, answers, wrote, written, flushed, near, far) =
                upgrade-upgraded conn conn.addr server.addr local_addr peer_addr response settings
                  (rw (e, serve) at h) in
              (
                inr (attempt-secure server.insecure server.ssl conn.peek conn.accepted e),
                text,
                answers,
                wrote,
                written,
                flushed,
                near,
                far,
              )
          | inr (inr other) ↦ absurd (ground arith)
        ]

    -- A plain connection that a server takes is upgraded where the request is answered and the
    -- answer is written.
    pub serve-plain :
        (server : WebSocketServer Addr) (conn : Connection Addr) (text : List ℕ)
        (settings : Settings)
        → attempt server.insecure server.ssl conn.peek conn.accepted ≡ Attempt.plain
        → answer digest lower conn.lines ≡ ok (text, settings)
        → conn.written ≡ true
        → conn.flushed ≡ true
        → serve server conn ≡ Served.upgraded (text ∷ []) settings conn.addr server.addr
    unfolding serve
    serve-plain server conn text settings plain answers written flushed =
        rw (plain, serve)
          (upgrade-answered conn conn.addr server.addr text settings answers written flushed)

    abbrev served_all : WebSocketServer Addr → List (Connection Addr) → List (Served Addr)
    served_all server [] = []
    served_all server (conn ∷ conns) = serve server conn ∷ served_all server conns

    abbrev accepted_all : List (Connection Addr) → List (Accept Addr)
    accepted_all [] = []
    accepted_all (conn ∷ conns) = Accept.connection conn ∷ accepted_all conns

    -- `run` ends at the first `accept` that fails: the connections before it are served, each by a
    -- task of its own, and none that comes later is.
    pub run_failed :
        (server : WebSocketServer Addr) (conns : List (Connection Addr))
        (later : List (Accept Addr))
        → run server (accepted_all conns ++ Accept.failed ∷ later) ≡ served_all server conns
    unfolding run
    run_failed server [] later = refl
    run_failed server (conn ∷ conns) later =
        ap (◌∷◌ (serve server conn)) (run_failed server conns later)
