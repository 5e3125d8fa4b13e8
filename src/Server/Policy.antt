-- ===== src/Server/Policy.antt =====
-- The choice between a plain connection and TLS in src/server.rs, and what it asks of the connection.
use wust_socket.Prelude.{ℕ, ◌≡◌, ◌⊎◌, inl, inr, refl, arith, List, Bool, true, codes}
use wust_socket.Error.{UpgradeError}
use wust_socket.Http.Text.{starts_with}
use wust_socket.Server.{Peek, Attempt, attempt}

pub attempt-plain :
    (insecure ssl : Bool) (peek : Peek) (accepted : Bool)
    → attempt insecure ssl peek accepted ≡ Attempt.plain
    → (bytes : List ℕ) × (peek ≡ Peek.bytes bytes)
      × (insecure ≡ true)
      × (starts_with (codes "GET ") bytes ≡ true)
unfolding attempt
attempt-plain insecure ssl Peek.end accepted h = cc
attempt-plain insecure ssl Peek.failed accepted h = cc
attempt-plain insecure ssl (Peek.bytes bytes) accepted h = (bytes, refl, ground arith, ground arith)

pub attempt-secure :
    (insecure ssl : Bool) (peek : Peek) (accepted : Bool)
    → attempt insecure ssl peek accepted ≡ Attempt.secure
    → (ssl ≡ true) × (accepted ≡ true)
unfolding attempt
attempt-secure insecure ssl Peek.end accepted h = cc
attempt-secure insecure ssl Peek.failed accepted h = cc
attempt-secure insecure ssl (Peek.bytes bytes) accepted h = ground arith

pub Attempt-cases :
    (a : Attempt)
    → (a ≡ Attempt.plain)
      ⊎ (a ≡ Attempt.secure)
      ⊎ ((a ≡ Attempt.returns) ⊎ ((e : UpgradeError) × (a ≡ Attempt.fails e)))
Attempt-cases Attempt.plain = inl refl
Attempt-cases Attempt.secure = inr (inl refl)
Attempt-cases Attempt.returns = inr (inr (inl refl))
Attempt-cases (Attempt.fails e) = inr (inr (inr (e, refl)))
