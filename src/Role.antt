-- ===== src/Role.antt =====
-- src/role.rs: the policy `R` that a connection is generic over, with its two constants.
use wust_socket.Prelude.{◌≡◌, refl, Bool, true, false}

-- The types `Client` and `Server` that implement `RolePolicy`.
pub data Role : Type 0 where
  client server : Role

-- `R::CLIENT`
abbrev pub is_client : Role → Bool
is_client Role.client = true
is_client Role.server = false

-- `R::SERVER`
abbrev pub is_server : Role → Bool
is_server Role.client = false
is_server Role.server = true

-- The other end of a connection.
abbrev pub peer : Role → Role
peer Role.client = Role.server
peer Role.server = Role.client

pub peer-peer : (r : Role) → peer (peer r) ≡ r
peer-peer Role.client = refl
peer-peer Role.server = refl
