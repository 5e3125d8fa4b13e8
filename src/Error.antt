-- ===== src/Error.antt =====
-- src/error.rs: the close codes, their bytes on the wire, and the errors of an upgrade.
use wust_socket.Prelude.{
  ℕ, ◌≡◌, ◌⊎◌, List, [], ◌∷◌, ◌==◌, if◌then◌else◌, arith, u16_to_be_bytes, from_be_bytes,
}

pub data CloseReason : Type 0 where
  normal going_away proto_error data_type rsv none_given abnormal : CloseReason
  data_error policy too_big extension unexpected tls unknown : CloseReason

-- `reason as u16`
unfoldable pub as_u16 : CloseReason → ℕ
as_u16 CloseReason.normal = 1000
as_u16 CloseReason.going_away = 1001
as_u16 CloseReason.proto_error = 1002
as_u16 CloseReason.data_type = 1003
as_u16 CloseReason.rsv = 1004
as_u16 CloseReason.none_given = 1005
as_u16 CloseReason.abnormal = 1006
as_u16 CloseReason.data_error = 1007
as_u16 CloseReason.policy = 1008
as_u16 CloseReason.too_big = 1009
as_u16 CloseReason.extension = 1010
as_u16 CloseReason.unexpected = 1011
as_u16 CloseReason.tls = 1015
as_u16 CloseReason.unknown = 4000

-- `From<CloseReason> for [u8; 2]`
unfoldable pub into_bytes : CloseReason → List ℕ
into_bytes reason = u16_to_be_bytes (as_u16 reason)

-- The `match` of `From<[u8; 2]>`, on the number that the bytes stand for.
unfoldable pub from_u16 : ℕ → CloseReason
from_u16 code =
    if code == 1000
    then CloseReason.normal
    else if code == 1001
    then CloseReason.going_away
    else if code == 1002
    then CloseReason.proto_error
    else if code == 1003
    then CloseReason.data_type
    else if code == 1004
    then CloseReason.rsv
    else if code == 1005
    then CloseReason.none_given
    else if code == 1006
    then CloseReason.abnormal
    else if code == 1007
    then CloseReason.data_error
    else if code == 1008
    then CloseReason.policy
    else if code == 1009
    then CloseReason.too_big
    else if code == 1010
    then CloseReason.extension
    else if code == 1011
    then CloseReason.unexpected
    else if code == 1015
    then CloseReason.tls
    else CloseReason.unknown

-- `From<[u8; 2]> for CloseReason`
unfoldable pub from_bytes : ℕ → ℕ → CloseReason
from_bytes b0 b1 = from_u16 (from_be_bytes 0 (b0 ∷ b1 ∷ []))

-- The errors of an upgrade. Of the fields, a text is the list of its code points.
pub data UpgradeError : Type 0 where
  invalid_url bind read write : UpgradeError
  status_line : List ℕ → UpgradeError
  missing_header : List ℕ → UpgradeError
  header : List ℕ → List ℕ → List ℕ → UpgradeError
  addr connect timeout protocol : UpgradeError

-- A reason is read back from its code as itself.
pub from_u16-as_u16 : (reason : CloseReason) → from_u16 (as_u16 reason) ≡ reason
unfolding from_u16 as_u16
from_u16-as_u16 reason = ground arith

-- A code that has no constructor of its own is read as `unknown`, every other as itself.
pub as_u16-from_u16 :
    (code : ℕ) → (as_u16 (from_u16 code) ≡ code) ⊎ (from_u16 code ≡ CloseReason.unknown)
unfolding from_u16 as_u16
as_u16-from_u16 code = ground arith
