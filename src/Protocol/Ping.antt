-- ===== src/Protocol/Ping.antt =====
-- src/protocol/ping.rs: the latencies of the last five pings. An `Instant` is a number of
-- milliseconds; the present one and the random bytes are arguments.
pub mod History
pub mod Average
pub mod Nonce
use wust_socket.Prelude.{
  ℕ, suc, ◌+◌, ◌-◌, ◌/◌, ◌%◌, ◌^◌, ◌<◌, ◌≡◌, List, [], ◌∷◌, Option, none, some, Bool, true, false,
  ltb, ◌==◌, ◌&&◌, if◌then◌else◌, length, list_eq, set, replicate, Result, ok, err, All,
}

abbrev pub history_len : ℕ
history_len = 5

abbrev pub nonce_len : ℕ
nonce_len = 8

pub record PingStats : Type 0 where
  pub history : List (Option ℕ)
  pub idx : ℕ
  pub last_nonce : List ℕ
  pub last_ping : ℕ

pub data PongError : Type 0 where
  nonce : List ℕ → PongError
  late : ℕ → PongError

unfoldable pub new : ℕ → PingStats
new now = record {
  history = replicate history_len none;
  idx = 0;
  last_nonce = replicate nonce_len 0;
  last_ping = now;
}

-- With the bytes that `rand::fill` writes.
unfoldable pub new_nonce : PingStats → ℕ → List ℕ → List ℕ × PingStats
new_nonce s now bytes = (bytes, record s { last_ping = now; last_nonce = bytes })

-- `u16::try_from`
abbrev u16_try_from : ℕ → Option ℕ
u16_try_from n = if ltb n (2 ^ 16) then some n else none

abbrev remember : PingStats → ℕ → PingStats
remember s latency = record s {
  history = set s.history s.idx (some latency);
  idx = (s.idx + 1) % history_len;
}

-- `on_pong`, at the time `now`.
unfoldable pub on_pong : PingStats → ℕ → List ℕ → Result PongError ℕ × PingStats
on_pong s now bytes =
    let latency_ms = now - s.last_ping in
    if list_eq bytes s.last_nonce
    then elim (u16_try_from latency_ms) [
      | none ↦ (err (PongError.late latency_ms), s)
      | some latency ↦ (ok latency, remember s latency)
    ]
    else (err (PongError.nonce s.last_nonce), s)

-- The loop of `average`, in `u16`: the sum wraps in a release build (and panics in a build that
-- checks for overflow).
unfoldable pub sum_loop : ℕ → ℕ → List (Option ℕ) → ℕ × ℕ
sum_loop sum count [] = (sum, count)
sum_loop sum count (none ∷ xs) = sum_loop sum count xs
sum_loop sum count (some v ∷ xs) = sum_loop ((sum + v) % 2 ^ 16) ((count + 1) % 2 ^ 16) xs

abbrev checked_div : ℕ → ℕ → Option ℕ
checked_div a b = if b == 0 then none else some (a / b)

unfoldable pub average : PingStats → Option ℕ
unfolding sum_loop
average s = let (sum, count) = sum_loop 0 0 s.history in checked_div sum count

-- A latency that fits `u16`, if there is one.
abbrev pub Fits : Option ℕ → Type 0
Fits none = Unit {0}
Fits (some v) = v < 2 ^ 16

-- What `new` sets up and the methods keep.
pub record IsValid (s : PingStats) : Type 0 where
  pub five : length s.history ≡ history_len
  pub in_range : s.idx < history_len
  pub fits : All Fits s.history
  pub nonce_size : length s.last_nonce ≡ nonce_len
