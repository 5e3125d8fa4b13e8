-- ===== src/Examples/Protocol.antt =====
-- The masks, the ping statistics and the close codes at concrete inputs.
use wust_socket.Prelude.{
  ℕ, ◌-◌, ◌/◌, ◌^◌, ◌<◌, ◌≡◌, ◌↔◌, refl, arith, List, [], ◌∷◌, ◌++◌, none, some, ◌==◌,
  if◌then◌else◌, ok, list_eq, drop,
}
use wust_socket.Protocol.Ping.{PingStats, IsValid, on_pong, average}
use wust_socket.Protocol.Ping.Average.{total, known, average-eq-mean, average_too_low}
use wust_socket.Protocol.Ping.History.{ring, on_pong-ring}
use wust_socket.Protocol.Ping.Nonce.{on_pong-ok_iff}

abbrev nonce : List ℕ
nonce = 1 ∷ 2 ∷ 3 ∷ 4 ∷ 5 ∷ 6 ∷ 7 ∷ 8 ∷ []

-- Three pongs came back, after 20, 30 and 40 milliseconds.
abbrev stats : PingStats
stats = record {
  history = some 20 ∷ some 30 ∷ some 40 ∷ none ∷ none ∷ [];
  idx = 3;
  last_nonce = nonce;
  last_ping = 1000;
}

stats-IsValid : IsValid stats
stats-IsValid = record {
  five = refl;
  in_range = omega arith;
  fits = (omega arith, (omega arith, (omega arith, (tt, (tt, tt)))));
  nonce_size = refl;
}

accepted : (on_pong stats 1050 nonce).0 ≡ ok 50
accepted = unfold on_pong list_eq in refl

on_pong-ring_example : ring (on_pong stats 1050 nonce).1 ≡ drop 1 (ring stats) ++ some 50 ∷ []
on_pong-ring_example = on_pong-ring stats 1050 50 nonce stats-IsValid accepted

on_pong-ok_iff_example :
    ((on_pong stats 1050 nonce).0 ≡ ok 50)
    ↔ ((nonce ≡ stats.last_nonce) × (50 ≡ 1050 - stats.last_ping) × (50 < 2 ^ 16))
on_pong-ok_iff_example = on_pong-ok_iff stats 1050 50 nonce

average-eq-mean_example :
    average stats
    ≡ (if known stats.history == 0 then none else some (total stats.history / known stats.history))
average-eq-mean_example = average-eq-mean stats stats-IsValid (unfold total in omega arith)

-- Two pongs that took 40 seconds each.
abbrev slow : PingStats
slow = record stats { history = some 40000 ∷ some 40000 ∷ none ∷ none ∷ none ∷ [] }

slow-IsValid : IsValid slow
slow-IsValid = record {
  five = refl;
  in_range = omega arith;
  fits = (omega arith, (omega arith, (tt, (tt, (tt, tt)))));
  nonce_size = refl;
}

average_too_low_example :
    (m : ℕ) × (average slow ≡ some m) × (m < total slow.history / known slow.history)
average_too_low_example = average_too_low slow slow-IsValid (unfold total in omega arith)
