-- ===== src/Protocol/Ping/History.antt =====
-- The history as a ring: what the methods keep, and which latencies it holds.
use wust_socket.Prelude.{
  ℕ, zero, suc, ◌+◌, ◌-◌, ◌%◌, ◌<◌, ◌≡◌, refl, List, [], ◌∷◌, ◌++◌, Option, some, length, set, take,
  drop, ok, All-set, length-set, arith,
}
use wust_socket.Protocol.Ping.{PingStats, IsValid, Fits, new, on_pong}

new-IsValid : (now : ℕ) → IsValid (new now)
unfolding new
new-IsValid now = record {
  five = refl;
  in_range = omega arith;
  fits = (tt, (tt, (tt, (tt, (tt, tt)))));
  nonce_size = refl;
}

-- From any valid state a method leaves a valid state, whatever the peer answers.
pub on_pong-IsValid :
    (s : PingStats) (now : ℕ) (bytes : List ℕ) → IsValid s → IsValid (on_pong s now bytes).1
unfolding on_pong
on_pong-IsValid s now bytes v = ground (
  arith,
  length-set s.history s.idx (some (now - s.last_ping)),
  All-set Fits s.history s.idx (some (now - s.last_ping)) v.fits,
)

-- The ring, oldest entry first.
unfoldable pub ring : PingStats → List (Option ℕ)
ring s = drop s.idx s.history ++ take s.idx s.history

ring-set :
    (h : List (Option ℕ)) (i : ℕ) (v : Option ℕ)
    → length h ≡ 5
    → i < 5
    → let j = (i + 1) % 5 in
      drop j (set h i v) ++ take j (set h i v) ≡ drop 1 (drop i h ++ take i h) ++ v ∷ []
ring-set (a ∷ b ∷ c ∷ d ∷ e ∷ []) zero v p q = refl
ring-set (a ∷ b ∷ c ∷ d ∷ e ∷ []) (suc zero) v p q = refl
ring-set (a ∷ b ∷ c ∷ d ∷ e ∷ []) (suc (suc zero)) v p q = refl
ring-set (a ∷ b ∷ c ∷ d ∷ e ∷ []) (suc (suc (suc zero))) v p q = refl
ring-set (a ∷ b ∷ c ∷ d ∷ e ∷ []) (suc (suc (suc (suc zero)))) v p q = refl
ring-set (a ∷ b ∷ c ∷ d ∷ e ∷ []) (suc (suc (suc (suc (suc n))))) v p q = absurd (omega arith)
ring-set [] i v p q = absurd (omega arith)
ring-set (a ∷ []) i v p q = absurd (omega arith)
ring-set (a ∷ b ∷ []) i v p q = absurd (omega arith)
ring-set (a ∷ b ∷ c ∷ []) i v p q = absurd (omega arith)
ring-set (a ∷ b ∷ c ∷ d ∷ []) i v p q = absurd (omega arith)
ring-set (a ∷ b ∷ c ∷ d ∷ e ∷ f ∷ r) i v p q = absurd (omega arith)

-- An accepted pong replaces the oldest entry of the ring by its latency, and leaves the others in
-- their order.
pub on_pong-ring :
    (s : PingStats) (now latency : ℕ) (bytes : List ℕ)
    → IsValid s
    → (on_pong s now bytes).0 ≡ ok latency
    → ring (on_pong s now bytes).1 ≡ drop 1 (ring s) ++ some latency ∷ []
unfolding on_pong ring
on_pong-ring s now latency bytes v e =
    ground (arith, ring-set s.history s.idx (some latency) v.five v.in_range)
