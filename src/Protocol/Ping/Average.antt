-- ===== src/Protocol/Ping/Average.antt =====
-- The mean latency, and where its 16-bit sum goes wrong.
use wust_socket.Prelude.{
  ℕ, zero, suc, ◌+◌, ◌/◌, ◌%◌, ◌^◌, ◌<◌, ◌≤◌, ◌≡◌, refl, List, [], ◌∷◌, Option, none, some, ◌==◌,
  if◌then◌else◌, length, arith,
}
use wust_socket.Protocol.Ping.{PingStats, IsValid, sum_loop, average}

-- The sum and the number of the latencies that are known.
unfoldable pub total : List (Option ℕ) → ℕ
total [] = 0
total (none ∷ xs) = total xs
total (some v ∷ xs) = v + total xs

unfoldable pub known : List (Option ℕ) → ℕ
known [] = 0
known (none ∷ xs) = known xs
known (some v ∷ xs) = suc (known xs)

known-le : (xs : List (Option ℕ)) → known xs ≤ length xs
unfolding known
known-le [] = omega arith
known-le (none ∷ xs) = omega (arith, known-le xs)
known-le (some v ∷ xs) = omega (arith, known-le xs)

sum_loop-mod :
    (xs : List (Option ℕ)) (sum count : ℕ)
    → sum < 2 ^ 16
    → count + length xs < 2 ^ 16
    → (((sum_loop sum count xs).0 ≡ (sum + total xs) % 2 ^ 16)
        × ((sum_loop sum count xs).1 ≡ count + known xs))
unfolding sum_loop total known
sum_loop-mod [] sum count h k = omega arith
sum_loop-mod (none ∷ xs) sum count h k = sum_loop-mod xs sum count h (omega arith)
sum_loop-mod (some v ∷ xs) sum count h k =
    omega (
      arith,
      sum_loop-mod xs ((sum + v) % 2 ^ 16) ((count + 1) % 2 ^ 16) (omega arith) (omega arith),
    )

-- In every valid state the average is that of the sum modulo 2 ^ 16, if a latency is known.
average-mod :
    (s : PingStats)
    → IsValid s
    → average s
      ≡ (if known s.history == 0 then none else some (total s.history % 2 ^ 16 / known s.history))
unfolding average
average-mod s v = ground (arith, sum_loop-mod s.history 0 0 (omega arith) (omega arith))

total-zero : (xs : List (Option ℕ)) → known xs ≡ 0 → total xs ≡ 0
unfolding known total
total-zero [] h = refl
total-zero (none ∷ xs) h = total-zero xs h
total-zero (some v ∷ xs) h = cc

-- If the latencies add up to less than 2 ^ 16, `average` is their mean, rounded down, and it is
-- `none` exactly if no latency is known.
pub average-eq-mean :
    (s : PingStats)
    → IsValid s
    → total s.history < 2 ^ 16
    → average s ≡ (if known s.history == 0 then none else some (total s.history / known s.history))
average-eq-mean s v h = ground (arith, average-mod s v)

mean_low : (t k : ℕ) → 0 < k → k ≤ 5 → 2 ^ 16 ≤ t → t % 2 ^ 16 / k < t / k
mean_low t zero p q h = absurd (omega arith)
mean_low t (suc zero) p q h = omega arith
mean_low t (suc (suc zero)) p q h = omega arith
mean_low t (suc (suc (suc zero))) p q h = omega arith
mean_low t (suc (suc (suc (suc zero)))) p q h = omega arith
mean_low t (suc (suc (suc (suc (suc zero))))) p q h = omega arith
mean_low t (suc (suc (suc (suc (suc (suc k)))))) p q h = absurd (omega arith)

-- If they add up to 2 ^ 16 or more, the sum of `average` wraps, and what it gives is too small.
pub average_too_low :
    (s : PingStats)
    → IsValid s
    → 2 ^ 16 ≤ total s.history
    → (m : ℕ) × (average s ≡ some m) × (m < total s.history / known s.history)
average_too_low s v h =
    let some_known : 0 < known s.history = ground (arith, total-zero s.history) in
    (
      total s.history % 2 ^ 16 / known s.history,
      ground (arith, average-mod s v),
      mean_low (total s.history) (known s.history) some_known
          (omega (arith, known-le s.history, v.five)) h,
    )
