-- ===== src/Prelude/Slices.antt =====
-- `slice::as_chunks`: the whole chunks of a slice, and the remainder.
use Prim.Native.Nat.{ℕ, zero, suc, ◌≤◌, ◌<◌}
use mathlib.Core.Path.{◌≡◌, refl, ap, ◌∙◌}
use mathlib.Core.Logic.{inl, inr}
use mathlib.Core.List.{List, [], ◌∷◌, ◌++◌, append_assoc}
use native.Mathlib.Omega.{arith}
use wust_socket.Prelude.Tests.{ltb, if◌then◌else◌, Bool-cases}
use wust_socket.Prelude.Lists.{length, take, drop, All, length-take, length-drop, take-append-drop}

pub record Chunks {ℓ} (A : Type ℓ) : Type ℓ where
  pub chunked : List (List A)
  pub remainder : List A

module _ {ℓ} {A : Type ℓ} where
  -- With a count of the chunks that may be left.
  pub as_chunks_loop : ℕ → ℕ → List A → Chunks A
  as_chunks_loop n zero xs = record { chunked = []; remainder = xs }
  as_chunks_loop n (suc left) xs =
      let rest = as_chunks_loop n left (drop n xs) in
      if ltb (length xs) n
      then record { chunked = []; remainder = xs }
      else record { chunked = take n xs ∷ rest.chunked; remainder = rest.remainder }

  -- A slice of `len` elements has at most `len` chunks.
  unfoldable pub as_chunks : ℕ → List A → Chunks A
  unfolding as_chunks_loop
  as_chunks n xs = as_chunks_loop n (length xs) xs

  abbrev pub concat : List (List A) → List A
  concat [] = []
  concat (x ∷ xs) = x ++ concat xs

  as_chunks_loop-parts :
      (n left : ℕ) (xs : List A)
      → 0 < n
      → length xs ≤ left
      → let c = as_chunks_loop n left xs in
        (concat c.chunked ++ c.remainder ≡ xs)
        × All (λ x. length x ≡ n) c.chunked
        × (length c.remainder < n)
  unfolding as_chunks_loop
  as_chunks_loop-parts n zero [] p h = (refl, tt, omega arith)
  as_chunks_loop-parts n zero (x ∷ xs) p h = absurd (omega arith)
  as_chunks_loop-parts n (suc left) xs p h = elim (Bool-cases (ltb (length xs) n)) [
    | inl short ↦ rw short (refl, tt, ground arith)
    | inr more ↦
        let enough : n ≤ length xs = ground arith in
        let (whole, sizes, rest) =
          as_chunks_loop-parts n left (drop n xs) p (omega (arith, length-drop n xs)) in
        rw more (
          append_assoc (take n xs) _ _ ∙ ap (λ t. take n xs ++ t) whole ∙ take-append-drop n xs,
          (omega (arith, length-take n xs), sizes),
          rest,
        )
  ]

  -- The chunks and the remainder are the slice, each chunk is full and the remainder is not.
  pub as_chunks-parts :
      (n : ℕ) (xs : List A)
      → 0 < n
      → let c = as_chunks n xs in
        (concat c.chunked ++ c.remainder ≡ xs)
        × All (λ x. length x ≡ n) c.chunked
        × (length c.remainder < n)
  unfolding as_chunks
  as_chunks-parts n xs p = as_chunks_loop-parts n (length xs) xs p (omega arith)
