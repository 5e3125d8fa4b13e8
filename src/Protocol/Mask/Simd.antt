-- ===== src/Protocol/Mask/Simd.antt =====
-- src/protocol/mask.rs: `mask_avx2`, the loop of the feature `simd_masking`, which masks 32 bytes at
-- a time. A vector is the list of its bytes in memory.
use wust_socket.Prelude.{
  ℕ, zero, suc, ◌+◌, ◌*◌, ◌/◌, ◌%◌, ◌≤◌, ◌<◌, ◌≡◌, refl, sym, ap, ap₂, ◌∙◌, arith, List, [], ◌∷◌,
  ◌++◌, Option, none, some, leb, length, take, drop, bit_xor, All, IsByte, if◌then◌else◌,
  length-take, length-drop, take-append-drop, Bool-cases, inl, inr,
}
use wust_socket.Protocol.Mask.{
  MaskKey, key_bytes, mask_from, mask_lin, mask_from-append, mask_from-mod,
}

-- `u32::from_le_bytes`, and the bytes of a 32-bit lane.
abbrev from_le_bytes : MaskKey → ℕ
from_le_bytes k = k.k0 + 256 * k.k1 + 65536 * k.k2 + 16777216 * k.k3

abbrev lane_bytes : ℕ → List ℕ
lane_bytes x = x % 256 ∷ x / 256 % 256 ∷ x / 65536 % 256 ∷ x / 16777216 % 256 ∷ []

-- `n` lanes with one value; `_mm256_set1_epi32` is that of eight lanes.
unfoldable set1 : ℕ → ℕ → List ℕ
set1 zero x = []
set1 (suc n) x = lane_bytes x ++ set1 n x

-- `_mm256_xor_si256`
unfoldable pub xor_bytes : List ℕ → List ℕ → List ℕ
xor_bytes (x ∷ xs) (y ∷ ys) = bit_xor x y ∷ xor_bytes xs ys
xor_bytes _ _ = []

-- The loop and the tail, on the part of the payload from `i` on. `none`: the fuel ran out.
unfoldable pub avx2_loop : ℕ → List ℕ → List ℕ → MaskKey → Option (List ℕ)
avx2_loop zero part mask256 k = none
avx2_loop (suc fuel) part mask256 k =
    if leb 32 (length part)
    then elim (avx2_loop fuel (drop 32 part) mask256 k) [
      | none ↦ none
      | some rest ↦ some (xor_bytes (take 32 part) mask256 ++ rest)
    ]
    else some (mask_lin part k)

unfoldable pub mask_avx2 : List ℕ → MaskKey → Option (List ℕ)
unfolding avx2_loop set1
mask_avx2 payload k = avx2_loop (suc (length payload / 32)) payload (set1 8 (from_le_bytes k)) k

lane_bytes-from_le_bytes :
    (k : MaskKey) → All IsByte (key_bytes k) → lane_bytes (from_le_bytes k) ≡ key_bytes k
lane_bytes-from_le_bytes k h =
    let e0 : from_le_bytes k % 256 ≡ k.k0 = omega arith in
    let e1 : from_le_bytes k / 256 % 256 ≡ k.k1 = omega arith in
    let e2 : from_le_bytes k / 65536 % 256 ≡ k.k2 = omega arith in
    let e3 : from_le_bytes k / 16777216 % 256 ≡ k.k3 = omega arith in
    ap₂ ◌∷◌ e0 (ap₂ ◌∷◌ e1 (ap₂ ◌∷◌ e2 (ap₂ ◌∷◌ e3 refl)))

set1-key :
    (n : ℕ) (k : MaskKey)
    → All IsByte (key_bytes k)
    → set1 (suc n) (from_le_bytes k) ≡ key_bytes k ++ set1 n (from_le_bytes k)
unfolding set1
set1-key n k h = ap (λ b. b ++ set1 n (from_le_bytes k)) (lane_bytes-from_le_bytes k h)

-- A run of lanes masks as the loop does, a byte at a time.
xor_bytes-set1 :
    (n : ℕ) (xs : List ℕ) (k : MaskKey)
    → All IsByte (key_bytes k)
    → length xs ≡ 4 * n
    → xor_bytes xs (set1 n (from_le_bytes k)) ≡ mask_from 0 xs k
unfolding xor_bytes mask_from set1
xor_bytes-set1 zero [] k h e = refl
xor_bytes-set1 zero (x ∷ xs) k h e = absurd (omega arith)
xor_bytes-set1 (suc n) (a ∷ b ∷ c ∷ d ∷ xs) k h e =
    ap (xor_bytes (a ∷ b ∷ c ∷ d ∷ xs)) (set1-key n k h)
    ∙ ap (λ t. bit_xor a k.k0 ∷ bit_xor b k.k1 ∷ bit_xor c k.k2 ∷ bit_xor d k.k3 ∷ t)
        (xor_bytes-set1 n xs k h (omega arith) ∙ mask_from-mod 0 4 xs k refl)
xor_bytes-set1 (suc n) [] k h e = absurd (omega arith)
xor_bytes-set1 (suc n) (a ∷ []) k h e = absurd (omega arith)
xor_bytes-set1 (suc n) (a ∷ b ∷ []) k h e = absurd (omega arith)
xor_bytes-set1 (suc n) (a ∷ b ∷ c ∷ []) k h e = absurd (omega arith)

avx2_loop-mask_from :
    (fuel : ℕ) (part mask256 : List ℕ) (k : MaskKey)
    → ((xs : List ℕ) → length xs ≡ 32 → xor_bytes xs mask256 ≡ mask_from 0 xs k)
    → length part / 32 < fuel
    → avx2_loop fuel part mask256 k ≡ some (mask_from 0 part k)
unfolding avx2_loop mask_lin
avx2_loop-mask_from zero part mask256 k h l = absurd (omega arith)
avx2_loop-mask_from (suc fuel) part mask256 k h l = elim (Bool-cases (leb 32 (length part))) [
  | inr short ↦ rw short refl
  | inl long ↦
      let fits : 32 ≤ length part = ground arith in
      let later =
        avx2_loop-mask_from fuel (drop 32 part) mask256 k h (omega (arith, length-drop 32 part)) in
      let block = h (take 32 part) (omega (arith, length-take 32 part)) in
      let size : (0 + length (take 32 part)) % 4 ≡ 0 % 4 = omega (arith, length-take 32 part) in
      rw (long, later, block)
        (ap some (
          ap (λ t. mask_from 0 (take 32 part) k ++ t)
            (sym (mask_from-mod _ 0 (drop 32 part) k size))
          ∙ sym (mask_from-append 0 (take 32 part) (drop 32 part) k)
          ∙ ap (λ t. mask_from 0 t k) (take-append-drop 32 part)))
]

-- The vector loop terminates, and masks every payload as the portable loop does.
pub mask_avx2-mask_lin :
    (payload : List ℕ) (k : MaskKey)
    → All IsByte (key_bytes k)
    → mask_avx2 payload k ≡ some (mask_lin payload k)
unfolding mask_avx2 mask_lin
mask_avx2-mask_lin payload k h =
    avx2_loop-mask_from (suc (length payload / 32)) payload (set1 8 (from_le_bytes k)) k
      (λ xs e. xor_bytes-set1 8 xs k h e) (omega arith)
