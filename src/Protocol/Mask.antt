-- ===== src/Protocol/Mask.antt =====
-- src/protocol/mask.rs: `mask` with the key's four bytes repeated, the portable loop `mask_lin`.
-- `Simd` has the vector loop.
pub mod Simd
use wust_socket.Prelude.{
  ℕ, suc, ◌+◌, ◌%◌, ◌≡◌, refl, ap, ap₂, ◌∙◌, List, [], ◌∷◌, ◌++◌, length, bit_xor, bit_xor_undo,
  ◌==◌, if◌then◌else◌, arith, All, IsByte, bit_xor-lt,
}

-- `[u8; 4]`
pub record MaskKey : Type 0 where
  pub k0 : ℕ
  pub k1 : ℕ
  pub k2 : ℕ
  pub k3 : ℕ

-- `mask_key[i]` for an index below 4.
abbrev pub key_at : MaskKey → ℕ → ℕ
key_at k i = if i == 0 then k.k0 else if i == 1 then k.k1 else if i == 2 then k.k2 else k.k3

abbrev pub key_bytes : MaskKey → List ℕ
key_bytes k = k.k0 ∷ k.k1 ∷ k.k2 ∷ k.k3 ∷ []

-- The loop of `mask_lin` from index `i` on.
unfoldable pub mask_from : ℕ → List ℕ → MaskKey → List ℕ
mask_from i [] k = []
mask_from i (b ∷ bs) k = bit_xor b (key_at k (i % 4)) ∷ mask_from (i + 1) bs k

unfoldable pub mask_lin : List ℕ → MaskKey → List ℕ
mask_lin payload k = mask_from 0 payload k

-- Without the feature `simd_masking` this is the loop.
unfoldable pub mask : List ℕ → MaskKey → List ℕ
mask payload k = mask_lin payload k

pub length-mask_from : (i : ℕ) (bs : List ℕ) (k : MaskKey) → length (mask_from i bs k) ≡ length bs
unfolding mask_from
length-mask_from i [] k = refl
length-mask_from i (b ∷ bs) k = ap suc (length-mask_from (i + 1) bs k)

pub length-mask : (bs : List ℕ) (k : MaskKey) → length (mask bs k) ≡ length bs
unfolding mask mask_lin
length-mask bs k = length-mask_from 0 bs k

mask_from_undo : (i : ℕ) (bs : List ℕ) (k : MaskKey) → mask_from i (mask_from i bs k) k ≡ bs
unfolding mask_from
mask_from_undo i [] k = refl
mask_from_undo i (b ∷ bs) k =
    ap₂ ◌∷◌ (bit_xor_undo b (key_at k (i % 4))) (mask_from_undo (i + 1) bs k)

-- Masking twice with one key gives the payload back.
pub mask-mask : (bs : List ℕ) (k : MaskKey) → mask (mask bs k) k ≡ bs
unfolding mask mask_lin
mask-mask bs k = mask_from_undo 0 bs k

pub mask_from-append :
    (i : ℕ) (xs ys : List ℕ) (k : MaskKey)
    → mask_from i (xs ++ ys) k ≡ mask_from i xs k ++ mask_from (i + length xs) ys k
unfolding mask_from
mask_from-append i [] ys k = let e : i ≡ i + 0 = omega arith in ap (λ j. mask_from j ys k) e
mask_from-append i (x ∷ xs) ys k =
    let e : i + 1 + length xs ≡ i + suc (length xs) = omega arith in
    ap (◌∷◌ (bit_xor x (key_at k (i % 4))))
      (mask_from-append (i + 1) xs ys k ∙ ap (λ j. mask_from (i + 1) xs k ++ mask_from j ys k) e)

-- Only the index modulo 4 matters.
pub mask_from-mod :
    (i j : ℕ) (bs : List ℕ) (k : MaskKey) → i % 4 ≡ j % 4 → mask_from i bs k ≡ mask_from j bs k
unfolding mask_from
mask_from-mod i j [] k h = refl
mask_from-mod i j (b ∷ bs) k h =
    ap₂ ◌∷◌ (ap (λ r. bit_xor b (key_at k r)) h) (mask_from-mod (i + 1) (j + 1) bs k (omega arith))

key_at-IsByte : (k : MaskKey) (i : ℕ) → All IsByte (key_bytes k) → IsByte (key_at k i)
key_at-IsByte k i h = ground arith

mask_from-IsByte :
    (i : ℕ) (bs : List ℕ) (k : MaskKey)
    → All IsByte (key_bytes k)
    → All IsByte bs
    → All IsByte (mask_from i bs k)
unfolding mask_from
mask_from-IsByte i [] k hk h = h
mask_from-IsByte i (b ∷ bs) k hk h = (
  bit_xor-lt 8 b (key_at k (i % 4)) h.0 (key_at-IsByte k (i % 4) hk),
  mask_from-IsByte (i + 1) bs k hk h.1,
)

pub mask-IsByte :
    (bs : List ℕ) (k : MaskKey) → All IsByte (key_bytes k) → All IsByte bs → All IsByte (mask bs k)
unfolding mask mask_lin
mask-IsByte bs k hk h = mask_from-IsByte 0 bs k hk h
