-- ===== src/Prelude/Bytes.antt =====
-- Bytes, the masks of the frame header as arithmetic, and big-endian words.
use Prim.Native.Nat.{ℕ, zero, suc, ◌+◌, ◌*◌, ◌/◌, ◌%◌, ◌^◌, ◌<◌, bit_and, bit_or}
use mathlib.Core.Path.{◌≡◌, refl}
use mathlib.Core.Logic.{◌↔◌}
use mathlib.Core.Bool.{Bool, true, false, ◌&&◌}
use mathlib.Core.List.{List, [], ◌∷◌}
use mathlib.Core.Logic.{ite}
use native.Mathlib.Decide.{ℕ_discrete}
use native.Mathlib.Omega.{arith}
use wust_socket.Prelude.Tests.{if◌then◌else◌, ◌==◌}

abbrev pub IsByte : ℕ → Type 0
IsByte b = b < 256

-- Two functions agree below a bound if they do at each value.
module _ (f g : ℕ → ℕ) where
  agree_below : ℕ → Bool
  unfolding ℕ_discrete
  agree_below zero = true
  agree_below (suc n) = ite (ℕ_discrete (f n) (g n)) (agree_below n) false

  agree_below→eq : (n : ℕ) → agree_below n ≡ true → (i : ℕ) → i < n → f i ≡ g i
  unfolding agree_below
  agree_below→eq zero e i h = absurd (omega arith)
  agree_below→eq (suc n) e i h = ground (arith, agree_below→eq n (ground arith) i)

-- The fields of the two header bytes.
pub bit_and-80 : (b : ℕ) → b < 256 → bit_and b 0x80 ≡ b / 128 * 128
unfolding agree_below
bit_and-80 = agree_below→eq _ _ 256 refl

pub bit_and-7f : (b : ℕ) → b < 256 → bit_and b 0x7f ≡ b % 128
unfolding agree_below
bit_and-7f = agree_below→eq _ _ 256 refl

pub bit_or-80 : (b : ℕ) → b < 128 → bit_or b 0x80 ≡ b + 128
unfolding agree_below
bit_or-80 = agree_below→eq _ _ 128 refl

pub bit_and-40 : (b : ℕ) → b < 256 → bit_and b 0x40 ≡ b % 128 / 64 * 64
unfolding agree_below
bit_and-40 = agree_below→eq _ _ 256 refl

pub bit_and-30 : (b : ℕ) → b < 256 → bit_and b 0x30 ≡ b % 64 / 16 * 16
unfolding agree_below
bit_and-30 = agree_below→eq _ _ 256 refl

pub bit_and-0f : (b : ℕ) → b < 256 → bit_and b 0x0f ≡ b % 16
unfolding agree_below
bit_and-0f = agree_below→eq _ _ 256 refl

-- The first byte of a frame is put together from an opcode and two flags.
pub bit_or_flags :
    (fin rsv : Bool) (a : ℕ)
    → a < 16
    → bit_or (bit_or a (if fin then 0x80 else 0)) (if rsv then 0x40 else 0)
      ≡ (if fin then 128 else 0) + (if rsv then 64 else 0) + a
unfolding agree_below
bit_or_flags true true = agree_below→eq _ _ 16 refl
bit_or_flags true false = agree_below→eq _ _ 16 refl
bit_or_flags false true = agree_below→eq _ _ 16 refl
bit_or_flags false false = agree_below→eq _ _ 16 refl

-- `u16::to_be_bytes` and `u64::to_be_bytes`.
unfoldable pub u16_to_be_bytes : ℕ → List ℕ
u16_to_be_bytes n = n / 256 % 256 ∷ n % 256 ∷ []

unfoldable pub u64_to_be_bytes : ℕ → List ℕ
u64_to_be_bytes n =
    n / 2 ^ 56 % 256
    ∷ n / 2 ^ 48 % 256
    ∷ n / 2 ^ 40 % 256
    ∷ n / 2 ^ 32 % 256
    ∷ n / 2 ^ 24 % 256
    ∷ n / 2 ^ 16 % 256
    ∷ n / 2 ^ 8 % 256
    ∷ n % 256
    ∷ []

-- `from_be_bytes`, at any width.
unfoldable pub from_be_bytes : ℕ → List ℕ → ℕ
from_be_bytes acc [] = acc
from_be_bytes acc (b ∷ bs) = from_be_bytes (acc * 256 + b) bs

pub from_be_bytes-u16 : (n : ℕ) → n < 2 ^ 16 → from_be_bytes 0 (u16_to_be_bytes n) ≡ n
unfolding from_be_bytes u16_to_be_bytes
from_be_bytes-u16 n h = omega arith

pub from_be_bytes-u64 : (n : ℕ) → n < 2 ^ 64 → from_be_bytes 0 (u64_to_be_bytes n) ≡ n
unfolding from_be_bytes u64_to_be_bytes
from_be_bytes-u64 n h = omega arith

-- `==` on texts and on arrays.
unfoldable pub list_eq : List ℕ → List ℕ → Bool
list_eq [] [] = true
list_eq (x ∷ xs) (y ∷ ys) = (x == y) && list_eq xs ys
list_eq _ _ = false

pub list_eq_iff : (xs ys : List ℕ) → (list_eq xs ys ≡ true) ↔ (xs ≡ ys)
unfolding list_eq
list_eq_iff [] [] = (λ h. refl, λ e. refl)
list_eq_iff [] (y ∷ ys) = (λ h. cc, λ e. cc)
list_eq_iff (x ∷ xs) [] = (λ h. cc, λ e. cc)
list_eq_iff (x ∷ xs) (y ∷ ys) = ground (arith, list_eq_iff xs ys)
