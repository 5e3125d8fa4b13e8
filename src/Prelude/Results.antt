-- ===== src/Prelude/Results.antt =====
-- `Result<A, E>` of the standard library, and what a good result of a chain says of its parts.
use mathlib.Core.Path.{◌≡◌, refl}
use mathlib.Core.Bool.{Bool, true, false}
use mathlib.Core.Logic.{◌⊎◌, inl, inr}
use wust_socket.Prelude.Tests.{if◌then◌else◌}

pub data Result {ℓ} (E A : Type ℓ) : Type ℓ where
  ok : A → Result E A
  err : E → Result E A

-- `?`
infixl 15 ◌>>=◌
abbrev pub ◌>>=◌ {ℓ} : {E A B : Type ℓ} → Result E A → (A → Result E B) → Result E B
ok a >>= f = f a
err e >>= f = err e

pub if-eq_ok :
    {E A : Type 0} (b : Bool) (e : E) {x : Result E A} {a : A}
    → (if b then x else err e) ≡ ok a
    → (b ≡ true) × (x ≡ ok a)
if-eq_ok true e h = (refl, h)
if-eq_ok false e h = cc

pub bind-eq_ok :
    {E A B : Type 0} (x : Result E A) {f : A → Result E B} {b : B}
    → (x >>= f) ≡ ok b
    → (a : A) × (x ≡ ok a) × (f a ≡ ok b)
bind-eq_ok (ok a) h = (a, refl, h)
bind-eq_ok (err e) h = cc

pub ok_inj : {E A : Type 0} {a b : A} → ◌≡◌ {A = Result E A} (ok a) (ok b) → a ≡ b
ok_inj h = cc

pub Result-cases :
    {E A : Type 0} (x : Result E A) → ((a : A) × (x ≡ ok a)) ⊎ ((e : E) × (x ≡ err e))
Result-cases (ok a) = inl (a, refl)
Result-cases (err e) = inr (e, refl)
