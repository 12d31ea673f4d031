-- ===== src/Prelude/Results.antt =====
-- A call that fails returns an error in place of its result.
use mathlib.Core.Path.{◌≡◌, refl}
use mathlib.Core.Logic.{◌↔◌, ◌⊎◌, inl, inr}
use mathlib.Core.Bool.{Bool, true, false}

pub data Result {ℓ κ} (E : Type ℓ) (A : Type κ) : Type (ℓ ⊔ κ) where
  ok : A → Result E A
  err : E → Result E A

infixl 5 ◌>>=◌ ◌>>◌
abbrev pub ◌>>=◌ {ℓ κ μ} :
    {E : Type ℓ} {A : Type κ} {B : Type μ} → Result E A → (A → Result E B) → Result E B
ok a >>= f = f a
err e >>= f = err e

abbrev pub ◌>>◌ {ℓ κ} : {E : Type ℓ} {B : Type κ} → Result E (Unit {0}) → Result E B → Result E B
m >> k = m >>= λ _. k

-- `if !test { return e }`.
abbrev pub check {ℓ} : {E : Type ℓ} → Bool → E → Result E (Unit {0})
check true e = ok tt
check false e = err e

-- The result of `f`, with its error replaced by `e`.
abbrev pub or_error {ℓ κ μ} : {D : Type ℓ} {E : Type κ} {A : Type μ} → Result D A → E → Result E A
or_error (ok a) e = ok a
or_error (err d) e = err e

module _ {ℓ κ} {E : Type ℓ} {A : Type κ} where
  pub Result-cases : (r : Result E A) → ((a : A) × (r ≡ ok a)) ⊎ ((e : E) × (r ≡ err e))
  Result-cases (ok a) = inl (a, refl)
  Result-cases (err e) = inr (e, refl)

module _ {ℓ κ μ} {E : Type ℓ} {A : Type κ} {B : Type μ} where
  -- A chain that succeeds has succeeded in its first step.
  pub bind-ok :
      (m : Result E A) (f : A → Result E B) {b : B}
      → (m >>= f) ≡ ok b
      → (a : A) × (m ≡ ok a) × (f a ≡ ok b)
  bind-ok (ok a) f h = (a, refl, h)
  bind-ok (err e) f h = cc

module _ {ℓ κ} {E : Type ℓ} {B : Type κ} where
  pub check-ok :
      (t : Bool) (e : E) (k : Result E B) {b : B}
      → (check t e >> k) ≡ ok b
      → (t ≡ true) × (k ≡ ok b)
  check-ok true e k h = (refl, h)
  check-ok false e k h = cc

pub check-true_iff {ℓ} : {E : Type ℓ} (t : Bool) (e : E) → (check t e ≡ ok tt) ↔ (t ≡ true)
check-true_iff true e = (λ _. refl, λ _. refl)
check-true_iff false e = (λ h. cc, λ h. cc)
