-- ===== src/Prelude/Lists.antt =====
-- Lists measured by native numbers, Boolean quantifiers, and membership.
use Prim.Native.Nat.{ℕ, suc, ◌+◌}
use mathlib.Core.Path.{◌≡◌, refl, ap, sym, subst}
use mathlib.Core.Logic.{◌⊎◌, inl, inr, ◌↔◌}
use mathlib.Core.Bool.{Bool, true, false, ◌&&◌, ◌||◌}
use mathlib.Core.Option.{Option, none, some}
use mathlib.Core.List.{List, [], ◌∷◌, ◌++◌, map, Memᴰ}
use mathlib.Core.List.Memᴰ
use native.Mathlib.Omega.{arith}
use clanker_foundry.Prelude.Tests.{if◌then◌else◌, Bool-cases}

module _ {ℓ} {A : Type ℓ} where
  abbrev pub length : List A → ℕ
  length [] = 0
  length (x ∷ xs) = suc (length xs)

  pub length-append : (xs ys : List A) → length (xs ++ ys) ≡ length xs + length ys
  length-append [] ys = omega arith
  length-append (x ∷ xs) ys = omega (arith, length-append xs ys)

  -- A predicate at every element, by recursion, so that it computes to a tuple.
  abbrev pub All {κ} : (A → Type κ) → List A → Type κ
  All P [] = Unit
  All P (x ∷ xs) = P x × All P xs

  unfoldable pub all_of : (A → Bool) → List A → Bool
  all_of p [] = true
  all_of p (x ∷ xs) = p x && all_of p xs

  unfoldable pub any_of : (A → Bool) → List A → Bool
  any_of p [] = false
  any_of p (x ∷ xs) = p x || any_of p xs

  -- The elements that pass a test, in order.
  unfoldable pub select : (A → Bool) → List A → List A
  select p [] = []
  select p (x ∷ xs) = let rest = select p xs in if p x then x ∷ rest else rest

  -- The first element that passes a test.
  unfoldable pub find_first : (A → Bool) → List A → Option A
  find_first p [] = none
  find_first p (x ∷ xs) = if p x then some x else find_first p xs

  pub All_of_mem {κ} : (P : A → Type κ) (xs : List A) → ((a : A) → Memᴰ a xs → P a) → All P xs
  All_of_mem P [] f = tt
  All_of_mem P (x ∷ xs) f = (f x (Memᴰ.head refl), All_of_mem P xs (λ a m. f a (Memᴰ.tail m)))

  pub All_at {κ} : (P : A → Type κ) {a : A} (xs : List A) → All P xs → Memᴰ a xs → P a
  All_at P [] h m = absurd (Memᴰ.not-nil m)
  All_at P (x ∷ xs) h (Memᴰ.head e) = subst P (sym e) h.0
  All_at P (x ∷ xs) h (Memᴰ.tail m) = All_at P xs h.1 m

  pub Memᴰ-cons : (a x : A) (xs : List A) → Memᴰ a (x ∷ xs) ↔ ((a ≡ x) ⊎ Memᴰ a xs)
  Memᴰ-cons a x xs = (Memᴰ.cases_cons, elim [ inl e ↦ Memᴰ.head e | inr m ↦ Memᴰ.tail m ])

  pub find_first-some :
      (p : A → Bool) (xs : List A) (a : A) → find_first p xs ≡ some a → Memᴰ a xs × (p a ≡ true)
  unfolding find_first
  find_first-some p [] a h = cc
  find_first-some p (x ∷ xs) a h = elim (Bool-cases (p x)) [
    | inl e ↦ let same : x ≡ a = ground arith in (Memᴰ.head (sym same), ground arith)
    | inr e ↦ let (m, q) = find_first-some p xs a (ground arith) in (Memᴰ.tail m, q)
  ]

  pub any_of-at :
      (p : A → Bool) (xs : List A) → any_of p xs ≡ true → (a : A) × Memᴰ a xs × (p a ≡ true)
  unfolding any_of
  any_of-at p [] h = cc
  any_of-at p (x ∷ xs) h = elim (Bool-cases (p x)) [
    | inl e ↦ (x, Memᴰ.head refl, e)
    | inr e ↦ let (a, m, q) = any_of-at p xs (ground arith) in (a, Memᴰ.tail m, q)
  ]

  pub any_of_mem :
      (p : A → Bool) (xs : List A) {a : A} → Memᴰ a xs → p a ≡ true → any_of p xs ≡ true
  unfolding any_of
  any_of_mem p [] m e = absurd (Memᴰ.not-nil m)
  any_of_mem p (x ∷ xs) (Memᴰ.head q) e = ground (arith, ap p q)
  any_of_mem p (x ∷ xs) (Memᴰ.tail m) e = ground (arith, any_of_mem p xs m e)

  pub all_of-at : (p : A → Bool) (xs : List A) {a : A} → all_of p xs ≡ true → Memᴰ a xs → p a ≡ true
  unfolding all_of
  all_of-at p [] h m = absurd (Memᴰ.not-nil m)
  all_of-at p (x ∷ xs) h (Memᴰ.head e) = ground arith
  all_of-at p (x ∷ xs) h (Memᴰ.tail m) = all_of-at p xs (ground arith) m

pub length-map {ℓ κ} :
    {A : Type ℓ} {B : Type κ} (f : A → B) (xs : List A) → length (map f xs) ≡ length xs
length-map f [] = refl
length-map f (x ∷ xs) = ap suc (length-map f xs)

pub List-cases {ℓ} :
    {A : Type ℓ} (xs : List A) → (xs ≡ []) ⊎ ((x : A) × (rest : List A) × (xs ≡ x ∷ rest))
List-cases [] = inl refl
List-cases (x ∷ xs) = inr (x, xs, refl)

pub All-map {ℓ κ μ} :
    {A : Type ℓ} {P : A → Type κ} {Q : A → Type μ} (xs : List A)
    → All P xs
    → ((a : A) → P a → Q a)
    → All Q xs
All-map [] h f = tt
All-map (x ∷ xs) (p, h) f = (f x p, All-map xs h f)
