-- ===== src/Merge/Choice.antt =====
-- `choose` of modelmerge/merge.go.
use clanker_foundry.Prelude.{
  ◌≡◌, refl, sym, ap, ◌∙◌, ◌≢◌, ◌↔◌, ◌⊎◌, inl, inr, Bool, true, Option, none, some, arith,
  Bool-cases,
}
use clanker_foundry.Model.Equal.{Decides}
use clanker_foundry.Merge.{equal, choose}

module _ {A : Type 0} (eq : A → A → Bool) (decides : Decides eq) where
  -- `equal` decides whether two units are the same.
  pub equal_iff : Decides (equal eq)
  unfolding equal
  equal_iff none none = (λ h. refl, λ h. refl)
  equal_iff none (some b) = (λ h. cc, λ h. cc)
  equal_iff (some a) none = (λ h. cc, λ h. cc)
  equal_iff (some a) (some b) = (λ h. ap some ((decides a b).0 h), λ h. (decides a b).1 (cc h))

  pub equal_refl : (a : Option A) → equal eq a a ≡ true
  equal_refl a = (equal_iff a a).1 refl

  pub equal_sym : (a b : Option A) → equal eq a b ≡ equal eq b a
  equal_sym a b = elim (Bool-cases (equal eq a b)) [
    | inl e ↦ e ∙ sym ((equal_iff b a).1 (sym ((equal_iff a b).0 e)))
    | inr e ↦ elim (Bool-cases (equal eq b a)) [
      | inl d ↦ cc ((equal_iff a b).1 (sym ((equal_iff b a).0 d)))
      | inr d ↦ e ∙ sym d
    ]
  ]

  -- What a value is chosen for: both sides have it, or one side has it and the other is the base's.
  pub choose-some_iff :
      (b l r v : Option A)
      → (choose eq b l r ≡ some v) ↔ ((l ≡ r) × (v ≡ l) ⊎ ((l ≡ b) × (v ≡ r) ⊎ (r ≡ b) × (v ≡ l)))
  unfolding choose
  choose-some_iff b l r v = ground (arith, equal_iff l r, equal_iff l b, equal_iff r b)

  -- Both sides changed the value, and not alike.
  pub choose-none_iff :
      (b l r : Option A) → (choose eq b l r ≡ none) ↔ ((l ≢ r) × (l ≢ b) × (r ≢ b))
  unfolding choose
  choose-none_iff b l r = ground (arith, equal_iff l r, equal_iff l b, equal_iff r b)

  pub choose_swap : (b l r : Option A) → choose eq b l r ≡ choose eq b r l
  unfolding choose
  choose_swap b l r = ground (arith, equal_iff l r, equal_sym l r, equal_iff l b, equal_iff r b)

  -- A side that did not change the value leaves it to the other one.
  pub choose_kept : (b r : Option A) → choose eq b b r ≡ some r
  choose_kept b r = (choose-some_iff b b r r).1 (inr (inl (refl, refl)))
