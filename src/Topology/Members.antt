-- ===== src/Topology/Members.antt =====
-- Lists of states: membership tests, and lists with more than one member.
use mathlib.Core.List.Memᴰ
use clanker_foundry.Prelude.{
  ◌≡◌, refl, sym, ◌∙◌, ◌≢◌, inl, inr, Bool, true, false, ◌||◌, List, [], ◌∷◌, Memᴰ, Bool-cases,
  arith, length, ltb, All_at,
}
use clanker_foundry.Text.{Str, contains}
use clanker_foundry.Text.Laws.{contains_iff}
use clanker_foundry.Distinct.{Distinct}

pub not_in : (used : List Str) (i : Str) → contains used i ≡ false → ¬ Memᴰ i used
not_in used i e m = cc (e, (contains_iff used i).1 m)

pub out_of : (used : List Str) (i : Str) → ¬ Memᴰ i used → contains used i ≡ false
out_of used i h = elim (Bool-cases (contains used i)) [
  | inl e ↦ absurd (h ((contains_iff used i).0 e))
  | inr e ↦ e
]

pub two_members :
    {A : Type 0} (a b : A) (xs : List A) → Memᴰ a xs → Memᴰ b xs → a ≢ b → ltb 1 (length xs) ≡ true
two_members a b [] m n h = absurd (Memᴰ.not-nil m)
two_members a b (x ∷ []) m n h = absurd (h (Memᴰ.eq_of_singleton m ∙ sym (Memᴰ.eq_of_singleton n)))
two_members a b (x ∷ y ∷ xs) m n h = ground arith

pub only_member :
    {A : Type 0} (a b : A) (xs : List A) → ltb 1 (length xs) ≡ false → Memᴰ a xs → Memᴰ b xs → a ≡ b
only_member a b [] h k l = absurd (Memᴰ.not-nil k)
only_member a b (x ∷ []) h k l = Memᴰ.eq_of_singleton k ∙ sym (Memᴰ.eq_of_singleton l)
only_member a b (x ∷ y ∷ xs) h k l = absurd (ground arith)

pub or_second : (a b : Bool) → (a || b) ≡ true → a ≡ false → b ≡ true
or_second a b h k = ground (arith, h, k)

-- Distinct members, at least two of them: with each there is another.
pub other_member :
    (i : Str) (xs : List Str)
    → Distinct xs
    → Memᴰ i xs
    → ltb 1 (length xs) ≡ true
    → (j : Str) × Memᴰ j xs × (i ≢ j)
other_member i [] d l long = absurd (Memᴰ.not-nil l)
other_member i (x ∷ []) d l long = absurd (ground arith)
other_member i (x ∷ y ∷ xs) d (Memᴰ.head e) long =
    (y, Memᴰ.tail (Memᴰ.head refl), λ q. d.0.0 (sym e ∙ q))
other_member i (x ∷ y ∷ xs) d (Memᴰ.tail l) long =
    (x, Memᴰ.head refl, λ q. All_at (λ z. x ≢ z) (y ∷ xs) d.0 l (sym q))
