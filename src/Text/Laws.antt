-- ===== src/Text/Laws.antt =====
-- Equality and order of strings.
use clanker_foundry.Prelude.{
  ◌≡◌, refl, ◌↔◌, inl, inr, true, false, List, [], ◌∷◌, Memᴰ, arith, any_of, Bool-cases,
}
use mathlib.Core.List.Memᴰ
use clanker_foundry.Text.{Str, str_eq, str_ltb, contains}

pub str_eq_iff : (s t : Str) → (str_eq s t ≡ true) ↔ (s ≡ t)
unfolding str_eq
str_eq_iff [] [] = (λ _. refl, λ _. refl)
str_eq_iff [] (b ∷ t) = (λ e. cc, λ e. cc)
str_eq_iff (a ∷ s) [] = (λ e. cc, λ e. cc)
str_eq_iff (a ∷ s) (b ∷ t) = ground (arith, str_eq_iff s t)

pub str_eq_refl : (s : Str) → str_eq s s ≡ true
str_eq_refl s = (str_eq_iff s s).1 refl

pub str_ltb_irrefl : (s : Str) → str_ltb s s ≡ false
unfolding str_ltb
str_ltb_irrefl [] = refl
str_ltb_irrefl (a ∷ s) = ground (arith, str_ltb_irrefl s)

pub str_ltb_trans : (s t u : Str) → str_ltb s t ≡ true → str_ltb t u ≡ true → str_ltb s u ≡ true
unfolding str_ltb
str_ltb_trans [] [] u h k = cc
str_ltb_trans [] (b ∷ t) [] h k = cc
str_ltb_trans [] (b ∷ t) (c ∷ u) h k = refl
str_ltb_trans (a ∷ s) [] u h k = cc
str_ltb_trans (a ∷ s) (b ∷ t) [] h k = cc
str_ltb_trans (a ∷ s) (b ∷ t) (c ∷ u) h k = ground (arith, str_ltb_trans s t u)

pub str_ltb_total : (s t : Str) → str_ltb s t ≡ false → str_ltb t s ≡ false → s ≡ t
unfolding str_ltb
str_ltb_total [] [] h k = refl
str_ltb_total [] (b ∷ t) h k = cc
str_ltb_total (a ∷ s) [] h k = cc
str_ltb_total (a ∷ s) (b ∷ t) h k = ground (arith, str_ltb_total s t)

pub str_ltb_asymm : (s t : Str) → str_ltb s t ≡ true → str_ltb t s ≡ false
str_ltb_asymm s t h = ground (arith, str_ltb_trans s t s, str_ltb_irrefl s)

-- The weak order: `¬ t < s` and `¬ u < t` give `¬ u < s`.
pub str_leb_trans : (s t u : Str) → str_ltb t s ≡ false → str_ltb u t ≡ false → str_ltb u s ≡ false
str_leb_trans s t u h k =
    ground (arith, str_ltb_trans t u s, str_ltb_trans u s t, str_ltb_total s t, str_ltb_total t u)

pub contains_iff : (set : List Str) (s : Str) → (contains set s ≡ true) ↔ Memᴰ s set
unfolding contains any_of
contains_iff [] s = (λ e. cc, λ m. absurd (Memᴰ.not-nil m))
contains_iff (x ∷ set) s = (
  λ h. elim (Bool-cases (str_eq s x)) [
    | inl e ↦ Memᴰ.head ((str_eq_iff s x).0 e)
    | inr e ↦ Memᴰ.tail ((contains_iff set s).0 (ground arith))
  ],
  λ m. elim m [
    | Memᴰ.head e ↦ ground (arith, str_eq_iff s x)
    | Memᴰ.tail k ↦ ground (arith, (contains_iff set s).1 k)
  ],
)
