-- ===== src/Sort.antt =====
-- `sort.Slice` by a string key and `sort.Strings`. The program sorts records with different keys,
-- or strings, so that the result does not depend on the sorting method: this one is an insertion
-- sort that keeps the order of equal keys.
pub mod Laws
pub mod Unique
pub mod Less
use clanker_foundry.Prelude.{List, [], ◌∷◌, Bool, if◌then◌else◌}
use clanker_foundry.Text.{Str, str_ltb}

module _ {ℓ} {A : Type ℓ} (key : A → Str) where
  unfoldable pub insert_by : A → List A → List A
  insert_by x [] = x ∷ []
  insert_by x (y ∷ ys) = if str_ltb (key y) (key x) then y ∷ insert_by x ys else x ∷ y ∷ ys

  unfoldable pub sort_by : List A → List A
  unfolding insert_by
  sort_by [] = []
  sort_by (x ∷ xs) = insert_by x (sort_by xs)

unfoldable pub sort_strings : List Str → List Str
unfolding sort_by
sort_strings xs = sort_by (λ s. s) xs

-- `sort.Slice` by a comparison.
module _ {ℓ} {A : Type ℓ} (less : A → A → Bool) where
  unfoldable pub insert_less : A → List A → List A
  insert_less x [] = x ∷ []
  insert_less x (y ∷ ys) = let rest = insert_less x ys in if less y x then y ∷ rest else x ∷ y ∷ ys

  unfoldable pub sort_less : List A → List A
  unfolding insert_less
  sort_less [] = []
  sort_less (x ∷ xs) = insert_less x (sort_less xs)
