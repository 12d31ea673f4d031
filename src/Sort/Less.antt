-- ===== src/Sort/Less.antt =====
-- Sorting by a comparison keeps the elements.
use mathlib.Core.List.Memᴰ
use clanker_foundry.Prelude.{◌↔◌, inl, inr, Bool, List, [], ◌∷◌, Memᴰ, Bool-cases}
use clanker_foundry.Sort.{insert_less, sort_less}

module _ {ℓ} {A : Type ℓ} (less : A → A → Bool) where
  Memᴰ-insert_less :
      (x : A) (ys : List A) (a : A) → Memᴰ a (insert_less less x ys) ↔ Memᴰ a (x ∷ ys)
  unfolding insert_less
  Memᴰ-insert_less x [] a = (λ m. m, λ m. m)
  Memᴰ-insert_less x (y ∷ ys) a = elim (Bool-cases (less y x)) [
    | inr e ↦ rw e (λ m. m, λ m. m)
    | inl e ↦
        let (to, of) = Memᴰ-insert_less x ys a in
        rw e (
          λ m. elim (Memᴰ.cases_cons m) [
            | inl q ↦ Memᴰ.tail (Memᴰ.head q)
            | inr n ↦ elim (Memᴰ.cases_cons (to n)) [
              | inl q ↦ Memᴰ.head q
              | inr k ↦ Memᴰ.tail (Memᴰ.tail k)
            ]
          ],
          λ m. elim (Memᴰ.cases_cons m) [
            | inl q ↦ Memᴰ.tail (of (Memᴰ.head q))
            | inr n ↦ elim (Memᴰ.cases_cons n) [
              | inl q ↦ Memᴰ.head q
              | inr k ↦ Memᴰ.tail (of (Memᴰ.tail k))
            ]
          ],
        )
  ]

  -- The sorted list has the elements of the list.
  pub Memᴰ-sort_less : (xs : List A) (a : A) → Memᴰ a (sort_less less xs) ↔ Memᴰ a xs
  unfolding sort_less
  Memᴰ-sort_less [] a = (λ m. m, λ m. m)
  Memᴰ-sort_less (x ∷ xs) a =
      let (to, of) = Memᴰ-sort_less xs a in
      let (to', of') = Memᴰ-insert_less x (sort_less less xs) a in
      (
        λ m. elim (Memᴰ.cases_cons (to' m)) [ inl q ↦ Memᴰ.head q | inr n ↦ Memᴰ.tail (to n) ],
        λ m. elim (Memᴰ.cases_cons m) [
          | inl q ↦ of' (Memᴰ.head q)
          | inr n ↦ of' (Memᴰ.tail (of n))
        ],
      )
