-- ===== src/Sort/Laws.antt =====
-- Sorting rearranges, sorts, and leaves a sorted list alone.
use mathlib.Core.List.{Perm}
use mathlib.Core.List.Perm
use mathlib.Core.List.Memᴰ
use clanker_foundry.Prelude.{
  ◌≡◌, refl, ap, ◌∙◌, inl, inr, false, true, List, [], ◌∷◌, Memᴰ, All, All_at, length, arith,
  Bool-cases, suc,
}
use clanker_foundry.Text.{Str, str_ltb}
use clanker_foundry.Text.Laws.{str_ltb_asymm, str_leb_trans}
use clanker_foundry.Sort.{insert_by, sort_by}

module _ {ℓ} {A : Type ℓ} (key : A → Str) where
  -- No element is below an earlier one.
  abbrev pub IsSorted : List A → Type ℓ
  IsSorted [] = Unit
  IsSorted (x ∷ xs) = All (λ y. str_ltb (key y) (key x) ≡ false) xs × IsSorted xs

  insert_by_below :
      (x y : A) (ys : List A)
      → str_ltb (key y) (key x) ≡ true
      → insert_by key x (y ∷ ys) ≡ y ∷ insert_by key x ys
  unfolding insert_by
  insert_by_below x y ys h = rw h

  insert_by_above :
      (x y : A) (ys : List A)
      → str_ltb (key y) (key x) ≡ false
      → insert_by key x (y ∷ ys) ≡ x ∷ y ∷ ys
  unfolding insert_by
  insert_by_above x y ys h = rw h

  insert_by-perm : (x : A) (ys : List A) → Perm (insert_by key x ys) (x ∷ ys)
  unfolding insert_by
  insert_by-perm x [] = Perm.rfl
  insert_by-perm x (y ∷ ys) = elim (Bool-cases (str_ltb (key y) (key x))) [
    | inl h ↦
        rw (insert_by_below x y ys h)
          (Perm.trans (Perm.cons y (insert_by-perm x ys)) (Perm.swap x y ys))
    | inr h ↦ rw (insert_by_above x y ys h) Perm.rfl
  ]

  -- Sorting loses and invents nothing.
  pub sort_by-perm : (xs : List A) → Perm (sort_by key xs) xs
  unfolding sort_by
  sort_by-perm [] = Perm.rfl
  sort_by-perm (x ∷ xs) =
      Perm.trans (insert_by-perm x (sort_by key xs)) (Perm.cons x (sort_by-perm xs))

  pub All-insert_by {κ} :
      (P : A → Type κ) (x : A) (ys : List A) → P x → All P ys → All P (insert_by key x ys)
  unfolding insert_by
  All-insert_by P x [] p h = (p, h)
  All-insert_by P x (y ∷ ys) p (q, h) = elim (Bool-cases (str_ltb (key y) (key x))) [
    | inl b ↦ rw (insert_by_below x y ys b) (q, All-insert_by P x ys p h)
    | inr b ↦ rw (insert_by_above x y ys b) (p, (q, h))
  ]

  pub All-sort_by {κ} : (P : A → Type κ) (xs : List A) → All P xs → All P (sort_by key xs)
  unfolding sort_by
  All-sort_by P [] h = h
  All-sort_by P (x ∷ xs) (p, h) = All-insert_by P x (sort_by key xs) p (All-sort_by P xs h)

  above_trans :
      (x y : A) (ys : List A)
      → str_ltb (key y) (key x) ≡ false
      → All (λ z. str_ltb (key z) (key y) ≡ false) ys
      → All (λ z. str_ltb (key z) (key x) ≡ false) ys
  above_trans x y [] h k = tt
  above_trans x y (z ∷ ys) h (k, ks) =
      (str_leb_trans (key x) (key y) (key z) h k, above_trans x y ys h ks)

  insert_by-IsSorted : (x : A) (ys : List A) → IsSorted ys → IsSorted (insert_by key x ys)
  unfolding insert_by
  insert_by-IsSorted x [] s = (tt, tt)
  insert_by-IsSorted x (y ∷ ys) (above, s) = elim (Bool-cases (str_ltb (key y) (key x))) [
    | inl h ↦ rw (insert_by_below x y ys h) (
      All-insert_by (λ z. str_ltb (key z) (key y) ≡ false) x ys (str_ltb_asymm (key y) (key x) h)
          above,
      insert_by-IsSorted x ys s,
    )
    | inr h ↦ rw (insert_by_above x y ys h) ((h, above_trans x y ys h above), (above, s))
  ]

  -- The result is sorted.
  pub sort_by-IsSorted : (xs : List A) → IsSorted (sort_by key xs)
  unfolding sort_by
  sort_by-IsSorted [] = tt
  sort_by-IsSorted (x ∷ xs) = insert_by-IsSorted x (sort_by key xs) (sort_by-IsSorted xs)

  insert_by-least :
      (x : A) (ys : List A)
      → All (λ y. str_ltb (key y) (key x) ≡ false) ys
      → insert_by key x ys ≡ x ∷ ys
  unfolding insert_by
  insert_by-least x [] h = refl
  insert_by-least x (y ∷ ys) (h, hs) = insert_by_above x y ys h

  -- A sorted list stays as it is.
  pub sort_by_of_IsSorted : (xs : List A) → IsSorted xs → sort_by key xs ≡ xs
  unfolding sort_by
  sort_by_of_IsSorted [] s = refl
  sort_by_of_IsSorted (x ∷ xs) (above, s) =
      rw (sort_by_of_IsSorted xs s) (insert_by-least x xs above)

  length-insert_by : (x : A) (ys : List A) → length (insert_by key x ys) ≡ suc (length ys)
  unfolding insert_by
  length-insert_by x [] = refl
  length-insert_by x (y ∷ ys) = ground (arith, length-insert_by x ys)

  pub length-sort_by : (xs : List A) → length (sort_by key xs) ≡ length xs
  unfolding sort_by
  length-sort_by [] = refl
  length-sort_by (x ∷ xs) = length-insert_by x (sort_by key xs) ∙ ap suc (length-sort_by xs)

  Memᴰ-insert_by : (a x : A) (ys : List A) → Memᴰ a (x ∷ ys) → Memᴰ a (insert_by key x ys)
  unfolding insert_by
  Memᴰ-insert_by a x [] m = m
  Memᴰ-insert_by a x (y ∷ ys) m = elim (Bool-cases (str_ltb (key y) (key x))) [
    | inl h ↦ rw (insert_by_below x y ys h) (elim m [
      | Memᴰ.head e ↦ Memᴰ.tail (Memᴰ-insert_by a x ys (Memᴰ.head e))
      | Memᴰ.tail n ↦ elim (Memᴰ.cases_cons n) [
        | inl e ↦ Memᴰ.head e
        | inr k ↦ Memᴰ.tail (Memᴰ-insert_by a x ys (Memᴰ.tail k))
      ]
    ])
    | inr h ↦ rw (insert_by_above x y ys h) m
  ]

  pub Memᴰ-sort_by : (a : A) (xs : List A) → Memᴰ a xs → Memᴰ a (sort_by key xs)
  unfolding sort_by
  Memᴰ-sort_by a [] m = m
  Memᴰ-sort_by a (x ∷ xs) (Memᴰ.head e) = Memᴰ-insert_by a x (sort_by key xs) (Memᴰ.head e)
  Memᴰ-sort_by a (x ∷ xs) (Memᴰ.tail m) =
      Memᴰ-insert_by a x (sort_by key xs) (Memᴰ.tail (Memᴰ-sort_by a xs m))

  -- What is in the sorted list was in the list.
  pub Memᴰ_of_sort_by : (a : A) (xs : List A) → Memᴰ a (sort_by key xs) → Memᴰ a xs
  Memᴰ_of_sort_by a xs m =
      All_at (λ x. Memᴰ x xs) (sort_by key xs)
        (All-sort_by (λ x. Memᴰ x xs) xs (members xs xs (λ x k. k))) m
    where
      members : (ys zs : List A) → ((x : A) → Memᴰ x ys → Memᴰ x zs) → All (λ x. Memᴰ x zs) ys
      members [] zs f = tt
      members (y ∷ ys) zs f = (f y (Memᴰ.head refl), members ys zs (λ x k. f x (Memᴰ.tail k)))
