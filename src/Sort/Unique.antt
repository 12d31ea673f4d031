-- ===== src/Sort/Unique.antt =====
-- Records with different keys have one sorted list, whatever order they came in.
use mathlib.Core.List.Memᴰ
use clanker_foundry.Prelude.{
  ◌≡◌, refl, sym, ap, ap₂, subst, ◌∙◌, ◌≢◌, inl, inr, false, true, List, [], ◌∷◌, Memᴰ, All, All_at,
  arith, Bool-cases, map, Bool,
}
use clanker_foundry.Text.{Str, str_ltb}
use clanker_foundry.Text.Laws.{str_ltb_irrefl, str_ltb_total, str_ltb_asymm}
use clanker_foundry.Sort.{insert_by, sort_by}
use clanker_foundry.Sort.Laws.{
  IsSorted, sort_by-IsSorted, All-sort_by, All-insert_by, Memᴰ-sort_by, Memᴰ_of_sort_by,
}

module _ {ℓ} {A : Type ℓ} (key : A → Str) where
  -- No two of the records have the same key.
  abbrev pub HasDistinctKeys : List A → Type ℓ
  HasDistinctKeys [] = Unit
  HasDistinctKeys (x ∷ xs) = All (λ y. key x ≢ key y) xs × HasDistinctKeys xs

  abbrev pub IsStrict : List A → Type ℓ
  IsStrict [] = Unit
  IsStrict (x ∷ xs) = All (λ y. str_ltb (key x) (key y) ≡ true) xs × IsStrict xs

  All-ne_sym : (x : A) (ys : List A) → All (λ y. key x ≢ key y) ys → All (λ y. key y ≢ key x) ys
  All-ne_sym x [] h = tt
  All-ne_sym x (y ∷ ys) (h, hs) = ((λ e. h (sym e)), All-ne_sym x ys hs)

  insert_by-HasDistinctKeys :
      (x : A) (ys : List A)
      → All (λ y. key x ≢ key y) ys
      → HasDistinctKeys ys
      → HasDistinctKeys (insert_by key x ys)
  unfolding insert_by
  insert_by-HasDistinctKeys x [] h d = (tt, tt)
  insert_by-HasDistinctKeys x (y ∷ ys) (h, hs) (k, d) =
      elim (str_ltb (key y) (key x))
        as (λ b.
          HasDistinctKeys
            (clanker_foundry.Prelude.if◌then◌else◌ b (y ∷ insert_by key x ys) (x ∷ y ∷ ys))) [
              | true ↦ (
                All-insert_by key (λ z. key y ≢ key z) x ys (λ e. h (sym e)) k,
                insert_by-HasDistinctKeys x ys hs d,
              )
              | false ↦ ((h, hs), (k, d))
            ]

  pub sort_by-HasDistinctKeys :
      (xs : List A) → HasDistinctKeys xs → HasDistinctKeys (sort_by key xs)
  unfolding sort_by
  sort_by-HasDistinctKeys [] d = tt
  sort_by-HasDistinctKeys (x ∷ xs) (h, d) =
      insert_by-HasDistinctKeys x (sort_by key xs) (All-sort_by key (λ y. key x ≢ key y) xs h)
        (sort_by-HasDistinctKeys xs d)

  above_strict :
      (x : A) (ys : List A)
      → All (λ y. str_ltb (key y) (key x) ≡ false) ys
      → All (λ y. key x ≢ key y) ys
      → All (λ y. str_ltb (key x) (key y) ≡ true) ys
  above_strict x [] h d = tt
  above_strict x (y ∷ ys) (h, hs) (d, ds) = (
    elim (Bool-cases (str_ltb (key x) (key y))) [
      | inl lt ↦ lt
      | inr ge ↦ absurd (d (str_ltb_total (key x) (key y) ge h))
    ],
    above_strict x ys hs ds,
  )

  pub IsStrict-of_IsSorted : (xs : List A) → IsSorted key xs → HasDistinctKeys xs → IsStrict xs
  IsStrict-of_IsSorted [] s d = tt
  IsStrict-of_IsSorted (x ∷ xs) (above, s) (h, d) =
      (above_strict x xs above h, IsStrict-of_IsSorted xs s d)

  -- The first of a strict list is the one element that is below no member.
  heads_eq :
      (x y : A) (xs ys : List A)
      → IsStrict (x ∷ xs)
      → IsStrict (y ∷ ys)
      → Memᴰ x (y ∷ ys)
      → Memᴰ y (x ∷ xs)
      → x ≡ y
  heads_eq x y xs ys s t (Memᴰ.head e) n = e
  heads_eq x y xs ys s t (Memᴰ.tail m) (Memᴰ.head e) = sym e
  heads_eq x y xs ys s t (Memᴰ.tail m) (Memᴰ.tail n) =
      let below = All_at (λ z. str_ltb (key y) (key z) ≡ true) ys t.0 m in
      let above = All_at (λ z. str_ltb (key x) (key z) ≡ true) xs s.0 n in
      cc (str_ltb_asymm (key y) (key x) below)

  not_mem : (x : A) (xs : List A) → IsStrict (x ∷ xs) → ¬ Memᴰ x xs
  not_mem x xs s m =
      cc (All_at (λ z. str_ltb (key x) (key z) ≡ true) xs s.0 m, str_ltb_irrefl (key x))

  tail_members :
      (x y : A) (xs ys : List A)
      → x ≡ y
      → IsStrict (x ∷ xs)
      → ((a : A) → Memᴰ a (x ∷ xs) → Memᴰ a (y ∷ ys))
      → (a : A) → Memᴰ a xs
      → Memᴰ a ys
  tail_members x y xs ys e s f a m = elim (Memᴰ.cases_cons (f a (Memᴰ.tail m))) [
    | inl same ↦ absurd (not_mem x xs s (Memᴰ.cast (e ∙ sym same) m))
    | inr k ↦ k
  ]

  -- Two strict lists with the same members are one list.
  pub strict_eq :
      (xs ys : List A)
      → IsStrict xs
      → IsStrict ys
      → ((a : A) → Memᴰ a xs → Memᴰ a ys)
      → ((a : A) → Memᴰ a ys → Memᴰ a xs)
      → xs ≡ ys
  strict_eq [] [] s t f g = refl
  strict_eq [] (y ∷ ys) s t f g = absurd (Memᴰ.not-nil (g y (Memᴰ.head refl)))
  strict_eq (x ∷ xs) [] s t f g = absurd (Memᴰ.not-nil (f x (Memᴰ.head refl)))
  strict_eq (x ∷ xs) (y ∷ ys) s t f g =
      let e = heads_eq x y xs ys s t (f x (Memᴰ.head refl)) (g y (Memᴰ.head refl)) in
      ap₂ ◌∷◌ e (
        strict_eq xs ys s.1 t.1 (tail_members x y xs ys e s f) (tail_members y x ys xs (sym e) t g))

  -- The sorted list of records with different keys depends on which records there are, and not on
  -- their order.
  pub sort_by_unique :
      (xs ys : List A)
      → HasDistinctKeys xs
      → HasDistinctKeys ys
      → ((a : A) → Memᴰ a xs → Memᴰ a ys)
      → ((a : A) → Memᴰ a ys → Memᴰ a xs)
      → sort_by key xs ≡ sort_by key ys
  sort_by_unique xs ys d c f g =
      strict_eq (sort_by key xs) (sort_by key ys) (strict xs d) (strict ys c)
        (λ a m. Memᴰ-sort_by key a ys (f a (Memᴰ_of_sort_by key a xs m)))
        (λ a m. Memᴰ-sort_by key a xs (g a (Memᴰ_of_sort_by key a ys m)))
    where
      strict : (zs : List A) → HasDistinctKeys zs → IsStrict (sort_by key zs)
      strict zs e =
          IsStrict-of_IsSorted (sort_by key zs) (sort_by-IsSorted key zs)
            (sort_by-HasDistinctKeys zs e)
