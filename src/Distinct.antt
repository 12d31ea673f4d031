-- ===== src/Distinct.antt =====
-- Lists without repetition, and the pigeonhole principle.
use mathlib.Core.List.Memᴰ
use clanker_foundry.Prelude.{
  map, suc, ◌≤◌, ◌≡◌, refl, sym, ap, ◌∙◌, ◌≢◌, ◌⊎◌, inl, inr, List, [], ◌∷◌, ◌++◌, Memᴰ, All,
  All_at, length, arith, Bool, select, Bool-cases,
}

-- No two of the values are equal.
abbrev pub Distinct {ℓ} : {A : Type ℓ} → List A → Type ℓ
Distinct [] = Unit
Distinct (x ∷ xs) = All (λ y. x ≢ y) xs × Distinct xs

module _ {ℓ} {A : Type ℓ} where
  pub not_mem_ne : (a : A) (xs : List A) → ¬ Memᴰ a xs → All (λ y. a ≢ y) xs
  not_mem_ne a [] h = tt
  not_mem_ne a (x ∷ xs) h = ((λ e. h (Memᴰ.head e)), not_mem_ne a xs (λ m. h (Memᴰ.tail m)))

  pub ne_not_mem : (a : A) (xs : List A) → All (λ y. a ≢ y) xs → ¬ Memᴰ a xs
  ne_not_mem a xs h m = All_at (λ y. a ≢ y) xs h m refl

  -- The list without one of its members.
  remove : {a : A} (xs : List A) → Memᴰ a xs → List A
  remove [] m = []
  remove (x ∷ xs) (Memᴰ.head e) = xs
  remove (x ∷ xs) (Memᴰ.tail m) = x ∷ remove xs m

  length-remove : {a : A} (xs : List A) (m : Memᴰ a xs) → suc (length (remove xs m)) ≡ length xs
  unfolding remove
  length-remove [] m = absurd (Memᴰ.not-nil m)
  length-remove (x ∷ xs) (Memᴰ.head e) = refl
  length-remove (x ∷ xs) (Memᴰ.tail m) = ap suc (length-remove xs m)

  mem-remove :
      {a : A} (b : A) (xs : List A) (m : Memᴰ a xs) → Memᴰ b xs → (b ≡ a) ⊎ Memᴰ b (remove xs m)
  unfolding remove
  mem-remove b [] m k = absurd (Memᴰ.not-nil m)
  mem-remove b (x ∷ xs) (Memᴰ.head e) (Memᴰ.head p) = inl (p ∙ sym e)
  mem-remove b (x ∷ xs) (Memᴰ.head e) (Memᴰ.tail k) = inr k
  mem-remove b (x ∷ xs) (Memᴰ.tail m) (Memᴰ.head p) = inr (Memᴰ.head p)
  mem-remove b (x ∷ xs) (Memᴰ.tail m) (Memᴰ.tail k) = elim (mem-remove b xs m k) [
    | inl e ↦ inl e
    | inr l ↦ inr (Memᴰ.tail l)
  ]

  mem_of_remove : {a : A} (b : A) (xs : List A) (m : Memᴰ a xs) → Memᴰ b (remove xs m) → Memᴰ b xs
  unfolding remove
  mem_of_remove b [] m k = k
  mem_of_remove b (x ∷ xs) (Memᴰ.head e) k = Memᴰ.tail k
  mem_of_remove b (x ∷ xs) (Memᴰ.tail m) (Memᴰ.head p) = Memᴰ.head p
  mem_of_remove b (x ∷ xs) (Memᴰ.tail m) (Memᴰ.tail k) = Memᴰ.tail (mem_of_remove b xs m k)

  -- Distinct members of a list that are as many as the list are all of it.
  pub distinct_full :
      (xs ys : List A)
      → Distinct xs
      → ((a : A) → Memᴰ a xs → Memᴰ a ys)
      → length ys ≤ length xs
      → (b : A) → Memᴰ b ys
      → Memᴰ b xs
  distinct_full [] [] d f h b m = m
  distinct_full [] (y ∷ ys) d f h b m = absurd (omega arith)
  distinct_full (x ∷ xs) ys d f h b m =
      let at_x = f x (Memᴰ.head refl) in
      elim (mem-remove b ys at_x m) [
        | inl e ↦ Memᴰ.head e
        | inr k ↦ Memᴰ.tail (
            distinct_full xs (remove ys at_x) d.1
              (λ a l. elim (mem-remove a ys at_x (f a (Memᴰ.tail l))) [
                | inl e ↦ absurd (ne_not_mem x xs d.0 (Memᴰ.cast (sym e) l))
                | inr l' ↦ l'
              ])
              (omega (arith, length-remove ys at_x)) b k)
      ]

module _ {ℓ} {A : Type ℓ} where
  All-of {κ} : (P : A → Type κ) (xs : List A) → ((a : A) → Memᴰ a xs → P a) → All P xs
  All-of P [] f = tt
  All-of P (x ∷ xs) f = (f x (Memᴰ.head refl), All-of P xs (λ a m. f a (Memᴰ.tail m)))

  -- Two lists without repetition and with no common member make one.
  pub Distinct-append :
      (xs ys : List A)
      → Distinct xs
      → Distinct ys
      → ((a : A) → Memᴰ a xs → ¬ Memᴰ a ys)
      → Distinct (xs ++ ys)
  Distinct-append [] ys d c f = c
  Distinct-append (x ∷ xs) ys (h, d) c f = (
    All-of (λ y. x ≢ y) (xs ++ ys)
        (λ a m e. elim (Memᴰ.append_cases xs m) [
          | inl k ↦ ne_not_mem x xs h (Memᴰ.cast e k)
          | inr k ↦ f x (Memᴰ.head refl) (Memᴰ.cast e k)
        ]),
    Distinct-append xs ys d c (λ a m. f a (Memᴰ.tail m)),
  )

  All-of_append {κ} : (P : A → Type κ) (xs ys : List A) → All P (xs ++ ys) → All P xs × All P ys
  All-of_append P [] ys h = (tt, h)
  All-of_append P (x ∷ xs) ys (p, h) = let (a, b) = All-of_append P xs ys h in ((p, a), b)

  pub Distinct-of_append : (xs ys : List A) → Distinct (xs ++ ys) → Distinct xs × Distinct ys
  Distinct-of_append [] ys d = (tt, d)
  Distinct-of_append (x ∷ xs) ys (h, d) =
      let (a, b) = Distinct-of_append xs ys d in (((All-of_append (λ y. x ≢ y) xs ys h).0, a), b)

-- Two members with the same key are one, where the keys differ.
pub same_of_Distinct :
    {A : Type 0} {B : Type 0} (key : A → B) (ts : List A) (t u : A)
    → Distinct (map key ts)
    → Memᴰ t ts
    → Memᴰ u ts
    → key t ≡ key u
    → t ≡ u
same_of_Distinct key [] t u d m k e = absurd (Memᴰ.not-nil m)
same_of_Distinct key (x ∷ ts) t u (h, d) (Memᴰ.head p) (Memᴰ.head q) e = p ∙ sym q
same_of_Distinct key (x ∷ ts) t u (h, d) (Memᴰ.head p) (Memᴰ.tail k) e =
    absurd (ne_not_mem (key x) (map key ts) h (Memᴰ.cast (ap key (sym p) ∙ e) (Memᴰ.map key k)))
same_of_Distinct key (x ∷ ts) t u (h, d) (Memᴰ.tail m) (Memᴰ.head q) e =
    absurd (ne_not_mem (key x) (map key ts) h (Memᴰ.cast (ap key (sym q) ∙ sym e) (Memᴰ.map key m)))
same_of_Distinct key (x ∷ ts) t u (h, d) (Memᴰ.tail m) (Memᴰ.tail k) e =
    same_of_Distinct key ts t u d m k e

pub All-select {ℓ κ} :
    {A : Type ℓ} (P : A → Type κ) (p : A → Bool) (xs : List A) → All P xs → All P (select p xs)
unfolding select
All-select P p [] h = tt
All-select P p (x ∷ xs) h = elim (Bool-cases (p x)) [
  | inl e ↦ rw e (h.0, All-select P p xs h.1)
  | inr e ↦ rw e (All-select P p xs h.1)
]

pub Distinct-select {ℓ} :
    {A : Type ℓ} (p : A → Bool) (xs : List A) → Distinct xs → Distinct (select p xs)
unfolding select
Distinct-select p [] d = tt
Distinct-select p (x ∷ xs) d = elim (Bool-cases (p x)) [
  | inl e ↦ rw e (All-select (λ y. x ≢ y) p xs d.0, Distinct-select p xs d.1)
  | inr e ↦ rw e (Distinct-select p xs d.1)
]
