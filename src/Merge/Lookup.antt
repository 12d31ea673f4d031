-- ===== src/Merge/Lookup.antt =====
-- Lookups in the index of `records`, and its keys.
use mathlib.Core.List.Memᴰ
use clanker_foundry.Prelude.{
  ◌≡◌, refl, sym, ap, ◌∙◌, subst, ◌↔◌, ◌⊎◌, inl, inr, none, some, arith, Bool-cases, Option-cases,
  List, [], ◌∷◌, map, Memᴰ,
}
use clanker_foundry.Text.{Str, str_eq, contains}
use clanker_foundry.Text.Laws.{str_eq_iff, str_eq_refl, contains_iff}
use clanker_foundry.Distinct.{Distinct, not_mem_ne, ne_not_mem}
use clanker_foundry.Merge.{lookup, is_present, add_keys}

module _ {A : Type 0} (id : A → Str) where
  -- A lookup finds a value with the key.
  pub lookup-eq-some :
      (values : List A) (key : Str) (a : A)
      → lookup id values key ≡ some a
      → Memᴰ a values × (id a ≡ key)
  unfolding lookup is_present
  lookup-eq-some [] key a h = cc
  lookup-eq-some (b ∷ values) key a h = elim (Option-cases (lookup id values key)) [
    | inr (c, e) ↦
        let same : c ≡ a = ground (arith, e) in
        let (m, k) = lookup-eq-some values key a (e ∙ ap some same) in (Memᴰ.tail m, k)
    | inl e ↦ elim (Bool-cases (str_eq (id b) key)) [
      | inl d ↦
          let same : b ≡ a = ground (arith, e, d) in
          (Memᴰ.head (sym same), ap id (sym same) ∙ (str_eq_iff (id b) key).0 d)
      | inr d ↦ absurd (ground (arith, e, d))
    ]
  ]

  -- A lookup that finds nothing: no value has the key.
  pub lookup-eq-none :
      (values : List A) (key : Str) → lookup id values key ≡ none → ¬ Memᴰ key (map id values)
  unfolding lookup is_present
  lookup-eq-none [] key h m = Memᴰ.not-nil m
  lookup-eq-none (b ∷ values) key h m = elim (Option-cases (lookup id values key)) [
    | inr (c, e) ↦ ground (arith, e)
    | inl e ↦ elim (Memᴰ.cases_cons m) [
      | inl q ↦ ground (arith, e, (str_eq_iff (id b) key).1 (sym q))
      | inr k ↦ lookup-eq-none values key e k
    ]
  ]

  pub lookup_absent :
      (values : List A) (key : Str) → ¬ Memᴰ key (map id values) → lookup id values key ≡ none
  lookup_absent values key h = elim (Option-cases (lookup id values key)) [
    | inl e ↦ e
    | inr (a, e) ↦
        let (m, k) = lookup-eq-some values key a e in absurd (h (Memᴰ.cast (sym k) (Memᴰ.map id m)))
  ]

  -- With different keys, a member is what the lookup of its key finds.
  pub lookup_at :
      (values : List A) (a : A)
      → Distinct (map id values)
      → Memᴰ a values
      → lookup id values (id a) ≡ some a
  unfolding lookup is_present
  lookup_at [] a d m = absurd (Memᴰ.not-nil m)
  lookup_at (b ∷ values) a (h, d) (Memᴰ.tail m) = rw (lookup_at values a d m) refl
  lookup_at (b ∷ values) a (h, d) (Memᴰ.head e) =
      let absent = lookup_absent values (id b) (ne_not_mem (id b) (map id values) h) in
      subst (λ c. lookup id (b ∷ values) (id c) ≡ some c) (sym e)
        (rw (absent, str_eq_refl (id b)) refl)

  pub add_keys_iff :
      (values : List A) (keys : List Str) (k : Str)
      → Memᴰ k (add_keys id values keys) ↔ (Memᴰ k (map id values) ⊎ Memᴰ k keys)
  unfolding add_keys
  add_keys_iff [] keys k = (inr, elim [ inl m ↦ absurd (Memᴰ.not-nil m) | inr m ↦ m ])
  add_keys_iff (a ∷ values) keys k =
      let rest = add_keys_iff values keys k in
      elim (Bool-cases (contains (add_keys id values keys) (id a))) [
        | inl e ↦
            let has = (contains_iff (add_keys id values keys) (id a)).0 e in
            rw e (
              λ m. elim (rest.0 m) [ inl n ↦ inl (Memᴰ.tail n) | inr n ↦ inr n ],
              elim [
                | inl n ↦ elim (Memᴰ.cases_cons n) [
                  | inl q ↦ Memᴰ.cast q has
                  | inr n' ↦ rest.1 (inl n')
                ]
                | inr n ↦ rest.1 (inr n)
              ],
            )
        | inr e ↦ rw e (
          λ m. elim (Memᴰ.cases_cons m) [
            | inl q ↦ inl (Memᴰ.head q)
            | inr m' ↦ elim (rest.0 m') [ inl n ↦ inl (Memᴰ.tail n) | inr n ↦ inr n ]
          ],
          elim [
            | inl n ↦ elim (Memᴰ.cases_cons n) [
              | inl q ↦ Memᴰ.head q
              | inr n' ↦ Memᴰ.tail (rest.1 (inl n'))
            ]
            | inr n ↦ Memᴰ.tail (rest.1 (inr n))
          ],
        )
      ]

  pub add_keys-Distinct :
      (values : List A) (keys : List Str) → Distinct keys → Distinct (add_keys id values keys)
  unfolding add_keys
  add_keys-Distinct [] keys d = d
  add_keys-Distinct (a ∷ values) keys d =
      let more = add_keys id values keys in
      elim (Bool-cases (contains more (id a))) [
        | inl e ↦ rw e (add_keys-Distinct values keys d)
        | inr e ↦ rw e (
          not_mem_ne (id a) more (λ m. cc (e, (contains_iff more (id a)).1 m)),
          add_keys-Distinct values keys d,
        )
      ]
