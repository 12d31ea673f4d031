-- ===== src/Merge/Records.antt =====
-- `records` of modelmerge/merge.go: the merged records and the conflicts, key by key.
use mathlib.Core.List.Memᴰ
use clanker_foundry.Prelude.{
  ◌≡◌, refl, sym, ap, ◌∙◌, subst, ◌≢◌, ◌↔◌, ◌⊎◌, inl, inr, Bool, true, Option, none, some, arith,
  Bool-cases, Option-cases, List, [], ◌∷◌, map, Memᴰ, All, All_at,
}
use clanker_foundry.Text.{Str, str_ltb, contains}
use clanker_foundry.Text.Laws.{str_eq_iff, str_ltb_irrefl, contains_iff}
use clanker_foundry.Sort.{sort_by, sort_strings}
use clanker_foundry.Sort.Laws.{Memᴰ-sort_by, Memᴰ_of_sort_by, sort_by-IsSorted}
use clanker_foundry.Sort.Unique.{IsStrict, IsStrict-of_IsSorted, sort_by-HasDistinctKeys}
use clanker_foundry.Model.Equal.{Decides}
use clanker_foundry.Merge.{
  Conflict, choose, lookup, is_present, add_keys, all_keys, merge_keys, records, reason_of,
}
use clanker_foundry.Merge.Choice.{choose-some_iff, choose-none_iff}
use clanker_foundry.Merge.Lookup.{
  lookup-eq-some, lookup-eq-none, lookup_absent, add_keys_iff, add_keys-Distinct,
}

module _ {A : Type 0} (id : A → Str) where
  lookup_skip :
      (a : A) (values : List A) (k : Str) → id a ≢ k → lookup id (a ∷ values) k ≡ lookup id values k
  unfolding lookup is_present
  lookup_skip a values k h = elim (Option-cases (lookup id values k)) [
    | inr (c, e) ↦ ground (arith, e)
    | inl e ↦ ground (arith, e, str_eq_iff (id a) k)
  ]

  lookup_new :
      (a : A) (values : List A) (k : Str)
      → lookup id values k ≡ none
      → id a ≡ k
      → lookup id (a ∷ values) k ≡ some a
  unfolding lookup is_present
  lookup_new a values k e d = rw (e, (str_eq_iff (id a) k).1 d) refl

  pub all_keys_iff :
      (b l r : List A) (k : Str)
      → Memᴰ k (all_keys id b l r) ↔ (Memᴰ k (map id b) ⊎ Memᴰ k (map id l) ⊎ Memᴰ k (map id r))
  unfolding all_keys sort_strings
  all_keys_iff b l r k =
      let lr = add_keys id l (add_keys id r []) in
      (
        λ m. elim ((add_keys_iff id b lr k).0 (Memᴰ_of_sort_by (λ s. s) k (add_keys id b lr) m)) [
          | inl n ↦ inl n
          | inr n ↦ elim ((add_keys_iff id l (add_keys id r []) k).0 n) [
            | inl p ↦ inr (inl p)
            | inr p ↦ elim ((add_keys_iff id r [] k).0 p) [
              | inl q ↦ inr (inr q)
              | inr q ↦ absurd (Memᴰ.not-nil q)
            ]
          ]
        ],
        λ m.
            Memᴰ-sort_by (λ s. s) k (add_keys id b lr)
              ((add_keys_iff id b lr k).1 (elim m [
                | inl n ↦ inl n
                | inr (inl n) ↦ inr ((add_keys_iff id l (add_keys id r []) k).1 (inl n))
                | inr (inr n) ↦ inr (
                    (add_keys_iff id l (add_keys id r []) k).1
                      (inr ((add_keys_iff id r [] k).1 (inl n))))
              ])),
      )

  pub all_keys-IsStrict : (b l r : List A) → IsStrict (λ s. s) (all_keys id b l r)
  unfolding all_keys sort_strings
  all_keys-IsStrict b l r =
      let keys = add_keys id b (add_keys id l (add_keys id r [])) in
      IsStrict-of_IsSorted (λ s. s) (sort_by (λ s. s) keys) (sort_by-IsSorted (λ s. s) keys)
        (sort_by-HasDistinctKeys (λ s. s) keys
          (add_keys-Distinct id b (add_keys id l (add_keys id r []))
            (add_keys-Distinct id l (add_keys id r []) (add_keys-Distinct id r [] tt))))

strict_new : (k : Str) (keys : List Str) → All (λ s. str_ltb k s ≡ true) keys → ¬ Memᴰ k keys
strict_new k keys h m = cc (All_at (λ s. str_ltb k s ≡ true) keys h m, str_ltb_irrefl k)

module _ {A : Type 0} (eq : A → A → Bool) (decides : Decides eq) (id : A → Str) (kind : Str)
    (base left right : List A) where
  -- What is chosen for a key, by the three-way rule.
  abbrev pub chosen_at : Str → Option (Option A)
  chosen_at k = choose eq (lookup id base k) (lookup id left k) (lookup id right k)

  abbrev pub conflict_at : Str → Conflict
  conflict_at k = record {
    kind = kind;
    id = k;
    field = [];
    reason = reason_of (lookup id base k) (lookup id left k) (lookup id right k);
  }

  abbrev merged : List Str → List A × List Conflict
  merged = merge_keys eq id kind base left right

  merged-none :
      (k : Str) (keys : List Str)
      → chosen_at k ≡ none
      → merged (k ∷ keys) ≡ ((merged keys).0, conflict_at k ∷ (merged keys).1)
  unfolding merge_keys
  merged-none k keys e = rw e refl

  merged_drop :
      (k : Str) (keys : List Str) → chosen_at k ≡ some none → merged (k ∷ keys) ≡ merged keys
  unfolding merge_keys
  merged_drop k keys e = rw e refl

  merged_take :
      (k : Str) (keys : List Str) (a : A)
      → chosen_at k ≡ some (some a)
      → merged (k ∷ keys) ≡ (a ∷ (merged keys).0, (merged keys).1)
  unfolding merge_keys
  merged_take k keys a e = rw e refl

  chosen_cases :
      (k : Str)
      → (chosen_at k ≡ none)
        ⊎ ((chosen_at k ≡ some none) ⊎ ((a : A) × (chosen_at k ≡ some (some a))))
  chosen_cases k = elim (Option-cases (chosen_at k)) [
    | inl e ↦ inl e
    | inr (v, e) ↦ elim (Option-cases v) [
      | inl d ↦ inr (inl (e ∙ ap some d))
      | inr (a, d) ↦ inr (inr (a, e ∙ ap some d))
    ]
  ]

  -- A value that is chosen for a key has it.
  chosen_id : (k : Str) (a : A) → chosen_at k ≡ some (some a) → id a ≡ k
  chosen_id k a e =
      let found =
        λ (values : List A) (h : lookup id values k ≡ some a). (lookup-eq-some id values k a h).1 in
      elim ((choose-some_iff eq decides _ _ _ (some a)).0 e) [
        | inl (same, v) ↦ found left (sym v)
        | inr (inl (same, v)) ↦ found right (sym v)
        | inr (inr (same, v)) ↦ found left (sym v)
      ]

  merged_ids : (keys : List Str) (k : Str) → Memᴰ k (map id (merged keys).0) → Memᴰ k keys
  unfolding merge_keys
  merged_ids [] k m = absurd (Memᴰ.not-nil m)
  merged_ids (key ∷ keys) k m = elim (chosen_cases key) [
    | inl e ↦
        Memᴰ.tail
          (merged_ids keys k (subst (λ v. Memᴰ k (map id (v.0))) (merged-none key keys e) m))
    | inr (inl e) ↦
        Memᴰ.tail
          (merged_ids keys k (subst (λ v. Memᴰ k (map id (v.0))) (merged_drop key keys e) m))
    | inr (inr (a, e)) ↦
        elim (Memᴰ.cases_cons (subst (λ v. Memᴰ k (map id (v.0))) (merged_take key keys a e) m)) [
          | inl q ↦ Memᴰ.head (q ∙ chosen_id key a e)
          | inr n ↦ Memᴰ.tail (merged_ids keys k n)
        ]
  ]

  merged_off : (keys : List Str) (k : Str) → ¬ Memᴰ k keys → lookup id (merged keys).0 k ≡ none
  merged_off keys k h = lookup_absent id (merged keys).0 k (λ m. h (merged_ids keys k m))

  merged_at :
      (keys : List Str) (k : Str)
      → IsStrict (λ s. s) keys
      → Memᴰ k keys
      → chosen_at k ≢ none
      → chosen_at k ≡ some (lookup id (merged keys).0 k)
  merged_at [] k s m h = absurd (Memᴰ.not-nil m)
  merged_at (key ∷ keys) k (new, s) m h =
      let off = merged_off keys key (strict_new key keys new) in
      elim (Memᴰ.cases_cons m) [
        | inl q ↦
            subst (λ j. chosen_at j ≡ some (lookup id (merged (key ∷ keys)).0 j)) (sym q)
              (elim (chosen_cases key) [
                | inl e ↦ absurd (h (ap chosen_at q ∙ e))
                | inr (inl e) ↦
                    e
                    ∙ ap some
                        (sym off ∙ sym (ap (λ v. lookup id (v.0) key) (merged_drop key keys e)))
                | inr (inr (a, e)) ↦
                    e
                    ∙ ap some (
                        sym (lookup_new id a (merged keys).0 key off (chosen_id key a e))
                        ∙ sym (ap (λ v. lookup id (v.0) key) (merged_take key keys a e)))
              ])
        | inr n ↦
            let rest = merged_at keys k s n h in
            elim (chosen_cases key) [
              | inl e ↦ rest ∙ ap some (sym (ap (λ v. lookup id (v.0) k) (merged-none key keys e)))
              | inr (inl e) ↦
                  rest ∙ ap some (sym (ap (λ v. lookup id (v.0) k) (merged_drop key keys e)))
              | inr (inr (a, e)) ↦
                  let apart = λ (p : id a ≡ k).
                    strict_new key keys new (Memᴰ.cast (sym (chosen_id key a e) ∙ p) n) in
                  rest
                  ∙ ap some (
                      sym (lookup_skip id a (merged keys).0 k apart)
                      ∙ sym (ap (λ v. lookup id (v.0) k) (merged_take key keys a e)))
            ]
      ]

  merged_conflicts :
      (keys : List Str) (c : Conflict)
      → Memᴰ c (merged keys).1
        ↔ ((k : Str) × Memᴰ k keys × (chosen_at k ≡ none) × (c ≡ conflict_at k))
  unfolding merge_keys
  merged_conflicts [] c = (λ m. absurd (Memᴰ.not-nil m), λ (k, m, p, q). absurd (Memᴰ.not-nil m))
  merged_conflicts (key ∷ keys) c =
      let rest = merged_conflicts keys c in
      elim (chosen_cases key) [
        | inl e ↦
            subst
              (λ v.
                Memᴰ c (v.1)
                ↔ ((k : Str) × Memᴰ k (key ∷ keys) × (chosen_at k ≡ none) × (c ≡ conflict_at k)))
              (sym (merged-none key keys e))
              (
                λ m. elim (Memᴰ.cases_cons m) [
                  | inl q ↦ (key, Memᴰ.head refl, e, q)
                  | inr n ↦ let (k, l, p, q) = rest.0 n in (k, Memᴰ.tail l, p, q)
                ],
                λ (k, m, p, q). elim (Memᴰ.cases_cons m) [
                  | inl d ↦ Memᴰ.head (q ∙ ap conflict_at d)
                  | inr n ↦ Memᴰ.tail (rest.1 (k, n, p, q))
                ],
              )
        | inr (inl e) ↦
            subst
              (λ v.
                Memᴰ c (v.1)
                ↔ ((k : Str) × Memᴰ k (key ∷ keys) × (chosen_at k ≡ none) × (c ≡ conflict_at k)))
              (sym (merged_drop key keys e)) (without key keys c rest (λ d. cc (d, e)))
        | inr (inr (a, e)) ↦
            subst
              (λ v.
                Memᴰ c (v.1)
                ↔ ((k : Str) × Memᴰ k (key ∷ keys) × (chosen_at k ≡ none) × (c ≡ conflict_at k)))
              (sym (merged_take key keys a e)) (without key keys c rest (λ d. cc (d, e)))
      ]
    where
      without :
          (key : Str) (keys : List Str) (c : Conflict) {M : Type 0}
          → M ↔ ((k : Str) × Memᴰ k keys × (chosen_at k ≡ none) × (c ≡ conflict_at k))
          → chosen_at key ≢ none
          → M ↔ ((k : Str) × Memᴰ k (key ∷ keys) × (chosen_at k ≡ none) × (c ≡ conflict_at k))
      without key keys c rest h = (
        λ m. let (k, l, p, q) = rest.0 m in (k, Memᴰ.tail l, p, q),
        λ (k, m, p, q). elim (Memᴰ.cases_cons m) [
          | inl d ↦ absurd (h (ap chosen_at (sym d) ∙ p))
          | inr n ↦ rest.1 (k, n, p, q)
        ],
      )

  key_cases :
      (k : Str)
      → Memᴰ k (all_keys id base left right)
        ⊎ ((lookup id base k ≡ none) × (lookup id left k ≡ none) × (lookup id right k ≡ none))
  key_cases k =
      let keys = all_keys id base left right in
      elim (Bool-cases (contains keys k)) [
        | inl e ↦ inl ((contains_iff keys k).0 e)
        | inr e ↦
            let out : ¬ Memᴰ k keys = (λ m. cc (e, (contains_iff keys k).1 m)) in
            let from = (all_keys_iff id base left right k).1 in
            inr (
              lookup_absent id base k (λ m. out (from (inl m))),
              lookup_absent id left k (λ m. out (from (inr (inl m)))),
              lookup_absent id right k (λ m. out (from (inr (inr m)))),
            )
      ]

  pub records-conflicts_iff :
      (c : Conflict)
      → Memᴰ c (records eq id kind base left right).1
        ↔ ((k : Str) × (chosen_at k ≡ none) × (c ≡ conflict_at k))
  unfolding records
  records-conflicts_iff c =
      let at_keys = merged_conflicts (all_keys id base left right) c in
      (
        λ m. let (k, l, p, q) = at_keys.0 m in (k, p, q),
        λ (k, p, q). elim (key_cases k) [
          | inl m ↦ at_keys.1 (k, m, p, q)
          | inr (e, d, f) ↦ absurd (((choose-none_iff eq decides _ _ _).0 p).0 (d ∙ sym f))
        ],
      )

  -- Where the test decides equality, the records that `records` returns hold, at every key that
  -- the three-way rule decides, what it chooses.
  pub records-lookup :
      (k : Str)
      → chosen_at k ≢ none
      → chosen_at k ≡ some (lookup id (records eq id kind base left right).0 k)
  unfolding records
  records-lookup k h =
      let keys = all_keys id base left right in
      elim (key_cases k) [
        | inl m ↦ merged_at keys k (all_keys-IsStrict id base left right) m h
        | inr (e, d, f) ↦
            (choose-some_iff eq decides _ _ _ (lookup id (merged keys).0 k)).1
              (inl (d ∙ sym f, gone k (e, d, f) ∙ sym d))
      ]
    where
      gone :
          (k : Str)
          → (lookup id base k ≡ none) × (lookup id left k ≡ none) × (lookup id right k ≡ none)
          → lookup id (merged (all_keys id base left right)).0 k ≡ none
      gone k (e, d, f) = lookup_absent id _ k (λ m.
          elim ((all_keys_iff id base left right k).0
            (merged_ids (all_keys id base left right) k m)) [
              | inl n ↦ has base e n
              | inr (inl n) ↦ has left d n
              | inr (inr n) ↦ has right f n
            ])
        where
          has : (values : List A) → lookup id values k ≡ none → ¬ Memᴰ k (map id values)
          has values = lookup-eq-none id values k
