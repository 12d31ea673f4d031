-- ===== src/Patch/Edit.antt =====
-- `edit` of modelpatch/apply.go, and what it does to a list of records with different IDs.
use mathlib.Core.List.Memᴰ
use clanker_foundry.Prelude.{
  ◌≡◌, refl, sym, ap, ◌∙◌, subst, ◌≢◌, ◌↔◌, ◌⊎◌, inl, inr, Bool, true, false, not, List, [], ◌∷◌,
  ◌++◌, map, Memᴰ, Result, ok, err, if◌then◌else◌, any_of, any_of-at, any_of_mem, arith, Bool-cases,
}
use clanker_foundry.Text.{Str, str, str_eq}
use clanker_foundry.Text.Laws.{str_eq_iff}
use clanker_foundry.Distinct.{Distinct, not_mem_ne, ne_not_mem, Distinct-append}
use clanker_foundry.Patch.{PatchError, conflicting, Operation}
use clanker_foundry.Patch.Shape.{is_action}

module _ {A : Type 0} (id : A → Str) (key : Str) where
  -- `index >= 0`.
  unfoldable pub has_id : List A → Bool
  unfolding any_of
  has_id items = any_of (λ x. str_eq (id x) key) items

  -- `items[index] = value`.
  unfoldable pub replace_first : A → List A → List A
  replace_first value [] = []
  replace_first value (x ∷ items) =
      let rest = replace_first value items in if str_eq (id x) key then value ∷ items else x ∷ rest

  -- `append(items[:index], items[index+1:]...)`.
  unfoldable pub remove_first : List A → List A
  remove_first [] = []
  remove_first (x ∷ items) =
      let rest = remove_first items in if str_eq (id x) key then items else x ∷ rest

unfoldable pub edit : {A : Type 0} → (A → Str) → Operation → A → List A → Result PatchError (List A)
unfolding has_id replace_first remove_first
edit id o value items =
    if str_eq o.action (str "add")
    then (if has_id id o.id items then err conflicting else ok (items ++ value ∷ []))
    else if not (has_id id o.id items)
    then err conflicting
    else if str_eq o.action (str "replace")
    then ok (replace_first id o.id value items)
    else ok (remove_first id o.id items)

module _ {A : Type 0} (id : A → Str) (key : Str) where
  has_id_iff : (items : List A) → (has_id id key items ≡ true) ↔ Memᴰ key (map id items)
  unfolding has_id
  has_id_iff items = (
    λ h.
        let (x, m, e) = any_of-at (λ a. str_eq (id a) key) items h in
        Memᴰ.cast (sym ((str_eq_iff (id x) key).0 e)) (Memᴰ.map id m),
    λ m.
        let (x, n, e) = Memᴰ.of_map id items m in
        any_of_mem (λ a. str_eq (id a) key) items n ((str_eq_iff (id x) key).1 e),
  )

  -- A record with another ID than all of these.
  other_id :
      (x : A) (items : List A)
      → ¬ Memᴰ (id x) (map id items)
      → id x ≡ key
      → (a : A) → Memᴰ a items
      → id a ≢ key
  other_id x items h e a m d = h (Memᴰ.cast (e ∙ sym d) (Memᴰ.map id m))

  module _ (value : A) where
    replace_iff :
        (items : List A) (a : A)
        → Distinct (map id items)
        → has_id id key items ≡ true
        → Memᴰ a (replace_first id key value items) ↔ ((a ≡ value) ⊎ Memᴰ a items × (id a ≢ key))
    unfolding replace_first has_id any_of
    replace_iff [] a d h = cc
    replace_iff (x ∷ items) a (new, d) h = elim (Bool-cases (str_eq (id x) key)) [
      | inl e ↦
          let q = (str_eq_iff (id x) key).0 e in
          let apart = other_id x items (ne_not_mem (id x) (map id items) new) q in
          rw e (
            λ m. elim (Memᴰ.cases_cons m) [ inl p ↦ inl p | inr n ↦ inr (Memᴰ.tail n, apart a n) ],
            elim [
              | inl p ↦ Memᴰ.head p
              | inr (m, k) ↦ elim (Memᴰ.cases_cons m) [
                | inl p ↦ absurd (k (ap id p ∙ q))
                | inr n ↦ Memᴰ.tail n
              ]
            ],
          )
      | inr e ↦
          let (to, of) = replace_iff items a d (ground (arith, e)) in
          rw e (
            λ m. elim (Memᴰ.cases_cons m) [
              | inl p ↦
                  inr (Memᴰ.head p, (λ k. cc (e, (str_eq_iff (id x) key).1 (ap id (sym p) ∙ k))))
              | inr n ↦ elim (to n) [ inl p ↦ inl p | inr (l, k) ↦ inr (Memᴰ.tail l, k) ]
            ],
            elim [
              | inl p ↦ Memᴰ.tail (of (inl p))
              | inr (m, k) ↦ elim (Memᴰ.cases_cons m) [
                | inl p ↦ Memᴰ.head p
                | inr n ↦ Memᴰ.tail (of (inr (n, k)))
              ]
            ],
          )
    ]

    replace_ids :
        (items : List A) → id value ≡ key → map id (replace_first id key value items) ≡ map id items
    unfolding replace_first
    replace_ids [] v = refl
    replace_ids (x ∷ items) v = elim (Bool-cases (str_eq (id x) key)) [
      | inl e ↦ rw e (ap (λ k. k ∷ map id items) (v ∙ sym ((str_eq_iff (id x) key).0 e)))
      | inr e ↦ rw e (ap (◌∷◌ (id x)) (replace_ids items v))
    ]

  remove_iff :
      (items : List A) (a : A)
      → Distinct (map id items)
      → Memᴰ a (remove_first id key items) ↔ (Memᴰ a items × (id a ≢ key))
  unfolding remove_first
  remove_iff [] a d = (λ m. absurd (Memᴰ.not-nil m), λ (m, k). m)
  remove_iff (x ∷ items) a (new, d) = elim (Bool-cases (str_eq (id x) key)) [
    | inl e ↦
        let q = (str_eq_iff (id x) key).0 e in
        let apart = other_id x items (ne_not_mem (id x) (map id items) new) q in
        rw e (
          λ m. (Memᴰ.tail m, apart a m),
          λ (m, k). elim (Memᴰ.cases_cons m) [ inl p ↦ absurd (k (ap id p ∙ q)) | inr n ↦ n ],
        )
    | inr e ↦
        let (to, of) = remove_iff items a d in
        rw e (
          λ m. elim (Memᴰ.cases_cons m) [
            | inl p ↦ (Memᴰ.head p, (λ k. cc (e, (str_eq_iff (id x) key).1 (ap id (sym p) ∙ k))))
            | inr n ↦ let (l, k) = to n in (Memᴰ.tail l, k)
          ],
          λ (m, k). elim (Memᴰ.cases_cons m) [
            | inl p ↦ Memᴰ.head p
            | inr n ↦ Memᴰ.tail (of (n, k))
          ],
        )
  ]

  remove-Distinct :
      (items : List A) → Distinct (map id items) → Distinct (map id (remove_first id key items))
  unfolding remove_first
  remove-Distinct [] d = tt
  remove-Distinct (x ∷ items) (new, d) = elim (Bool-cases (str_eq (id x) key)) [
    | inl e ↦ rw e d
    | inr e ↦ rw e (
      not_mem_ne (id x) (map id (remove_first id key items)) (λ m.
          let (y, n, q) = Memᴰ.of_map id (remove_first id key items) m in
          ne_not_mem (id x) (map id items) new
            (Memᴰ.cast (sym q) (Memᴰ.map id (((remove_iff items y d).0 n).0)))),
      remove-Distinct items d,
    )
  ]

-- The three ways an edit succeeds.
edit_cases :
    {A : Type 0} (id : A → Str) (o : Operation) (value : A) (items ys : List A)
    → is_action o.action ≡ true
    → edit id o value items ≡ ok ys
    → (o.action ≡ str "add") × (has_id id o.id items ≡ false) × (ys ≡ items ++ value ∷ [])
      ⊎ (o.action ≡ str "replace")
        × (has_id id o.id items ≡ true)
        × (ys ≡ replace_first id o.id value items)
      ⊎ (o.action ≡ str "remove")
        × (has_id id o.id items ≡ true)
        × (ys ≡ remove_first id o.id items)
unfolding edit is_action
edit_cases id o value items ys known h = ground (
  arith,
  str_eq_iff o.action (str "add"),
  str_eq_iff o.action (str "replace"),
  str_eq_iff o.action (str "remove"),
)

apart : (a b c : Str) → a ≡ b → str_eq b c ≡ false → a ≢ c
apart a b c e n q = cc (n, (str_eq_iff b c).1 (sym e ∙ q))

not_both : {b : Bool} → b ≡ false → b ≢ true
not_both e h = cc

Memᴰ-one : {A : Type 0} {a b : A} → Memᴰ a (b ∷ []) → a ≡ b
Memᴰ-one m = elim (Memᴰ.cases_cons m) [ inl p ↦ p | inr n ↦ absurd (Memᴰ.not-nil n) ]

map-append :
    {A : Type 0} (id : A → Str) (xs ys : List A) → map id (xs ++ ys) ≡ map id xs ++ map id ys
map-append id [] ys = refl
map-append id (x ∷ xs) ys = ap (◌∷◌ (id x)) (map-append id xs ys)

added-Distinct :
    {A : Type 0} (id : A → Str) (value : A) (items : List A)
    → Distinct (map id items)
    → ¬ Memᴰ (id value) (map id items)
    → Distinct (map id (items ++ value ∷ []))
added-Distinct id value items d h = subst Distinct (sym (map-append id items (value ∷ []))) (
    Distinct-append (map id items) (id value ∷ []) d (tt, tt)
      (λ k m n. h (Memᴰ.cast (sym (Memᴰ-one n)) m)))

-- A successful edit, with a known action and, unless that is remove, a value with the edited ID,
-- of records with different IDs, leaves the records with other IDs, and of the record with the
-- edited ID it leaves the new value, or nothing if the action is remove; the IDs stay different.
pub edit_iff :
    {A : Type 0} (id : A → Str) (o : Operation) (value : A) (items ys : List A)
    → Distinct (map id items)
    → (o.action ≢ str "remove" → id value ≡ o.id)
    → is_action o.action ≡ true
    → edit id o value items ≡ ok ys
    → Distinct (map id ys)
      × ((a : A)
          → Memᴰ a ys ↔ ((a ≡ value) × (o.action ≢ str "remove") ⊎ Memᴰ a items × (id a ≢ o.id)))
unfolding str_eq
edit_iff id o value items ys d v known h = elim (edit_cases id o value items ys known h) [
  | inl (e, absent, q) ↦
      let kept = apart o.action (str "add") (str "remove") e refl in
      let fresh =
        λ (m : Memᴰ o.id (map id items)). not_both absent ((has_id_iff id o.id items).1 m) in
      (
        subst (λ zs. Distinct (map id zs)) (sym q)
            (added-Distinct id value items d (λ m. fresh (Memᴰ.cast (sym (v kept)) m))),
        λ a.
            subst
              (λ zs.
                Memᴰ a zs
                ↔ ((a ≡ value) × (o.action ≢ str "remove") ⊎ Memᴰ a items × (id a ≢ o.id)))
              (sym q)
              (
                λ m. elim (Memᴰ.append_cases items m) [
                  | inl n ↦ inr (n, (λ k. fresh (Memᴰ.cast (sym k) (Memᴰ.map id n))))
                  | inr n ↦ inl (Memᴰ-one n, kept)
                ],
                elim [
                  | inl (p, _) ↦ Memᴰ.append_right items (Memᴰ.head p)
                  | inr (n, _) ↦ Memᴰ.append_left (value ∷ []) n
                ],
              ),
      )
  | inr (inl (e, present, q)) ↦
      let kept = apart o.action (str "replace") (str "remove") e refl in
      (
        subst (λ zs. Distinct (map id zs)) (sym q)
            (subst Distinct (sym (replace_ids id o.id value items (v kept))) d),
        λ a.
            subst
              (λ zs.
                Memᴰ a zs
                ↔ ((a ≡ value) × (o.action ≢ str "remove") ⊎ Memᴰ a items × (id a ≢ o.id)))
              (sym q)
              (
                λ m. elim ((replace_iff id o.id value items a d present).0 m) [
                  | inl p ↦ inl (p, kept)
                  | inr n ↦ inr n
                ],
                elim [
                  | inl (p, _) ↦ (replace_iff id o.id value items a d present).1 (inl p)
                  | inr n ↦ (replace_iff id o.id value items a d present).1 (inr n)
                ],
              ),
      )
  | inr (inr (e, present, q)) ↦ (
    subst (λ zs. Distinct (map id zs)) (sym q) (remove-Distinct id o.id items d),
    λ a.
        subst
          (λ zs.
            Memᴰ a zs ↔ ((a ≡ value) × (o.action ≢ str "remove") ⊎ Memᴰ a items × (id a ≢ o.id)))
          (sym q)
          (
            λ m. inr ((remove_iff id o.id items a d).0 m),
            elim [ inl (_, k) ↦ absurd (k e) | inr n ↦ (remove_iff id o.id items a d).1 n ],
          ),
  )
]
