-- ===== src/Impact/Changes.antt =====
-- The changes between two normal forms: there are none exactly if the normal forms are equal.
use mathlib.Core.List.Memᴰ
use clanker_foundry.Prelude.{
  ◌≡◌, refl, sym, ap, ◌∙◌, subst, ◌≢◌, ◌↔◌, ◌⊎◌, inl, inr, Bool, true, not, Option, none, some,
  arith, Bool-cases, Option-cases, List-cases, List, [], ◌∷◌, ◌++◌, map, Memᴰ, All, All_at, select,
}
use clanker_foundry.Text.{Str}
use clanker_foundry.Distinct.{Distinct, same_of_Distinct}
use clanker_foundry.Sort.Less.{Memᴰ-sort_less}
use clanker_foundry.Impact.{
  ElementKey, Fields, Elements, Change, element_at, differing, compared_keys, change_of,
  with_change, changes_at, changes_of, is_some, key_ltb,
}
use clanker_foundry.Impact.Elements.{element_at-eq-some}

with_change-eq-nil :
    (c : Option Change) (rest : List Change) → with_change c rest ≡ [] → (c ≡ none) × (rest ≡ [])
with_change-eq-nil none rest h = (refl, h)
with_change-eq-nil (some c) rest h = cc

changes_at-eq-nil :
    (be ae : Elements) (keys : List ElementKey)
    → changes_at be ae keys ≡ []
    → All (λ k. change_of k (element_at be k) (element_at ae k) ≡ none) keys
unfolding changes_at
changes_at-eq-nil be ae [] h = tt
changes_at-eq-nil be ae (k ∷ keys) h =
    let (e, rest) = with_change-eq-nil _ _ h in (e, changes_at-eq-nil be ae keys rest)

pub changes_at-none :
    (be ae : Elements) (keys : List ElementKey)
    → ((k : ElementKey) → Memᴰ k keys → change_of k (element_at be k) (element_at ae k) ≡ none)
    → changes_at be ae keys ≡ []
unfolding changes_at
changes_at-none be ae [] h = refl
changes_at-none be ae (k ∷ keys) h =
    rw (h k (Memᴰ.head refl)) (changes_at-none be ae keys (λ l m. h l (Memᴰ.tail m)))

pub Memᴰ-select_iff :
    {A : Type 0} (p : A → Bool) (xs : List A) (a : A)
    → Memᴰ a (select p xs) ↔ (Memᴰ a xs × (p a ≡ true))
unfolding select
Memᴰ-select_iff p [] a = (λ m. absurd (Memᴰ.not-nil m), λ (m, e). m)
Memᴰ-select_iff p (x ∷ xs) a =
    let (to, of) = Memᴰ-select_iff p xs a in
    elim (Bool-cases (p x)) [
      | inl e ↦ rw e (
        λ m. elim (Memᴰ.cases_cons m) [
          | inl q ↦ (Memᴰ.head q, ap p q ∙ e)
          | inr n ↦ let (k, d) = to n in (Memᴰ.tail k, d)
        ],
        λ (m, d). elim (Memᴰ.cases_cons m) [ inl q ↦ Memᴰ.head q | inr n ↦ Memᴰ.tail (of (n, d)) ],
      )
      | inr e ↦ rw e (
        λ m. let (k, d) = to m in (Memᴰ.tail k, d),
        λ (m, d). elim (Memᴰ.cases_cons m) [
          | inl q ↦ absurd (cc (ap p q, e, d))
          | inr n ↦ of (n, d)
        ],
      )
    ]

-- The compared keys are those of both models.
pub compared_iff :
    (be ae : Elements) (k : ElementKey)
    → Memᴰ k (compared_keys be ae) ↔ (
        Memᴰ k (map (λ e. e.0) be)
        ⊎ Memᴰ k (map (λ e. e.0) ae) × (not (is_some (element_at be k)) ≡ true))
unfolding compared_keys
compared_iff be ae k =
    let added = λ (l : ElementKey). not (is_some (element_at be l)) in
    let (to, of) =
      Memᴰ-sort_less key_ltb (map (λ e. e.0) be ++ select added (map (λ e. e.0) ae)) k in
    let (in_to, in_of) = Memᴰ-select_iff added (map (λ e. e.0) ae) k in
    (
      λ m. elim (Memᴰ.append_cases (map (λ e. e.0) be) (to m)) [
        | inl n ↦ inl n
        | inr n ↦ inr (in_to n)
      ],
      elim [
        | inl n ↦ of (Memᴰ.append_left (select added (map (λ e. e.0) ae)) n)
        | inr n ↦ of (Memᴰ.append_right (map (λ e. e.0) be) (in_of n))
      ],
    )

-- Elements that agree at a key: both models have it, with fields that do not differ.
abbrev pub Agree : Elements → Elements → ElementKey → Type 0
Agree be ae k =
    (f : Fields) × (g : Fields) × (element_at be k ≡ some f)
    × (element_at ae k ≡ some g)
    × (differing f g ≡ [])

change_of-eq-none :
    (k : ElementKey) (old next : Option Fields)
    → change_of k old next ≡ none
    → (f : Fields) × (g : Fields) × (old ≡ some f) × (next ≡ some g) × (differing f g ≡ [])
unfolding change_of
change_of-eq-none k none next h = cc
change_of-eq-none k (some f) none h = cc
change_of-eq-none k (some f) (some g) h = elim (List-cases (differing f g)) [
  | inl e ↦ (f, g, refl, refl, e)
  | inr (x, rest, e) ↦ absurd (has_change e h)
]
  where
    has_change :
        {x : Str} {rest : List Str}
        → differing f g ≡ x ∷ rest
        → change_of k (some f) (some g) ≢ none
    has_change e h = cc (rw (e, change_of) at h)

pub change_of_same :
    (k : ElementKey) (f g : Fields) → differing f g ≡ [] → change_of k (some f) (some g) ≡ none
unfolding change_of
change_of_same k f g e = rw (e, change_of) refl

module _ (be ae : Elements) (same : changes_of be ae ≡ []) where
  Agree-compared : (k : ElementKey) → Memᴰ k (compared_keys be ae) → Agree be ae k
  unfolding changes_of
  Agree-compared k m = change_of-eq-none k (element_at be k) (element_at ae k) (
      All_at (λ l. change_of l (element_at be l) (element_at ae l) ≡ none) (compared_keys be ae)
        (changes_at-eq-nil be ae (compared_keys be ae) same) m)

  pub Agree-before : (k : ElementKey) → Memᴰ k (map (λ e. e.0) be) → Agree be ae k
  Agree-before k m = Agree-compared k ((compared_iff be ae k).1 (inl m))

  pub Agree-after : (k : ElementKey) → Memᴰ k (map (λ e. e.0) ae) → Agree be ae k
  Agree-after k m = elim (Bool-cases (is_some (element_at be k))) [
    | inr e ↦ Agree-compared k ((compared_iff be ae k).1 (inr (m, ap not e)))
    | inl e ↦ Agree-before k (has_key be k e)
  ]
    where
      has_key :
          (es : Elements) (k : ElementKey)
          → is_some (element_at es k) ≡ true
          → Memᴰ k (map (λ e. e.0) es)
      has_key es k e = elim (Option-cases (element_at es k)) [
        | inl d ↦ ground (arith, d)
        | inr (f, d) ↦ Memᴰ.map {B = ElementKey} (λ e. e.0) (element_at-eq-some es k f d)
      ]

-- The records of one kind.
module _ {A : Type 0} (kind : Str) (id : A → Str) (fields : A → Fields)
    (recover : (x y : A) → id x ≡ id y → differing (fields x) (fields y) ≡ [] → x ≡ y) where
  -- An element of this kind is a record's.
  abbrev pub Holds : Elements → List A → Type 0
  Holds es xs =
      ((i : Str) (f : Fields)
        → element_at es (kind, i) ≡ some f
        → (x : A) × Memᴰ x xs × (id x ≡ i) × (f ≡ fields x))
      × ((x : A) → Memᴰ x xs → Memᴰ (kind, id x) (map (λ e. e.0) es))

  module _ (be ae : Elements) (xs ys : List A) (hb : Holds be xs) (ha : Holds ae ys) where
    pub same_record :
        Distinct (map id xs) → (x : A) → Memᴰ x xs → Agree be ae (kind, id x) → Memᴰ x ys
    same_record d x m (f, g, e, h, equal) =
        let (y, my, iy, fy) = hb.0 (id x) f e in
        let (z, mz, iz, fz) = ha.0 (id x) g h in
        let one : y ≡ x = same_of_Distinct id xs y x d my m iy in
        let x_z = recover x z (sym iz) (
          subst (λ u. differing (fields u) (fields z) ≡ []) one
            (subst (λ u. differing (fields y) u ≡ []) fz
              (subst (λ u. differing u g ≡ []) fy equal))) in
        Memᴰ.cast x_z mz

    pub same_record_back :
        Distinct (map id ys) → (x : A) → Memᴰ x ys → Agree be ae (kind, id x) → Memᴰ x xs
    same_record_back d x m (f, g, e, h, equal) =
        let (y, my, iy, fy) = hb.0 (id x) f e in
        let (z, mz, iz, fz) = ha.0 (id x) g h in
        let one : z ≡ x = same_of_Distinct id ys z x d mz m iz in
        let y_x = recover y x iy (
          subst (λ u. differing (fields y) (fields u) ≡ []) one
            (subst (λ u. differing (fields y) u ≡ []) fz
              (subst (λ u. differing u g ≡ []) fy equal))) in
        Memᴰ.cast (sym y_x) my
