-- ===== src/Traceability/Issues/Statements.antt =====
-- No two requirements with different IDs have statements of one key.
use clanker_foundry.Prelude.{
  ◌≡◌, ◌↔◌, refl, sym, subst, ap, ◌∙◌, Bool, true, false, not, ◌&&◌, List, [], ◌∷◌, if◌then◌else◌,
  All, All_at, Memᴰ, Bool-cases, inl, inr, and_split,
}
use mathlib.Core.List.Memᴰ
use clanker_foundry.Text.{Str, str, str_eq}
use clanker_foundry.Text.Laws.{str_eq_iff}
use clanker_foundry.Sort.{sort_strings}
use clanker_foundry.Sort.Laws.{Memᴰ-sort_by, Memᴰ_of_sort_by}
use clanker_foundry.Traceability.{LinkedRequirement, Issue, valid_line}
use clanker_foundry.Traceability.Issues.{
  issue_if, ambiguous_with, ambiguous_in, group_of, ambiguous, statement_key,
}
use clanker_foundry.Traceability.Issues.Accepts.{append-nil_iff, issue_if-nil, not-false}

-- All of the texts are one.
abbrev AllSame : List Str → Type 0
AllSame xs = (a b : Str) → Memᴰ a xs → Memᴰ b xs → a ≡ b

ambiguous_with-nil :
    (first : Str) (ids : List Str) → (ambiguous_with first ids ≡ []) ↔ All (λ id. id ≡ first) ids
unfolding ambiguous_with
ambiguous_with-nil first [] = (λ h. tt, λ h. refl)
ambiguous_with-nil first (id ∷ ids) =
    let both =
      append-nil_iff (issue_if (not (str_eq id first)) (str "ambiguous-statement") id first) _ in
    let one = issue_if-nil (not (str_eq id first)) (str "ambiguous-statement") id first in
    let same = not-false (str_eq id first) in
    let rest = ambiguous_with-nil first ids in
    (
      λ h. let (a, b) = both.0 h in ((str_eq_iff id first).0 (same.0 (one.0 a)), rest.0 b),
      λ h. both.1 (one.1 (same.1 ((str_eq_iff id first).1 h.0)), rest.1 h.1),
    )

ambiguous_in-nil : (ids : List Str) → (ambiguous_in ids ≡ []) ↔ AllSame ids
unfolding ambiguous_in
ambiguous_in-nil [] = (λ h a b m. absurd (Memᴰ.not-nil m), λ h. refl)
ambiguous_in-nil (first ∷ ids) =
    let iff = ambiguous_with-nil first ids in
    (
      λ h a b m n. to (iff.0 h) a m ∙ sym (to (iff.0 h) b n),
      λ h. iff.1 (of ids (λ a m. h a first (Memᴰ.tail m) (Memᴰ.head refl))),
    )
  where
    to : All (λ id. id ≡ first) ids → (a : Str) → Memᴰ a (first ∷ ids) → a ≡ first
    to h a (Memᴰ.head e) = e
    to h a (Memᴰ.tail m) = All_at (λ id. id ≡ first) ids h m

    of : (xs : List Str) → ((a : Str) → Memᴰ a xs → a ≡ first) → All (λ id. id ≡ first) xs
    of [] h = tt
    of (x ∷ xs) h = (h x (Memᴰ.head refl), of xs (λ a m. h a (Memᴰ.tail m)))

sorted_AllSame : (xs : List Str) → AllSame (sort_strings xs) ↔ AllSame xs
unfolding sort_strings
sorted_AllSame xs = (
  λ h a b m n. h a b (Memᴰ-sort_by (λ s. s) a xs m) (Memᴰ-sort_by (λ s. s) b xs n),
  λ h a b m n. h a b (Memᴰ_of_sort_by (λ s. s) a xs m) (Memᴰ_of_sort_by (λ s. s) b xs n),
)

module _ (to_lower : Str → Str) where
  abbrev in_group : Str → LinkedRequirement → Bool
  in_group key r = valid_line r.statement 1024 && str_eq (statement_key to_lower r.statement) key

  group_mem :
      (key : Str) (rs : List LinkedRequirement) (r : LinkedRequirement)
      → Memᴰ r rs
      → in_group key r ≡ true
      → Memᴰ r.id (group_of to_lower key rs)
  unfolding group_of
  group_mem key [] r m e = absurd (Memᴰ.not-nil m)
  group_mem key (x ∷ rs) r (Memᴰ.head p) e =
      let e' : in_group key x ≡ true = ap (in_group key) (sym p) ∙ e in
      rw e' (Memᴰ.head (ap (λ w. w.id) p))
  group_mem key (x ∷ rs) r (Memᴰ.tail m) e = elim (Bool-cases (in_group key x)) [
    | inl q ↦ rw q (Memᴰ.tail (group_mem key rs r m e))
    | inr q ↦ rw q (group_mem key rs r m e)
  ]

  mem_of_group :
      (key : Str) (rs : List LinkedRequirement) (id : Str)
      → Memᴰ id (group_of to_lower key rs)
      → (r : LinkedRequirement) × Memᴰ r rs × (in_group key r ≡ true) × (id ≡ r.id)
  unfolding group_of
  mem_of_group key [] id m = absurd (Memᴰ.not-nil m)
  mem_of_group key (x ∷ rs) id m = elim (Bool-cases (in_group key x)) [
    | inl q ↦
        taken (λ k. mem_of_group key rs id k) q
          (subst
            (λ t. Memᴰ id (if t then x.id ∷ group_of to_lower key rs else group_of to_lower key rs))
            q m)
    | inr q ↦ passed (
        mem_of_group key rs id (
          subst
            (λ t. Memᴰ id (if t then x.id ∷ group_of to_lower key rs else group_of to_lower key rs))
            q m))
  ]
    where
      passed :
          (r : LinkedRequirement) × Memᴰ r rs × (in_group key r ≡ true) × (id ≡ r.id)
          → (r : LinkedRequirement) × Memᴰ r (x ∷ rs) × (in_group key r ≡ true) × (id ≡ r.id)
      passed (r, k, e, p) = (r, Memᴰ.tail k, e, p)

      taken :
          (Memᴰ id (group_of to_lower key rs)
            → (r : LinkedRequirement) × Memᴰ r rs × (in_group key r ≡ true) × (id ≡ r.id))
          → in_group key x ≡ true
          → Memᴰ id (x.id ∷ group_of to_lower key rs)
          → (r : LinkedRequirement) × Memᴰ r (x ∷ rs) × (in_group key r ≡ true) × (id ≡ r.id)
      taken rest q (Memᴰ.head e) = (x, Memᴰ.head refl, q, e)
      taken rest q (Memᴰ.tail k) = passed (rest k)

  -- Requirements with one statement key have one ID.
  abbrev pub IsUnambiguous : List LinkedRequirement → Type 0
  IsUnambiguous rs =
      (r u : LinkedRequirement)
      → Memᴰ r rs
      → Memᴰ u rs
      → statement_key to_lower r.statement ≡ statement_key to_lower u.statement
      → r.id ≡ u.id

  -- The issues of the group of one requirement.
  abbrev group_issues : List LinkedRequirement → LinkedRequirement → Bool → List Issue
  group_issues all r valid =
      if valid
      then ambiguous_in (sort_strings (group_of to_lower (statement_key to_lower r.statement) all))
      else []

  ambiguous_cons :
      (all rs : List LinkedRequirement) (r : LinkedRequirement)
      → (ambiguous to_lower all (r ∷ rs) ≡ []) ↔ (
          (group_issues all r (valid_line r.statement 1024) ≡ [])
          × (ambiguous to_lower all rs ≡ []))
  unfolding ambiguous
  ambiguous_cons all rs r =
      append-nil_iff (group_issues all r (valid_line r.statement 1024)) (ambiguous to_lower all rs)

  group_same :
      (all : List LinkedRequirement) (key : Str)
      → (ambiguous_in (sort_strings (group_of to_lower key all)) ≡ [])
        ↔ AllSame (group_of to_lower key all)
  group_same all key =
      let one = ambiguous_in-nil (sort_strings (group_of to_lower key all)) in
      let two = sorted_AllSame (group_of to_lower key all) in
      (λ h. two.0 (one.0 h), λ h. one.1 (two.1 h))

  abbrev pub AllValid : List LinkedRequirement → Type 0
  AllValid rs = (r : LinkedRequirement) → Memᴰ r rs → valid_line r.statement 1024 ≡ true

  in_group_of :
      (r : LinkedRequirement) (key : Str)
      → valid_line r.statement 1024 ≡ true
      → statement_key to_lower r.statement ≡ key
      → in_group key r ≡ true
  in_group_of r key v e = rw (v, (str_eq_iff _ _).1 e) refl

  ambiguous_to :
      (all rs : List LinkedRequirement)
      → AllValid all
      → ((r : LinkedRequirement) → Memᴰ r rs → Memᴰ r all)
      → ambiguous to_lower all rs ≡ []
      → (r u : LinkedRequirement) → Memᴰ r rs
      → Memᴰ u all
      → statement_key to_lower r.statement ≡ statement_key to_lower u.statement
      → r.id ≡ u.id
  ambiguous_to all [] valid within h r u m n e = absurd (Memᴰ.not-nil m)
  ambiguous_to all (x ∷ rs) valid within h r u (Memᴰ.tail m) n e =
      ambiguous_to all rs valid (λ w k. within w (Memᴰ.tail k)) ((ambiguous_cons all rs x).0 h).1 r
        u m n e
  ambiguous_to all (x ∷ rs) valid within h r u (Memᴰ.head p) n e =
      let here = within x (Memᴰ.head refl) in
      let v = valid x here in
      let key = statement_key to_lower x.statement in
      let none_at = subst (λ w. group_issues all x w ≡ []) v ((ambiguous_cons all rs x).0 h).0 in
      let same = (group_same all key).0 none_at in
      let at : statement_key to_lower u.statement ≡ key =
        sym e ∙ ap (λ w. statement_key to_lower w.statement) p in
      ap (λ w. w.id) p
      ∙ same x.id u.id (group_mem key all x here (in_group_of x key v refl))
          (group_mem key all u n (in_group_of u key (valid u n) at))

  ambiguous_of :
      (all rs : List LinkedRequirement) → IsUnambiguous all → ambiguous to_lower all rs ≡ []
  unfolding ambiguous
  ambiguous_of all [] h = refl
  ambiguous_of all (x ∷ rs) h =
      let key = statement_key to_lower x.statement in
      let same : AllSame (group_of to_lower key all) = λ a b m n.
        let (r, k, e, p) = mem_of_group key all a m in
        let (u, l, f, q) = mem_of_group key all b n in
        let r_key = (str_eq_iff _ _).0 (and_split (valid_line r.statement 1024) _ e).1 in
        let u_key = (str_eq_iff _ _).0 (and_split (valid_line u.statement 1024) _ f).1 in
        p ∙ (h r u k l (r_key ∙ sym u_key) ∙ sym q) in
      let group = (group_same all key).1 same in
      (append-nil_iff _ _).1 (either (valid_line x.statement 1024) group, ambiguous_of all rs h)
    where
      either :
          (b : Bool)
          → ambiguous_in (sort_strings (group_of to_lower (statement_key to_lower x.statement) all))
            ≡ []
          → group_issues all x b ≡ []
      either true h = h
      either false h = refl

  pub ambiguous-nil :
      (all : List LinkedRequirement)
      → AllValid all
      → (ambiguous to_lower all all ≡ []) ↔ IsUnambiguous all
  ambiguous-nil all valid = (
    λ h r u m n e. ambiguous_to all all valid (λ w k. k) h r u m n e,
    λ h. ambiguous_of all all h,
  )
