-- ===== src/Model/Validate/Ids.antt =====
-- The set `ids` of `Validate`: the IDs that it takes are new and stay taken.
use mathlib.Core.List.Memᴰ
use clanker_foundry.Prelude.{
  ◌≡◌, refl, subst, inl, inr, true, false, List, [], ◌∷◌, ◌++◌, Memᴰ, arith, some, Option-cases, ok,
}
use clanker_foundry.Text.{Str, contains}
use clanker_foundry.Text.Laws.{contains_iff}
use clanker_foundry.Distinct.{Distinct, Distinct-append, not_mem_ne}
use clanker_foundry.Model.{State, Requirement, identifier}
use clanker_foundry.Model.Validate.{
  add_id, check_states, check_requirements, state_ids, requirement_ids,
}

-- An ID that `add` takes is an identifier and is new.
pub add_id-eq-some :
    (ids : List Str) (id : Str) {ids' : List Str}
    → add_id ids id ≡ some ids'
    → (identifier id ≡ true) × (contains ids id ≡ false) × (ids' ≡ id ∷ ids)
unfolding add_id
add_id-eq-some ids id h = ground arith

-- `ids'` is `ids` with the identifiers `xs`, each of them new as it was added.
abbrev pub Extends : List Str → List Str → List Str → Type 0
Extends ids [] ids' = ids ≡ ids'
Extends ids (x ∷ xs) ids' =
    (identifier x ≡ true) × (contains ids x ≡ false) × Extends (x ∷ ids) xs ids'

pub Extends-fresh :
    (ids xs ids' : List Str) → Extends ids xs ids' → (a : Str) → Memᴰ a xs → ¬ Memᴰ a ids
Extends-fresh ids [] ids' h a m k = Memᴰ.not-nil m
Extends-fresh ids (x ∷ xs) ids' (i, new, h) a (Memᴰ.head e) k =
    cc (new, (contains_iff ids x).1 (subst (λ v. Memᴰ v ids) e k))
Extends-fresh ids (x ∷ xs) ids' (i, new, h) a (Memᴰ.tail m) k =
    Extends-fresh (x ∷ ids) xs ids' h a m (Memᴰ.tail k)

pub Extends-Distinct : (ids xs ids' : List Str) → Extends ids xs ids' → Distinct xs
Extends-Distinct ids [] ids' h = tt
Extends-Distinct ids (x ∷ xs) ids' (i, new, h) = (
  not_mem_ne x xs (λ m. Extends-fresh (x ∷ ids) xs ids' h x m (Memᴰ.head refl)),
  Extends-Distinct (x ∷ ids) xs ids' h,
)

pub Extends-old :
    (ids xs ids' : List Str) → Extends ids xs ids' → (a : Str) → Memᴰ a ids → Memᴰ a ids'
Extends-old ids [] ids' h a m = subst (Memᴰ a) h m
Extends-old ids (x ∷ xs) ids' (i, new, h) a m = Extends-old (x ∷ ids) xs ids' h a (Memᴰ.tail m)

pub Extends-has :
    (ids xs ids' : List Str) → Extends ids xs ids' → (a : Str) → Memᴰ a xs → Memᴰ a ids'
Extends-has ids [] ids' h a m = absurd (Memᴰ.not-nil m)
Extends-has ids (x ∷ xs) ids' (i, new, h) a (Memᴰ.head e) =
    Extends-old (x ∷ ids) xs ids' h a (Memᴰ.head e)
Extends-has ids (x ∷ xs) ids' (i, new, h) a (Memᴰ.tail m) = Extends-has (x ∷ ids) xs ids' h a m

pub Extends-add :
    (ids : List Str) (id : Str) (ids' rest ids'' : List Str)
    → add_id ids id ≡ some ids'
    → Extends ids' rest ids''
    → Extends ids (id ∷ rest) ids''
Extends-add ids id ids' rest ids'' e h =
    let (i, new, grow) = add_id-eq-some ids id e in
    (i, new, subst (λ v. Extends v rest ids'') grow h)

pub check_states-Extends :
    (states : List State) (ids ids' : List Str)
    → check_states states ids ≡ ok ids'
    → Extends ids (state_ids states) ids'
unfolding check_states state_ids
check_states-Extends [] ids ids' h = ground arith
check_states-Extends (s ∷ states) ids ids' h = elim (Option-cases (add_id ids s.id)) [
  | inl e ↦ absurd (ground arith)
  | inr (next, e) ↦
      Extends-add ids s.id next (state_ids states) ids' e
        (check_states-Extends states next ids' (ground arith))
]

pub check_requirements-Extends :
    (requirements : List Requirement) (ids ids' : List Str)
    → check_requirements requirements ids ≡ ok ids'
    → Extends ids (requirement_ids requirements) ids'
unfolding check_requirements requirement_ids
check_requirements-Extends [] ids ids' h = ground arith
check_requirements-Extends (r ∷ requirements) ids ids' h = elim (Option-cases (add_id ids r.id)) [
  | inl e ↦ absurd (ground arith)
  | inr (next, e) ↦
      Extends-add ids r.id next (requirement_ids requirements) ids' e
        (check_requirements-Extends requirements next ids' (ground arith))
]

-- Values that differ and are new after `xs` make with `xs` values that differ and are new before.
pub Extends-append :
    (ids xs ids' ys : List Str)
    → Extends ids xs ids'
    → Distinct ys
    → ((a : Str) → Memᴰ a ys → ¬ Memᴰ a ids')
    → Distinct (xs ++ ys) × ((a : Str) → Memᴰ a (xs ++ ys) → ¬ Memᴰ a ids)
Extends-append ids xs ids' ys h d f = (
  Distinct-append xs ys (Extends-Distinct ids xs ids' h) d
      (λ a m k. f a k (Extends-has ids xs ids' h a m)),
  λ a m k. elim (Memᴰ.append_cases xs m) [
    | inl l ↦ Extends-fresh ids xs ids' h a l k
    | inr l ↦ f a l (Extends-old ids xs ids' h a k)
  ],
)
