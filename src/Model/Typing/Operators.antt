-- ===== src/Model/Typing/Operators.antt =====
-- The two switches on `e.Op` of `exprType` accept exactly what the rules say.
use clanker_foundry.Prelude.{
  ℕ, ◌≤◌, ◌≡◌, ◌↔◌, ◌⊎◌, inl, inr, refl, length, true, ◌&&◌, ◌||◌, List, [], ◌∷◌, arith, Bool-cases,
  ok, check-true_iff, subst, sym, Option-cases, and_split,
}
use clanker_foundry.Text.{Str, str, str_eq}
use clanker_foundry.Text.Laws.{str_eq_iff}
use clanker_foundry.Model.{
  Exprs, expr, nil, cons, arity, Typ, string, uint64, strings, bool, find_reference,
}
use clanker_foundry.Model.Typing.{
  typ_eq, check_arity, check_comparison, check_nonempty, check_absent,
}
use clanker_foundry.Model.Typing.Rules.{Fits, comparison, nonempty, absent}

pub typ_eq_iff : (t u : Typ) → (typ_eq t u ≡ true) ↔ (t ≡ u)
typ_eq_iff string string = (λ _. refl, λ _. refl)
typ_eq_iff string uint64 = (λ h. cc, λ h. cc)
typ_eq_iff string strings = (λ h. cc, λ h. cc)
typ_eq_iff string bool = (λ h. cc, λ h. cc)
typ_eq_iff uint64 string = (λ h. cc, λ h. cc)
typ_eq_iff uint64 uint64 = (λ _. refl, λ _. refl)
typ_eq_iff uint64 strings = (λ h. cc, λ h. cc)
typ_eq_iff uint64 bool = (λ h. cc, λ h. cc)
typ_eq_iff strings string = (λ h. cc, λ h. cc)
typ_eq_iff strings uint64 = (λ h. cc, λ h. cc)
typ_eq_iff strings strings = (λ _. refl, λ _. refl)
typ_eq_iff strings bool = (λ h. cc, λ h. cc)
typ_eq_iff bool string = (λ h. cc, λ h. cc)
typ_eq_iff bool uint64 = (λ h. cc, λ h. cc)
typ_eq_iff bool strings = (λ h. cc, λ h. cc)
typ_eq_iff bool bool = (λ _. refl, λ _. refl)

-- The operators, by the number of operands.
pub data Operator (op : Str) (n : ℕ) : Type 0 where
  two : (op ≡ str "eq") ⊎ (op ≡ str "ne") → n ≡ 2 → Operator op n
  filled : op ≡ str "nonempty" → n ≡ 1 → Operator op n
  missing : op ≡ str "absent" → n ≡ 1 → Operator op n
  many : (op ≡ str "all") ⊎ (op ≡ str "any") → 1 ≤ n → n ≤ 16 → Operator op n

pub arity-Operator : (op : Str) (n : ℕ) → check_arity op n ≡ ok tt → Operator op n
unfolding check_arity
arity-Operator op n h = elim (Bool-cases (str_eq op (str "eq"))) [
  | inl e ↦ two (inl ((str_eq_iff op (str "eq")).0 e)) (ground arith)
  | inr e₁ ↦ elim (Bool-cases (str_eq op (str "ne"))) [
    | inl e ↦ two (inr ((str_eq_iff op (str "ne")).0 e)) (ground arith)
    | inr e₂ ↦ elim (Bool-cases (str_eq op (str "nonempty"))) [
      | inl e ↦ filled ((str_eq_iff op (str "nonempty")).0 e) (ground arith)
      | inr e₃ ↦ elim (Bool-cases (str_eq op (str "absent"))) [
        | inl e ↦ missing ((str_eq_iff op (str "absent")).0 e) (ground arith)
        | inr e₄ ↦ elim (Bool-cases (str_eq op (str "all"))) [
          | inl e ↦ many (inl ((str_eq_iff op (str "all")).0 e)) (ground arith) (ground arith)
          | inr e₅ ↦ elim (Bool-cases (str_eq op (str "any"))) [
            | inl e ↦ many (inr ((str_eq_iff op (str "any")).0 e)) (ground arith) (ground arith)
            | inr e₆ ↦ absurd (ground arith)
          ]
        ]
      ]
    ]
  ]
]

scalar_pair :
    (t u : Typ)
    → (typ_eq t u && (typ_eq t string || typ_eq t uint64)) ≡ true
    → (t ≡ u) × ((t ≡ string) ⊎ (t ≡ uint64))
scalar_pair t u h = ground (arith, typ_eq_iff t u, typ_eq_iff t string, typ_eq_iff t uint64)

pub comparison_fits :
    (op : Str) (args : Exprs) (types : List Typ)
    → (op ≡ str "eq") ⊎ (op ≡ str "ne")
    → arity args ≡ 2
    → length types ≡ arity args
    → check_comparison types ≡ ok tt
    → Fits op args types
unfolding check_comparison
comparison_fits op (cons a (cons b nil)) (t ∷ u ∷ []) o n l h =
    let c = (check-true_iff (typ_eq t u && (typ_eq t string || typ_eq t uint64)) _).0 h in
    let (same, scalar) = scalar_pair t u c in
    subst (λ v. Fits op (cons a (cons b nil)) (t ∷ v ∷ [])) same (comparison op a b t o scalar)
comparison_fits op nil types o n l h = absurd (ground arith)
comparison_fits op (cons a nil) types o n l h = absurd (ground arith)
comparison_fits op (cons a (cons b (cons c args))) types o n l h = absurd (ground arith)
comparison_fits op (cons a (cons b nil)) [] o n l h = absurd (ground arith)
comparison_fits op (cons a (cons b nil)) (t ∷ []) o n l h = absurd (ground arith)
comparison_fits op (cons a (cons b nil)) (t ∷ u ∷ v ∷ types) o n l h = absurd (ground arith)

pub nonempty_fits :
    (args : Exprs) (types : List Typ)
    → arity args ≡ 1
    → length types ≡ arity args
    → check_nonempty types ≡ ok tt
    → Fits (str "nonempty") args types
unfolding check_nonempty
nonempty_fits (cons a nil) (t ∷ []) n l h =
    let c = (check-true_iff (typ_eq t string || typ_eq t strings) _).0 h in
    nonempty a t (ground (arith, typ_eq_iff t string, typ_eq_iff t strings))
nonempty_fits nil types n l h = absurd (ground arith)
nonempty_fits (cons a (cons b args)) types n l h = absurd (ground arith)
nonempty_fits (cons a nil) [] n l h = absurd (ground arith)
nonempty_fits (cons a nil) (t ∷ u ∷ types) n l h = absurd (ground arith)

pub absent_fits :
    (args : Exprs) (types : List Typ)
    → arity args ≡ 1
    → length types ≡ arity args
    → check_absent args ≡ ok tt
    → Fits (str "absent") args types
unfolding check_absent
absent_fits (cons (expr kind path value op args) nil) (t ∷ []) n l h =
    elim (Option-cases (find_reference path)) [
      | inl e ↦ absurd (ground arith)
      | inr (r, e) ↦
          let c =
            (check-true_iff (str_eq kind (str "ref") && r.optional) _).0
              (rw (e, check_absent) at h) in
          let (k, o) = and_split _ _ c in
          subst (λ w. Fits (str "absent") (cons (expr w path value op args) nil) (t ∷ []))
            (sym ((str_eq_iff kind (str "ref")).0 k)) (absent path value op args r t e o)
    ]
absent_fits nil types n l h = absurd (ground arith)
absent_fits (cons a (cons b args)) types n l h = absurd (ground arith)
absent_fits (cons a nil) [] n l h = absurd (ground arith)
absent_fits (cons a nil) (t ∷ u ∷ types) n l h = absurd (ground arith)
