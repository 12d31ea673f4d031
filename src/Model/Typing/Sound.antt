-- ===== src/Model/Typing/Sound.antt =====
-- What `exprType` accepts has a type by the rules, within the bounds.
use clanker_foundry.Prelude.{
  ℕ, suc, ◌+◌, ◌≤◌, ◌≡◌, inl, inr, refl, ap, true, false, ◌&&◌, ◌||◌, List, [], ◌∷◌, arith, length,
  ltb, Bool-cases, Option-cases, and_split, Result, ok, check-ok, bind-ok,
}
use clanker_foundry.Text.{Str, str, str_eq}
use clanker_foundry.Text.Laws.{str_eq_iff}
use clanker_foundry.Model.{
  Expr, Exprs, expr, nil, cons, arity, Typ, string, bool, Invalid, max_depth, max_nodes,
  find_reference, valid_text,
}
use clanker_foundry.Model.Typing.{
  is_nil, is_empty, expr_type, args_types, ref_type, literal_type, check_arity, check_op,
}
use clanker_foundry.Model.Typing.Operators.{arity-Operator}
use clanker_foundry.Model.Typing.Fitting.{operator_fits}
use clanker_foundry.Model.Typing.Rules.{
  HasType, HaveTypes, reference, literal, operation, none_typed, one_typed, node_count, node_counts,
  IsShallow, AreShallow,
}

empty_eq : (s : Str) → is_empty s ≡ true → s ≡ []
empty_eq [] h = refl
empty_eq (c ∷ s) h = cc

nil_eq : (args : Exprs) → is_nil args ≡ true → args ≡ nil
nil_eq nil h = refl
nil_eq (cons a args) h = cc

ref_type-HasType :
    (ref value op : Str) (args : Exprs) {t : Typ}
    → ref_type ref value op args ≡ ok t
    → HasType (expr (str "ref") ref value op args) t × (args ≡ nil)
unfolding ref_type
ref_type-HasType ref value op args {t} h =
    elim (Bool-cases (is_empty value && is_empty op && is_nil args)) [
      | inr e ↦ absurd (ground arith)
      | inl e ↦ elim (Option-cases (find_reference ref)) [
        | inl d ↦ absurd (ground arith)
        | inr (r, d) ↦
            let same : r.typ ≡ t = ground arith in
            let (vo, a) = and_split _ _ e in
            let (v, o) = and_split _ _ vo in
            (
              rw (empty_eq value v, empty_eq op o, nil_eq args a, ← same) (reference ref r d),
              nil_eq args a,
            )
      ]
    ]

literal_type-HasType :
    (ref value op : Str) (args : Exprs) {t : Typ}
    → literal_type ref value op args ≡ ok t
    → HasType (expr (str "string") ref value op args) t × (args ≡ nil)
unfolding literal_type
literal_type-HasType ref value op args {t} h =
    elim (Bool-cases (is_empty ref && is_empty op && is_nil args && valid_text value 4096 false)) [
      | inr e ↦ absurd (ground arith)
      | inl e ↦
          let same : string ≡ t = ground arith in
          let (roa, v) = and_split _ _ e in
          let (ro, a) = and_split _ _ roa in
          let (r, o) = and_split _ _ ro in
          (
            rw (empty_eq ref r, empty_eq op o, nil_eq args a, ← same) (literal value v),
            nil_eq args a,
          )
    ]

pub length-HaveTypes :
    (args : Exprs) (types : List Typ) → HaveTypes args types → length types ≡ arity args
length-HaveTypes _ _ none_typed = refl
length-HaveTypes _ _ (one_typed a t args types h k) = ap suc (length-HaveTypes args types k)

pair_eq :
    {A : Type 0} (a b : A) (n m : ℕ)
    → ◌≡◌ {A = Result Invalid (A × ℕ)} (ok (a, n)) (ok (b, m))
    → (a ≡ b) × (n ≡ m)
pair_eq a b n m h = (cc h, cc h)

-- What a run of `exprType` at depth `d` that raises its counter from `n` to `n'` means.
abbrev pub IsTyped : Expr → ℕ → ℕ → Typ → ℕ → Type 0
IsTyped e d n t n' = HasType e t × IsShallow e d × (n' ≡ n + node_count e) × (n' ≤ max_nodes)

leaf-IsTyped :
    (kind ref value op : Str) (args : Exprs) (d n : ℕ) (t : Typ) (n' : ℕ)
    → d ≤ max_depth
    → n + 1 ≤ max_nodes
    → HasType (expr kind ref value op args) t × (args ≡ nil)
    → n + 1 ≡ n'
    → IsTyped (expr kind ref value op args) d n t n'
unfolding IsShallow node_count
leaf-IsTyped kind ref value op args d n t n' deep few (h, e) same =
    (h, (deep, rw e tt), rw e (omega arith), omega arith)

mutual
  unfolding expr_type args_types IsShallow node_count

  pub expr_type_sound :
      (e : Expr) (d n : ℕ) {t : Typ} {n' : ℕ} → expr_type e d n ≡ ok (t, n') → IsTyped e d n t n'
  expr_type_sound (expr kind ref value op args) d n {t} {n'} h =
      elim (Bool-cases (ltb max_depth d || ltb max_nodes (n + 1))) [
        | inl e ↦ absurd (cc (rw e at h))
        | inr e ↦
            let deep : d ≤ max_depth = ground arith in
            let few : n + 1 ≤ max_nodes = ground arith in
            elim (Bool-cases (str_eq kind (str "ref"))) [
              | inl k ↦
                  let (u, typed, done) = bind-ok (ref_type ref value op args) _ (rw (e, k) at h) in
                  rw ((str_eq_iff kind (str "ref")).0 k) (
                    leaf-IsTyped (str "ref") ref value op args d n t n' deep few
                      (ref_type-HasType ref value op args (cc (typed, done))) (cc done))
              | inr k ↦ elim (Bool-cases (str_eq kind (str "string"))) [
                | inl l ↦
                    let (u, typed, done) =
                      bind-ok (literal_type ref value op args) _ (rw (e, k, l) at h) in
                    rw ((str_eq_iff kind (str "string")).0 l) (
                      leaf-IsTyped (str "string") ref value op args d n t n' deep few
                        (literal_type-HasType ref value op args (cc (typed, done))) (cc done))
                | inr l ↦ elim (Bool-cases (str_eq kind (str "op"))) [
                  | inr m ↦ absurd (cc (rw (e, k, l, m) at h))
                  | inl m ↦
                      let (plain, h₁) =
                        check-ok (is_empty ref && is_empty value) _ _ (rw (e, k, l, m) at h) in
                      let (u, known, h₂) = bind-ok (check_arity op (arity args)) _ h₁ in
                      let ((types, m'), typed, h₃) =
                        bind-ok (args_types args (d + 1) (n + 1)) _ h₂ in
                      let (v, fit, done) = bind-ok (check_op op args types) _ h₃ in
                      let (all, shallow, count, bound) =
                        args_types_sound args (d + 1) (n + 1) few typed in
                      let (r, w) = and_split _ _ plain in
                      let (same, last) = pair_eq bool t m' n' done in
                      (
                        rw
                            (
                              (str_eq_iff kind (str "op")).0 m,
                              empty_eq ref r,
                              empty_eq value w,
                              ← same,
                            )
                            (operation op args types all (
                              operator_fits op args types (arity-Operator op (arity args) known)
                                (length-HaveTypes args types all) fit)),
                        (deep, shallow),
                        omega (arith, count, last),
                        omega (arith, bound, last),
                      )
                ]
              ]
            ]
      ]

  args_types_sound :
      (args : Exprs) (d n : ℕ) {types : List Typ} {n' : ℕ}
      → n ≤ max_nodes
      → args_types args d n ≡ ok (types, n')
      → HaveTypes args types × AreShallow args d × (n' ≡ n + node_counts args) × (n' ≤ max_nodes)
  args_types_sound nil d n {types} {n'} b h =
      let (same, count) = pair_eq [] types n n' h in
      (rw (← same) none_typed, tt, omega (arith, count), omega (arith, count, b))
  args_types_sound (cons a args) d n {types = all} {n'} b h =
      let ((t, m), one, h₁) = bind-ok (expr_type a d n) _ h in
      let ((types, m'), others, h₂) = bind-ok (args_types args d m) _ h₁ in
      let (typed, shallow, count, bound) = expr_type_sound a d n one in
      let (typed', shallow', count', bound') = args_types_sound args d m bound others in
      let (same, last) = pair_eq (t ∷ types) all m' n' h₂ in
      (
        rw (← same) (one_typed a t args types typed typed'),
        (shallow, shallow'),
        omega (arith, count, count', last),
        omega (arith, bound', last),
      )
