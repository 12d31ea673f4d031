-- ===== src/Model/Typing/Complete.antt =====
-- `exprType` accepts what has a type by the rules, within the bounds.
use clanker_foundry.Prelude.{
  ℕ, suc, ◌+◌, ◌≤◌, ◌≡◌, ◌↔◌, refl, false, ◌||◌, List, arith, ltb, ok, bind-ok,
}
use clanker_foundry.Text.{str_eq}
use clanker_foundry.Model.{Expr, Exprs, Typ, max_depth, max_nodes}
use clanker_foundry.Model.Typing.{expr_type, args_types, ref_type, literal_type, type_of}
use clanker_foundry.Model.Typing.Fitting.{fits_accepted}
use clanker_foundry.Model.Typing.Sound.{length-HaveTypes, expr_type_sound, IsTyped}
use clanker_foundry.Model.Typing.Rules.{
  HasType, HaveTypes, reference, literal, operation, none_typed, one_typed, node_count, node_counts,
  IsShallow, AreShallow,
}

bounds_hold :
    (d n : ℕ) → d ≤ max_depth → n ≤ max_nodes → (ltb max_depth d || ltb max_nodes n) ≡ false
bounds_hold d n h k = ground arith

mutual
  unfolding expr_type args_types IsShallow node_count ref_type literal_type str_eq

  expr_type_complete :
      (e : Expr) (d n : ℕ) (t : Typ)
      → HasType e t
      → IsShallow e d
      → n + node_count e ≤ max_nodes
      → expr_type e d n ≡ ok (t, n + node_count e)
  expr_type_complete _ d n _ (reference path r e) s b = rw (bounds_hold d (n + 1) s.0 b, e) refl
  expr_type_complete _ d n _ (literal value v) s b = rw (bounds_hold d (n + 1) s.0 b, v) refl
  expr_type_complete _ d n _ (operation op args types h f) s b =
      let (known, fit) = fits_accepted op args types (length-HaveTypes args types h) f in
      let all = args_types_complete args (d + 1) (n + 1) types h s.1 (omega (arith, b)) in
      let count : n + 1 + node_counts args ≡ n + suc (node_counts args) = omega arith in
      rw (bounds_hold d (n + 1) s.0 (omega (arith, b)), known, all, fit, count) refl

  args_types_complete :
      (args : Exprs) (d n : ℕ) (types : List Typ)
      → HaveTypes args types
      → AreShallow args d
      → n + node_counts args ≤ max_nodes
      → args_types args d n ≡ ok (types, n + node_counts args)
  args_types_complete _ d n _ none_typed s b = let same : n + 0 ≡ n = omega arith in rw same refl
  args_types_complete _ d n _ (one_typed a t args types h k) s b =
      let one = expr_type_complete a d n t h s.0 (omega (arith, b)) in
      let others = args_types_complete args d (n + node_count a) types k s.1 (omega (arith, b)) in
      let count : n + node_count a + node_counts args ≡ n + (node_count a + node_counts args) =
        omega arith in
      rw (one, others, count) refl

-- At depth `d`, after `n` expressions, `exprType` returns a type exactly if the rules give it, no
-- part of the expression is deeper than the limit, and its parts bring the count to at most the
-- limit.
expr_type_iff :
    (e : Expr) (d n : ℕ) (t : Typ) (n' : ℕ) → (expr_type e d n ≡ ok (t, n')) ↔ IsTyped e d n t n'
expr_type_iff e d n t n' = (
  expr_type_sound e d n,
  λ (typed, shallow, count, bound).
      rw count (expr_type_complete e d n t typed shallow (rw count at bound)),
)

-- `TypeOf` returns a type exactly for the expressions that have it by the rules, with no part at a
-- depth over 16 and at most 512 parts.
pub type_of_iff :
    (e : Expr) (t : Typ)
    → (type_of e ≡ ok t) ↔ (HasType e t × IsShallow e 0 × (node_count e ≤ max_nodes))
unfolding type_of
type_of_iff e t = (
  λ h.
      let ((u, n), typed, same) = bind-ok (expr_type e 0 0) _ h in
      let (has, shallow, count, bound) = expr_type_sound e 0 0 typed in
      let e' : u ≡ t = cc same in (rw (← e') has, shallow, omega (arith, count, bound)),
  λ h. rw (expr_type_complete e 0 0 t h.0 h.1 (omega (arith, h.2))) refl,
)
