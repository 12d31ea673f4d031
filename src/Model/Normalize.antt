-- ===== src/Model/Normalize.antt =====
-- `normalizeExpr` and `Normalize` of model/ir.go.
pub mod Operands
pub mod Laws
pub mod Order
pub mod Sorted
use clanker_foundry.Prelude.{
  ◌≡◌, Bool, ◌&&◌, ◌||◌, List, [], ◌∷◌, map, if◌then◌else◌, Result, ok, ◌>>=◌, ◌>>◌,
}
use clanker_foundry.Text.{Str, str, str_eq, str_ltb}
use clanker_foundry.Sort.{sort_by, sort_strings}
use clanker_foundry.Model.{
  Expr, Exprs, expr, nil, cons, State, Requirement, Guard, Transition, Model, Invalid,
}
use clanker_foundry.Model.Key.{expr_key}
use clanker_foundry.Model.Validate.{validate}

-- `sort.Slice` of operands by their keys.
unfoldable pub insert_operand : Expr → Exprs → Exprs
unfolding expr_key
insert_operand e nil = cons e nil
insert_operand e (cons a args) =
    if str_ltb (expr_key a) (expr_key e)
    then cons a (insert_operand e args)
    else cons e (cons a args)

unfoldable pub sort_operands : Exprs → Exprs
unfolding insert_operand
sort_operands nil = nil
sort_operands (cons a args) = insert_operand a (sort_operands args)

-- The test for a semantic set of operands.
unfoldable pub is_set : Str → Str → Bool
is_set kind op = str_eq kind (str "op") && (str_eq op (str "all") || str_eq op (str "any"))

unfoldable mutual
  unfolding sort_operands is_set

  pub normalize_expr : Expr → Expr
  normalize_expr (expr kind ref value op args) =
      expr kind ref value op
        (if is_set kind op then sort_operands (normalize_args args) else normalize_args args)

  pub normalize_args : Exprs → Exprs
  normalize_args nil = nil
  normalize_args (cons a args) = cons (normalize_expr a) (normalize_args args)

unfoldable pub normalize_guard : Guard → Guard
unfolding normalize_expr
normalize_guard g = record g { condition = normalize_expr g.condition }

unfoldable pub normalize_transition : Transition → Transition
unfolding sort_strings
normalize_transition t = record t { guards = sort_strings t.guards }

-- The reordering of `Normalize`, between its two validations.
unfoldable pub reorder : Model → Model
unfolding normalize_guard normalize_transition sort_by
reorder m = record m {
  states = sort_by (λ s. s.id) m.states;
  requirements = sort_by (λ r. r.id) m.requirements;
  guards = sort_by (λ g. g.id) (map normalize_guard m.guards);
  transitions = sort_by (λ t. t.id) (map normalize_transition m.transitions);
}

unfoldable pub normalize : Model → Result Invalid Model
normalize m = do
  validate m
  -- Recheck normalized duplicate boolean operands, including nested set order.
  validate (reorder m)
  ok (reorder m)
