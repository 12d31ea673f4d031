-- ===== src/Model/Typing.antt =====
-- `exprType` and `TypeOf` of model/ir.go. The counter behind `count *int` is passed on with the
-- result; after an error nothing reads it.
pub mod Rules
pub mod Operators
pub mod Connectives
pub mod Fitting
pub mod Sound
pub mod Complete
use clanker_foundry.Prelude.{
  ℕ, ◌+◌, Bool, true, false, not, ◌&&◌, ◌||◌, none, some, List, [], ◌∷◌, ltb, leb, ◌==◌,
  if◌then◌else◌, Result, ok, err, ◌>>=◌, ◌>>◌, check,
}
use clanker_foundry.Text.{Str, str, str_eq, contains}
use clanker_foundry.Model.{
  Expr, Exprs, expr, nil, cons, kind_of, ref_of, arity, Typ, string, uint64, strings, bool, Invalid,
  expression_bounds, mixed_reference, unknown_reference, string_literal, mixed_operator,
  comparison_arity, unary_arity, boolean_arity, unknown_operator, comparison_type, nonempty_type,
  absent_reference, boolean_operand, duplicate_operand, unknown_kind, max_depth, max_nodes,
  find_reference, valid_text,
}
use clanker_foundry.Model.Key.{expr_key}

abbrev pub typ_eq : Typ → Typ → Bool
typ_eq string string = true
typ_eq uint64 uint64 = true
typ_eq strings strings = true
typ_eq bool bool = true
typ_eq _ _ = false

abbrev pub is_nil : Exprs → Bool
is_nil nil = true
is_nil (cons a args) = false

abbrev pub is_empty : Str → Bool
is_empty [] = true
is_empty (c ∷ s) = false

-- The first `switch e.Op`.
unfoldable pub check_arity : Str → ℕ → Result Invalid (Unit {0})
check_arity op n =
    if str_eq op (str "eq") || str_eq op (str "ne")
    then check (n == 2) comparison_arity
    else if str_eq op (str "nonempty") || str_eq op (str "absent")
    then check (n == 1) unary_arity
    else if str_eq op (str "all") || str_eq op (str "any")
    then check (leb 1 n && leb n 16) boolean_arity
    else err unknown_operator

-- The loop over the operands of `all` and `any`, with the keys that it has seen.
unfoldable pub check_operands : Exprs → List Typ → List Str → Result Invalid (Unit {0})
unfolding contains expr_key
check_operands (cons a args) (t ∷ types) seen = do
  check (typ_eq t bool) boolean_operand
  check (not (contains seen (expr_key a))) duplicate_operand
  check_operands args types (expr_key a ∷ seen)
check_operands _ _ seen = ok tt

unfoldable pub check_comparison : List Typ → Result Invalid (Unit {0})
check_comparison (t ∷ u ∷ types) =
    check (typ_eq t u && (typ_eq t string || typ_eq t uint64)) comparison_type
check_comparison _ = err comparison_type

unfoldable pub check_nonempty : List Typ → Result Invalid (Unit {0})
check_nonempty (t ∷ types) = check (typ_eq t string || typ_eq t strings) nonempty_type
check_nonempty [] = err nonempty_type

unfoldable pub check_absent : Exprs → Result Invalid (Unit {0})
unfolding find_reference
check_absent (cons a args) = elim (find_reference (ref_of a)) [
  | none ↦ err absent_reference
  | some r ↦ check (str_eq (kind_of a) (str "ref") && r.optional) absent_reference
]
check_absent nil = err absent_reference

-- The second `switch e.Op`. `types` has one type for each operand.
unfoldable pub check_op : Str → Exprs → List Typ → Result Invalid (Unit {0})
unfolding check_comparison check_nonempty check_absent check_operands
check_op op args types =
    if str_eq op (str "eq") || str_eq op (str "ne")
    then check_comparison types
    else if str_eq op (str "nonempty")
    then check_nonempty types
    else if str_eq op (str "absent")
    then check_absent args
    else if str_eq op (str "all") || str_eq op (str "any")
    then check_operands args types []
    else ok tt

unfoldable pub ref_type : Str → Str → Str → Exprs → Result Invalid Typ
unfolding find_reference
ref_type ref value op args =
    if not (is_empty value && is_empty op && is_nil args)
    then err mixed_reference
    else elim (find_reference ref) [ none ↦ err unknown_reference | some r ↦ ok r.typ ]

unfoldable pub literal_type : Str → Str → Str → Exprs → Result Invalid Typ
unfolding valid_text
literal_type ref value op args =
    if not (is_empty ref && is_empty op && is_nil args && valid_text value 4096 false)
    then err string_literal
    else ok string

unfoldable mutual
  unfolding ref_type literal_type check_arity check_op

  -- `exprType(e, depth, count)`, with the new count.
  pub expr_type : Expr → ℕ → ℕ → Result Invalid (Typ × ℕ)
  expr_type (expr kind ref value op args) depth count =
      let n = count + 1 in
      let operands = args_types args (depth + 1) n in
      if ltb max_depth depth || ltb max_nodes n
      then err expression_bounds
      else if str_eq kind (str "ref")
      then (do t ← ref_type ref value op args; ok (t, n))
      else if str_eq kind (str "string")
      then (do t ← literal_type ref value op args; ok (t, n))
      else if str_eq kind (str "op")
      then (do
        check (is_empty ref && is_empty value) mixed_operator
        check_arity op (arity args)
        (types, n') ← operands
        check_op op args types
        ok (bool, n'))
      else err unknown_kind

  -- The loop over `e.Args`.
  pub args_types : Exprs → ℕ → ℕ → Result Invalid (List Typ × ℕ)
  args_types nil depth count = ok ([], count)
  args_types (cons a args) depth count = do
    (t, n) ← expr_type a depth count
    (types, n') ← args_types args depth n
    ok (t ∷ types, n')

-- `TypeOf`.
unfoldable pub type_of : Expr → Result Invalid Typ
unfolding expr_type
type_of e = do (t, n) ← expr_type e 0 0; ok t
