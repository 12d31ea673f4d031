-- ===== src/Model/Normalize/Operands.antt =====
-- `normalizeExpr` changes nothing in what it has already ordered.
use clanker_foundry.Prelude.{
  ◌≡◌, refl, ap, ap₂, ◌∙◌, inl, inr, true, false, Bool-cases, if◌then◌else◌, Bool,
}
use clanker_foundry.Text.{str_ltb}
use clanker_foundry.Text.Laws.{str_ltb_asymm, str_leb_trans}
use clanker_foundry.Model.{Expr, Exprs, expr, nil, cons}
use clanker_foundry.Model.Key.{expr_key}
use clanker_foundry.Model.Normalize.{
  insert_operand, sort_operands, is_set, normalize_expr, normalize_args,
}

-- A predicate at every operand.
abbrev AllOperands : (Expr → Type 0) → Exprs → Type 0
AllOperands P nil = Unit
AllOperands P (cons a args) = P a × AllOperands P args

abbrev NotBelow : Expr → Expr → Type 0
NotBelow a b = str_ltb (expr_key b) (expr_key a) ≡ false

abbrev IsOrdered : Exprs → Type 0
IsOrdered nil = Unit
IsOrdered (cons a args) = AllOperands (NotBelow a) args × IsOrdered args

insert_operand_below :
    (e a : Expr) (args : Exprs)
    → str_ltb (expr_key a) (expr_key e) ≡ true
    → insert_operand e (cons a args) ≡ cons a (insert_operand e args)
unfolding insert_operand
insert_operand_below e a args h = rw h

insert_operand_above :
    (e a : Expr) (args : Exprs)
    → str_ltb (expr_key a) (expr_key e) ≡ false
    → insert_operand e (cons a args) ≡ cons e (cons a args)
unfolding insert_operand
insert_operand_above e a args h = rw h

All-insert_operand :
    (P : Expr → Type 0) (e : Expr) (args : Exprs)
    → P e
    → AllOperands P args
    → AllOperands P (insert_operand e args)
unfolding insert_operand
All-insert_operand P e nil p h = (p, tt)
All-insert_operand P e (cons a args) p (q, h) =
    elim (Bool-cases (str_ltb (expr_key a) (expr_key e))) [
      | inl b ↦ rw (insert_operand_below e a args b) (q, All-insert_operand P e args p h)
      | inr b ↦ rw (insert_operand_above e a args b) (p, (q, h))
    ]

All-sort_operands :
    (P : Expr → Type 0) (args : Exprs) → AllOperands P args → AllOperands P (sort_operands args)
unfolding sort_operands
All-sort_operands P nil h = tt
All-sort_operands P (cons a args) (p, h) =
    All-insert_operand P a (sort_operands args) p (All-sort_operands P args h)

above_trans :
    (e a : Expr) (args : Exprs)
    → NotBelow e a
    → AllOperands (NotBelow a) args
    → AllOperands (NotBelow e) args
above_trans e a nil h k = tt
above_trans e a (cons b args) h (k, ks) =
    (str_leb_trans (expr_key e) (expr_key a) (expr_key b) h k, above_trans e a args h ks)

insert_operand-IsOrdered :
    (e : Expr) (args : Exprs) → IsOrdered args → IsOrdered (insert_operand e args)
unfolding insert_operand
insert_operand-IsOrdered e nil s = (tt, tt)
insert_operand-IsOrdered e (cons a args) (above, s) =
    elim (Bool-cases (str_ltb (expr_key a) (expr_key e))) [
      | inl h ↦ rw (insert_operand_below e a args h) (
        All-insert_operand (NotBelow a) e args (str_ltb_asymm (expr_key a) (expr_key e) h) above,
        insert_operand-IsOrdered e args s,
      )
      | inr h ↦ rw (insert_operand_above e a args h) ((h, above_trans e a args h above), (above, s))
    ]

sort_operands-IsOrdered : (args : Exprs) → IsOrdered (sort_operands args)
unfolding sort_operands
sort_operands-IsOrdered nil = tt
sort_operands-IsOrdered (cons a args) =
    insert_operand-IsOrdered a (sort_operands args) (sort_operands-IsOrdered args)

sort_operands_of_IsOrdered : (args : Exprs) → IsOrdered args → sort_operands args ≡ args
unfolding sort_operands insert_operand
sort_operands_of_IsOrdered nil s = refl
sort_operands_of_IsOrdered (cons a nil) (above, s) = refl
sort_operands_of_IsOrdered (cons a (cons b args)) ((h, hs), s) =
    rw (sort_operands_of_IsOrdered (cons b args) s) (insert_operand_above a b args h)

-- An operand that `normalizeExpr` leaves alone.
abbrev IsNormal : Expr → Type 0
IsNormal e = normalize_expr e ≡ e

normalize_args_of_IsNormal : (args : Exprs) → AllOperands IsNormal args → normalize_args args ≡ args
unfolding normalize_args
normalize_args_of_IsNormal nil h = refl
normalize_args_of_IsNormal (cons a args) (p, h) = ap₂ cons p (normalize_args_of_IsNormal args h)

order : Bool → Exprs → Exprs
order b args = if b then sort_operands args else args

order_twice :
    (b : Bool) (args : Exprs)
    → AllOperands IsNormal args
    → order b (normalize_args (order b args)) ≡ order b args
unfolding order
order_twice true args h =
    ap sort_operands
      (normalize_args_of_IsNormal (sort_operands args) (All-sort_operands IsNormal args h))
    ∙ sort_operands_of_IsOrdered (sort_operands args) (sort_operands-IsOrdered args)
order_twice false args h = normalize_args_of_IsNormal args h

mutual
  unfolding normalize_expr order

  IsNormal-expr : (e : Expr) → IsNormal (normalize_expr e)
  IsNormal-expr (expr kind ref value op args) =
      ap (expr kind ref value op)
        (order_twice (is_set kind op) (normalize_args args) (IsNormal-args args))

  IsNormal-args : (args : Exprs) → AllOperands IsNormal (normalize_args args)
  IsNormal-args nil = tt
  IsNormal-args (cons a args) = (IsNormal-expr a, IsNormal-args args)

-- Normalizing an expression twice is normalizing it once.
pub normalize_expr_idem : (e : Expr) → normalize_expr (normalize_expr e) ≡ normalize_expr e
normalize_expr_idem e = IsNormal-expr e
