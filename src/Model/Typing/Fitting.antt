-- ===== src/Model/Typing/Fitting.antt =====
-- Together, the two switches on `e.Op` accept the operands that fit the operator.
use clanker_foundry.Prelude.{◌≡◌, inl, inr, refl, sym, subst, List, arith, length, ok}
use clanker_foundry.Text.{Str, str_eq}
use clanker_foundry.Model.{Exprs, arity, Typ}
use clanker_foundry.Model.Typing.{
  check_arity, check_op, check_comparison, check_nonempty, check_absent,
}
use clanker_foundry.Model.Typing.Operators.{
  Operator, two, filled, missing, many, comparison_fits, nonempty_fits, absent_fits,
}
use clanker_foundry.Model.Typing.Connectives.{check_operands_iff}
use clanker_foundry.Model.Typing.Rules.{Fits, comparison, nonempty, absent, connective}

pub operator_fits :
    (op : Str) (args : Exprs) (types : List Typ)
    → Operator op (arity args)
    → length types ≡ arity args
    → check_op op args types ≡ ok tt
    → Fits op args types
unfolding check_op str_eq
operator_fits op args types (two (inl e) n) l h =
    comparison_fits op args types (inl e) n l (rw e at h)
operator_fits op args types (two (inr e) n) l h =
    comparison_fits op args types (inr e) n l (rw e at h)
operator_fits op args types (filled e n) l h =
    subst (λ o. Fits o args types) (sym e) (nonempty_fits args types n l (rw e at h))
operator_fits op args types (missing e n) l h =
    subst (λ o. Fits o args types) (sym e) (absent_fits args types n l (rw e at h))
operator_fits op args types (many (inl e) lo hi) l h =
    let (b, d) = (check_operands_iff args types l).0 (rw e at h) in
    connective op args types (inl e) lo hi b d
operator_fits op args types (many (inr e) lo hi) l h =
    let (b, d) = (check_operands_iff args types l).0 (rw e at h) in
    connective op args types (inr e) lo hi b d

pub fits_accepted :
    (op : Str) (args : Exprs) (types : List Typ)
    → length types ≡ arity args
    → Fits op args types
    → (check_arity op (arity args) ≡ ok tt) × (check_op op args types ≡ ok tt)
unfolding check_arity check_op str_eq check_comparison check_nonempty check_absent
fits_accepted _ _ _ l (comparison op a b t (inl e) (inl s)) = rw (e, s) (refl, refl)
fits_accepted _ _ _ l (comparison op a b t (inr e) (inl s)) = rw (e, s) (refl, refl)
fits_accepted _ _ _ l (comparison op a b t (inl e) (inr s)) = rw (e, s) (refl, refl)
fits_accepted _ _ _ l (comparison op a b t (inr e) (inr s)) = rw (e, s) (refl, refl)
fits_accepted _ _ _ l (nonempty a t (inl s)) = rw s (refl, refl)
fits_accepted _ _ _ l (nonempty a t (inr s)) = rw s (refl, refl)
fits_accepted _ _ _ l (absent path value op args r t e o) = (refl, rw (check_absent, e, o) refl)
fits_accepted _ _ _ l (connective op args types (inl e) lo hi b d) =
    rw e (ground arith, (check_operands_iff args types l).1 (b, d))
fits_accepted _ _ _ l (connective op args types (inr e) lo hi b d) =
    rw e (ground arith, (check_operands_iff args types l).1 (b, d))
