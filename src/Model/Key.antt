-- ===== src/Model/Key.antt =====
-- `ExprKey` of model/ir.go: a key of length-prefixed atoms.
pub mod Injective
use clanker_foundry.Prelude.{[], ◌∷◌, ◌++◌, length}
use clanker_foundry.Text.{Str, decimal}
use clanker_foundry.Model.{Expr, Exprs, expr, nil, cons}

-- `fmt.Sprintf("%d:%s", len(s), s)`.
unfoldable pub atom : Str → Str
unfolding decimal
atom s = decimal (length s) ++ (b':' ∷ s)

unfoldable mutual
  unfolding atom

  pub expr_key : Expr → Str
  expr_key (expr kind ref value op args) =
      atom kind ++ (atom ref ++ (atom value ++ (atom op ++ args_key args)))

  pub args_key : Exprs → Str
  args_key nil = []
  args_key (cons a args) = atom (expr_key a) ++ args_key args
