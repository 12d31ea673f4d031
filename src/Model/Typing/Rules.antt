-- ===== src/Model/Typing/Rules.antt =====
-- The types of expressions as rules, and their bounds, without the code's counter and chain of tests.
use clanker_foundry.Prelude.{ℕ, suc, ◌+◌, ◌≤◌, ◌≡◌, ◌⊎◌, true, false, some, List, [], ◌∷◌, All}
use clanker_foundry.Text.{Str, str}
use clanker_foundry.Distinct.{Distinct}
use clanker_foundry.Model.{
  Expr, Exprs, expr, nil, cons, arity, Typ, string, uint64, strings, bool, RefType, max_depth,
  find_reference, valid_text,
}

abbrev pub operands : Exprs → List Expr
operands nil = []
operands (cons a args) = a ∷ operands args

-- The operands and their types that an operator takes.
pub data Fits : Str → Exprs → List Typ → Type 0 where
  comparison :
      (op : Str) (a b : Expr) (t : Typ)
      → (op ≡ str "eq") ⊎ (op ≡ str "ne")
      → (t ≡ string) ⊎ (t ≡ uint64)
      → Fits op (cons a (cons b nil)) (t ∷ t ∷ [])
  nonempty :
      (a : Expr) (t : Typ)
      → (t ≡ string) ⊎ (t ≡ strings)
      → Fits (str "nonempty") (cons a nil) (t ∷ [])
  absent :
      (path value op : Str) (args : Exprs) (r : RefType) (t : Typ)
      → find_reference path ≡ some r
      → r.optional ≡ true
      → Fits (str "absent") (cons (expr (str "ref") path value op args) nil) (t ∷ [])
  connective :
      (op : Str) (args : Exprs) (types : List Typ)
      → (op ≡ str "all") ⊎ (op ≡ str "any")
      → 1 ≤ arity args
      → arity args ≤ 16
      → All (λ t. t ≡ bool) types
      → Distinct (operands args)
      → Fits op args types

mutual
  pub data HasType : Expr → Typ → Type 0 where
    reference :
        (path : Str) (r : RefType)
        → find_reference path ≡ some r
        → HasType (expr (str "ref") path [] [] nil) r.typ
    literal :
        (value : Str)
        → valid_text value 4096 false ≡ true
        → HasType (expr (str "string") [] value [] nil) string
    operation :
        (op : Str) (args : Exprs) (types : List Typ)
        → HaveTypes args types
        → Fits op args types
        → HasType (expr (str "op") [] [] op args) bool

  pub data HaveTypes : Exprs → List Typ → Type 0 where
    none_typed : HaveTypes nil []
    one_typed :
        (a : Expr) (t : Typ) (args : Exprs) (types : List Typ)
        → HasType a t
        → HaveTypes args types
        → HaveTypes (cons a args) (t ∷ types)

unfoldable mutual
  pub node_count : Expr → ℕ
  node_count (expr kind ref value op args) = suc (node_counts args)

  pub node_counts : Exprs → ℕ
  node_counts nil = 0
  node_counts (cons a args) = node_count a + node_counts args

-- Every expression within one at depth `d` is at most `max_depth` deep.
unfoldable mutual
  pub IsShallow : Expr → ℕ → Type 0
  IsShallow (expr kind ref value op args) d = (d ≤ max_depth) × AreShallow args (d + 1)

  pub AreShallow : Exprs → ℕ → Type 0
  AreShallow nil d = Unit
  AreShallow (cons a args) d = IsShallow a d × AreShallow args d
