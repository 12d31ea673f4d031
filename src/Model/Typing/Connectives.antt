-- ===== src/Model/Typing/Connectives.antt =====
-- The loop over the operands of `all` and `any`: its keys tell expressions apart.
use mathlib.Core.List.Memᴰ
use clanker_foundry.Prelude.{
  ◌≡◌, ◌≢◌, ◌↔◌, inl, inr, refl, sym, ap, true, false, not, List, [], ◌∷◌, All, Memᴰ, arith, length,
  Bool-cases, ok, check-ok,
}
use clanker_foundry.Text.{Str, contains}
use clanker_foundry.Text.Laws.{contains_iff}
use clanker_foundry.Distinct.{Distinct}
use clanker_foundry.Model.{Expr, Exprs, nil, cons, arity, Typ, bool}
use clanker_foundry.Model.Key.{expr_key}
use clanker_foundry.Model.Key.Injective.{expr_key_iff}
use clanker_foundry.Model.Typing.{typ_eq, check_operands}
use clanker_foundry.Model.Typing.Operators.{typ_eq_iff}
use clanker_foundry.Model.Typing.Rules.{operands}

-- No expression of the list has a key in `seen`.
abbrev Unseen : List Str → List Expr → Type 0
Unseen seen = All (λ a. ¬ Memᴰ (expr_key a) seen)

Unseen-cons :
    (a : Expr) (seen : List Str) (es : List Expr)
    → All (λ b. a ≢ b) es
    → Unseen seen es
    → Unseen (expr_key a ∷ seen) es
Unseen-cons a seen [] h k = tt
Unseen-cons a seen (e ∷ es) h k = (
  λ m. elim (Memᴰ.cases_cons m) [
    | inl same ↦ h.0 ((expr_key_iff a e).0 (sym same))
    | inr m' ↦ k.0 m'
  ],
  Unseen-cons a seen es h.1 k.1,
)

Unseen-split :
    (a : Expr) (seen : List Str) (es : List Expr)
    → Unseen (expr_key a ∷ seen) es
    → All (λ b. a ≢ b) es × Unseen seen es
Unseen-split a seen [] h = (tt, tt)
Unseen-split a seen (e ∷ es) h =
    let (l, r) = Unseen-split a seen es h.1 in
    (((λ same. h.0 (Memᴰ.head (ap expr_key (sym same)))), l), ((λ m. h.0 (Memᴰ.tail m)), r))

abbrev AllBool : List Typ → Type 0
AllBool = All (λ t. t ≡ bool)

operands_taken :
    (args : Exprs) (types : List Typ) (seen : List Str)
    → length types ≡ arity args
    → check_operands args types seen ≡ ok tt
    → AllBool types × Distinct (operands args) × Unseen seen (operands args)
unfolding check_operands
operands_taken nil [] seen l h = (tt, tt, tt)
operands_taken nil (t ∷ types) seen l h = absurd (ground arith)
operands_taken (cons a args) [] seen l h = absurd (ground arith)
operands_taken (cons a args) (t ∷ types) seen l h =
    let (b, h₁) = check-ok (typ_eq t bool) _ _ h in
    let (n, h₂) = check-ok (not (contains seen (expr_key a))) _ _ h₁ in
    let (bools, distinct, unseen) =
      operands_taken args types (expr_key a ∷ seen) (omega (arith, l)) h₂ in
    let (others, unseen') = Unseen-split a seen (operands args) unseen in
    (
      ((typ_eq_iff t bool).0 b, bools),
      (others, distinct),
      ((λ m. ground (arith, (contains_iff seen (expr_key a)).1 m)), unseen'),
    )

operands_accepted :
    (args : Exprs) (types : List Typ) (seen : List Str)
    → AllBool types
    → Distinct (operands args)
    → Unseen seen (operands args)
    → check_operands args types seen ≡ ok tt
unfolding check_operands
operands_accepted nil types seen b d u = refl
operands_accepted (cons a args) [] seen b d u = refl
operands_accepted (cons a args) (t ∷ types) seen b d u =
    let rest =
      operands_accepted args types (expr_key a ∷ seen) b.1 d.1
        (Unseen-cons a seen (operands args) d.0 u.1) in
    let is_bool : typ_eq t bool ≡ true = (typ_eq_iff t bool).1 b.0 in
    let fresh : contains seen (expr_key a) ≡ false =
      elim (Bool-cases (contains seen (expr_key a))) [
        | inl e ↦ absurd (u.0 ((contains_iff seen (expr_key a)).0 e))
        | inr e ↦ e
      ] in
    rw (is_bool, fresh) rest

Unseen-nil : (es : List Expr) → Unseen [] es
Unseen-nil [] = tt
Unseen-nil (e ∷ es) = ((λ m. Memᴰ.not-nil m), Unseen-nil es)

-- From the start, the loop accepts lists of different operands of type `bool`.
pub check_operands_iff :
    (args : Exprs) (types : List Typ)
    → length types ≡ arity args
    → (check_operands args types [] ≡ ok tt) ↔ (AllBool types × Distinct (operands args))
check_operands_iff args types l = (
  λ h. let (b, d, u) = operands_taken args types [] l h in (b, d),
  λ h. operands_accepted args types [] h.0 h.1 (Unseen-nil (operands args)),
)
