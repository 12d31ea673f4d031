-- ===== src/Model/Key/Injective.antt =====
-- The keys of expressions tell them apart, since every atom carries its length.
use clanker_foundry.Prelude.{
  ℕ, suc, ◌≡◌, ◌↔◌, refl, sym, ap, ap₂, ◌∙◌, true, [], ◌∷◌, ◌++◌, append_assoc, length,
  length-append, all_of, arith,
}
use clanker_foundry.Text.{Str, decimal}
use clanker_foundry.Model.{Expr, Exprs, expr, nil, cons}
use clanker_foundry.Model.Key.{atom, expr_key, args_key}
use clanker_foundry.Scenarios.Parse.{is_decimal_digit, digits_value}
use clanker_foundry.Scenarios.Parse.Decimals.{decimal_value, decimal_digits}

head_eq : {a b : ℕ} {s t : Str} → a ∷ s ≡ b ∷ t → (a ≡ b) × (s ≡ t)
head_eq h = ground (arith, h)

-- Two decimal texts in front of a colon end together.
digits_split :
    (xs ys p q : Str)
    → all_of is_decimal_digit xs ≡ true
    → all_of is_decimal_digit ys ≡ true
    → xs ++ b':' ∷ p ≡ ys ++ b':' ∷ q
    → (xs ≡ ys) × (p ≡ q)
unfolding all_of is_decimal_digit
digits_split [] [] p q h k e = (refl, (head_eq e).1)
digits_split [] (y ∷ ys) p q h k e = let (same, _) = head_eq e in absurd (ground arith)
digits_split (x ∷ xs) [] p q h k e = let (same, _) = head_eq e in absurd (ground arith)
digits_split (x ∷ xs) (y ∷ ys) p q h k e =
    let (same, rest) = head_eq e in
    let (l, r) = digits_split xs ys p q (ground arith) (ground arith) rest in (ap₂ ◌∷◌ same l, r)

-- Two texts of one length in front of others.
append_split : (s t p q : Str) → length s ≡ length t → s ++ p ≡ t ++ q → (s ≡ t) × (p ≡ q)
append_split [] [] p q h e = (refl, e)
append_split [] (b ∷ t) p q h e = absurd (ground arith)
append_split (a ∷ s) [] p q h e = absurd (ground arith)
append_split (a ∷ s) (b ∷ t) p q h e =
    let (same, rest) = head_eq e in
    let (l, r) = append_split s t p q (omega (arith, h)) rest in (ap₂ ◌∷◌ same l, r)

decimal-injective : (n m : ℕ) → decimal n ≡ decimal m → n ≡ m
unfolding decimal
decimal-injective n m h =
    sym (decimal_value (suc n) n (omega arith))
    ∙ (ap (digits_value 0) h ∙ decimal_value (suc m) m (omega arith))

atom_split : (s t p q : Str) → atom s ++ p ≡ atom t ++ q → (s ≡ t) × (p ≡ q)
unfolding atom decimal
atom_split s t p q e =
    let e' : decimal (length s) ++ b':' ∷ (s ++ p) ≡ decimal (length t) ++ b':' ∷ (t ++ q) =
      sym (append_assoc (decimal (length s)) (b':' ∷ s) p)
      ∙ (e ∙ append_assoc (decimal (length t)) (b':' ∷ t) q) in
    let (l, r) =
      digits_split (decimal (length s)) (decimal (length t)) (s ++ p) (t ++ q)
        (decimal_digits (suc (length s)) (length s)) (decimal_digits (suc (length t)) (length t))
        e' in
    append_split s t p q (decimal-injective (length s) (length t) l) r

atom-nonempty : (s p : Str) → ¬ (atom s ++ p ≡ [])
unfolding atom
atom-nonempty s p e =
    let long : length ((decimal (length s) ++ b':' ∷ s) ++ p) ≡ 0 = ap length e in
    absurd (
      omega (
        arith,
        long,
        length-append (decimal (length s) ++ b':' ∷ s) p,
        length-append (decimal (length s)) (b':' ∷ s),
      ))

mutual
  unfolding expr_key args_key

  expr_key-injective : (e f : Expr) → expr_key e ≡ expr_key f → e ≡ f
  expr_key-injective (expr kind ref value op args) (expr kind' ref' value' op' args') h =
      let (k, h₁) = atom_split kind kind' _ _ h in
      let (r, h₂) = atom_split ref ref' _ _ h₁ in
      let (v, h₃) = atom_split value value' _ _ h₂ in
      let (o, h₄) = atom_split op op' (args_key args) (args_key args') h₃ in
      let a = args_key-injective args args' h₄ in cc (k, r, v, o, a)

  args_key-injective : (xs ys : Exprs) → args_key xs ≡ args_key ys → xs ≡ ys
  args_key-injective nil nil h = refl
  args_key-injective nil (cons y ys) h = absurd (atom-nonempty (expr_key y) (args_key ys) (sym h))
  args_key-injective (cons x xs) nil h = absurd (atom-nonempty (expr_key x) (args_key xs) h)
  args_key-injective (cons x xs) (cons y ys) h =
      let (l, r) = atom_split (expr_key x) (expr_key y) (args_key xs) (args_key ys) h in
      ap₂ cons (expr_key-injective x y l) (args_key-injective xs ys r)

-- Two expressions have one key exactly if they are the same in kind, reference, value, operator
-- and, at every depth, operands.
pub expr_key_iff : (e f : Expr) → (expr_key e ≡ expr_key f) ↔ (e ≡ f)
expr_key_iff e f = (expr_key-injective e f, λ h. ap expr_key h)
