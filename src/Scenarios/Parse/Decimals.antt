-- ===== src/Scenarios/Parse/Decimals.antt =====
-- A number below 2 ^ 64 is read back from its decimal text.
use clanker_foundry.Prelude.{
  ℕ, zero, suc, ◌+◌, ◌-◌, ◌*◌, ◌/◌, ◌%◌, ◌^◌, ◌≤◌, ◌<◌, ◌≡◌, refl, Bool, true, false, not, [], ◌∷◌,
  ◌++◌, leb, ltb, ◌==◌, length, length-append, all_of, arith, Bool-cases, inl, inr, ok,
}
use clanker_foundry.Text.{Str, decimal, decimal_from}
use clanker_foundry.Scenarios.Parse.{
  is_decimal_digit, leading_zero, digits_value, parse_uint, parse_decimal,
}

digits_value-append :
    (acc : ℕ) (xs : Str) (c : ℕ)
    → digits_value acc (xs ++ c ∷ []) ≡ 10 * digits_value acc xs + (c - b'0')
unfolding digits_value
digits_value-append acc [] c = refl
digits_value-append acc (x ∷ xs) c = digits_value-append (10 * acc + (x - b'0')) xs c

one_digit : (fuel n : ℕ) → ltb n 10 ≡ true → decimal_from (suc fuel) n ≡ (b'0' + n) ∷ []
unfolding decimal_from
one_digit fuel n h = rw h refl

more_digits :
    (fuel n : ℕ)
    → ltb n 10 ≡ false
    → decimal_from (suc fuel) n ≡ decimal_from fuel (n / 10) ++ (b'0' + n % 10) ∷ []
unfolding decimal_from
more_digits fuel n h = rw h refl

digit_value : (n : ℕ) → digits_value 0 ((b'0' + n) ∷ []) ≡ n
unfolding digits_value
digit_value n = omega arith

pub decimal_value : (fuel n : ℕ) → n < fuel → digits_value 0 (decimal_from fuel n) ≡ n
decimal_value zero n h = elim h [ ]
decimal_value (suc fuel) n h = elim (Bool-cases (ltb n 10)) [
  | inl one ↦ rw (one_digit fuel n one) (digit_value n)
  | inr more ↦
      let before : digits_value 0 (decimal_from fuel (n / 10)) ≡ n / 10 =
        decimal_value fuel (n / 10) (ground arith) in
      rw
        (
          more_digits fuel n more,
          digits_value-append 0 (decimal_from fuel (n / 10)) (b'0' + n % 10),
          before,
        )
        (omega arith)
]

digits-append :
    (xs : Str) (c : ℕ)
    → all_of is_decimal_digit xs ≡ true
    → is_decimal_digit c ≡ true
    → all_of is_decimal_digit (xs ++ c ∷ []) ≡ true
unfolding all_of
digits-append [] c h k = rw k refl
digits-append (x ∷ xs) c h k = ground (arith, digits-append xs c)

is_digit_of : (n : ℕ) → n < 10 → is_decimal_digit (b'0' + n) ≡ true
unfolding is_decimal_digit
is_digit_of n h = ground arith

pub decimal_digits : (fuel n : ℕ) → all_of is_decimal_digit (decimal_from fuel n) ≡ true
unfolding all_of decimal_from
decimal_digits zero n = refl
decimal_digits (suc fuel) n = elim (Bool-cases (ltb n 10)) [
  | inl one ↦ rw (one, is_digit_of n (ground arith)) refl
  | inr more ↦ rw more (
      digits-append (decimal_from fuel (n / 10)) (b'0' + n % 10) (decimal_digits fuel (n / 10))
        (is_digit_of (n % 10) (omega arith)))
]

-- 10 ^ k
abbrev power : ℕ → ℕ
power zero = 1
power (suc k) = 10 * power k

length-decimal_from_within :
    (fuel n k : ℕ) → n < power (suc k) → length (decimal_from fuel n) ≤ suc k
unfolding decimal_from
length-decimal_from_within zero n k h = omega arith
length-decimal_from_within (suc fuel) n zero h =
    let one : ltb n 10 ≡ true = ground arith in rw one (omega arith)
length-decimal_from_within (suc fuel) n (suc k) h = elim (Bool-cases (ltb n 10)) [
  | inl one ↦ rw one (omega arith)
  | inr more ↦ rw more (
      omega (
        arith,
        length-append (decimal_from fuel (n / 10)) ((b'0' + n % 10) ∷ []),
        length-decimal_from_within fuel (n / 10) k (omega arith),
      ))
]

-- The first digit is not 0.
starts_high : Str → Bool
starts_high [] = false
starts_high (c ∷ s) = not (c == b'0')

starts_high-append : (xs ys : Str) → starts_high xs ≡ true → starts_high (xs ++ ys) ≡ true
unfolding starts_high
starts_high-append [] ys h = cc h
starts_high-append (x ∷ xs) ys h = h

decimal_starts : (fuel n : ℕ) → n < fuel → 1 ≤ n → starts_high (decimal_from fuel n) ≡ true
unfolding starts_high
decimal_starts zero n h k = elim h [ ]
decimal_starts (suc fuel) n h k = elim (Bool-cases (ltb n 10)) [
  | inl one ↦ rw (one_digit fuel n one) (ground arith)
  | inr more ↦ rw (more_digits fuel n more) (
      starts_high-append (decimal_from fuel (n / 10)) _
        (decimal_starts fuel (n / 10) (ground arith) (ground arith)))
]

not_leading : (s : Str) → starts_high s ≡ true → leading_zero s ≡ false
unfolding starts_high leading_zero
not_leading [] h = refl
not_leading (c ∷ []) h = refl
not_leading (c ∷ d ∷ s) h = ground arith

no_leading_zero : (n : ℕ) → leading_zero (decimal n) ≡ false
unfolding decimal leading_zero
no_leading_zero zero = refl
no_leading_zero (suc n) =
    not_leading (decimal_from (suc (suc n)) (suc n))
      (decimal_starts (suc (suc n)) (suc n) (omega arith) (omega arith))

all_digits : (n : ℕ) → all_of is_decimal_digit (decimal n) ≡ true
unfolding decimal
all_digits n = decimal_digits (suc n) n

value_of_decimal : (n : ℕ) → digits_value 0 (decimal n) ≡ n
unfolding decimal
value_of_decimal n = decimal_value (suc n) n (omega arith)

some_digits : (n : ℕ) → 1 ≤ length (decimal n)
unfolding decimal
some_digits n = elim (Bool-cases (ltb n 10)) [
  | inl one ↦ rw (one_digit n n one) (omega arith)
  | inr more ↦
      rw (more_digits n n more)
        (omega (arith, length-append (decimal_from n (n / 10)) ((b'0' + n % 10) ∷ [])))
]

few_digits : (n : ℕ) → n < 2 ^ 64 → length (decimal n) ≤ 20
unfolding decimal
few_digits n h = length-decimal_from_within (suc n) n 19 (omega arith)

pub parse_decimal_lem : (n : ℕ) → n < 2 ^ 64 → parse_decimal (decimal n) ≡ ok n
unfolding parse_decimal parse_uint
parse_decimal_lem n h =
    let first : leb 1 (length (decimal n)) ≡ true = ground (arith, some_digits n) in
    let last : leb (length (decimal n)) 20 ≡ true = ground (arith, few_digits n h) in
    let small : ltb n (2 ^ 64) ≡ true = ground arith in
    rw (first, last, no_leading_zero n, all_digits n, value_of_decimal n, small) refl
