-- ===== src/Text/Decimals.antt =====
-- `strconv.Itoa` on natural numbers: how long its text is.
use clanker_foundry.Prelude.{
  ℕ, zero, suc, ◌+◌, ◌%◌, ◌/◌, ◌≤◌, [], ◌∷◌, arith, ltb, Bool-cases, inl, inr, length,
  length-append,
}
use clanker_foundry.Text.{decimal, decimal_from}

length-decimal_from : (fuel n : ℕ) → length (decimal_from fuel n) ≤ fuel
unfolding decimal_from
length-decimal_from zero n = omega arith
length-decimal_from (suc fuel) n = elim (Bool-cases (ltb n 10)) [
  | inl one ↦ rw one (omega arith)
  | inr more ↦ rw more (
      omega (
        arith,
        length-append (decimal_from fuel (n / 10)) ((b'0' + n % 10) ∷ []),
        length-decimal_from fuel (n / 10),
      ))
]

pub length-decimal : (n : ℕ) → length (decimal n) ≤ n + 1
unfolding decimal
length-decimal n = omega (arith, length-decimal_from (suc n) n)
