-- ===== src/Payouts/Fractions.antt =====
-- What payouts/unlocker.go uses of `big.Rat`: a fraction with a denominator that is not 0, which the
-- library keeps in lowest terms and this model does not.
use xmrpool.Common.{ℕ, zero, suc, ◌+◌, ◌*◌, ◌/◌, Option, none, some, [], ◌∷◌}
use xmrpool.Common.Ints.{ℤ, pos, negsuc, ◌+ℤ◌, ◌-ℤ◌, ◌*ℤ◌}
use xmrpool.Common.Texts.{Bytes}
use xmrpool.Common.Decimal.{digits_before}
use xmrpool.Common.Numbers.{parse_int}

pub record Rat : Type 0 where
  pub num : ℤ
  pub den : ℕ

abbrev pub set_int : ℤ → Rat
set_int n = record { num = n; den = 1 }

-- `big.NewRat`, `none` being its panic for a denominator of 0.
abbrev pub new_rat : ℤ → ℤ → Option Rat
new_rat n (pos zero) = none
new_rat n (pos (suc d)) = some record { num = n; den = suc d }
new_rat n (negsuc d) = some record { num = pos 0 -ℤ n; den = suc d }

abbrev pub rat_add : Rat → Rat → Rat
rat_add x y = record { num = x.num *ℤ pos y.den +ℤ y.num *ℤ pos x.den; den = x.den * y.den }

abbrev pub rat_sub : Rat → Rat → Rat
rat_sub x y = record { num = x.num *ℤ pos y.den -ℤ y.num *ℤ pos x.den; den = x.den * y.den }

abbrev pub rat_mul : Rat → Rat → Rat
rat_mul x y = record { num = x.num *ℤ y.num; den = x.den * y.den }

-- The nearest natural number, halves up; a denominator of 0 does not occur.
abbrev pub nearest : ℕ → ℕ → ℕ
nearest n zero = 0
nearest n (suc d) = (2 * n + suc d) / (2 * suc d)

-- `FloatString(0)`: the nearest whole number, halves away from 0, behind the sign of the fraction.
unfoldable pub float_string : Rat → Bytes
unfolding digits_before
float_string x = elim x.num [
  | pos n ↦ digits_before (suc (nearest n x.den)) (nearest n x.den) []
  | negsuc n ↦ b'-' ∷ digits_before (suc (nearest (suc n) x.den)) (nearest (suc n) x.den) []
]

-- `value, _ := strconv.ParseInt(x.FloatString(0), 10, 64)`
unfoldable pub whole : Rat → ℤ
unfolding float_string
whole x = (parse_int (float_string x)).0
