-- ===== src/Common/Masks.antt =====
-- The masks `& 0x7f` and `| 0x80` as arithmetic.
use xmrpool.Common.Tests.{◌==◌, ==_iff}
use Prim.Native.Nat.{
  ℕ, zero, suc, ◌+◌, ◌*◌, ◌/◌, ◌%◌, ◌≤◌, ◌<◌, min, bit_and, bit_or, digits, bit_and-bitwise,
}
use mathlib.Core.Path.{◌≡◌, refl}
use mathlib.Core.Bool.{Bool, true, ◌&&◌}
use native.Mathlib.Omega.{arith}

-- k ones, and the lowest k digits of a number.
ones : ℕ → ℕ
ones zero = 0
ones (suc k) = 2 * ones k + 1

low_digits : ℕ → ℕ → ℕ
low_digits zero a = 0
low_digits (suc k) a = low_digits k (a / 2) * 2 + a % 2

low_digits-zero : (k : ℕ) → low_digits k 0 ≡ 0
unfolding low_digits
low_digits-zero zero = refl
low_digits-zero (suc k) = omega (arith, low_digits-zero k)

digits-ones : (k n a : ℕ) → a ≤ n → digits (λ b. zero) min n a (ones k) ≡ low_digits k a
unfolding ones low_digits
digits-ones k zero zero h = omega (arith, low_digits-zero k)
digits-ones k zero (suc a) h = absurd (omega arith)
digits-ones k (suc n) zero h = omega (arith, low_digits-zero k)
digits-ones zero (suc n) (suc a) h = omega (arith, digits-ones zero n (suc a / 2) (omega arith))
digits-ones (suc k) (suc n) (suc a) h =
    let half : (2 * ones k + 1) / 2 ≡ ones k = omega arith in
    rw half (omega (arith, digits-ones k n (suc a / 2) (omega arith)))

-- On every number, `v & 0x7f` is the remainder by 128.
pub low_seven : (v : ℕ) → bit_and v 0x7f ≡ v % 128
unfolding ones low_digits
low_seven v = omega (arith, bit_and-bitwise v 0x7f, digits-ones 7 v v (omega arith))

holds_below : ℕ → (ℕ → Bool) → Bool
holds_below zero p = true
holds_below (suc n) p = p n && holds_below n p

holds_below_at : (n : ℕ) (p : ℕ → Bool) (x : ℕ) → holds_below n p ≡ true → x < n → p x ≡ true
unfolding holds_below
holds_below_at zero p x h lt = absurd (omega arith)
holds_below_at (suc n) p x h lt = ground (arith, holds_below_at n p x)

-- Setting the top bit of a group of seven.
pub set_top : (g : ℕ) → g < 128 → bit_or g 0x80 ≡ g + 128
unfolding holds_below
set_top g h = (==_iff _ _).0 (holds_below_at 128 (λ x. bit_or x 0x80 == x + 128) g refl h)
