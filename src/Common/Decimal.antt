-- ===== src/Common/Decimal.antt =====
-- `strconv.FormatUint(v, 10)`: at most 20 digits.
use Prim.Native.Nat.{ℕ, zero, suc, ◌+◌, ◌-◌, ◌*◌, ◌/◌, ◌%◌, ◌^◌, ◌<◌}
use mathlib.Core.Path.{◌≡◌, ap, ◌∙◌, sym}
use mathlib.Core.List.{[], ◌∷◌}
use native.Mathlib.Omega.{arith}
use xmrpool.Common.Tests.{ltb, if◌then◌else◌}
use xmrpool.Common.Texts.{Bytes}
use xmrpool.Common.Words.{IsU64}

-- The digits of v in front of `tail`, for v below 10 ^ fuel.
unfoldable pub digits_before : ℕ → ℕ → Bytes → Bytes
digits_before zero v tail = tail
digits_before (suc fuel) v tail =
    let more = digits_before fuel (v / 10) ((b'0' + v % 10) ∷ tail) in
    if ltb v 10 then (b'0' + v) ∷ tail else more

unfoldable pub format_uint : ℕ → Bytes
unfolding digits_before
format_uint v = digits_before 20 v []

read_digits : ℕ → Bytes → ℕ
read_digits acc [] = acc
read_digits acc (c ∷ cs) = read_digits (acc * 10 + (c - b'0')) cs

read_digits-digits_before :
    (fuel v : ℕ) (tail : Bytes)
    → v < 10 ^ fuel
    → 0 < fuel
    → read_digits 0 (digits_before fuel v tail) ≡ read_digits v tail
unfolding digits_before read_digits
read_digits-digits_before zero v tail h pos = absurd (omega arith)
read_digits-digits_before (suc zero) v tail h pos = ground arith
read_digits-digits_before (suc (suc fuel)) v tail h pos = ground (
  arith,
  read_digits-digits_before (suc fuel) (v / 10) ((b'0' + v % 10) ∷ tail) (omega arith)
      (omega arith),
)

-- Two uint64 with the same digits are equal.
pub format_uint-injective : (v w : ℕ) → IsU64 v → IsU64 w → format_uint v ≡ format_uint w → v ≡ w
unfolding format_uint read_digits
format_uint-injective v w hv hw e =
    sym (read_digits-digits_before 20 v [] (omega arith) (omega arith))
    ∙ ap (read_digits 0) e
    ∙ read_digits-digits_before 20 w [] (omega arith) (omega arith)
