-- ===== src/Common/Numbers.antt =====
-- `strconv.FormatInt` and `ParseInt` at base 10 and 64 bits, and the decimal text of a `big.Int`.
use xmrpool.Common.Tests.{ltb, leb, ◌==◌, if◌then◌else◌, Bool-cases, lt→ltb}
use xmrpool.Common.Ints.{ℤ, pos, negsuc, sub_ℕ}
use xmrpool.Common.Words.{IsI64, IsU64}
use xmrpool.Common.Texts.{Bytes}
use xmrpool.Common.Decimal.{digits_before, format_uint}
use xmrpool.Common.Strings.{IsPart}
use Prim.Native.Nat.{ℕ, zero, suc, ◌+◌, ◌-◌, ◌*◌, ◌/◌, ◌%◌, ◌^◌, ◌<◌}
use mathlib.Core.Path.{◌≡◌, refl}
use mathlib.Core.Logic.{inl, inr}
use mathlib.Core.Bool.{Bool, true, false, ◌&&◌, not}
use mathlib.Core.Option.{Option, none, some}
use mathlib.Core.List.{[], ◌∷◌}
use native.Mathlib.Omega.{arith}

unfoldable pub format_int : ℤ → Bytes
format_int (pos n) = format_uint n
format_int (negsuc n) = b'-' ∷ format_uint (suc n)

-- `big.Int.String`; n + 1 digits are enough for n.
unfoldable pub format_big : ℤ → Bytes
unfolding digits_before
format_big (pos n) = digits_before (suc n) n []
format_big (negsuc n) = b'-' ∷ digits_before (suc (suc n)) (suc n) []

abbrev pub is_digit : ℕ → Bool
is_digit c = leb b'0' c && leb c b'9'

-- The loop of ParseUint up to `top`: `none` is a syntax error, and a number that is too large ends it
-- with `top`.
unfoldable pub scan : ℕ → Bytes → ℕ → Option ℕ
scan top [] n = some n
scan top (c ∷ s) n =
    let n' = n * 10 + (c - b'0') in
    let rest = scan top s n' in
    if not (is_digit c) then none else if ltb top n' then some top else rest

abbrev pub parse_uint : Bytes → Option ℕ
parse_uint [] = none
parse_uint (c ∷ s) = scan (2 ^ 64 - 1) (c ∷ s) 0

-- The number, and whether there was no error; without a syntax error the number is clamped.
abbrev pub clamp_pos : Option ℕ → ℤ × Bool
clamp_pos none = (pos 0, false)
clamp_pos (some n) = if ltb n (2 ^ 63) then (pos n, true) else (pos (2 ^ 63 - 1), false)

abbrev pub clamp_neg : Option ℕ → ℤ × Bool
clamp_neg none = (pos 0, false)
clamp_neg (some n) = if leb n (2 ^ 63) then (sub_ℕ 0 n, true) else (negsuc (2 ^ 63 - 1), false)

unfoldable pub parse_int : Bytes → ℤ × Bool
unfolding scan
parse_int [] = (pos 0, false)
parse_int (c ∷ s) =
    if c == b'-'
    then clamp_neg (parse_uint s)
    else if c == b'+'
    then clamp_pos (parse_uint s)
    else clamp_pos (parse_uint (c ∷ s))

-- `big.Int.SetString(s, 10)`: digits behind an optional sign, with no bound.
unfoldable pub scan_all : Bytes → ℕ → Option ℕ
scan_all [] n = some n
scan_all (c ∷ s) n =
    let rest = scan_all s (n * 10 + (c - b'0')) in if is_digit c then rest else none

abbrev pub digits_of : Bytes → Option ℕ
digits_of [] = none
digits_of (c ∷ s) = scan_all (c ∷ s) 0

abbrev pub signed : Bool → Option ℕ → Option ℤ
signed negative none = none
signed negative (some n) = some (if negative then sub_ℕ 0 n else pos n)

unfoldable pub set_string : Bytes → Option ℤ
unfolding scan_all
set_string [] = none
set_string (c ∷ s) =
    if c == b'-'
    then signed true (digits_of s)
    else if c == b'+'
    then signed false (digits_of s)
    else signed false (digits_of (c ∷ s))

-- Scanning printed digits goes on with the number read so far.
scan-digits_before :
    (fuel v : ℕ) (tail : Bytes)
    → v < 10 ^ fuel
    → 0 < fuel
    → IsU64 v
    → scan (2 ^ 64 - 1) (digits_before fuel v tail) 0 ≡ scan (2 ^ 64 - 1) tail v
unfolding digits_before scan
scan-digits_before zero v tail h some_fuel small = absurd (omega arith)
scan-digits_before (suc zero) v tail h some_fuel small = ground arith
scan-digits_before (suc (suc fuel)) v tail h some_fuel small = ground (
  arith,
  scan-digits_before (suc fuel) (v / 10) ((b'0' + v % 10) ∷ tail) (omega arith) (omega arith)
      (omega arith),
)

scan_all-digits_before :
    (fuel v : ℕ) (tail : Bytes)
    → v < 10 ^ fuel
    → 0 < fuel
    → scan_all (digits_before fuel v tail) 0 ≡ scan_all tail v
unfolding digits_before scan_all
scan_all-digits_before zero v tail h some_fuel = absurd (omega arith)
scan_all-digits_before (suc zero) v tail h some_fuel = ground arith
scan_all-digits_before (suc (suc fuel)) v tail h some_fuel = ground (
  arith,
  scan_all-digits_before (suc fuel) (v / 10) ((b'0' + v % 10) ∷ tail) (omega arith) (omega arith),
)

-- A printed number starts with a digit.
digits_before-head :
    (fuel v : ℕ) (tail : Bytes)
    → v < 10 ^ fuel
    → 0 < fuel
    → (c : ℕ) × (s : Bytes) × (is_digit c ≡ true) × (digits_before fuel v tail ≡ c ∷ s)
unfolding digits_before
digits_before-head zero v tail h some_fuel = absurd (omega arith)
digits_before-head (suc fuel) v tail h some_fuel = elim (Bool-cases (ltb v 10)) [
  | inl small ↦ (b'0' + v, tail, ground arith, rw small refl)
  | inr big ↦
      let (c, s, digit, e) =
        digits_before-head fuel (v / 10) ((b'0' + v % 10) ∷ tail) (ground arith) (ground arith) in
      (c, s, digit, rw big e)
]

digits_before-IsPart :
    (fuel v : ℕ) (tail : Bytes) → v < 10 ^ fuel → IsPart tail → IsPart (digits_before fuel v tail)
unfolding digits_before
digits_before-IsPart zero v tail h part = part
digits_before-IsPart (suc fuel) v tail h part = elim (Bool-cases (ltb v 10)) [
  | inl small ↦ rw small (ground arith, part)
  | inr big ↦ rw big (
      digits_before-IsPart fuel (v / 10) ((b'0' + v % 10) ∷ tail) (ground arith)
        (ground arith, part))
]

parse_int-digits :
    (s : Bytes) (c : ℕ) (t : Bytes)
    → is_digit c ≡ true
    → s ≡ c ∷ t
    → parse_int s ≡ clamp_pos (scan (2 ^ 64 - 1) s 0)
unfolding parse_int scan
parse_int-digits s c t digit e = rw e (ground arith)

parse_int-format_uint : (n : ℕ) → n < 2 ^ 63 → parse_int (format_uint n) ≡ (pos n, true)
unfolding format_uint scan
parse_int-format_uint n h =
    let (c, s, digit, e) = digits_before-head 20 n [] (omega arith) (omega arith) in
    rw
      (
        parse_int-digits _ c s digit e,
        scan-digits_before 20 n [] (omega arith) (omega arith) (omega arith),
        lt→ltb n (2 ^ 63) h,
      )
      refl

parse_uint-head : (s : Bytes) (c : ℕ) (t : Bytes) → s ≡ c ∷ t → parse_uint s ≡ scan (2 ^ 64 - 1) s 0
parse_uint-head s c t e = rw e refl

parse_uint-format_uint : (n : ℕ) → IsU64 n → parse_uint (format_uint n) ≡ some n
unfolding format_uint scan
parse_uint-format_uint n h =
    let (c, s, digit, e) = digits_before-head 20 n [] (omega arith) (omega arith) in
    rw
      (
        parse_uint-head _ c s e,
        scan-digits_before 20 n [] (omega arith) (omega arith) (omega arith),
      )
      refl

pub parse_int-format_int : (x : ℤ) → IsI64 x → parse_int (format_int x) ≡ (x, true)
unfolding format_int
parse_int-format_int (pos n) h = parse_int-format_uint n (omega arith)
parse_int-format_int (negsuc n) h =
    let small : leb (suc n) (2 ^ 63) ≡ true = ground arith in
    let parsed : parse_int (b'-' ∷ format_uint (suc n))
        ≡ clamp_neg (parse_uint (format_uint (suc n))) =
      unfold parse_int in refl in
    rw (parsed, parse_uint-format_uint (suc n) (omega arith), small) (ground arith)

lt_power : (n : ℕ) → n < 10 ^ suc n
lt_power zero = omega arith
lt_power (suc n) = omega (arith, lt_power n)

set_string-digits :
    (s : Bytes) (c : ℕ) (t : Bytes)
    → is_digit c ≡ true
    → s ≡ c ∷ t
    → set_string s ≡ signed false (scan_all s 0)
unfolding set_string scan_all
set_string-digits s c t digit e = rw e (ground arith)

digits_of-head : (s : Bytes) (c : ℕ) (t : Bytes) → s ≡ c ∷ t → digits_of s ≡ scan_all s 0
digits_of-head s c t e = rw e refl

pub set_string-format_big : (x : ℤ) → set_string (format_big x) ≡ some x
unfolding format_big scan_all
set_string-format_big (pos n) =
    let (c, s, digit, e) = digits_before-head (suc n) n [] (lt_power n) (omega arith) in
    rw
      (
        set_string-digits _ c s digit e,
        scan_all-digits_before (suc n) n [] (lt_power n) (omega arith),
      )
      refl
set_string-format_big (negsuc n) =
    let (c, s, digit, e) =
      digits_before-head (suc (suc n)) (suc n) [] (lt_power (suc n)) (omega arith) in
    let step : set_string (b'-' ∷ digits_before (suc (suc n)) (suc n) [])
        ≡ signed true (digits_of (digits_before (suc (suc n)) (suc n) [])) =
      unfold set_string in refl in
    rw
      (
        step,
        digits_of-head _ c s e,
        scan_all-digits_before (suc (suc n)) (suc n) [] (lt_power (suc n)) (omega arith),
      )
      (ground arith)

pub format_uint-IsPart : (n : ℕ) → IsU64 n → IsPart (format_uint n)
unfolding format_uint
format_uint-IsPart n h = digits_before-IsPart 20 n [] (omega arith) _

pub format_int-IsPart : (x : ℤ) → IsI64 x → IsPart (format_int x)
unfolding format_int
format_int-IsPart (pos n) h = format_uint-IsPart n (omega arith)
format_int-IsPart (negsuc n) h = (refl, format_uint-IsPart (suc n) (omega arith))

pub format_big-IsPart : (x : ℤ) → IsPart (format_big x)
unfolding format_big
format_big-IsPart (pos n) = digits_before-IsPart (suc n) n [] (lt_power n) _
format_big-IsPart (negsuc n) =
    (refl, digits_before-IsPart (suc (suc n)) (suc n) [] (lt_power (suc n)) _)

pub parse_int-digits_before :
    (n : ℕ) → n < 2 ^ 63 → parse_int (digits_before (suc n) n []) ≡ (pos n, true)
unfolding scan
parse_int-digits_before n h =
    let (c, s, digit, e) = digits_before-head (suc n) n [] (lt_power n) (omega arith) in
    rw
      (
        parse_int-digits _ c s digit e,
        scan-digits_before (suc n) n [] (lt_power n) (omega arith) (omega arith),
        lt→ltb n (2 ^ 63) h,
      )
      refl
