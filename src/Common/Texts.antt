-- ===== src/Common/Texts.antt =====
-- Go strings as lists of bytes: equality, `encoding/hex` and decimal printing.
use xmrpool.Common.Tests.{ltb, leb, ◌==◌, if◌then◌else◌}
use xmrpool.Common.Lists.{length, All}
use xmrpool.Common.Words.{IsByte}
use Prim.Native.Char.{code}
use Prim.Native.String.{String}
use Prim.Native.Nat.{ℕ, ◌+◌, ◌-◌, ◌*◌, ◌/◌, ◌%◌, ◌<◌}
use mathlib.Core.Path.{◌≡◌, refl, ap}
use mathlib.Core.Logic.{◌↔◌}
use mathlib.Core.Bool.{Bool, true, false, ◌&&◌, ◌||◌}
use mathlib.Core.Option.{Option, none, some}
use mathlib.Core.List.{List, [], ◌∷◌}
use native.Mathlib.Omega.{arith}

abbrev pub Bytes : Type 0
Bytes = List ℕ

-- The bytes of an ASCII literal.
abbrev pub codes : String → Bytes
codes String.[] = []
codes (String.◌∷◌ c s) = code c ∷ codes s

abbrev pub bytes_eq : Bytes → Bytes → Bool
bytes_eq [] [] = true
bytes_eq [] (y ∷ ys) = false
bytes_eq (x ∷ xs) [] = false
bytes_eq (x ∷ xs) (y ∷ ys) = x == y && bytes_eq xs ys

bytes_eq_sound : (xs ys : Bytes) → bytes_eq xs ys ≡ true → xs ≡ ys
bytes_eq_sound [] [] h = refl
bytes_eq_sound [] (y ∷ ys) h = cc
bytes_eq_sound (x ∷ xs) [] h = cc
bytes_eq_sound (x ∷ xs) (y ∷ ys) h = ground (arith, bytes_eq_sound xs ys)

pub bytes_eq_refl : (xs : Bytes) → bytes_eq xs xs ≡ true
bytes_eq_refl [] = refl
bytes_eq_refl (x ∷ xs) = ground (arith, bytes_eq_refl xs)

bytes_eq_of_eq : (xs ys : Bytes) → xs ≡ ys → bytes_eq xs ys ≡ true
bytes_eq_of_eq xs ys e = rw e (bytes_eq_refl ys)

pub bytes_eq_iff : (xs ys : Bytes) → (bytes_eq xs ys ≡ true) ↔ (xs ≡ ys)
bytes_eq_iff xs ys = (bytes_eq_sound xs ys, bytes_eq_of_eq xs ys)

-- `encoding/hex`: two lower-case digits a byte; decoding takes both cases.
abbrev pub hex_digit : ℕ → ℕ
hex_digit n = if ltb n 10 then b'0' + n else b'a' + (n - 10)

abbrev pub hex_value : ℕ → Option ℕ
hex_value c =
    if leb b'0' c && leb c b'9'
    then some (c - b'0')
    else if leb b'a' c && leb c b'f'
    then some (c - b'a' + 10)
    else if leb b'A' c && leb c b'F'
    then some (c - b'A' + 10)
    else none

unfoldable pub hex_encode : Bytes → Bytes
hex_encode [] = []
hex_encode (b ∷ bs) = hex_digit (b / 16) ∷ hex_digit (b % 16) ∷ hex_encode bs

abbrev pub hex_pair : Option ℕ → Option ℕ → Option Bytes → Option Bytes
hex_pair (some hi) (some lo) (some bs) = some ((hi * 16 + lo) ∷ bs)
hex_pair (some hi) (some lo) none = none
hex_pair (some hi) none _ = none
hex_pair none _ _ = none

-- `none` is the error of `hex.DecodeString`: an odd length or a foreign character.
unfoldable pub hex_decode : Bytes → Option Bytes
hex_decode [] = some []
hex_decode (c ∷ []) = none
hex_decode (c ∷ d ∷ s) = hex_pair (hex_value c) (hex_value d) (hex_decode s)

hex_value_digit : (n : ℕ) → n < 16 → hex_value (hex_digit n) ≡ some n
hex_value_digit n h = ground arith

pub hex_decode-encode : (bs : Bytes) → All IsByte bs → hex_decode (hex_encode bs) ≡ some bs
unfolding hex_encode hex_decode
hex_decode-encode [] h = refl
hex_decode-encode (b ∷ bs) (hb, h) =
    rw
      (
        hex_value_digit (b / 16) (omega arith),
        hex_value_digit (b % 16) (omega arith),
        hex_decode-encode bs h,
      )
      (ap some (ap (λ (x : ℕ). x ∷ bs) (omega arith)))

pub length-hex_encode : (bs : Bytes) → length (hex_encode bs) ≡ 2 * length bs
unfolding hex_encode
length-hex_encode [] = omega arith
length-hex_encode (b ∷ bs) = omega (arith, length-hex_encode bs)

abbrev pub prefix_pair : Option ℕ → Option ℕ → Bytes → Bytes
prefix_pair (some hi) (some lo) bs = (hi * 16 + lo) ∷ bs
prefix_pair (some hi) none bs = []
prefix_pair none _ bs = []

-- What `hex.DecodeString` returns when its error is ignored: the bytes before the first fault.
unfoldable pub hex_prefix : Bytes → Bytes
hex_prefix [] = []
hex_prefix (c ∷ []) = []
hex_prefix (c ∷ d ∷ s) = prefix_pair (hex_value c) (hex_value d) (hex_prefix s)

hex_prefix_step :
    (hi lo c d : ℕ) (s : Bytes)
    → hex_value c ≡ some hi
    → hex_value d ≡ some lo
    → hex_prefix (c ∷ d ∷ s) ≡ (hi * 16 + lo) ∷ hex_prefix s
unfolding hex_prefix
hex_prefix_step hi lo c d s ec ed = rw (ec, ed) refl

pub hex_prefix-encode : (bs : Bytes) → All IsByte bs → hex_prefix (hex_encode bs) ≡ bs
unfolding hex_encode
hex_prefix-encode [] h = unfold hex_prefix in refl
hex_prefix-encode (b ∷ bs) (hb, h) =
    rw
      (
        hex_prefix_step (b / 16) (b % 16) _ _ (hex_encode bs)
            (hex_value_digit (b / 16) (omega arith)) (hex_value_digit (b % 16) (omega arith)),
        hex_prefix-encode bs h,
      )
      (ap (λ (x : ℕ). x ∷ bs) (omega arith))

-- A `[0-9a-f]` of a regular expression, and `strings.ToLower` on ASCII.
abbrev pub is_lower_hex : ℕ → Bool
is_lower_hex c = (leb b'0' c && leb c b'9') || (leb b'a' c && leb c b'f')

abbrev pub all_lower_hex : Bytes → Bool
all_lower_hex [] = true
all_lower_hex (c ∷ s) = is_lower_hex c && all_lower_hex s

abbrev pub lower_byte : ℕ → ℕ
lower_byte c = if leb b'A' c && leb c b'Z' then c + 32 else c

abbrev pub to_lower : Bytes → Bytes
to_lower [] = []
to_lower (c ∷ s) = lower_byte c ∷ to_lower s

pub to_lower-lower_hex : (s : Bytes) → all_lower_hex s ≡ true → to_lower s ≡ s
to_lower-lower_hex [] h = refl
to_lower-lower_hex (c ∷ s) h = ground (arith, to_lower-lower_hex s)
