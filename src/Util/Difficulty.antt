-- ===== src/Util/Difficulty.antt =====
-- util/util.go: reverse, GetTargetHex and GetHashDifficulty.
use xmrpool.Common.{
  ℕ, zero, suc, ◌+◌, ◌-◌, ◌*◌, ◌/◌, ◌%◌, ◌^◌, ◌≤◌, ◌≡◌, ◌↔◌, refl, ◌∙◌, Option, none, some, [], ◌∷◌,
  ◌++◌, arith, ◌==◌, if◌then◌else◌, take,
}
use xmrpool.Common.Ints.{ℤ, pos, negsuc}
use xmrpool.Common.Texts.{Bytes, hex_encode}
use native.Mathlib.Nat.{mul_comm, le-div_iff_mul-le}

abbrev pub diff1 : ℕ
diff1 = 2 ^ 256 - 1

unfoldable pub reverse : Bytes → Bytes
reverse [] = []
reverse (b ∷ bs) = reverse bs ++ b ∷ []

-- `big.Int.SetBytes`: the number with these digits to base 256, the highest first.
unfoldable pub set_bytes : ℕ → Bytes → ℕ
set_bytes acc [] = acc
set_bytes acc (b ∷ bs) = set_bytes (acc * 256 + b) bs

-- The last n bytes of a number, the highest first: `Bytes()` copied to the end of n zeros.
unfoldable pub padded_bytes : ℕ → ℕ → Bytes
padded_bytes zero v = []
padded_bytes (suc n) v = v / 256 ^ n % 256 ∷ padded_bytes n v

-- `big.Int.Div` is Euclidean, so a negative divisor gives the negated quotient, and `Bytes()` drops
-- the sign. Division by zero panics: `none`.
unfoldable pub get_target_hex : ℤ → Option Bytes
unfolding padded_bytes reverse
get_target_hex (pos zero) = none
get_target_hex (pos (suc d)) =
    some (hex_encode (reverse (take 4 (padded_bytes 32 (diff1 / suc d)))))
get_target_hex (negsuc n) = some (hex_encode (reverse (take 4 (padded_bytes 32 (diff1 / suc n)))))

-- `none` is the (nil, false) of a hash that is empty or all zero.
unfoldable pub get_hash_difficulty : Bytes → Option ℕ
unfolding reverse set_bytes
get_hash_difficulty hash =
    let diff = set_bytes 0 (reverse hash) in if diff == 0 then none else some (diff1 / diff)

-- The number that a hash stands for: little-endian.
unfoldable pub hash_value : Bytes → ℕ
hash_value [] = 0
hash_value (b ∷ bs) = b + 256 * hash_value bs

set_bytes-snoc :
    (acc : ℕ) (bs : Bytes) (b : ℕ) → set_bytes acc (bs ++ b ∷ []) ≡ set_bytes acc bs * 256 + b
unfolding set_bytes
set_bytes-snoc acc [] b = refl
set_bytes-snoc acc (x ∷ bs) b = set_bytes-snoc (acc * 256 + x) bs b

set_bytes-reverse : (bs : Bytes) → set_bytes 0 (reverse bs) ≡ hash_value bs
unfolding reverse hash_value
set_bytes-reverse [] = unfold set_bytes in refl
set_bytes-reverse (b ∷ bs) = set_bytes-snoc 0 (reverse bs) b ∙ omega (arith, set_bytes-reverse bs)

abbrev difficulty_of : ℕ → Option ℕ
difficulty_of v = if v == 0 then none else some (diff1 / v)

difficulty_of-meets :
    (v : ℕ)
    → ((difficulty_of v ≡ none) ↔ (v ≡ 0))
      × ((q d : ℕ) → difficulty_of v ≡ some q → (d ≤ q) ↔ (v * d ≤ diff1))
difficulty_of-meets zero = ((λ e. refl, λ e. refl), λ q d e. cc)
difficulty_of-meets (suc v) = (
  (λ e. ground arith, λ e. ground arith),
  λ q d e.
      let is_q : diff1 / suc v ≡ q = ground arith in
      rw (← is_q, mul_comm (suc v) d) (le-div_iff_mul-le (omega arith)),
)

-- A hash has no difficulty exactly if it is zero as a number, and it meets a difficulty d exactly
-- if the hash, read as a little-endian number, times d is at most 2 ^ 256 - 1.
pub get_hash_difficulty-meets :
    (hash : Bytes)
    → ((get_hash_difficulty hash ≡ none) ↔ (hash_value hash ≡ 0))
      × ((q d : ℕ) → get_hash_difficulty hash ≡ some q → (d ≤ q) ↔ (hash_value hash * d ≤ diff1))
unfolding get_hash_difficulty
get_hash_difficulty-meets hash = rw (set_bytes-reverse hash) (difficulty_of-meets (hash_value hash))
