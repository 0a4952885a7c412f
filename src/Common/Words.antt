-- ===== src/Common/Words.antt =====
-- Go's fixed-width integers. An unsigned word is a number below its modulus; an int64 is an integer
-- in range, and every operation on it wraps by two's complement.
use xmrpool.Common.Tests.{ltb, if◌then◌else◌}
use xmrpool.Common.Ints.{ℤ, pos, negsuc, pos_part, neg_part, ◌+ℤ◌}
use Prim.Native.Nat.{ℕ, ◌+◌, ◌-◌, ◌%◌, ◌^◌, ◌≤◌, ◌<◌}
use mathlib.Core.Path.{◌≡◌}
use native.Mathlib.Omega.{arith}

abbrev pub u8 : ℕ → ℕ
u8 n = n % 2 ^ 8

abbrev pub u32 : ℕ → ℕ
u32 n = n % 2 ^ 32

abbrev pub u64 : ℕ → ℕ
u64 n = n % 2 ^ 64

abbrev pub IsByte : ℕ → Type 0
IsByte b = b < 256

abbrev pub IsU32 : ℕ → Type 0
IsU32 v = v < 2 ^ 32

abbrev pub IsU64 : ℕ → Type 0
IsU64 v = v < 2 ^ 64

abbrev pub IsI64 : ℤ → Type 0
IsI64 x = (pos_part x < 2 ^ 63) × (neg_part x ≤ 2 ^ 63)

-- The 64-bit pattern of an integer, and the int64 of a pattern.
abbrev pub pattern64 : ℤ → ℕ
pattern64 (pos n) = n % 2 ^ 64
pattern64 (negsuc n) = 2 ^ 64 - 1 - n % 2 ^ 64

abbrev pub signed64 : ℕ → ℤ
signed64 w = if ltb w (2 ^ 63) then pos w else negsuc (2 ^ 64 - 1 - w)

unfoldable pub wrap64 : ℤ → ℤ
wrap64 x = signed64 (pattern64 x)

pub wrap64_id : (x : ℤ) → IsI64 x → wrap64 x ≡ x
unfolding wrap64
wrap64_id (pos n) h = ground arith
wrap64_id (negsuc n) h = ground arith

pub wrap64-IsI64 : (x : ℤ) → IsI64 (wrap64 x)
unfolding wrap64
wrap64-IsI64 (pos n) = ground arith
wrap64-IsI64 (negsuc n) = ground arith

pub wrap64_inc : (n : ℕ) → n + 1 < 2 ^ 63 → wrap64 (pos n +ℤ pos 1) ≡ pos (n + 1)
unfolding ◌+ℤ◌
wrap64_inc n h =
    let sum : pos n +ℤ pos 1 ≡ pos (n + 1) = ground arith in
    rw sum (wrap64_id (pos (n + 1)) (omega arith))
