-- ===== src/Blocktemplate/VarInt/Encoding.antt =====
-- What `PackVarInt` writes, in plain arithmetic: groups of seven bits, lowest first, the top bit set
-- on every byte but the last.
use xmrpool.Common.{
  ℕ, zero, suc, ◌+◌, ◌/◌, ◌%◌, ◌^◌, ◌≤◌, ◌<◌, ◌≡◌, [], ◌∷◌, ◌++◌, append_assoc, arith, ltb,
  if◌then◌else◌, length, All,
}
use xmrpool.Common.Masks.{low_seven, set_top}
use xmrpool.Common.Words.{u8, IsByte, IsU64}
use xmrpool.Common.Texts.{Bytes}
use xmrpool.Blocktemplate.Wire.{ok, buffer_write}
use xmrpool.Blocktemplate.VarInt.{pack_loop, pack_var_int}
use Prim.Native.Nat.{bit_and, bit_or}
use mathlib.Core.WellFounded.{Acc}

-- At most k + 1 bytes for a number below 128 ^ (k + 1).
unfoldable pub leb128 : ℕ → ℕ → Bytes
leb128 zero v = v ∷ []
leb128 (suc k) v =
    let more = leb128 k (v / 128) in if ltb v 128 then v ∷ [] else (v % 128 + 128) ∷ more

-- Ten bytes hold every uint64.
unfoldable pub var_int_bytes : ℕ → Bytes
var_int_bytes v = leb128 9 v

top_group : (v : ℕ) → u8 (bit_or (bit_and v 0x7f) 0x80) ≡ v % 128 + 128
top_group v = rw (low_seven v) (rw (set_top (v % 128) (omega arith)) (omega arith))

pack_loop-leb128 :
    (k v : ℕ) (w : Acc ◌<◌ v) (out : Bytes)
    → v < 128 ^ suc k
    → pack_loop buffer_write v w out ≡ ok (out ++ leb128 k v)
unfolding pack_loop leb128
pack_loop-leb128 zero v (Acc.intro _ smaller) out h = ground arith
pack_loop-leb128 (suc k) v (Acc.intro _ smaller) out h = grind (
  arith,
  top_group v,
  append_assoc out ((v % 128 + 128) ∷ []) (leb128 k (v / 128)),
  λ (w : Acc ◌<◌ (v / 128)).
      pack_loop-leb128 k (v / 128) w (out ++ (v % 128 + 128) ∷ []) (omega arith),
)

-- On a buffer, packing a uint64 keeps what was written and appends the encoding.
pub pack_var_int-buffer :
    (v : ℕ) (out : Bytes) → IsU64 v → pack_var_int buffer_write v out ≡ ok (out ++ var_int_bytes v)
unfolding pack_var_int var_int_bytes
pack_var_int-buffer v out h = pack_loop-leb128 9 v _ out (omega arith)

leb128-IsByte : (k v : ℕ) → v < 128 ^ suc k → All IsByte (leb128 k v)
unfolding leb128
leb128-IsByte zero v h = omega arith
leb128-IsByte (suc k) v h = ground (arith, leb128-IsByte k (v / 128) (omega arith))

length-leb128 : (k v : ℕ) → (1 ≤ length (leb128 k v)) × (length (leb128 k v) ≤ k + 1)
unfolding leb128
length-leb128 zero v = omega arith
length-leb128 (suc k) v = ground (arith, length-leb128 k (v / 128))

pub var_int_bytes_shape :
    (v : ℕ)
    → IsU64 v
    → All IsByte (var_int_bytes v)
      × (1 ≤ length (var_int_bytes v))
      × (length (var_int_bytes v) ≤ 10)
unfolding var_int_bytes
var_int_bytes_shape v h =
    let (lo, hi) = length-leb128 9 v in (leb128-IsByte 9 v (omega arith), lo, hi)
