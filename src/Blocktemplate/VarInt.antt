-- ===== src/Blocktemplate/VarInt.antt =====
-- blocktemplate/serialize.go: PackVarInt and UnPackVarInt.
pub mod Encoding
pub mod Decode
use xmrpool.Common.{
  ℕ, zero, suc, ◌+◌, ◌*◌, ◌/◌, ◌^◌, ◌<◌, ◌≤◌, [], ◌∷◌, arith, ltb, if◌then◌else◌, lt_wf,
}
use xmrpool.Common.Words.{u8, u64}
use xmrpool.Common.Texts.{Bytes}
use xmrpool.Blocktemplate.Wire.{Result, ok, err, eof, ◌>>=◌}
use Prim.Native.Nat.{bit_and, bit_or}
use mathlib.Core.Logic.{dite}
use mathlib.Core.WellFounded.{Acc}
use native.Mathlib.Decide.{dec_lt}

pub shift_shrinks : (v : ℕ) → ¬ (v < 0x80) → v / 2 ^ 7 < v
shift_shrinks v h = omega arith

-- The loop ends since `varInt >> 7` is smaller; `varInt` is a uint64.
module _ {Sink : Type 0} (write : Bytes → Sink → Result Sink) where
  unfoldable pub pack_loop : (v : ℕ) → Acc ◌<◌ v → Sink → Result Sink
  pack_loop v (Acc.intro _ smaller) w =
      dite (dec_lt v 0x80) (λ _. write (u8 v ∷ []) w)
        (λ more. do
          w' ← write (u8 (bit_or (bit_and v 0x7f) 0x80) ∷ []) w
          pack_loop (v / 2 ^ 7) (smaller _ (shift_shrinks v more)) w')

  unfoldable pub pack_var_int : ℕ → Sink → Result Sink
  pack_var_int v w = pack_loop v (lt_wf.apply v) w

-- The first loop of `UnPackVarInt`, which reads one byte a round: `varIntBytes` and the rest.
unfoldable pub read_groups : Bytes → Result (Bytes × Bytes)
read_groups [] = err eof
read_groups (b ∷ r) =
    let more = (do (gs, rest) ← read_groups r; ok (bit_and b 0x7f ∷ gs, rest)) in
    if ltb b 0x80 then ok (bit_and b 0x7f ∷ [], r) else more

-- The second loop: `result += uint64(varIntBytes[i]) << (i * 7)`.
unfoldable pub sum_groups : ℕ → ℕ → Bytes → ℕ
sum_groups i result [] = result
sum_groups i result (g ∷ gs) = sum_groups (i + 1) (u64 (result + u64 (g * 2 ^ (i * 7)))) gs

unfoldable pub unpack_var_int : Bytes → Result (ℕ × Bytes)
unfolding read_groups sum_groups
unpack_var_int r = do (gs, rest) ← read_groups r; ok (sum_groups 0 0 gs, rest)
