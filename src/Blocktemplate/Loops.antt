-- ===== src/Blocktemplate/Loops.antt =====
-- The loops over slices in transaction.go and block.go.
use xmrpool.Common.{ℕ, zero, suc, List, [], ◌∷◌}
use xmrpool.Common.Texts.{Bytes}
use xmrpool.Blocktemplate.Wire.{Result, ok, ◌>>=◌}

-- `for _, x := range xs { err = x.Pack(writer); if err != nil { return err } }`
unfoldable pub pack_each :
    {A Sink : Type 0} → (A → Sink → Result Sink) → List A → Sink → Result Sink
pack_each pack [] w = ok w
pack_each pack (x ∷ xs) w = do w' ← pack x w; pack_each pack xs w'

-- `for i := 0; i < n; i++ { err = xs[i].UnPack(reader); … }` on n zero values.
unfoldable pub unpack_each :
    {A : Type 0} → (Bytes → Result (A × Bytes)) → ℕ → Bytes → Result (List A × Bytes)
unpack_each unpack zero r = ok ([], r)
unpack_each unpack (suc n) r = do
  (x, r') ← unpack r
  (xs, rest) ← unpack_each unpack n r'
  ok (x ∷ xs, rest)
