-- ===== src/Stratum/Api/Miners.antt =====
-- What collectMinersStats of stratum/api.go leaves of the miners.
use mathlib.Core.List.{Memᴰ}
use xmrpool.Common.{◌≡◌, refl, ap, List, [], ◌∷◌, ◌++◌, All, ℕ, zero, suc}
use xmrpool.Common.Ints.{ℤ}
use xmrpool.Common.Texts.{Bytes}
use xmrpool.Common.Assoc.{Assoc, bytes_key, insert, All-insert}
use xmrpool.Stratum.MinersMap.{MinersMap, iter, on_shard, set, shard_index}
use xmrpool.Stratum.Share.Hashrate.{hashrate}
use xmrpool.Stratum.Types.{Miner, Env, World}
use xmrpool.Stratum.Api.{Settings, visit_miner, visit_miners}

module _ (Q : Bytes × Miner → Type 0) where
  All-join : (xs ys : List (Bytes × Miner)) → All Q xs → All Q ys → All Q (xs ++ ys)
  All-join [] ys h g = g
  All-join (x ∷ xs) ys h g = (h.0, All-join xs ys h.1 g)

  All-split : (xs ys : List (Bytes × Miner)) → All Q (xs ++ ys) → All Q xs × All Q ys
  All-split [] ys h = (tt, h)
  All-split (x ∷ xs) ys h = let (g, g') = All-split xs ys h.1 in ((h.0, g), g')

  All-on_shard :
      (i : ℕ) (k : Bytes) (m : Miner) (ms : MinersMap Miner)
      → Q (k, m)
      → All Q (iter ms)
      → All Q (iter (on_shard i (insert k m) ms))
  unfolding iter
  All-on_shard i k m [] q h = tt
  All-on_shard zero k m (s ∷ ms) q h =
      let (g, g') = All-split s (iter ms) h in
      All-join (insert k m s) (iter ms) (All-insert Q k m s q g) g'
  All-on_shard (suc i) k m (s ∷ ms) q h =
      let (g, g') = All-split s (iter ms) h in
      All-join s (iter (on_shard i (insert k m) ms)) g (All-on_shard i k m ms q g')

-- A key with a miner that is one of `xs` up to its shares.
pub record ButShares (xs : List (Bytes × Miner)) (x : Bytes × Miner) : Type 0 where
  pub before : Miner
  pub member : Memᴰ (x.0, before) xs
  pub others : x.1 ≡ record before { shares = x.1.shares }

-- Every entry is one of the list, with its own shares.
pub All-ButShares :
    (xs ys : List (Bytes × Miner))
    → ((x : Bytes × Miner) → Memᴰ x ys → Memᴰ x xs)
    → All (ButShares xs) ys
All-ButShares xs [] h = tt
All-ButShares xs (y ∷ ys) h = (
  record { before = y.1; member = h y (Memᴰ.head refl); others = refl },
  All-ButShares xs ys (λ x m. h x (Memᴰ.tail m)),
)

-- Storing shares in a miner that is another one up to its shares.
with_shares :
    (m before : Miner) (s : Assoc ℤ ℤ)
    → m ≡ record before { shares = m.shares }
    → record m { shares = s } ≡ record before { shares = s }
with_shares m before s e = ap (λ (n : Miner). record n { shares = s }) e

module _ (env : Env) (settings : Settings) (xs : List (Bytes × Miner)) where
  visit_miner-ButShares :
      (now : ℤ) (x : Bytes × Miner) (w : World)
      → ButShares xs x
      → All (ButShares xs) (iter w.miners)
      → All (ButShares xs) (iter (visit_miner env settings now x w).1.miners)
  unfolding visit_miner set hashrate
  visit_miner-ButShares now (key, m) w b h =
      All-on_shard (ButShares xs) (shard_index key) key _ w.miners
        (record {
          before = b.before;
          member = b.member;
          others = with_shares m b.before _ b.others;
        })
        h

  pub visit_miners-ButShares :
      (now : ℤ) (ys : List (Bytes × Miner)) (w : World)
      → All (ButShares xs) ys
      → All (ButShares xs) (iter w.miners)
      → All (ButShares xs) (iter (visit_miners env settings now ys w).1.miners)
  unfolding visit_miners
  visit_miners-ButShares now [] w b h = h
  visit_miners-ButShares now (y ∷ ys) w b h =
      visit_miners-ButShares now ys (visit_miner env settings now y w).1 b.1
        (visit_miner-ButShares now y w b.0 h)
