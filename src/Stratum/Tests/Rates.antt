-- ===== src/Stratum/Tests/Rates.antt =====
-- The hashrate of a miner with a share of today and one of two days ago.
use xmrpool.Common.{◌≡◌, refl, [], ◌∷◌}
use xmrpool.Common.Ints.{pos, ◌+ℤ◌, ◌-ℤ◌}
use xmrpool.Common.Words.{wrap64}
use xmrpool.Common.Texts.{codes}
use xmrpool.Stratum.Types.{Miner}
use xmrpool.Stratum.Handlers.{new_miner}
use xmrpool.Stratum.Share.Hashrate.{hashrate, visit_shares, AreRecent, hashrate-again}

abbrev old_miner : Miner
old_miner = record (new_miner (codes "a") (codes "ip")) {
  shares = (pos 100, pos 7) ∷ (pos 200000, pos 5) ∷ [];
}

counts_today : (hashrate (pos 200100) (pos 600) old_miner).0 ≡ (pos 5, pos 600)
unfolding hashrate visit_shares wrap64 ◌+ℤ◌ ◌-ℤ◌ new_miner
counts_today = refl

hashrate-again_example :
    (hashrate (pos 200100) (pos 600) (hashrate (pos 200100) (pos 600) old_miner).1
      ≡ hashrate (pos 200100) (pos 600) old_miner)
    × AreRecent
        (wrap64 (pos 200100 -ℤ pos 86400))
        (hashrate (pos 200100) (pos 600) old_miner).1.shares
hashrate-again_example = hashrate-again (pos 200100) (pos 600) old_miner
