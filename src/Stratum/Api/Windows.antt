-- ===== src/Stratum/Api/Windows.antt =====
-- The found blocks in the windows of the luck statistics of stratum/api.go.
use xmrpool.Common.{◌≡◌, refl, List, [], ◌∷◌, length, map, arith}
use xmrpool.Common.Ints.{ℤ, ◌-ℤ◌}
use xmrpool.Common.Words.{wrap64}
use xmrpool.Common.Assoc.{Assoc}
use xmrpool.Stratum.Types.{BlockEntry, Env}
use xmrpool.Stratum.Api.Rows.{since}
use xmrpool.Stratum.Api.{Settings, Luck, visit_luck, recent_blocks}

-- The entries within a window, in milliseconds, as of a time.
abbrev pub within : ℤ → ℤ → Assoc ℤ BlockEntry → Assoc ℤ BlockEntry
within now window blocks = since (wrap64 (now -ℤ window)) blocks

abbrev pub ratios_of : Assoc ℤ BlockEntry → List (ℤ × ℤ)
ratios_of blocks = map (λ (x : ℤ × BlockEntry). (x.1.round_shares, x.1.diff_int64)) blocks

-- The luck over the entries of two windows.
pub record IsLuck (small large : Assoc ℤ BlockEntry) (luck : Luck) : Type 0 where
  pub ratios : luck.ratios ≡ ratios_of small
  pub blocks_count : luck.blocks_count ≡ length small
  pub total_ratios : luck.total_ratios ≡ ratios_of large
  pub total_blocks_count : luck.total_blocks_count ≡ length large

module _ (env : Env) (settings : Settings) where
  pub recent_blocks-within :
      (now : ℤ) (blocks : Assoc ℤ BlockEntry)
      → recent_blocks env settings now blocks ≡ within now settings.luck_large_window blocks
  unfolding recent_blocks
  recent_blocks-within now [] = refl
  recent_blocks-within now ((k, v) ∷ rest) = ground (arith, recent_blocks-within now rest)

  pub visit_luck-kept :
      (now : ℤ) (blocks : Assoc ℤ BlockEntry)
      → (visit_luck env settings now blocks).1 ≡ within now settings.luck_large_window blocks
  unfolding visit_luck
  visit_luck-kept now [] = refl
  visit_luck-kept now ((k, v) ∷ rest) = ground (arith, visit_luck-kept now rest)

  pub visit_luck-IsLuck :
      (now : ℤ) (blocks : Assoc ℤ BlockEntry)
      → IsLuck
          (within now settings.luck_window blocks)
          (within now settings.luck_large_window blocks)
          (visit_luck env settings now blocks).0
  unfolding visit_luck
  visit_luck-IsLuck now [] = record {
    ratios = refl;
    blocks_count = refl;
    total_ratios = refl;
    total_blocks_count = refl;
  }
  visit_luck-IsLuck now ((k, v) ∷ rest) =
      let ih = visit_luck-IsLuck now rest in
      record {
        ratios = ground (arith, ih.ratios);
        blocks_count = ground (arith, ih.blocks_count);
        total_ratios = ground (arith, ih.total_ratios);
        total_blocks_count = ground (arith, ih.total_blocks_count);
      }
