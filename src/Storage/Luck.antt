-- ===== src/Storage/Luck.antt =====
-- storage/redis.go: `CollectLuckStats`, over the blocks found lately. A ratio is a float64 quotient; its
-- operands are kept, and a sum of quotients as the list of them.
pub mod Windows
use xmrpool.Common.{
  ℕ, Bool, true, false, Option, none, some, List, [], ◌∷◌, ◌++◌, ltb, if◌then◌else◌,
}
use xmrpool.Common.Ints.{ℤ, pos, negsuc, ◌+ℤ◌, ◌-ℤ◌, ltb_ℤ}
use xmrpool.Common.Words.{wrap64}
use xmrpool.Common.Texts.{Bytes, codes}
use xmrpool.Common.Numbers.{format_int}
use xmrpool.Storage.Types.{text, format_key, BlockData, Outcome, returned, failed, panicked}
use xmrpool.Storage.Redis.{Redis, Command, z_rev_range, Reply}
use xmrpool.Storage.Rows.{convert_block_results}
use xmrpool.Storage.Reports.{rows_at}

-- One row of the statistics: the quotients TotalShares / Difficulty, and the uncles and orphans, all of
-- which are divided by the number of blocks where that is not 0.
pub record LuckRow : Type 0 where
  pub total : ℤ
  pub shares_diff : List (ℤ × ℤ)
  pub uncles : ℤ
  pub orphans : ℤ

abbrev pub no_luck : LuckRow
no_luck = record { total = pos 0; shares_diff = []; uncles = pos 0; orphans = pos 0 }

abbrev pub count_block : BlockData → LuckRow → LuckRow
count_block block row = record {
  total = row.total +ℤ pos 1;
  shares_diff = row.shares_diff ++ (block.total_shares, block.difficulty) ∷ [];
  uncles = if block.uncle then row.uncles +ℤ pos 1 else row.uncles;
  orphans = if block.orphan then row.orphans +ℤ pos 1 else row.orphans;
}

-- The loop of calcLuck from index `i` on; it breaks off at the first index above max - 1.
unfoldable pub luck_from : ℤ → ℤ → List BlockData → LuckRow → LuckRow
luck_from max i [] row = row
luck_from max i (block ∷ blocks) row =
    if ltb_ℤ (wrap64 (max -ℤ pos 1)) i
    then row
    else luck_from max (i +ℤ pos 1) blocks (count_block block row)

unfoldable pub calc_luck : List BlockData → ℤ → LuckRow
unfolding luck_from
calc_luck blocks max = luck_from max (pos 0) blocks no_luck

-- The loop over the windows, up to the first one that is not full. A row is stored under its total, in
-- this order; rows of the same total are the same, so which of them the Go map keeps is no matter.
unfoldable pub luck_rows : List BlockData → List ℤ → List (Bytes × LuckRow)
unfolding calc_luck
luck_rows blocks [] = []
luck_rows blocks (max ∷ windows) =
    let row = calc_luck blocks max in
    let rest = luck_rows blocks windows in
    (format_int row.total, row) ∷ (if ltb_ℤ row.total max then [] else rest)

abbrev pub last_window : List ℤ → Option ℤ
last_window [] = none
last_window (w ∷ []) = some w
last_window (w ∷ v ∷ ws) = last_window (v ∷ ws)

unfoldable pub luck_queue : Bytes → ℤ → List Command
luck_queue prefix max =
    z_rev_range (format_key prefix (text (codes "blocks") ∷ text (codes "immature") ∷ [])) (pos 0)
      (negsuc 0)
    ∷ z_rev_range (format_key prefix (text (codes "blocks") ∷ text (codes "matured") ∷ [])) (pos 0)
        (wrap64 (max -ℤ pos 1))
    ∷ []

-- Both replies are converted, the immature blocks first.
abbrev pub luck_of :
    List ℤ → Option (List BlockData) → Option (List BlockData) → Outcome (List (Bytes × LuckRow))
luck_of windows (some immature) (some matured) = returned (luck_rows (immature ++ matured) windows)
luck_of windows _ _ = panicked

abbrev pub luck_found :
    {D : Type 0} → List ℤ → Option (List Reply) × D → Outcome (List (Bytes × LuckRow)) × D
luck_found windows (none, db) = (failed, db)
luck_found windows (some replies, db) = (
  luck_of windows (convert_block_results (rows_at replies 0))
      (convert_block_results (rows_at replies 1)),
  db,
)

module _ (redis : Redis) (prefix : Bytes) where
  -- Without a window the index of the last one is out of range.
  unfoldable pub collect_luck_stats :
      List ℤ → redis.Db → Outcome (List (Bytes × LuckRow)) × redis.Db
  unfolding luck_queue luck_rows
  collect_luck_stats windows db = elim (last_window windows) [
    | none ↦ (panicked, db)
    | some max ↦ luck_found windows (redis.exec (luck_queue prefix max) db)
  ]
