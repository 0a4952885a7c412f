-- ===== src/Storage/Overview.antt =====
-- storage/redis.go: `GetMinerStats` and `CollectStats`, the reports on one miner and on the pool.
use xmrpool.Common.{ℕ, Option, none, some, List, [], ◌∷◌, length, get_elem?}
use xmrpool.Common.Ints.{ℤ, pos, negsuc, ◌-ℤ◌}
use xmrpool.Common.Words.{wrap64}
use xmrpool.Common.Assoc.{Assoc}
use xmrpool.Common.Texts.{Bytes, codes}
use xmrpool.Common.Numbers.{format_int, parse_int}
use xmrpool.Storage.Types.{text, format_key, BlockData, Outcome, failed, or_panic}
use xmrpool.Storage.Redis.{
  Redis, Command, h_get, h_get_all_map, z_card, z_range, z_rev_range, z_rem_range_by_score, Reply,
  int_reply, text_reply, hash_reply,
}
use xmrpool.Storage.Rows.{
  Value, Payment, convert_string_map, convert_payments_results, convert_candidate_results,
  convert_block_results,
}
use xmrpool.Storage.Stats.{MinerStats, convert_miners_stats}
use xmrpool.Storage.Reports.{rows_at}

-- The other replies of a transaction, by their places.
abbrev pub map_at : List Reply → ℕ → List (Bytes × Bytes)
map_at replies i = elim (get_elem? replies i) [
  | none ↦ []
  | some r ↦ elim r [ hash_reply m ↦ m | _ ↦ [] ]
]

abbrev pub int_at : List Reply → ℕ → ℤ
int_at replies i = elim (get_elem? replies i) [
  | none ↦ pos 0
  | some r ↦ elim r [ int_reply n ↦ n | _ ↦ pos 0 ]
]

abbrev pub number_at : List Reply → ℕ → ℤ
number_at replies i = elim (get_elem? replies i) [
  | none ↦ pos 0
  | some r ↦ elim r [ text_reply s ↦ (parse_int s).0 | _ ↦ pos 0 ]
]

pub record MinerReport : Type 0 where
  pub stats : List (Bytes × Value)
  pub payments : List Payment
  pub payments_total : ℤ
  pub round_shares : ℤ

unfoldable pub miner_queue : Bytes → Bytes → ℤ → List Command
miner_queue prefix login max_payments =
    h_get_all_map (format_key prefix (text (codes "miners") ∷ text login ∷ []))
    ∷ z_rev_range (format_key prefix (text (codes "payments") ∷ text login ∷ [])) (pos 0)
        (wrap64 (max_payments -ℤ pos 1))
    ∷ z_card (format_key prefix (text (codes "payments") ∷ text login ∷ []))
    ∷ h_get (format_key prefix (text (codes "shares") ∷ text (codes "roundCurrent") ∷ [])) login
    ∷ []

unfoldable pub miner_report : List Reply → Option MinerReport
miner_report replies = elim (convert_payments_results (rows_at replies 1)) [
  | none ↦ none
  | some payments ↦ some record {
    stats = convert_string_map (map_at replies 0);
    payments = payments;
    payments_total = int_at replies 2;
    round_shares = number_at replies 3;
  }
]

pub record PoolReport : Type 0 where
  pub stats : List (Bytes × Value)
  pub candidates : List BlockData
  pub candidates_total : ℤ
  pub immature : List BlockData
  pub immature_total : ℤ
  pub matured : List BlockData
  pub matured_total : ℤ
  pub payments : List Payment
  pub payments_total : ℤ
  pub miners : Assoc Bytes MinerStats
  pub miners_total : ℕ
  pub hashrate : ℤ

unfoldable pub pool_queue : Bytes → ℤ → ℤ → ℤ → ℤ → List Command
pool_queue prefix now window max_blocks max_payments =
    z_rem_range_by_score (format_key prefix (text (codes "hashrate") ∷ [])) (codes "-inf")
      (b'(' ∷ format_int (wrap64 (now -ℤ window)))
    ∷ z_range (format_key prefix (text (codes "hashrate") ∷ [])) (pos 0) (negsuc 0)
    ∷ h_get_all_map (format_key prefix (text (codes "stats") ∷ []))
    ∷ z_rev_range (format_key prefix (text (codes "blocks") ∷ text (codes "candidates") ∷ []))
        (pos 0) (negsuc 0)
    ∷ z_rev_range (format_key prefix (text (codes "blocks") ∷ text (codes "immature") ∷ [])) (pos 0)
        (negsuc 0)
    ∷ z_rev_range (format_key prefix (text (codes "blocks") ∷ text (codes "matured") ∷ [])) (pos 0)
        (wrap64 (max_blocks -ℤ pos 1))
    ∷ z_card (format_key prefix (text (codes "blocks") ∷ text (codes "candidates") ∷ []))
    ∷ z_card (format_key prefix (text (codes "blocks") ∷ text (codes "immature") ∷ []))
    ∷ z_card (format_key prefix (text (codes "blocks") ∷ text (codes "matured") ∷ []))
    ∷ z_card (format_key prefix (text (codes "payments") ∷ text (codes "all") ∷ []))
    ∷ z_rev_range (format_key prefix (text (codes "payments") ∷ text (codes "all") ∷ [])) (pos 0)
        (wrap64 (max_payments -ℤ pos 1))
    ∷ []

abbrev pub pool_parts :
    List Reply
    → Option (List BlockData)
    → Option (List BlockData)
    → Option (List BlockData)
    → Option (List Payment)
    → Option (ℤ × Assoc Bytes MinerStats)
    → Option PoolReport
pool_parts replies (some candidates) (some immature) (some matured) (some payments)
      (some (hashrate, miners)) =
    some record {
      stats = convert_string_map (map_at replies 2);
      candidates = candidates;
      candidates_total = int_at replies 6;
      immature = immature;
      immature_total = int_at replies 7;
      matured = matured;
      matured_total = int_at replies 8;
      payments = payments;
      payments_total = int_at replies 9;
      miners = miners;
      miners_total = length miners;
      hashrate = hashrate;
    }
pool_parts replies _ _ _ _ _ = none

unfoldable pub pool_report : ℤ → ℤ → List Reply → Option PoolReport
pool_report now window replies =
    pool_parts replies (convert_candidate_results (rows_at replies 3))
      (convert_block_results (rows_at replies 4)) (convert_block_results (rows_at replies 5))
      (convert_payments_results (rows_at replies 10))
      (convert_miners_stats now window (rows_at replies 1))

abbrev pub read_replies :
    {A D : Type 0} → (List Reply → Option A) → Option (List Reply) × D → Outcome A × D
read_replies read (none, db) = (failed, db)
read_replies read (some replies, db) = (or_panic (read replies), db)

module _ (redis : Redis) (prefix : Bytes) where
  unfoldable pub get_miner_stats : Bytes → ℤ → redis.Db → Outcome MinerReport × redis.Db
  unfolding miner_queue miner_report
  get_miner_stats login max_payments db =
      read_replies miner_report (redis.exec (miner_queue prefix login max_payments) db)

  unfoldable pub collect_stats : ℤ → ℤ → ℤ → ℤ → redis.Db → Outcome PoolReport × redis.Db
  unfolding pool_queue pool_report
  collect_stats now window max_blocks max_payments db =
      read_replies (pool_report now window)
        (redis.exec (pool_queue prefix now window max_blocks max_payments) db)
