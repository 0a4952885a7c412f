-- ===== src/Storage/Stats.antt =====
-- storage/redis.go: hashrates of workers and miners from the rows of their shares.
use xmrpool.Common.{
  zero, suc, Bool, true, false, ◌||◌, Option, none, some, List, [], ◌∷◌, if◌then◌else◌,
}
use xmrpool.Common.Ints.{ℤ, pos, negsuc, ◌+ℤ◌, ◌-ℤ◌, quot_ℤ, ltb_ℤ, leb_ℤ, eqb_ℤ}
use xmrpool.Common.Words.{wrap64}
use xmrpool.Common.Assoc.{Assoc, lookup, insert, bytes_key}
use xmrpool.Common.Texts.{Bytes}
use xmrpool.Common.Strings.{split}
use xmrpool.Common.Numbers.{parse_int}

pub record MinerStats : Type 0 where
  pub last_beat : ℤ
  pub hr : ℤ
  pub offline : Bool
  pub started_at : ℤ

pub record Worker : Type 0 where
  pub miner : MinerStats
  pub total_hr : ℤ

abbrev pub zero_miner : MinerStats
zero_miner = record { last_beat = pos 0; hr = pos 0; offline = false; started_at = pos 0 }

abbrev pub zero_worker : Worker
zero_worker = record { miner = zero_miner; total_hr = pos 0 }

-- A row of shares: the difficulty, the login or worker id, and the second; `none` is an index out of range.
pub record ShareRow : Type 0 where
  pub share : ℤ
  pub id : Bytes
  pub score : ℤ

unfoldable pub read_share : ℤ → List Bytes → Option ShareRow
read_share score (share ∷ id ∷ _) =
    some record { share = (parse_int share).0; id = id; score = score }
read_share score _ = none

unfoldable pub share_row : ℤ × Bytes → Option ShareRow
unfolding read_share
share_row (score, member) = read_share score (split member)

abbrev pub later_beat : ℤ → ℤ → ℤ
later_beat beat score = if ltb_ℤ beat score then score else beat

abbrev pub first_start : ℤ → ℤ → ℤ
first_start start score = if ltb_ℤ score start || eqb_ℤ start (pos 0) then score else start

abbrev pub known : {W : Type 0} → W → Option W → W
known empty none = empty
known empty (some w) = w

-- What one row adds to a worker, `oldest` being now - window, and to a miner.
unfoldable pub add_to_worker : ℤ → ShareRow → Worker → Worker
add_to_worker oldest row w = record {
  miner = record {
    last_beat = later_beat w.miner.last_beat row.score;
    hr = if leb_ℤ oldest row.score then wrap64 (w.miner.hr +ℤ row.share) else w.miner.hr;
    offline = w.miner.offline;
    started_at = first_start w.miner.started_at row.score;
  };
  total_hr = wrap64 (w.total_hr +ℤ row.share);
}

unfoldable pub add_to_miner : ShareRow → MinerStats → MinerStats
add_to_miner row m = record {
  last_beat = later_beat m.last_beat row.score;
  hr = wrap64 (m.hr +ℤ row.share);
  offline = m.offline;
  started_at = first_start m.started_at row.score;
}

abbrev pub with_row : {B : Type 0} → Option ShareRow → (ShareRow → Option B) → Option B
with_row none f = none
with_row (some s) f = f s

-- The loop over the rows, which collects a value per id.
unfoldable pub gather :
    {W : Type 0}
    → W
    → (ShareRow → W → W)
    → List (ℤ × Bytes)
    → Assoc Bytes W
    → Option (Assoc Bytes W)
unfolding share_row
gather empty add [] m = some m
gather empty add (row ∷ rows) m =
    with_row (share_row row)
      (λ s. gather empty add rows (insert s.id (add s (known empty (lookup s.id m))) m))

unfoldable pub convert_workers_stats : ℤ → ℤ → List (ℤ × Bytes) → Option (Assoc Bytes Worker)
unfolding gather add_to_worker
convert_workers_stats now window rows =
    gather zero_worker (add_to_worker (wrap64 (now -ℤ window))) rows []

-- Go's division of int64; `none` is its panic at 0.
abbrev pub divide : ℤ → ℤ → Option ℤ
divide a (pos zero) = none
divide a (pos (suc d)) = some (quot_ℤ a (suc d))
divide a (negsuc d) = some (wrap64 (pos 0 -ℤ quot_ℤ a (suc d)))

-- The time that a miner's shares are spread over.
abbrev pub boundary : ℤ → ℤ → ℤ → ℤ
boundary now window started =
    let online = wrap64 (now -ℤ started) in
    let online' = if ltb_ℤ online (pos 600) then pos 600 else online in
    if leb_ℤ window online' then window else online'

unfoldable pub rate_miner : ℤ → ℤ → MinerStats → Option MinerStats
rate_miner now window m = elim (divide m.hr (boundary now window m.started_at)) [
  | none ↦ none
  | some rate ↦ some record m {
    hr = rate;
    offline = if ltb_ℤ m.last_beat (wrap64 (now -ℤ quot_ℤ window 2)) then true else m.offline;
  }
]

-- The second loop, with the total hashrate.
abbrev pub add_rated :
    Bytes
    → Option MinerStats
    → Option (ℤ × Assoc Bytes MinerStats)
    → Option (ℤ × Assoc Bytes MinerStats)
add_rated id none rest = none
add_rated id (some m) none = none
add_rated id (some m) (some (total, ms)) = some (wrap64 (m.hr +ℤ total), (id, m) ∷ ms)

unfoldable pub rate_miners : ℤ → ℤ → Assoc Bytes MinerStats → Option (ℤ × Assoc Bytes MinerStats)
unfolding rate_miner
rate_miners now window [] = some (pos 0, [])
rate_miners now window ((id, m) ∷ ms) =
    add_rated id (rate_miner now window m) (rate_miners now window ms)

abbrev pub rate_all : ℤ → ℤ → Option (Assoc Bytes MinerStats) → Option (ℤ × Assoc Bytes MinerStats)
rate_all now window none = none
rate_all now window (some ms) = rate_miners now window ms

unfoldable pub convert_miners_stats : ℤ → ℤ → List (ℤ × Bytes) → Option (ℤ × Assoc Bytes MinerStats)
unfolding gather rate_miners add_to_miner
convert_miners_stats now window rows = rate_all now window (gather zero_miner add_to_miner rows [])
