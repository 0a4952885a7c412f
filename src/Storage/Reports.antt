-- ===== src/Storage/Reports.antt =====
-- storage/redis.go: the state of the node, whose difficulty is not nil, and the report on the workers of a
-- login.
pub mod Counted
use xmrpool.Common.{
  ℕ, ◌≡◌, refl, ap, arith, Option-cases, inl, inr, ◌+◌, Bool, true, false, Option, none, some, List,
  [], ◌∷◌, if◌then◌else◌, length, get_elem?,
}
use mathlib.Core.Path.{subst}
use xmrpool.Common.Ints.{ℤ, pos, negsuc, ◌+ℤ◌, ◌-ℤ◌, quot_ℤ, ltb_ℤ}
use xmrpool.Common.Words.{wrap64}
use xmrpool.Common.Assoc.{Assoc}
use xmrpool.Common.Texts.{Bytes, codes}
use xmrpool.Common.Decimal.{format_uint}
use xmrpool.Common.Numbers.{format_int, format_big}
use xmrpool.Storage.Types.{text, join, format_key, or_panic, Outcome, returned, failed, panicked}
use xmrpool.Storage.Redis.{
  Redis, Command, h_set, z_range, z_rem_range_by_score, Reply, rows_reply, done,
}
use xmrpool.Storage.Stats.{Worker, boundary, divide, convert_workers_stats, known}

unfoldable pub node_queue : Bytes → ℤ → Bytes → ℕ → ℤ → List Command
node_queue prefix ms id height diff =
    h_set (format_key prefix (text (codes "nodes") ∷ []))
      (join (text id ∷ text (codes "name") ∷ [])) id
    ∷ h_set (format_key prefix (text (codes "nodes") ∷ []))
        (join (text id ∷ text (codes "height") ∷ [])) (format_uint height)
    ∷ h_set (format_key prefix (text (codes "nodes") ∷ []))
        (join (text id ∷ text (codes "difficulty") ∷ [])) (format_big diff)
    ∷ h_set (format_key prefix (text (codes "nodes") ∷ []))
        (join (text id ∷ text (codes "lastBeat") ∷ [])) (format_int (quot_ℤ ms 1000))
    ∷ []

-- One worker rated over both windows; `none` is a division by 0.
unfoldable pub rate_worker : ℤ → ℤ → ℤ → Worker → Option Worker
rate_worker now small large w = elim (divide w.miner.hr (boundary now small w.miner.started_at)) [
  | none ↦ none
  | some rate ↦ elim (divide w.total_hr (boundary now large w.miner.started_at)) [
    | none ↦ none
    | some total ↦ some record {
      miner = record w.miner {
        hr = rate;
        offline =
            if ltb_ℤ w.miner.last_beat (wrap64 (now -ℤ quot_ℤ small 2))
            then true
            else w.miner.offline;
      };
      total_hr = total;
    }
  ]
]

pub record WorkersStats : Type 0 where
  pub workers : Assoc Bytes Worker
  pub workers_total : ℕ
  pub workers_online : ℕ
  pub workers_offline : ℕ
  pub hashrate : ℤ
  pub current_hashrate : ℤ

abbrev pub no_workers : WorkersStats
no_workers = record {
  workers = [];
  workers_total = 0;
  workers_online = 0;
  workers_offline = 0;
  hashrate = pos 0;
  current_hashrate = pos 0;
}

-- A worker starts online, so the flag of a rated one says whether it was found to be offline.
abbrev pub add_worker : Bytes → Option Worker → Option WorkersStats → Option WorkersStats
add_worker id none stats = none
add_worker id (some w) none = none
add_worker id (some w) (some s) = some record {
  workers = (id, w) ∷ s.workers;
  workers_total = s.workers_total + 1;
  workers_online = if w.miner.offline then s.workers_online else s.workers_online + 1;
  workers_offline = if w.miner.offline then s.workers_offline + 1 else s.workers_offline;
  hashrate = wrap64 (w.total_hr +ℤ s.hashrate);
  current_hashrate = wrap64 (w.miner.hr +ℤ s.current_hashrate);
}

unfoldable pub rate_workers : ℤ → ℤ → ℤ → Assoc Bytes Worker → Option WorkersStats
unfolding rate_worker
rate_workers now small large [] = some no_workers
rate_workers now small large ((id, w) ∷ ws) =
    add_worker id (rate_worker now small large w) (rate_workers now small large ws)

abbrev pub workers_report : ℤ → ℤ → ℤ → Option (Assoc Bytes Worker) → Outcome WorkersStats
workers_report now small large none = panicked
workers_report now small large (some ws) = or_panic (rate_workers now small large ws)

-- The rows of one reply of a transaction.
abbrev pub rows_at : List Reply → ℕ → List (ℤ × Bytes)
rows_at replies i = elim (get_elem? replies i) [
  | none ↦ []
  | some r ↦ elim r [ rows_reply rows ↦ rows | _ ↦ [] ]
]

-- The commands of CollectWorkersStats, with the windows in seconds.
unfoldable pub workers_queue : Bytes → ℤ → ℤ → Bytes → List Command
workers_queue prefix now large login =
    z_rem_range_by_score (format_key prefix (text (codes "hashrate") ∷ text login ∷ []))
      (codes "-inf") (b'(' ∷ format_int (wrap64 (now -ℤ large)))
    ∷ z_range (format_key prefix (text (codes "hashrate") ∷ text login ∷ [])) (pos 0) (negsuc 0)
    ∷ []

-- `now` is the time that CollectWorkersStats reads, `later` the one that convertWorkersStats does.
abbrev pub report_on :
    {D : Type 0} → ℤ → ℤ → ℤ → ℤ → Option (List Reply) × D → Outcome WorkersStats × D
report_on now later small large (none, db) = (failed, db)
report_on now later small large (some replies, db) =
    (workers_report now small large (convert_workers_stats later small (rows_at replies 1)), db)

module _ (redis : Redis) (prefix : Bytes) where
  unfoldable pub write_node_state : ℤ → Bytes → ℕ → ℤ → redis.Db → Bool × redis.Db
  unfolding node_queue
  write_node_state ms id height diff db = done (redis.exec (node_queue prefix ms id height diff) db)

  unfoldable pub collect_workers_stats :
      ℤ → ℤ → ℤ → ℤ → Bytes → redis.Db → Outcome WorkersStats × redis.Db
  unfolding workers_queue rate_workers
  collect_workers_stats now later small large login db =
      report_on now later small large (redis.exec (workers_queue prefix now large login) db)
