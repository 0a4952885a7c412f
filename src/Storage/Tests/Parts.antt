-- ===== src/Storage/Tests/Parts.antt =====
-- Runs of the reports and of the credits of one block.
use xmrpool.Common.{ℕ, ◌≡◌, refl, Bool, true, false, Option, none, some, List, [], ◌∷◌, arith}
use xmrpool.Common.Ints.{ℤ, pos, ◌+ℤ◌, ◌-ℤ◌}
use xmrpool.Common.Words.{wrap64}
use xmrpool.Common.Assoc.{Assoc, lookup, bytes_key}
use xmrpool.Common.Texts.{Bytes, codes}
use xmrpool.Storage.Types.{returned, BlockData, zero_block}
use xmrpool.Storage.Redis.{Redis, Reply, int_reply, rows_reply, net}
use xmrpool.Storage.Blocks.{
  Credits, immature_queue, orphan_queue, matured_queue, immature_log, parsed,
}
use xmrpool.Storage.Books.Undo.{logged}
use xmrpool.Storage.Books.Taken.{is_hash_of, immature_queue-Taken}
use xmrpool.Storage.Stats.{Worker, zero_worker, add_to_worker, convert_workers_stats, ShareRow}
use xmrpool.Storage.Gathered.{own_rows, convert_workers_stats-own_rows}
use xmrpool.Storage.Reports.{WorkersStats, workers_queue, collect_workers_stats}
use xmrpool.Storage.Reports.Counted.{Reported, collect_workers_stats-IsCounted}

abbrev prefix : Bytes
prefix = codes "xmr"

abbrev rewards : Credits
rewards = (codes "a", pos 20) ∷ (codes "b", pos 10) ∷ []

abbrev block : BlockData
block = record zero_block { height = pos 5; round_height = pos 5; hash = codes "c0ffee" }

immature_queue-Taken_example :
    (net (is_hash_of prefix (codes "a")) (codes "immature") (immature_queue prefix block rewards)
        +ℤ net (is_hash_of prefix (codes "a")) (codes "immature") (
            orphan_queue prefix block (
              parsed (
                logged
                  (immature_log prefix (pos 5) (codes "c0ffee"))
                  (immature_queue prefix block rewards))))
      ≡ pos 0)
    × (net (is_hash_of prefix (codes "a")) (codes "immature") (immature_queue prefix block rewards)
          +ℤ net (is_hash_of prefix (codes "a")) (codes "immature") (
              matured_queue prefix
                (pos 7000)
                block
                (pos 30)
                (parsed (
                  logged
                    (immature_log prefix (pos 5) (codes "c0ffee"))
                    (immature_queue prefix block rewards)))
                rewards)
        ≡ pos 0)
immature_queue-Taken_example =
    immature_queue-Taken prefix (codes "a") (pos 7000) block block (pos 30) rewards rewards
      (refl, (refl, _)) (omega arith)

-- Two workers' rows, one between the other's two.
abbrev rows : List (ℤ × Bytes)
rows =
    (pos 100, codes "30:rig1:100000")
    ∷ (pos 150, codes "40:rig2:150000")
    ∷ (pos 190, codes "50:rig1:190000")
    ∷ []

abbrev collected : Assoc Bytes Worker
collected =
    (
      codes "rig1",
      record {
        miner = record { last_beat = pos 190; hr = pos 50; offline = false; started_at = pos 100 };
        total_hr = pos 80;
      },
    )
    ∷ (
      codes "rig2",
      record {
        miner = record { last_beat = pos 150; hr = pos 0; offline = false; started_at = pos 150 };
        total_hr = pos 40;
      },
    )
    ∷ []

collects_both : convert_workers_stats (pos 200) (pos 20) rows ≡ some collected
unfolding convert_workers_stats xmrpool.Storage.Stats.gather xmrpool.Storage.Stats.share_row
    xmrpool.Storage.Stats.read_share xmrpool.Storage.Stats.add_to_worker
    xmrpool.Common.Strings.split xmrpool.Common.Numbers.parse_int xmrpool.Common.Numbers.scan wrap64
    ◌+ℤ◌ ◌-ℤ◌ lookup xmrpool.Common.Assoc.insert
collects_both = refl

convert_workers_stats-own_rows_example :
    lookup (codes "rig1") collected
    ≡ own_rows zero_worker (add_to_worker (wrap64 (pos 200 -ℤ pos 20))) (codes "rig1") rows none
convert_workers_stats-own_rows_example =
    convert_workers_stats-own_rows (pos 200) (pos 20) rows collected (codes "rig1") collects_both

abbrev row_server : Redis
row_server = record {
  Db = Unit;
  run = λ c db. (none, db);
  exec = λ cs db. (some (int_reply (pos 0) ∷ rows_reply rows ∷ []), db);
}

abbrev report : WorkersStats
report = record {
  workers =
      (
        codes "rig1",
        record {
          miner = record { last_beat = pos 190; hr = pos 2; offline = false; started_at = pos 100 };
          total_hr = pos 0;
        },
      )
      ∷ (
        codes "rig2",
        record {
          miner = record { last_beat = pos 150; hr = pos 0; offline = true; started_at = pos 150 };
          total_hr = pos 0;
        },
      )
      ∷ [];
  workers_total = 2;
  workers_online = 1;
  workers_offline = 1;
  hashrate = pos 0;
  current_hashrate = pos 2;
}

reports_both :
    (collect_workers_stats row_server prefix
      (pos 200)
      (pos 200)
      (pos 20)
      (pos 3600)
      (codes "a")
      _).0
    ≡ returned report
unfolding collect_workers_stats convert_workers_stats xmrpool.Storage.Stats.gather
    xmrpool.Storage.Stats.share_row xmrpool.Storage.Stats.read_share
    xmrpool.Storage.Stats.add_to_worker xmrpool.Common.Strings.split
    xmrpool.Common.Numbers.parse_int xmrpool.Common.Numbers.scan wrap64 ◌+ℤ◌ ◌-ℤ◌ lookup
    xmrpool.Common.Assoc.insert xmrpool.Storage.Reports.rate_workers
    xmrpool.Storage.Reports.rate_worker
reports_both = refl

collect_workers_stats-IsCounted_example :
    (replies : List Reply) × ((row_server.exec
        (workers_queue prefix (pos 200) (pos 3600) (codes "a"))
        _).0
      ≡ some replies)
    × Reported (pos 200) (pos 200) (pos 20) replies report
collect_workers_stats-IsCounted_example =
    collect_workers_stats-IsCounted row_server prefix (pos 200) (pos 200) (pos 20) (pos 3600)
      (codes "a") _ report reports_both
