-- ===== src/Storage/Reports/Counted.antt =====
-- What a report of CollectWorkersStats in storage/redis.go counts and sums up.
use xmrpool.Common.{
  ℕ, suc, ◌+◌, ◌≡◌, refl, ap, ◌∙◌, arith, Bool, true, false, Option, none, some, List, [], ◌∷◌,
  if◌then◌else◌, length, map, All, Bool-cases, Option-cases, inl, inr,
}
use mathlib.Core.Path.{subst}
use xmrpool.Common.Ints.{ℤ, pos, ◌+ℤ◌, ◌-ℤ◌, quot_ℤ, ltb_ℤ}
use xmrpool.Common.Words.{wrap64}
use xmrpool.Common.Assoc.{Assoc, bytes_key, lookup, insert, All-insert}
use xmrpool.Common.Texts.{Bytes, bytes_eq}
use xmrpool.Storage.Types.{Outcome, returned, failed, panicked, or_panic}
use xmrpool.Storage.Redis.{Redis, Reply}
use xmrpool.Storage.Stats.{
  ShareRow, share_row, Worker, zero_worker, add_to_worker, known, gather, boundary, divide,
  convert_workers_stats,
}
use xmrpool.Storage.Reports.{
  WorkersStats, no_workers, rate_worker, add_worker, rate_workers, rows_at, workers_queue,
  report_on, collect_workers_stats,
}

-- How many workers were last seen before a time.
abbrev pub count_before : ℤ → Assoc Bytes Worker → ℕ
count_before time [] = 0
count_before time ((id, w) ∷ ws) =
    let n = count_before time ws in if ltb_ℤ w.miner.last_beat time then suc n else n

-- The sum of the workers' rates, on int64.
abbrev pub sum_rates : (Worker → ℤ) → Assoc Bytes Worker → ℤ
sum_rates rate [] = pos 0
sum_rates rate ((id, w) ∷ ws) = wrap64 (rate w +ℤ sum_rates rate ws)

-- A report on workers, of which those that were not seen since `time` are offline.
pub record IsCounted (time : ℤ) (workers : Assoc Bytes Worker) (s : WorkersStats) : Type 0 where
  pub names : map (λ x. x.0) s.workers ≡ map (λ x. x.0) workers
  pub beats : map (λ x. x.1.miner.last_beat) s.workers ≡ map (λ x. x.1.miner.last_beat) workers
  pub flags : All (λ x. x.1.miner.offline ≡ ltb_ℤ x.1.miner.last_beat time) s.workers
  pub offline : s.workers_offline ≡ count_before time s.workers
  pub online : s.workers_online + s.workers_offline ≡ length s.workers
  pub total : s.workers_total ≡ length s.workers
  pub hashrate : s.hashrate ≡ sum_rates (λ w. w.total_hr) s.workers
  pub current_hashrate : s.current_hashrate ≡ sum_rates (λ w. w.miner.hr) s.workers

-- The workers of a reply, and the report on them.
pub record Reported (now later small : ℤ) (replies : List Reply) (s : WorkersStats) : Type 0 where
  pub workers : Assoc Bytes Worker
  pub converted : convert_workers_stats later small (rows_at replies 1) ≡ some workers
  pub counted : IsCounted (wrap64 (now -ℤ quot_ℤ small 2)) workers s

known-lookup :
    {W : Type 0} (P : W → Type 0) (empty : W) (id : Bytes) (m : Assoc Bytes W)
    → P empty
    → All (λ (x : Bytes × W). P x.1) m
    → P (known empty (lookup id m))
unfolding lookup
known-lookup P empty id [] base h = base
known-lookup P empty id ((j, w) ∷ m) base h = elim (Bool-cases (bytes_eq j id)) [
  | inl here ↦ rw here h.0
  | inr there ↦ rw there (known-lookup P empty id m base h.1)
]

-- A property of the values that adding a row keeps holds of all that are gathered.
gather-All :
    {W : Type 0} (P : W → Type 0) (empty : W) (add : ShareRow → W → W) (rows : List (ℤ × Bytes))
    (m r : Assoc Bytes W)
    → P empty
    → ((s : ShareRow) (w : W) → P w → P (add s w))
    → All (λ (x : Bytes × W). P x.1) m
    → gather empty add rows m ≡ some r
    → All (λ (x : Bytes × W). P x.1) r
unfolding gather
gather-All {W} P empty add [] m r base step h e =
    subst (λ (x : Assoc Bytes W). All (λ (y : Bytes × W). P y.1) x)
      (ap (λ (o : Option (Assoc Bytes W)). known m o) e) h
gather-All {W} P empty add (row ∷ rows) m r base step h e = elim (Option-cases (share_row row)) [
  | inl none_there ↦ let wrong = rw none_there at e in cc
  | inr (s, found) ↦
      gather-All P empty add rows (insert s.id (add s (known empty (lookup s.id m))) m) r base step
        (All-insert (λ (x : Bytes × W). P x.1) s.id (add s (known empty (lookup s.id m))) m
          (step s (known empty (lookup s.id m)) (known-lookup P empty s.id m base h)) h)
        (rw found at e)
]

abbrev IsOnline : Worker → Type 0
IsOnline w = w.miner.offline ≡ false

-- The workers that a report starts from are not marked offline.
convert_workers_stats-IsOnline :
    (later small : ℤ) (rows : List (ℤ × Bytes)) (workers : Assoc Bytes Worker)
    → convert_workers_stats later small rows ≡ some workers
    → All (λ (x : Bytes × Worker). IsOnline x.1) workers
unfolding convert_workers_stats add_to_worker
convert_workers_stats-IsOnline later small rows workers e =
    gather-All IsOnline zero_worker (add_to_worker (wrap64 (later -ℤ small))) rows [] workers refl
      (λ s w h. h) tt e

-- A worker that is rated: the flag, by when it was last seen.
record Rated (time : ℤ) (w rated : Worker) : Type 0 where
  beat : rated.miner.last_beat ≡ w.miner.last_beat
  flag : rated.miner.offline ≡ ltb_ℤ rated.miner.last_beat time

marked : (late offline : Bool) → offline ≡ false → (if late then true else offline) ≡ late
marked true offline h = refl
marked false offline h = h

rate_worker-Rated :
    (now small large : ℤ) (w rated : Worker)
    → IsOnline w
    → rate_worker now small large w ≡ some rated
    → Rated (wrap64 (now -ℤ quot_ℤ small 2)) w rated
unfolding rate_worker
rate_worker-Rated now small large w rated on e =
    elim (Option-cases (divide w.miner.hr (boundary now small w.miner.started_at))) [
      | inl none_there ↦ let wrong = rw (rate_worker, none_there) at e in cc
      | inr (rate, is_rate) ↦
          elim (Option-cases (divide w.total_hr (boundary now large w.miner.started_at))) [
            | inl none_there ↦ let wrong = rw (rate_worker, is_rate, none_there) at e in cc
            | inr (total, is_total) ↦
                subst (λ (x : Worker). Rated (wrap64 (now -ℤ quot_ℤ small 2)) w x)
                  (ap (λ (o : Option Worker). known w o) (rw (rate_worker, is_rate, is_total) at e))
                  (record { beat = refl; flag = marked _ w.miner.offline on })
          ]
    ]

module _ (now small large : ℤ) where
  abbrev time : ℤ
  time = wrap64 (now -ℤ quot_ℤ small 2)

  add_worker-IsCounted :
      (id : Bytes) (w rated : Worker) (ws : Assoc Bytes Worker) (t : WorkersStats)
      → Rated time w rated
      → IsCounted time ws t
      → IsCounted time ((id, w) ∷ ws) (known no_workers (add_worker id (some rated) (some t)))
  add_worker-IsCounted id w rated ws t r h = record {
    names = ap (λ (xs : List Bytes). id ∷ xs) h.names;
    beats =
        ap (λ (x : ℤ). x ∷ map (λ (y : Bytes × Worker). y.1.miner.last_beat) t.workers) r.beat
        ∙ ap (λ (xs : List ℤ). w.miner.last_beat ∷ xs) h.beats;
    flags = (r.flag, h.flags);
    offline = ground (arith, r.flag, h.offline);
    online = ground (arith, h.online);
    total = omega (arith, h.total);
    hashrate = ap (λ (x : ℤ). wrap64 (rated.total_hr +ℤ x)) h.hashrate;
    current_hashrate = ap (λ (x : ℤ). wrap64 (rated.miner.hr +ℤ x)) h.current_hashrate;
  }

  rate_workers-IsCounted :
      (ws : Assoc Bytes Worker) (s : WorkersStats)
      → All (λ (x : Bytes × Worker). IsOnline x.1) ws
      → rate_workers now small large ws ≡ some s
      → IsCounted time ws s
  unfolding rate_workers
  rate_workers-IsCounted [] s on e =
      subst (λ (x : WorkersStats). IsCounted time [] x)
        (ap (λ (o : Option WorkersStats). known no_workers o) e)
        (record {
          names = refl;
          beats = refl;
          flags = tt;
          offline = refl;
          online = refl;
          total = refl;
          hashrate = refl;
          current_hashrate = refl;
        })
  rate_workers-IsCounted ((id, w) ∷ ws) s on e =
      elim (Option-cases (rate_worker now small large w)) [
        | inl none_there ↦ let wrong = rw none_there at e in cc
        | inr (rated, is_rated) ↦ elim (Option-cases (rate_workers now small large ws)) [
          | inl none_there ↦ let wrong = rw (is_rated, none_there) at e in cc
          | inr (t, rest) ↦
              subst (λ (x : WorkersStats). IsCounted time ((id, w) ∷ ws) x)
                (ap (λ (o : Option WorkersStats). known no_workers o) (rw (is_rated, rest) at e))
                (add_worker-IsCounted id w rated ws t
                  (rate_worker-Rated now small large w rated on.0 is_rated)
                  (rate_workers-IsCounted ws t on.1 rest))
        ]
      ]

or_panic-returned :
    (o : Option WorkersStats) (s : WorkersStats) → or_panic o ≡ returned s → o ≡ some s
or_panic-returned none s e = cc
or_panic-returned (some t) s e = ap (λ (x : Outcome WorkersStats). stats_of x) e
  where
    stats_of : Outcome WorkersStats → Option WorkersStats
    stats_of (returned x) = some x
    stats_of failed = none
    stats_of panicked = none

report_on-Reported :
    {D : Type 0} (now later small large : ℤ) (r : Option (List Reply) × D) (s : WorkersStats)
    → (report_on now later small large r).0 ≡ returned s
    → (replies : List Reply) × (r.0 ≡ some replies) × Reported now later small replies s
report_on-Reported now later small large (none, db) s e = cc
report_on-Reported now later small large (some replies, db) s e =
    elim (Option-cases (convert_workers_stats later small (rows_at replies 1))) [
      | inl unread ↦ let wrong = rw unread at e in cc
      | inr (ws, read) ↦ (
        replies,
        refl,
        record {
          workers = ws;
          converted = read;
          counted =
              rate_workers-IsCounted now small large ws s
                (convert_workers_stats-IsOnline later small (rows_at replies 1) ws read)
                (or_panic-returned (rate_workers now small large ws) s (rw read at e));
        },
      )
    ]

-- Where CollectWorkersStats returns a report, the transaction succeeded, and the report has just the
-- workers that convertWorkersStats makes of the rows in its second reply, in their order and with their
-- last beats. A worker is marked offline exactly if its last beat is before the time by half the small
-- window; the offline counter is the number of these workers, the online counter that of the others, and
-- the total that of all; and the two hashrates are the sums of the workers' rates, on int64.
pub collect_workers_stats-IsCounted :
    (redis : Redis) (prefix : Bytes) (now later small large : ℤ) (login : Bytes) (db : redis.Db)
    (s : WorkersStats)
    → (collect_workers_stats redis prefix now later small large login db).0 ≡ returned s
    → ((replies : List Reply) × ((redis.exec (workers_queue prefix now large login) db).0
          ≡ some replies)
        × Reported now later small replies s)
unfolding collect_workers_stats
collect_workers_stats-IsCounted redis prefix now later small large login db s e =
    report_on-Reported now later small large (redis.exec (workers_queue prefix now large login) db)
      s e
