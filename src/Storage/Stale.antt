-- ===== src/Storage/Stale.antt =====
-- storage/redis.go: `FlushStaleStats`, which drops the shares that are out of the windows.
pub mod Log
pub mod Loop
pub mod Once
use xmrpool.Common.{
  ℕ, zero, suc, Bool, true, false, Option, none, some, List, [], ◌∷◌, if◌then◌else◌,
}
use xmrpool.Common.Ints.{ℤ, pos, ◌+ℤ◌, ◌-ℤ◌, eqb_ℤ, quot_ℤ}
use xmrpool.Common.Words.{wrap64}
use xmrpool.Common.Texts.{Bytes, codes, bytes_eq}
use xmrpool.Common.Numbers.{format_int}
use xmrpool.Storage.Types.{text, format_key}
use xmrpool.Storage.Redis.{Redis, Command, z_rem_range_by_score, scan, Reply, int_reply, page_reply}
use xmrpool.Storage.Payees.{login_of}

-- What FlushStaleStats returns: how many members were removed, also beside an error.
pub data Flushed : Type 0 where
  flushed : ℤ → Flushed
  flush_failed : ℤ → Flushed
  flush_panicked : Flushed

-- `fmt.Sprint("(", now-int64(window/time.Second))`; a window is a time.Duration.
unfoldable pub bound_of : ℤ → ℤ → Bytes
bound_of now window = b'(' ∷ format_int (wrap64 (now -ℤ quot_ℤ window 1000000000))

abbrev pub is_member : Bytes → List Bytes → Bool
is_member x [] = false
is_member x (y ∷ ys) = if bytes_eq y x then true else is_member x ys

abbrev pub hashrate_key : Bytes → Bytes → Bytes
hashrate_key prefix login = format_key prefix (text (codes "hashrate") ∷ text login ∷ [])

-- ZREMRANGEBYSCORE from -inf.
abbrev pub removal : Bytes → Bytes → Command
removal key max = z_rem_range_by_score key (codes "-inf") max

abbrev pub stale_scan : Bytes → ℤ → Command
stale_scan prefix c =
    scan c (format_key prefix (text (codes "hashrate") ∷ text (codes "*") ∷ [])) (pos 100)

abbrev pub common_keys : Bytes → List Bytes
common_keys prefix =
    format_key prefix (text (codes "hashrate") ∷ [])
    ∷ format_key prefix (text (codes "invalidhashrate") ∷ [])
    ∷ format_key prefix (text (codes "rejecthashrate") ∷ [])
    ∷ []

-- The loop's own variables: the total and the set `miners`.
pub record Progress : Type 0 where
  pub total : ℤ
  pub miners : List Bytes

-- How a step of the loop ends: early, or with what it goes on with.
pub data Pass : Type 0 where
  stops : Flushed → Pass
  goes_on : Progress → Pass

module _ (redis : Redis) where
  -- A removal that is followed by the rest; any reply but an integer counts as an error.
  abbrev pub add_count : ℤ → Option Reply → Option ℤ
  add_count total (some (int_reply n)) = some (wrap64 (total +ℤ n))
  add_count total _ = none

  module _ (prefix : Bytes) (max : Bytes) where
    -- One login of a page.
    unfoldable pub visit_login : Bytes → Progress → redis.Db → Pass × redis.Db
    visit_login login p db =
        if is_member login p.miners
        then (goes_on p, db)
        else (let (reply, db') = redis.run (removal (hashrate_key prefix login) max) db in
            elim (add_count p.total reply) [
              | none ↦ (stops (flush_failed p.total), db')
              | some total ↦ (goes_on (record { total = total; miners = login ∷ p.miners }), db')
            ])

    abbrev pub pass_on : (Progress → redis.Db → Pass × redis.Db) → Pass × redis.Db → Pass × redis.Db
    pass_on rest (stops result, db) = (stops result, db)
    pass_on rest (goes_on p, db) = rest p db

    -- The rows of a page; a key of fewer than three parts is an index out of range.
    unfoldable pub visit_rows : List Bytes → Progress → redis.Db → Pass × redis.Db
    unfolding visit_login
    visit_rows [] p db = (goes_on p, db)
    visit_rows (row ∷ rows) p db = elim (login_of row) [
      | none ↦ (stops flush_panicked, db)
      | some login ↦ pass_on (λ p' db'. visit_rows rows p' db') (visit_login login p db)
    ]

    -- What a page decides: the loop returns, or goes on from a cursor.
    abbrev pub visit_page : Progress → Option Reply × redis.Db → ℤ × (Pass × redis.Db)
    visit_page p (some (page_reply c rows), db) = (c, visit_rows rows p db)
    visit_page p (_, db) = (pos 0, (stops (flush_failed p.total), db))

    -- Whether the cursor is 0 again.
    abbrev pub end_or_on :
        (ℤ → Progress → redis.Db → Option Flushed × redis.Db)
        → Bool
        → ℤ
        → Progress
        → redis.Db
        → Option Flushed × redis.Db
    end_or_on rest true c p db = (some (flushed p.total), db)
    end_or_on rest false c p db = rest c p db

    abbrev pub next_scan :
        (ℤ → Progress → redis.Db → Option Flushed × redis.Db)
        → ℤ × (Pass × redis.Db)
        → Option Flushed × redis.Db
    next_scan rest (c, (stops result, db)) = (some result, db)
    next_scan rest (c, (goes_on p, db)) = end_or_on rest (eqb_ℤ c (pos 0)) c p db

    -- The loop on fuel; `none` is fuel that ran out.
    unfoldable pub stale_loop : ℕ → ℤ → Progress → redis.Db → Option Flushed × redis.Db
    unfolding visit_rows
    stale_loop zero c p db = (none, db)
    stale_loop (suc fuel) c p db =
        next_scan (λ c' p' db'. stale_loop fuel c' p' db')
          (visit_page p (redis.run (stale_scan prefix c) db))

  -- The return beside an error, or the rest.
  abbrev pub unless_failed :
      ℤ
      → Option ℤ
      → (ℤ → redis.Db → Option Flushed × redis.Db)
      → redis.Db
      → Option Flushed × redis.Db
  unless_failed total none rest db = (some (flush_failed total), db)
  unless_failed total (some total') rest db = rest total' db

  -- The sets that are common to all miners.
  abbrev pub flush_common :
      List Bytes
      → Bytes
      → ℤ
      → (ℤ → redis.Db → Option Flushed × redis.Db)
      → redis.Db
      → Option Flushed × redis.Db
  flush_common [] max total rest db = rest total db
  flush_common (key ∷ keys) max total rest db =
      unless_failed total (add_count total (redis.run (removal key max) db).0)
        (λ total' db'. flush_common keys max total' rest db') (redis.run (removal key max) db).1

  unfoldable pub flush_stale_stats : Bytes → ℤ → ℤ → ℤ → ℕ → redis.Db → Option Flushed × redis.Db
  unfolding stale_loop bound_of
  flush_stale_stats prefix now window large fuel db =
      flush_common (common_keys prefix) (bound_of now window) (pos 0)
        (λ total db'.
          stale_loop prefix (bound_of now large) fuel (pos 0)
            (record { total = total; miners = [] }) db')
        db
