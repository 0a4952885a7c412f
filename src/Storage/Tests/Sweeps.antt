-- ===== src/Storage/Tests/Sweeps.antt =====
-- A run of FlushStaleStats.
use xmrpool.Common.{
  ◌<◌, ◌≡◌, refl, Bool, true, false, Option, none, some, List, [], ◌∷◌, arith, if◌then◌else◌,
  Bool-cases, inl, inr,
}
use xmrpool.Common.Ints.{ℤ, pos, eqb_ℤ}
use xmrpool.Common.Texts.{codes}
use xmrpool.Storage.Redis.{Redis, Command, scan, Reply, int_reply, page_reply}
use xmrpool.Storage.Payees.{login_of}
use xmrpool.Storage.Stale.{flushed, bound_of, flush_stale_stats}
use xmrpool.Storage.Stale.Log.{Scanning, Log, logged}
use xmrpool.Storage.Stale.Once.{Swept, flush_stale_stats-Swept}

abbrev page_at : Bool → Reply
page_at true = page_reply (pos 5) (codes "xmr:hashrate:a" ∷ codes "xmr:hashrate:b" ∷ [])
page_at false = page_reply (pos 0) (codes "xmr:hashrate:a" ∷ [])

abbrev answer : Command → Reply
answer (scan c pattern n) = page_at (eqb_ℤ c (pos 0))
answer _ = int_reply (pos 2)

-- Two pages of keys, one of them on both.
abbrev two_pages : Redis
two_pages = record { Db = Unit; run = λ c db. (some (answer c), db); exec = λ cs db. (none, db) }

scanning : Scanning two_pages (codes "xmr")
unfolding login_of xmrpool.Common.Strings.split
scanning = record {
  left = λ c db. if eqb_ℤ c (pos 0) then 1 else 0;
  page = λ c db. elim (Bool-cases (eqb_ℤ c (pos 0))) [
    | inl first ↦ rw first (
      pos 5,
      codes "xmr:hashrate:a" ∷ codes "xmr:hashrate:b" ∷ [],
      refl,
      ((codes "a", refl), ((codes "b", refl), tt)),
      λ e. omega arith,
    )
    | inr later ↦
        rw later (pos 0, codes "xmr:hashrate:a" ∷ [], refl, ((codes "a", refl), tt), λ e. cc)
  ];
  removed = λ key max db. (pos 2, refl, λ c. omega arith);
}

flush_stale_stats-Swept_example :
    (total : ℤ) × (log : Log) × (after : Unit {0}) × (flush_stale_stats
        (logged two_pages)
        (codes "xmr")
        (pos 1000)
        (pos 60000000000)
        (pos 600000000000)
        2
        ([], tt)
      ≡ (some (flushed total), (log, after)))
    × Swept
        (codes "xmr")
        (bound_of (pos 1000) (pos 60000000000))
        (bound_of (pos 1000) (pos 600000000000))
        log
        total
unfolding scanning
flush_stale_stats-Swept_example =
    flush_stale_stats-Swept two_pages (codes "xmr") scanning (pos 1000) (pos 60000000000)
      (pos 600000000000) 2 tt (omega arith)
