-- ===== src/Storage/Stale/Loop.antt =====
-- The loop of FlushStaleStats in storage/redis.go: what it has sent and counted after each step.
use xmrpool.Common.{
  ℕ, zero, suc, ◌≤◌, ◌<◌, ◌≡◌, refl, ap, ◌||◌, Option, none, some, List, [], ◌∷◌, ◌++◌, map, All,
  arith, Bool-cases, inl, inr,
}
use mathlib.Core.Path.{subst}
use xmrpool.Common.Ints.{ℤ, pos, ◌+ℤ◌, eqb_ℤ}
use xmrpool.Common.Words.{wrap64}
use xmrpool.Common.Texts.{Bytes}
use xmrpool.Storage.Redis.{Redis, Command, page_reply}
use xmrpool.Storage.Stale.{
  Flushed, flushed, is_member, hashrate_key, removal, stale_scan, Progress, Pass, goes_on,
  visit_login, visit_rows, stale_loop,
}
use xmrpool.Storage.Stale.Log.{
  HasLogin, Scanning, Log, logged, removals, counted, logins_of, logins_seen, Distinct,
  is_member-append, is_member-same,
}

-- How the log accounts for the loop's variables, while the logins of `pending` are still to be visited
-- and the removals of `base` went before.
pub record Accounts (prefix max : Bytes) (base : List Command) (pending : List Bytes) (log : Log)
    (p : Progress) : Type 0 where
  pub once : Distinct p.miners
  pub sent : removals log ≡ map (λ login. removal (hashrate_key prefix login) max) p.miners ++ base
  pub seen :
      (x : Bytes) → (is_member x pending || is_member x p.miners) ≡ is_member x (logins_seen log)
  pub total : p.total ≡ counted log

module _ (redis : Redis) (prefix : Bytes) (scanning : Scanning redis prefix) (max : Bytes)
    (base : List Command) where
  -- What a step of the loop that goes on leaves.
  record Went (pending : List Bytes) (db : redis.Db) (r : Pass × (Log × redis.Db)) : Type 0 where
    progress : Progress
    log : Log
    after : redis.Db
    went : r ≡ (goes_on progress, (log, after))
    accounts : Accounts prefix max base pending log progress
    nearer : (c : ℤ) → scanning.left c after ≤ scanning.left c db

  visit_login-Went :
      (login : Bytes) (pending : List Bytes) (p : Progress) (log : Log) (db : redis.Db)
      → Accounts prefix max base (login ∷ pending) log p
      → Went pending db (visit_login (logged redis) prefix max login p (log, db))
  unfolding visit_login
  visit_login-Went login pending p log db a = elim (Bool-cases (is_member login p.miners)) [
    | inl old ↦ rw old (record {
      progress = p;
      log = log;
      after = db;
      went = refl;
      accounts = record {
        once = a.once;
        sent = a.sent;
        total = a.total;
        seen = λ x. ground (arith, a.seen x, is_member-same login x p.miners, old);
      };
      nearer = λ c. omega arith;
    })
    | inr fresh ↦
        (let (n, replied, nearer) = scanning.removed (hashrate_key prefix login) max db in
          rw (fresh, replied)
            (record {
              progress = record { total = wrap64 (p.total +ℤ n); miners = login ∷ p.miners };
              log =
                  (
                    removal (hashrate_key prefix login) max,
                    (redis.run (removal (hashrate_key prefix login) max) db).0,
                  )
                  ∷ log;
              after = (redis.run (removal (hashrate_key prefix login) max) db).1;
              went = refl;
              accounts = record {
                once = (fresh, a.once);
                sent =
                    ap (λ (cs : List Command). removal (hashrate_key prefix login) max ∷ cs) a.sent;
                total = rw replied (ap (λ (t : ℤ). wrap64 (t +ℤ n)) a.total);
                seen = λ x. ground (arith, a.seen x);
              };
              nearer = nearer;
            }))
  ]

  visit_rows-Went :
      (rows : List Bytes) (p : Progress) (log : Log) (db : redis.Db)
      → All HasLogin rows
      → Accounts prefix max base (logins_of rows) log p
      → Went [] db (visit_rows (logged redis) prefix max rows p (log, db))
  unfolding visit_rows
  visit_rows-Went [] p log db parts a = record {
    progress = p;
    log = log;
    after = db;
    went = refl;
    accounts = a;
    nearer = λ c. omega arith;
  }
  visit_rows-Went (row ∷ rows) p log db ((login, is), parts) a =
      let first = visit_login-Went login (logins_of rows) p log db (
        subst
          (λ (o : Option Bytes).
            Accounts prefix max base
              (elim o [ none ↦ logins_of rows | some l ↦ l ∷ logins_of rows ]) log p)
          is a) in
      let rest = visit_rows-Went rows first.progress first.log first.after parts first.accounts in
      rw (is, visit_rows, first.went)
        (record {
          progress = rest.progress;
          log = rest.log;
          after = rest.after;
          went = rest.went;
          accounts = rest.accounts;
          nearer = λ c. omega (arith, first.nearer c, rest.nearer c);
        })

  -- What the loop leaves that returns.
  pub record Done (r : Option Flushed × (Log × redis.Db)) : Type 0 where
    pub progress : Progress
    pub log : Log
    pub after : redis.Db
    pub returned : r ≡ (some (flushed progress.total), (log, after))
    pub accounts : Accounts prefix max base [] log progress

  pub stale_loop-Done :
      (fuel : ℕ) (c : ℤ) (p : Progress) (log : Log) (db : redis.Db)
      → scanning.left c db < fuel
      → Accounts prefix max base [] log p
      → Done (stale_loop (logged redis) prefix max fuel c p (log, db))
  unfolding stale_loop
  stale_loop-Done zero c p log db enough a = absurd (omega arith)
  stale_loop-Done (suc fuel) c p log db enough a =
      let (c', rows, page, parts, fewer) = scanning.page c db in
      let scanned = (redis.run (stale_scan prefix c) db).1 in
      let log1 : Log = (stale_scan prefix c, some (page_reply c' rows)) ∷ log in
      let went = visit_rows-Went rows p log1 scanned parts (record {
        once = a.once;
        sent = a.sent;
        total = a.total;
        seen = λ x. ground (arith, a.seen x, is_member-append x (logins_of rows) (logins_seen log));
      }) in
      elim (Bool-cases (eqb_ℤ c' (pos 0))) [
        | inl last ↦
            rw (page, went.went, last)
              (record {
                progress = went.progress;
                log = went.log;
                after = went.after;
                returned = refl;
                accounts = went.accounts;
              })
        | inr more ↦
            (let rest =
                stale_loop-Done fuel c' went.progress went.log went.after
                  (omega (arith, fewer more, went.nearer c')) went.accounts in
              rw (page, went.went, more) rest)
      ]
