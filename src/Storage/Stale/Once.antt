-- ===== src/Storage/Stale/Once.antt =====
-- FlushStaleStats of storage/redis.go over a server whose iterations end.
use xmrpool.Common.{ℕ, ◌<◌, ◌≡◌, refl, ◌∙◌, Option, some, List, [], ◌∷◌, ◌++◌, map, arith}
use mathlib.Core.List.{reverse}
use xmrpool.Common.Ints.{ℤ, pos, ◌+ℤ◌}
use xmrpool.Common.Words.{wrap64}
use xmrpool.Common.Texts.{Bytes, codes}
use xmrpool.Storage.Types.{text, format_key}
use xmrpool.Storage.Redis.{Redis, int_reply}
use xmrpool.Storage.Stale.{
  Flushed, flushed, bound_of, is_member, hashrate_key, removal, stale_loop, flush_common,
  common_keys, flush_stale_stats,
}
use xmrpool.Storage.Stale.Log.{Scanning, Log, logged, removals, counted, logins_seen, Distinct}
use xmrpool.Storage.Stale.Loop.{stale_loop-Done}

flush_key :
    (redis : Redis) (key max : Bytes) (keys : List Bytes) (total n : ℤ)
    (rest : ℤ → Log × redis.Db → Option Flushed × (Log × redis.Db)) (log : Log) (db : redis.Db)
    → (redis.run (removal key max) db).0 ≡ some (int_reply n)
    → flush_common (logged redis) (key ∷ keys) max total rest (log, db)
      ≡ flush_common
          (logged redis)
          keys
          max
          (wrap64 (total +ℤ n))
          rest
          ((removal key max, some (int_reply n)) ∷ log, (redis.run (removal key max) db).1)
flush_key redis key max keys total n rest log db e = rw e refl

-- What a flush that is complete has done, by the log of the server: the common sets were purged once,
-- and that of every login with a key on some page once, and no other.
pub record Swept (prefix common_max max : Bytes) (log : Log) (total : ℤ) : Type 0 where
  pub logins : List Bytes
  pub once : Distinct logins
  pub sent :
      removals log
      ≡ map (λ login. removal (hashrate_key prefix login) max) logins
        ++ map (λ key. removal key common_max) (reverse (common_keys prefix))
  pub all_seen : (x : Bytes) → is_member x logins ≡ is_member x (logins_seen log)
  pub all_counted : total ≡ counted log

-- Over a server whose commands succeed, whose iterations end, also under removals, and whose keys of
-- shares name a login: FlushStaleStats returns with as many steps as its first iteration has pages at
-- most, and one more. It sends one ZREMRANGEBYSCORE to each of the three common sets, and
-- then one to the set of every login that has a key on a page of the iteration, however often it comes,
-- and no other; and it returns the sum of what these replied, as an int64.
pub flush_stale_stats-Swept :
    (redis : Redis) (prefix : Bytes) (scanning : Scanning redis prefix) (now window large : ℤ)
    (fuel : ℕ) (db : redis.Db)
    → scanning.left (pos 0) db < fuel
    → ((total : ℤ) × (log : Log) × (after : redis.Db) × (flush_stale_stats
            (logged redis)
            prefix
            now
            window
            large
            fuel
            ([], db)
          ≡ (some (flushed total), (log, after)))
        × Swept prefix (bound_of now window) (bound_of now large) log total)
unfolding flush_stale_stats
flush_stale_stats-Swept redis prefix scanning now window large fuel db enough =
    let max = bound_of now window in
    let key1 = format_key prefix (text (codes "hashrate") ∷ []) in
    let key2 = format_key prefix (text (codes "invalidhashrate") ∷ []) in
    let key3 = format_key prefix (text (codes "rejecthashrate") ∷ []) in
    let (n1, replied1, nearer1) = scanning.removed key1 max db in
    let db1 = (redis.run (removal key1 max) db).1 in
    let (n2, replied2, nearer2) = scanning.removed key2 max db1 in
    let db2 = (redis.run (removal key2 max) db1).1 in
    let (n3, replied3, nearer3) = scanning.removed key3 max db2 in
    let db3 = (redis.run (removal key3 max) db2).1 in
    let log : Log =
      (removal key3 max, some (int_reply n3))
      ∷ (removal key2 max, some (int_reply n2))
      ∷ (removal key1 max, some (int_reply n1))
      ∷ [] in
    let rest : ℤ → Log × redis.Db → Option Flushed × (Log × redis.Db) = λ total s.
      stale_loop (logged redis) prefix (bound_of now large) fuel (pos 0)
        (record { total = total; miners = [] }) s in
    let result =
      stale_loop-Done redis prefix scanning (bound_of now large)
        (removal key3 max ∷ removal key2 max ∷ removal key1 max ∷ []) fuel (pos 0)
        (record { total = wrap64 (wrap64 (wrap64 (pos 0 +ℤ n1) +ℤ n2) +ℤ n3); miners = [] }) log db3
        (omega (arith, nearer1 (pos 0), nearer2 (pos 0), nearer3 (pos 0), enough))
        (record { once = tt; sent = refl; seen = λ x. refl; total = refl }) in
    (
      result.progress.total,
      result.log,
      result.after,
      flush_key redis key1 max (key2 ∷ key3 ∷ []) (pos 0) n1 rest [] db replied1
          ∙ flush_key redis key2 max (key3 ∷ []) _ n2 rest _ db1 replied2
          ∙ flush_key redis key3 max [] _ n3 rest _ db2 replied3
          ∙ result.returned,
      record {
        logins = result.progress.miners;
        once = result.accounts.once;
        sent = result.accounts.sent;
        all_seen = result.accounts.seen;
        all_counted = result.accounts.total;
      },
    )
