-- ===== src/Storage/Ledger/Steps.antt =====
-- storage/redis.go: any sequence of writes keeps the books of the miners and the finances in agreement.
use xmrpool.Common.{ℕ, ◌^◌, ◌<◌, ◌≡◌, refl, Bool, true, false, some, List}
use xmrpool.Common.Ints.{ℤ}
use xmrpool.Common.Texts.{Bytes}
use xmrpool.Common.Strings.{join_parts}
use xmrpool.Storage.Types.{render, join, returned, BlockData}
use xmrpool.Storage.Redis.{Redis, Sums}
use xmrpool.Storage.Payments.{
  lock_key, update_balance, rollback_balance, write_payment, lock_payouts, unlock_payouts,
}
use xmrpool.Storage.Shares.{write_share, write_invalid_share, write_reject_share, write_block}
use xmrpool.Storage.Blocks.{
  Credits, parsed, read_log, write_immature_block, write_matured_block, write_orphan,
  write_pending_orphans,
}
use xmrpool.Storage.Books.{is_miner, is_finances, is_miner-format_key, is_finances-format_key}
use xmrpool.Storage.Books.Credits.{AreCredits, sum_of}
use xmrpool.Storage.Books.Payments.{
  update_queue-IsBalanced, rollback_queue-IsBalanced, payment_queue-IsBalanced,
}
use xmrpool.Storage.Books.Queues.{immature_queue-IsBalanced, orphans_queue-IsBalanced}
use xmrpool.Storage.Ledger.{IsBooked, run-IsBooked, exec-IsBooked, done_database}
use xmrpool.Storage.Ledger.Writes.{
  write_share-IsBooked, write_block-IsBooked, write_matured_block-IsBooked, write_orphan-IsBooked,
}

-- Amounts that are not negative and sum up to an int64.
abbrev pub AreRewards : Credits → Type 0
AreRewards cs = AreCredits cs × (sum_of cs < 2 ^ 63)

-- One write that succeeded; the rewards of a round, and its log where it is read, are amounts that
-- are not negative and sum up to an int64.
pub data Step (redis : Redis) (prefix : Bytes) : redis.Db → redis.Db → Type 0 where
  share :
      (ms : ℤ) (login id : Bytes) (params : List Bytes) (diff : ℤ) (height : ℕ) (window : ℤ)
      (b : Bool) (db db' : redis.Db)
      → write_share redis prefix ms login id params diff height window db ≡ (returned b, db')
      → Step redis prefix db db'
  invalid_share :
      (ms ts : ℤ) (login id : Bytes) (diff : ℤ) (db : redis.Db)
      → Step redis prefix db (write_invalid_share redis prefix ms ts login id diff db).1
  reject_share :
      (ms ts : ℤ) (login id : Bytes) (diff : ℤ) (db : redis.Db)
      → Step redis prefix db (write_reject_share redis prefix ms ts login id diff db).1
  block :
      (ms : ℤ) (login id : Bytes) (params : List Bytes) (diff round_diff : ℤ) (height : ℕ)
      (value fee window : ℤ) (b : Bool) (db db' : redis.Db)
      → write_block redis prefix ms login id params diff round_diff height value fee window db
        ≡ (returned b, db')
      → Step redis prefix db db'
  update :
      (ms : ℤ) (login : Bytes) (amount : ℤ) (db db' : redis.Db)
      → update_balance redis prefix ms login amount db ≡ (true, db')
      → Step redis prefix db db'
  rollback :
      (login : Bytes) (amount : ℤ) (db db' : redis.Db)
      → rollback_balance redis prefix login amount db ≡ (true, db')
      → Step redis prefix db db'
  payment :
      (ms : ℤ) (login tx_hash : Bytes) (amount : ℤ) (db db' : redis.Db)
      → write_payment redis prefix ms login tx_hash amount db ≡ (true, db')
      → Step redis prefix db db'
  lock :
      (login : Bytes) (amount : ℤ) (db : redis.Db)
      → Step redis prefix db (lock_payouts redis prefix login amount db).1
  unlock : (db : redis.Db) → Step redis prefix db (unlock_payouts redis prefix db).1
  immature_block :
      (b : BlockData) (rewards : Credits) (db db' : redis.Db)
      → AreRewards rewards
      → write_immature_block redis prefix b rewards db ≡ (true, db')
      → Step redis prefix db db'
  pending_orphans :
      (blocks : List BlockData) (db db' : redis.Db)
      → write_pending_orphans redis prefix blocks db ≡ (true, db')
      → Step redis prefix db db'
  matured_block :
      (ms : ℤ) (b : BlockData) (rewards : Credits) (log : List (Bytes × Bytes)) (db db' : redis.Db)
      (u : Unit)
      → AreRewards rewards
      → (read_log redis prefix b db).0 ≡ some log
      → AreRewards (parsed log)
      → write_matured_block redis prefix ms b rewards db ≡ (returned u, db')
      → Step redis prefix db db'
  orphaned_block :
      (b : BlockData) (log : List (Bytes × Bytes)) (db db' : redis.Db)
      → (read_log redis prefix b db).0 ≡ some log
      → AreRewards (parsed log)
      → write_orphan redis prefix b db ≡ (true, db')
      → Step redis prefix db db'

pub data Steps (redis : Redis) (prefix : Bytes) : redis.Db → redis.Db → Type 0 where
  stop : (db : redis.Db) → Steps redis prefix db db
  next :
      (db db1 db2 : redis.Db)
      → Step redis prefix db db1
      → Steps redis prefix db1 db2
      → Steps redis prefix db db2

module _ (redis : Redis) (sums : Sums redis) (prefix : Bytes) where
  lock_key-outside :
      (is_miner prefix (lock_key prefix) ≡ false) × (is_finances prefix (lock_key prefix) ≡ false)
  unfolding join join_parts render
  lock_key-outside = (simp is_miner-format_key, simp is_finances-format_key)

  step-IsBooked :
      (db db' : redis.Db)
      → Step redis prefix db db'
      → IsBooked redis sums prefix db
      → IsBooked redis sums prefix db'
  unfolding write_invalid_share write_reject_share update_balance rollback_balance write_payment
      lock_payouts unlock_payouts write_immature_block write_pending_orphans
  step-IsBooked _ _ (share ms login id params diff height window b db db' e) h =
      write_share-IsBooked redis sums prefix ms login id params diff height window db db' b e h
  step-IsBooked _ _ (invalid_share ms ts login id diff db) h =
      rw (done_database _) (run-IsBooked redis sums prefix _ db (λ a. (refl, refl, refl, refl)) h)
  step-IsBooked _ _ (reject_share ms ts login id diff db) h =
      rw (done_database _) (run-IsBooked redis sums prefix _ db (λ a. (refl, refl, refl, refl)) h)
  step-IsBooked _ _ (block ms login id params diff round_diff height value fee window b db db' e)
        h =
      write_block-IsBooked redis sums prefix ms login id params diff round_diff height value fee
        window db db' b e h
  step-IsBooked _ _ (update ms login amount db db' e) h =
      exec-IsBooked redis sums prefix _ db db' (update_queue-IsBalanced prefix ms login amount) e h
  step-IsBooked _ _ (rollback login amount db db' e) h =
      exec-IsBooked redis sums prefix _ db db' (rollback_queue-IsBalanced prefix login amount) e h
  step-IsBooked _ _ (payment ms login tx_hash amount db db' e) h =
      exec-IsBooked redis sums prefix _ db db'
        (payment_queue-IsBalanced prefix ms login tx_hash amount) e h
  step-IsBooked _ _ (lock login amount db) h =
      run-IsBooked redis sums prefix _ db (λ a. (refl, refl, refl, refl)) h
  step-IsBooked _ _ (unlock db) h =
      let (outside, outside') = lock_key-outside in
      rw (done_database _)
        (run-IsBooked redis sums prefix _ db (λ a. (outside, refl, outside', refl)) h)
  step-IsBooked _ _ (immature_block b rewards db db' (hr, small) e) h =
      exec-IsBooked redis sums prefix _ db db' (immature_queue-IsBalanced prefix b rewards hr small)
        e h
  step-IsBooked _ _ (pending_orphans blocks db db' e) h =
      exec-IsBooked redis sums prefix _ db db' (orphans_queue-IsBalanced prefix blocks) e h
  step-IsBooked _ _ (matured_block ms b rewards log db db' u (hr, sr) found (hl, sl) e) h =
      write_matured_block-IsBooked redis sums prefix ms b rewards log db db' u hl hr sl sr found e h
  step-IsBooked _ _ (orphaned_block b log db db' found (hl, sl) e) h =
      write_orphan-IsBooked redis sums prefix b log db db' hl sl found e h

  -- On a server with the laws of `Sums`, the books stay in agreement: if, for each of the fields
  -- balance, pending, paid and immature, the sum over the hashes of the miners is the field of the
  -- finances, then it is so again after any sequence of successful writes of shares, blocks,
  -- payments, locks and credits, where the rewards of a block and the credits read back from its
  -- log are not negative and sum up to an int64.
  pub steps-IsBooked :
      (db db' : redis.Db)
      → Steps redis prefix db db'
      → IsBooked redis sums prefix db
      → IsBooked redis sums prefix db'
  steps-IsBooked _ _ (stop db) h = h
  steps-IsBooked _ _ (next db db1 db2 s rest) h =
      steps-IsBooked db1 db2 rest (step-IsBooked db db1 s h)
