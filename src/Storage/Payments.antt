-- ===== src/Storage/Payments.antt =====
-- storage/redis.go: balances and payments.
use xmrpool.Common.{Bool, true, false, Option, none, some, List, [], ◌∷◌, if◌then◌else◌}
use xmrpool.Common.Ints.{ℤ, pos, negsuc, ◌-ℤ◌, quot_ℤ}
use xmrpool.Common.Words.{wrap64}
use xmrpool.Common.Texts.{Bytes, codes}
use xmrpool.Common.Strings.{split}
use xmrpool.Common.Numbers.{parse_int}
use xmrpool.Storage.Types.{
  or_panic, collect, text, int, join, format_key, Outcome, returned, failed,
}
use xmrpool.Storage.Redis.{
  Redis, Command, h_incr_by, z_add, z_rem, del, h_get, get, set_nx, z_rev_range, Reply, nil,
  bool_reply, text_reply, rows_reply, done,
}

-- `x * -1` on int64.
unfoldable pub negate64 : ℤ → ℤ
negate64 x = wrap64 (pos 0 -ℤ x)

abbrev pub miner_key : Bytes → Bytes → Bytes
miner_key prefix login = format_key prefix (text (codes "miners") ∷ text login ∷ [])

abbrev pub finances_key : Bytes → Bytes
finances_key prefix = format_key prefix (text (codes "finances") ∷ [])

abbrev pub pending_key : Bytes → Bytes
pending_key prefix = format_key prefix (text (codes "payments") ∷ text (codes "pending") ∷ [])

abbrev pub lock_key : Bytes → Bytes
lock_key prefix = format_key prefix (text (codes "payments") ∷ text (codes "lock") ∷ [])

abbrev pub pending_row : Bytes → ℤ → Bytes
pending_row login amount = join (text login ∷ int amount ∷ [])

-- The queues, `ms` being the time that MakeTimestamp gives.
unfoldable pub update_queue : Bytes → ℤ → Bytes → ℤ → List Command
update_queue prefix ms login amount =
    h_incr_by (miner_key prefix login) (codes "balance") (negate64 amount)
    ∷ h_incr_by (miner_key prefix login) (codes "pending") amount
    ∷ h_incr_by (finances_key prefix) (codes "balance") (negate64 amount)
    ∷ h_incr_by (finances_key prefix) (codes "pending") amount
    ∷ z_add (pending_key prefix) (quot_ℤ ms 1000) (pending_row login amount)
    ∷ []

unfoldable pub rollback_queue : Bytes → Bytes → ℤ → List Command
rollback_queue prefix login amount =
    h_incr_by (miner_key prefix login) (codes "balance") amount
    ∷ h_incr_by (miner_key prefix login) (codes "pending") (negate64 amount)
    ∷ h_incr_by (finances_key prefix) (codes "balance") amount
    ∷ h_incr_by (finances_key prefix) (codes "pending") (negate64 amount)
    ∷ z_rem (pending_key prefix) (pending_row login amount)
    ∷ []

unfoldable pub payment_queue : Bytes → ℤ → Bytes → Bytes → ℤ → List Command
payment_queue prefix ms login tx_hash amount =
    h_incr_by (miner_key prefix login) (codes "pending") (negate64 amount)
    ∷ h_incr_by (miner_key prefix login) (codes "paid") amount
    ∷ h_incr_by (finances_key prefix) (codes "pending") (negate64 amount)
    ∷ h_incr_by (finances_key prefix) (codes "paid") amount
    ∷ z_add (format_key prefix (text (codes "payments") ∷ text (codes "all") ∷ [])) (quot_ℤ ms 1000)
        (join (text tx_hash ∷ text login ∷ int amount ∷ []))
    ∷ z_add (format_key prefix (text (codes "payments") ∷ text login ∷ [])) (quot_ℤ ms 1000)
        (join (text tx_hash ∷ int amount ∷ []))
    ∷ z_rem (pending_key prefix) (pending_row login amount)
    ∷ del (lock_key prefix)
    ∷ []

pub record PendingPayment : Type 0 where
  pub timestamp : ℤ
  pub amount : ℤ
  pub address : Bytes

-- One row of the pending payments; `none` is an index out of range.
unfoldable pub read_pending : ℤ → List Bytes → Option PendingPayment
read_pending score (address ∷ amount ∷ _) =
    some record { timestamp = score; amount = (parse_int amount).0; address = address }
read_pending score _ = none

unfoldable pub pending_payment : ℤ × Bytes → Option PendingPayment
unfolding read_pending
pending_payment (score, member) = read_pending score (split member)

-- How the replies are read. An error of SetNX reads as `false`, and so as a lock that is taken.
abbrev pub acquired : Option Reply → Bool
acquired (some (bool_reply b)) = b
acquired _ = false

abbrev pub lock_found : Option Reply → Outcome Bool
lock_found none = failed
lock_found (some nil) = returned false
lock_found (some _) = returned true

-- A balance that is no int64 is an error.
abbrev pub balance_found : Option Reply → Outcome ℤ
balance_found (some nil) = returned (pos 0)
balance_found (some (text_reply s)) = let (n, ok) = parse_int s in if ok then returned n else failed
balance_found _ = failed

abbrev pub rows_of : Option Reply → List (ℤ × Bytes)
rows_of (some (rows_reply rows)) = rows
rows_of _ = []

-- Each operation: whether it returned without an error, and the database after it.
module _ (redis : Redis) (prefix : Bytes) where
  unfoldable pub update_balance : ℤ → Bytes → ℤ → redis.Db → Bool × redis.Db
  update_balance ms login amount db = done (redis.exec (update_queue prefix ms login amount) db)

  unfoldable pub rollback_balance : Bytes → ℤ → redis.Db → Bool × redis.Db
  rollback_balance login amount db = done (redis.exec (rollback_queue prefix login amount) db)

  unfoldable pub write_payment : ℤ → Bytes → Bytes → ℤ → redis.Db → Bool × redis.Db
  write_payment ms login tx_hash amount db =
      done (redis.exec (payment_queue prefix ms login tx_hash amount) db)

  unfoldable pub lock_payouts : Bytes → ℤ → redis.Db → Bool × redis.Db
  lock_payouts login amount db =
      let (reply, db') = redis.run (set_nx (lock_key prefix) (pending_row login amount)) db in
      (acquired reply, db')

  unfoldable pub unlock_payouts : redis.Db → Bool × redis.Db
  unlock_payouts db = done (redis.run (del (lock_key prefix)) db)

  unfoldable pub is_payouts_locked : redis.Db → Outcome Bool × redis.Db
  is_payouts_locked db =
      let (reply, db') = redis.run (get (lock_key prefix)) db in (lock_found reply, db')

  unfoldable pub get_balance : Bytes → redis.Db → Outcome ℤ × redis.Db
  get_balance login db =
      let (reply, db') = redis.run (h_get (miner_key prefix login) (codes "balance")) db in
      (balance_found reply, db')

  -- The error of the command is not looked at: its value is then empty.
  unfoldable pub get_pending_payments : redis.Db → Outcome (List PendingPayment) × redis.Db
  get_pending_payments db =
      let (reply, db') = redis.run (z_rev_range (pending_key prefix) (pos 0) (negsuc 0)) db in
      (or_panic (collect pending_payment (rows_of reply)), db')
