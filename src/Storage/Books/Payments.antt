-- ===== src/Storage/Books/Payments.antt =====
-- storage/redis.go: the transactions of a payment move the same amounts for the miner and the pool.
use xmrpool.Common.{refl, List, [], ◌∷◌}
use xmrpool.Common.Ints.{ℤ}
use xmrpool.Common.Texts.{Bytes, codes}
use xmrpool.Common.Strings.{join_parts}
use xmrpool.Storage.Types.{join, render}
use xmrpool.Storage.Redis.{net, rewrites, Command, h_incr_by}
use xmrpool.Storage.Payments.{
  update_queue, rollback_queue, payment_queue, miner_key, finances_key, negate64,
}
use xmrpool.Storage.Books.{
  IsBalanced, to-IsBalanced, is_miner-format_key, is_finances-format_key, append-IsBalanced,
  is_miner-miner_key, is_finances-miner_key, is_miner-finances_key, is_finances-finances_key,
}

-- Two fields of a miner changed, and the same two of the finances.
transfer-IsBalanced :
    (prefix login f g : Bytes) (n m : ℤ) (rest : List Command)
    → IsBalanced prefix rest
    → IsBalanced prefix (
        h_incr_by (miner_key prefix login) f n
        ∷ h_incr_by (miner_key prefix login) g m
        ∷ h_incr_by (finances_key prefix) f n
        ∷ h_incr_by (finances_key prefix) g m
        ∷ rest)
unfolding net rewrites
transfer-IsBalanced prefix login f g n m rest h =
    append-IsBalanced prefix
      (h_incr_by (miner_key prefix login) f n
        ∷ h_incr_by (miner_key prefix login) g m
        ∷ h_incr_by (finances_key prefix) f n
        ∷ h_incr_by (finances_key prefix) g m
        ∷ [])
      rest
      (to-IsBalanced prefix _ (λ a. (
        refl,
        refl,
        rw
            (
              is_miner-miner_key prefix login,
              is_finances-miner_key prefix login,
              is_miner-finances_key prefix,
              is_finances-finances_key prefix,
            )
            refl,
      )))
      h

pub update_queue-IsBalanced :
    (prefix : Bytes) (ms : ℤ) (login : Bytes) (amount : ℤ)
    → IsBalanced prefix (update_queue prefix ms login amount)
unfolding net rewrites update_queue
update_queue-IsBalanced prefix ms login amount =
    transfer-IsBalanced prefix login (codes "balance") (codes "pending") (negate64 amount) amount _
      (to-IsBalanced prefix _ (λ a. (refl, refl, refl)))

pub rollback_queue-IsBalanced :
    (prefix login : Bytes) (amount : ℤ) → IsBalanced prefix (rollback_queue prefix login amount)
unfolding net rewrites rollback_queue
rollback_queue-IsBalanced prefix login amount =
    transfer-IsBalanced prefix login (codes "balance") (codes "pending") amount (negate64 amount) _
      (to-IsBalanced prefix _ (λ a. (refl, refl, refl)))

pub payment_queue-IsBalanced :
    (prefix : Bytes) (ms : ℤ) (login tx_hash : Bytes) (amount : ℤ)
    → IsBalanced prefix (payment_queue prefix ms login tx_hash amount)
unfolding net rewrites payment_queue join join_parts render
payment_queue-IsBalanced prefix ms login tx_hash amount =
    transfer-IsBalanced prefix login (codes "pending") (codes "paid") (negate64 amount) amount _
      (to-IsBalanced prefix _ (λ a. (simp is_miner-format_key, simp is_finances-format_key, refl)))
