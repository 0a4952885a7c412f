-- ===== src/Payouts/Rewards.antt =====
-- payouts/unlocker.go: how a block's reward is shared out.
use xmrpool.Common.{Bool, Option, none, some, [], ◌∷◌}
use xmrpool.Common.Ints.{ℤ, pos, ◌+ℤ◌}
use xmrpool.Common.Words.{wrap64}
use xmrpool.Common.Assoc.{lookup, insert, bytes_key}
use xmrpool.Common.Texts.{Bytes, to_lower}
use xmrpool.Storage.Types.{Outcome, returned, failed, panicked, BlockData}
use xmrpool.Storage.Redis.{Redis}
use xmrpool.Storage.Blocks.{Credits, get_round_shares}
use xmrpool.Payouts.Fractions.{Rat, set_int, new_rat, rat_add, rat_sub, rat_mul, whole}

-- What the unlocker reads of its configuration; `pool_fee` is the value of the float64 PoolFee / 100.
pub record UnlockerConfig : Type 0 where
  pub pool_fee : Rat
  pub pool_fee_address : Bytes
  pub keep_tx_fees : Bool
  pub depth : ℤ
  pub immature_depth : ℤ

-- `rewards[login] += value`
abbrev pub or_zero : Option ℤ → ℤ
or_zero none = pos 0
or_zero (some n) = n

unfoldable pub add_reward : Bytes → ℤ → Credits → Credits
add_reward login value rewards =
    insert login (wrap64 (or_zero (lookup login rewards) +ℤ value)) rewards

-- The loop over the shares; a total of 0 makes NewRat panic, which `none` is.
unfoldable pub share_out : Credits → ℤ → Rat → Credits → Option Credits
unfolding add_reward whole
share_out [] total reward rewards = some rewards
share_out ((login, n) ∷ shares) total reward rewards = elim (new_rat n total) [
  | none ↦ none
  | some percent ↦
      share_out shares total reward (add_reward login (whole (rat_mul reward percent)) rewards)
]

unfoldable pub calculate_rewards_for_shares : Credits → ℤ → Rat → Option Credits
unfolding share_out
calculate_rewards_for_shares shares total reward = share_out shares total reward []

-- The value after the fee, and the fee.
unfoldable pub charge_fee : Rat → Rat → Rat × Rat
charge_fee value fee = let fee_value = rat_mul value fee in (rat_sub value fee_value, fee_value)

pub record Rewards : Type 0 where
  pub revenue : Rat
  pub miners_profit : Rat
  pub pool_profit : Rat
  pub rewards : Credits

-- The transaction fees that the pool keeps, and its share for its own address.
abbrev pub with_extra : Rat → Option ℤ → Rat
with_extra x none = x
with_extra x (some extra) = rat_add x (set_int extra)

unfoldable pub add_pool_fee : Bytes → Rat → Credits → Credits
unfolding add_reward whole
add_pool_fee [] pool_profit rewards = rewards
add_pool_fee (c ∷ address) pool_profit rewards =
    add_reward (to_lower (c ∷ address)) (whole pool_profit) rewards

unfoldable pub pool_share : UnlockerConfig → BlockData → Rat → Rat → Rat → Credits → Rewards
unfolding add_pool_fee
pool_share config block revenue miners_profit pool_profit rewards = record {
  revenue = with_extra revenue block.extra_reward;
  miners_profit = miners_profit;
  pool_profit = with_extra pool_profit block.extra_reward;
  rewards =
      add_pool_fee config.pool_fee_address (with_extra pool_profit block.extra_reward) rewards;
}

-- What is credited for the shares of a round; `none` is an error of the backend, and a total of 0 panics.
unfoldable pub credit_shares : UnlockerConfig → BlockData → ℤ → Option Credits → Outcome Rewards
unfolding charge_fee calculate_rewards_for_shares pool_share
credit_shares config block reward none = failed
credit_shares config block reward (some shares) =
    let revenue = set_int reward in
    let (miners_profit, pool_profit) = charge_fee revenue config.pool_fee in
    elim (calculate_rewards_for_shares shares block.total_shares miners_profit) [
      | none ↦ panicked
      | some rewards ↦ returned (pool_share config block revenue miners_profit pool_profit rewards)
    ]

module _ (redis : Redis) (prefix : Bytes) where
  -- The reward is read first: a nil one panics.
  unfoldable pub calculate_rewards :
      UnlockerConfig → BlockData → redis.Db → Outcome Rewards × redis.Db
  unfolding credit_shares
  calculate_rewards config block db =
      let (shares, db') = get_round_shares redis prefix block.round_height block.nonce db in
      elim block.reward [
        | none ↦ (panicked, db)
        | some reward ↦ (credit_shares config block reward shares, db')
      ]
