-- ===== src/Payouts/Unlocker.antt =====
-- payouts/unlocker.go: the two rounds of the block unlocker, and the halt between them.
use xmrpool.Common.{
  ℕ, ◌+◌, ◌%◌, Bool, true, false, Option, none, some, List, [], ◌∷◌, if◌then◌else◌, ◌==◌,
}
use xmrpool.Common.Ints.{ℤ, ◌-ℤ◌}
use xmrpool.Common.Words.{u64, wrap64}
use xmrpool.Common.Texts.{Bytes}
use xmrpool.Rpc.Client.{GetBlockHeaderReply, GetBlockCountReply, CallResult}
use xmrpool.Rpc.Client
use xmrpool.Storage.Types.{BlockData, Outcome, returned, failed, panicked, reply_of}
use xmrpool.Storage.Redis.{Redis}
use xmrpool.Storage.Blocks.{
  Credits, write_immature_block, write_matured_block, write_orphan, write_pending_orphans,
}
use xmrpool.Storage.Rows.{get_candidates, get_immature_blocks}
use xmrpool.Payouts.Rewards.{UnlockerConfig, Rewards, calculate_rewards}
use xmrpool.Payouts.Candidates.{
  BlockUnlocker, node, backend, wrong_reward, halted_by, UnlockResult, Unlocked, unlocked, stopped,
  no_header, bad_reward, crashed, unlock_candidates,
}

-- `NewBlockUnlocker`, past the checks of the configuration.
unfoldable pub new_block_unlocker : BlockUnlocker
new_block_unlocker = record { halt = false; last_fail = none; counter = 0 }

-- What the node answers in one round: to the call of get_block_count, and to the i-th call for a
-- header, by the height that it asks for.
pub record Node : Type 0 where
  pub count : CallResult (Option GetBlockCountReply)
  pub header : ℕ → ℤ → CallResult (Option GetBlockHeaderReply)

-- Whether the round goes on, a halt being lifted where the counter is a multiple of 3.
unfoldable pub resume : BlockUnlocker → Bool × BlockUnlocker
resume u =
    if u.halt
    then if u.counter % 3 == 0
      then (true, record u { halt = false; last_fail = none })
      else (false, record u { counter = u64 (u.counter + 1) })
    else (true, u)

-- How a round ends: whether it panicked, the unlocker, and the database.
abbrev pub finish : {D : Type 0} → BlockUnlocker → Outcome Unit × D → Bool × BlockUnlocker × D
finish u (returned _, db) = (false, u, db)
finish u (failed, db) = (false, halted_by backend u, db)
finish u (panicked, db) = (true, u, db)

-- The height that the node counts, less a depth.
abbrev pub height_of : CallResult (Option GetBlockCountReply) → ℤ → Outcome ℤ
height_of (Client.failed e) depth = failed
height_of Client.panicked depth = panicked
height_of (Client.done none) depth = panicked
height_of (Client.done (some reply)) depth = returned (wrap64 (reply.count -ℤ depth))

module _ (redis : Redis) (prefix : Bytes) (config : UnlockerConfig) where
  -- The loop over the matured blocks; an error or a panic ends it.
  abbrev pub credit_one :
      (Credits → redis.Db → Outcome Unit × redis.Db)
      → Outcome Rewards × redis.Db
      → Outcome Unit × redis.Db
  credit_one write (failed, db) = (failed, db)
  credit_one write (panicked, db) = (panicked, db)
  credit_one write (returned r, db) = write r.rewards db

module _ (redis : Redis) where
  abbrev pub and_then :
      Outcome Unit × redis.Db → (redis.Db → Outcome Unit × redis.Db) → Outcome Unit × redis.Db
  and_then (returned u, db) rest = rest db
  and_then (failed, db) rest = (failed, db)
  and_then (panicked, db) rest = (panicked, db)

module _ (redis : Redis) (prefix : Bytes) (config : UnlockerConfig) where
  unfoldable pub credit_blocks :
      (BlockData → Credits → redis.Db → Outcome Unit × redis.Db)
      → List BlockData
      → redis.Db
      → Outcome Unit × redis.Db
  credit_blocks write [] db = (returned _, db)
  credit_blocks write (b ∷ bs) db =
      and_then redis
        (credit_one redis prefix config (write b) (calculate_rewards redis prefix config b db))
        (credit_blocks write bs)

  unfoldable pub write_orphans : List BlockData → redis.Db → Outcome Unit × redis.Db
  write_orphans [] db = (returned _, db)
  write_orphans (b ∷ bs) db =
      and_then redis (reply_of _ (write_orphan redis prefix b db)) (write_orphans bs)

  -- A wrong reward halts the unlocker, and then the caller reads the nil result and panics.
  unfoldable pub unlock_blocks :
      (UnlockResult → redis.Db → Outcome Unit × redis.Db)
      → BlockUnlocker
      → Unlocked
      → redis.Db
      → Bool × BlockUnlocker × redis.Db
  unlock_blocks use_result u (unlocked result) db = finish u (use_result result db)
  unlock_blocks use_result u (stopped no_header) db = (false, halted_by node u, db)
  unlock_blocks use_result u (stopped bad_reward) db = (true, halted_by wrong_reward u, db)
  unlock_blocks use_result u (stopped crashed) db = (true, u, db)

  unfoldable pub with_blocks :
      (UnlockResult → redis.Db → Outcome Unit × redis.Db)
      → (ℕ → ℤ → CallResult (Option GetBlockHeaderReply))
      → BlockUnlocker
      → Outcome (List BlockData) × redis.Db
      → Bool × BlockUnlocker × redis.Db
  unfolding unlock_blocks
  with_blocks use_result header u (failed, db) = (false, halted_by backend u, db)
  with_blocks use_result header u (panicked, db) = (true, u, db)
  with_blocks use_result header u (returned [], db) = (false, u, db)
  with_blocks use_result header u (returned (b ∷ bs), db) =
      unlock_blocks use_result u (unlock_candidates config.keep_tx_fees header (b ∷ bs)) db

  unfoldable pub credit_candidates : UnlockResult → redis.Db → Outcome Unit × redis.Db
  unfolding credit_blocks
  credit_candidates result db =
      and_then redis (reply_of _ (write_pending_orphans redis prefix result.orphaned_blocks db)) (
        credit_blocks (λ b rewards d. reply_of _ (write_immature_block redis prefix b rewards d))
          result.matured_blocks)

  unfoldable pub credit_miners : ℤ → UnlockResult → redis.Db → Outcome Unit × redis.Db
  unfolding credit_blocks write_orphans
  credit_miners ms result db =
      and_then redis (write_orphans result.orphaned_blocks db)
        (credit_blocks (write_matured_block redis prefix ms) result.matured_blocks)

  -- One round: `get` reads the blocks up to a height, `use_result` writes what became of them.
  unfoldable pub at_height :
      (ℤ → redis.Db → Outcome (List BlockData) × redis.Db)
      → (UnlockResult → redis.Db → Outcome Unit × redis.Db)
      → (ℕ → ℤ → CallResult (Option GetBlockHeaderReply))
      → Outcome ℤ
      → BlockUnlocker
      → redis.Db
      → Bool × BlockUnlocker × redis.Db
  unfolding with_blocks
  at_height get use_result header failed u db = (false, halted_by node u, db)
  at_height get use_result header panicked u db = (true, u, db)
  at_height get use_result header (returned height) u db =
      with_blocks use_result header u (get height db)

  unfoldable pub unlock_pending_blocks :
      Node → BlockUnlocker → redis.Db → Bool × BlockUnlocker × redis.Db
  unfolding at_height credit_candidates resume
  unlock_pending_blocks node_state u db =
      let (going, u') = resume u in
      if going
      then at_height (get_candidates redis prefix) credit_candidates node_state.header
          (height_of node_state.count config.immature_depth) u' db
      else (false, u', db)

  unfoldable pub unlock_and_credit_miners :
      ℤ → Node → BlockUnlocker → redis.Db → Bool × BlockUnlocker × redis.Db
  unfolding at_height credit_miners resume
  unlock_and_credit_miners ms node_state u db =
      let (going, u') = resume u in
      if going
      then at_height (get_immature_blocks redis prefix) (credit_miners ms) node_state.header
          (height_of node_state.count config.depth) u' db
      else (false, u', db)
