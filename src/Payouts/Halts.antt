-- ===== src/Payouts/Halts.antt =====
-- payouts/unlocker.go: a halt lasts until the next round.
use xmrpool.Common.{ℕ, ◌≡◌, refl, ◌∙◌, sym, true, Option, List, [], ◌∷◌}
use xmrpool.Common.Ints.{ℤ}
use xmrpool.Common.Texts.{Bytes}
use xmrpool.Rpc.Client.{GetBlockHeaderReply, CallResult}
use xmrpool.Storage.Types.{BlockData, Outcome, returned, failed, panicked}
use xmrpool.Storage.Redis.{Redis}
use xmrpool.Storage.Rows.{get_candidates, get_immature_blocks}
use xmrpool.Payouts.Rewards.{UnlockerConfig}
use xmrpool.Payouts.Candidates.{
  BlockUnlocker, halted_by, UnlockResult, Unlocked, unlocked, stopped, no_header, bad_reward,
  crashed, unlock_candidates,
}
use xmrpool.Payouts.Unlocker.{
  Node, credit_candidates, credit_miners, height_of, new_block_unlocker, resume, finish,
  unlock_blocks, with_blocks, at_height, unlock_pending_blocks, unlock_and_credit_miners,
}

-- The next round goes on from the state that the unlocker starts with.
abbrev pub IsFresh : BlockUnlocker → Type 0
IsFresh u = resume u ≡ (true, new_block_unlocker)

new-IsFresh : IsFresh new_block_unlocker
unfolding resume new_block_unlocker
new-IsFresh = refl

finish-IsFresh : {D : Type 0} (r : Outcome Unit × D) → IsFresh (finish new_block_unlocker r).1
unfolding halted_by resume new_block_unlocker
finish-IsFresh (returned _, db) = refl
finish-IsFresh (failed, db) = refl
finish-IsFresh (panicked, db) = refl

module _ (redis : Redis) (prefix : Bytes) (config : UnlockerConfig) where
  unlock_blocks-IsFresh :
      (use_result : UnlockResult → redis.Db → Outcome Unit × redis.Db) (r : Unlocked)
      (db : redis.Db)
      → IsFresh (unlock_blocks redis prefix config use_result new_block_unlocker r db).1
  unfolding unlock_blocks halted_by resume new_block_unlocker
  unlock_blocks-IsFresh use_result (unlocked result) db = finish-IsFresh (use_result result db)
  unlock_blocks-IsFresh use_result (stopped no_header) db = refl
  unlock_blocks-IsFresh use_result (stopped bad_reward) db = refl
  unlock_blocks-IsFresh use_result (stopped crashed) db = refl

  with_blocks-IsFresh :
      (use_result : UnlockResult → redis.Db → Outcome Unit × redis.Db)
      (header : ℕ → ℤ → CallResult (Option GetBlockHeaderReply))
      (r : Outcome (List BlockData) × redis.Db)
      → IsFresh (with_blocks redis prefix config use_result header new_block_unlocker r).1
  unfolding with_blocks halted_by resume new_block_unlocker
  with_blocks-IsFresh use_result header (failed, db) = refl
  with_blocks-IsFresh use_result header (panicked, db) = refl
  with_blocks-IsFresh use_result header (returned [], db) = refl
  with_blocks-IsFresh use_result header (returned (b ∷ bs), db) =
      unlock_blocks-IsFresh use_result (unlock_candidates config.keep_tx_fees header (b ∷ bs)) db

  at_height-IsFresh :
      (get : ℤ → redis.Db → Outcome (List BlockData) × redis.Db)
      (use_result : UnlockResult → redis.Db → Outcome Unit × redis.Db)
      (header : ℕ → ℤ → CallResult (Option GetBlockHeaderReply)) (height : Outcome ℤ)
      (db : redis.Db)
      → IsFresh (at_height redis prefix config get use_result header height new_block_unlocker db).1
  unfolding at_height halted_by resume new_block_unlocker
  at_height-IsFresh get use_result header failed db = refl
  at_height-IsFresh get use_result header panicked db = refl
  at_height-IsFresh get use_result header (returned height) db =
      with_blocks-IsFresh use_result header (get height db)

  -- A round from a state that is fresh.
  pending_from_fresh :
      (n : Node) (u : BlockUnlocker) (db : redis.Db)
      → IsFresh u
      → unlock_pending_blocks redis prefix config n u db
        ≡ at_height redis prefix config
            (get_candidates redis prefix)
            (credit_candidates redis prefix config)
            n.header
            (height_of n.count config.immature_depth)
            new_block_unlocker
            db
  unfolding unlock_pending_blocks
  pending_from_fresh n u db h = rw h refl

  credit_from_fresh :
      (ms : ℤ) (n : Node) (u : BlockUnlocker) (db : redis.Db)
      → IsFresh u
      → unlock_and_credit_miners redis prefix config ms n u db
        ≡ at_height redis prefix config
            (get_immature_blocks redis prefix)
            (credit_miners redis prefix config ms)
            n.header
            (height_of n.count config.depth)
            new_block_unlocker
            db
  unfolding unlock_and_credit_miners
  credit_from_fresh ms n u db h = rw h refl

-- The unlocker after any rounds of both kinds, in any order.
pub data Reached (redis : Redis) (prefix : Bytes) (config : UnlockerConfig)
    : BlockUnlocker → Type 0 where
  start : Reached redis prefix config new_block_unlocker
  pending :
      (n : Node) (u : BlockUnlocker) (db : redis.Db)
      → Reached redis prefix config u
      → Reached redis prefix config (unlock_pending_blocks redis prefix config n u db).1
  credited :
      (ms : ℤ) (n : Node) (u : BlockUnlocker) (db : redis.Db)
      → Reached redis prefix config u
      → Reached redis prefix config (unlock_and_credit_miners redis prefix config ms n u db).1

module _ (redis : Redis) (prefix : Bytes) (config : UnlockerConfig) where
  Reached-IsFresh : (u : BlockUnlocker) → Reached redis prefix config u → IsFresh u
  Reached-IsFresh _ start = new-IsFresh
  Reached-IsFresh _ (pending n u db before) =
      rw (pending_from_fresh redis prefix config n u db (Reached-IsFresh u before)) (
        at_height-IsFresh redis prefix config (get_candidates redis prefix)
          (credit_candidates redis prefix config) n.header (height_of n.count config.immature_depth)
          db)
  Reached-IsFresh _ (credited ms n u db before) =
      rw (credit_from_fresh redis prefix config ms n u db (Reached-IsFresh u before)) (
        at_height-IsFresh redis prefix config (get_immature_blocks redis prefix)
          (credit_miners redis prefix config ms) n.header (height_of n.count config.depth) db)

  -- A halt suspends nothing: after any rounds, whatever failed in them, the next round of either kind
  -- does and leaves the same as one of an unlocker that was just started.
  pub rounds-new_block_unlocker :
      (u : BlockUnlocker) (ms : ℤ) (n : Node) (db : redis.Db)
      → Reached redis prefix config u
      → (unlock_pending_blocks redis prefix config n u db
          ≡ unlock_pending_blocks redis prefix config n new_block_unlocker db)
        × (unlock_and_credit_miners redis prefix config ms n u db
            ≡ unlock_and_credit_miners redis prefix config ms n new_block_unlocker db)
  rounds-new_block_unlocker u ms n db reached =
      let fresh = Reached-IsFresh u reached in
      (
        pending_from_fresh redis prefix config n u db fresh
            ∙ sym (pending_from_fresh redis prefix config n new_block_unlocker db new-IsFresh),
        credit_from_fresh redis prefix config ms n u db fresh
            ∙ sym (credit_from_fresh redis prefix config ms n new_block_unlocker db new-IsFresh),
      )
