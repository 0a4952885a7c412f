-- ===== src/Payouts/Tests.antt =====
-- One miner's round of rewards, one candidate that is found and one that is not, and a halt.
use xmrpool.Common.{
  ℕ, zero, suc, ◌+◌, ◌*◌, ◌≤◌, ◌≡◌, refl, Bool, true, false, Option, none, some, List, [], ◌∷◌,
  ◌++◌, length, arith, if◌then◌else◌,
}
use xmrpool.Common.Ints.{ℤ, pos, eqb_ℤ}
use xmrpool.Common.Texts.{Bytes, codes}
use xmrpool.Rpc.Client.{GetBlockHeaderReply, GetBlockCountReply, CallResult, transport}
use xmrpool.Rpc.Client
use xmrpool.Storage.Types.{BlockData, zero_block}
use xmrpool.Storage.Redis.{Redis, int_reply}
use xmrpool.Storage.Blocks.{Credits}
use xmrpool.Storage.Books.Credits.{AreCredits, sum_of}
use xmrpool.Payouts.Fractions.{Rat}
use xmrpool.Payouts.Rewards.{UnlockerConfig, calculate_rewards_for_shares}
use xmrpool.Payouts.Candidates.{
  UnlockResult, Unlocked, unlocked, unlock_candidates, handle_block, orphaned,
}
use xmrpool.Payouts.Unlocker.{
  Node, new_block_unlocker, unlock_pending_blocks, unlock_and_credit_miners,
}
use xmrpool.Payouts.Bounds.{calculate_rewards_for_shares-Bounded}
use xmrpool.Payouts.Verdicts.{Verdicts, unlock_candidates-Verdicts}
use xmrpool.Payouts.Halts.{Reached, rounds-new_block_unlocker}

abbrev shares : Credits
shares = (codes "a", pos 1) ∷ (codes "b", pos 1) ∷ []

-- Two miners with half the shares each get a unit each of a reward of one unit.
two_of_one :
    calculate_rewards_for_shares shares (pos 2) (record { num = pos 1; den = 1 })
    ≡ some ((codes "a", pos 1) ∷ (codes "b", pos 1) ∷ [])
unfolding calculate_rewards_for_shares xmrpool.Payouts.Rewards.share_out
    xmrpool.Payouts.Rewards.add_reward xmrpool.Payouts.Fractions.whole
    xmrpool.Payouts.Fractions.float_string xmrpool.Common.Decimal.digits_before
    xmrpool.Common.Numbers.parse_int xmrpool.Common.Numbers.scan xmrpool.Common.Ints.◌*ℤ◌
    xmrpool.Common.Ints.◌+ℤ◌ xmrpool.Common.Words.wrap64 xmrpool.Common.Assoc.lookup
    xmrpool.Common.Assoc.insert
two_of_one = refl

calculate_rewards_for_shares-Bounded_example :
    (result : Credits) × (calculate_rewards_for_shares shares
        (pos 2)
        (record { num = pos 1; den = 1 })
      ≡ some result)
    × AreCredits result
    × (sum_of result * (2 * (1 * 2)) ≤ 2 * (1 * sum_of shares) + length shares * (1 * 2))
    × (sum_of result * (2 * 1) ≤ 2 * 1 + length shares * 1)
calculate_rewards_for_shares-Bounded_example =
    calculate_rewards_for_shares-Bounded shares 1 0 1 (refl, (refl, _)) (omega arith) (omega arith)

-- The node has a block at height 7, and another one at any other height.
abbrev header : ℕ → ℤ → CallResult (Option GetBlockHeaderReply)
header i height = Client.done (
    some record {
      block_header = record {
        hash = codes "0123456789ab";
        nonce = if eqb_ℤ height (pos 7) then 1 else 3;
        reward = pos 30;
      };
      status = codes "OK";
      untrusted = false;
    })

abbrev good : BlockData
good = record zero_block {
  height = pos 7;
  nonce = codes "01000000";
  coin_base_value = some (pos 20);
  blk_total_fee = some (pos 10);
}

abbrev other : BlockData
other = record zero_block {
  height = pos 8;
  nonce = codes "02000000";
  coin_base_value = some (pos 20);
  blk_total_fee = some (pos 10);
}

abbrev sorted : UnlockResult
sorted = record {
  matured_blocks = record good { hash = codes "0123456789ab"; reward = some (pos 30) } ∷ [];
  orphaned_blocks = record other { orphan = true } ∷ [];
  orphans = 1;
  uncles = 0;
  blocks = 1;
}

unlocks_both : unlock_candidates false header (good ∷ other ∷ []) ≡ unlocked sorted
unfolding unlock_candidates xmrpool.Payouts.Candidates.unlock_from
    xmrpool.Payouts.Candidates.judge_candidate xmrpool.Payouts.Candidates.handle_block
    xmrpool.Payouts.Candidates.orphaned xmrpool.Payouts.Candidates.add_matured
    xmrpool.Payouts.Candidates.add_orphan xmrpool.Payouts.Candidates.block_nonce
    xmrpool.Payouts.Candidates.hex8 xmrpool.Payouts.Candidates.reverse_pairs
    xmrpool.Payouts.Candidates.empty_result xmrpool.Common.Texts.hex_encode
    xmrpool.Common.Words.wrap64 xmrpool.Common.Ints.◌+ℤ◌
unlocks_both = refl

unlock_candidates-Verdicts_example :
    Verdicts false header 0 (good ∷ other ∷ []) sorted.matured_blocks sorted.orphaned_blocks
    × (sorted.blocks ≡ length sorted.matured_blocks)
    × (sorted.orphans ≡ length sorted.orphaned_blocks)
    × (sorted.uncles ≡ 0)
unlock_candidates-Verdicts_example =
    unlock_candidates-Verdicts false header (good ∷ other ∷ []) sorted unlocks_both

abbrev server : Redis
server = record {
  Db = Unit;
  run = λ c db. (some (int_reply (pos 1)), db);
  exec = λ cs db. (some [], db);
}

abbrev config : UnlockerConfig
config = record {
  pool_fee = record { num = pos 1; den = 100 };
  pool_fee_address = [];
  keep_tx_fees = false;
  depth = pos 60;
  immature_depth = pos 20;
}

abbrev no_count : Node
no_count = record { count = Client.failed transport; header = header }

abbrev counted : Node
counted = record {
  count = Client.done (some record { count = pos 100; status = codes "OK" });
  header = header;
}

-- A round without an answer of the node halts the unlocker, and the next one goes on.
rounds-new_block_unlocker_example :
    (unlock_pending_blocks server
        (codes "xmr")
        config
        counted
        (unlock_pending_blocks server (codes "xmr") config no_count new_block_unlocker _).1
        _
      ≡ unlock_pending_blocks server (codes "xmr") config counted new_block_unlocker _)
    × (unlock_and_credit_miners server
          (codes "xmr")
          config
          (pos 5)
          counted
          (unlock_pending_blocks server (codes "xmr") config no_count new_block_unlocker _).1
          _
        ≡ unlock_and_credit_miners server (codes "xmr") config (pos 5) counted new_block_unlocker _)
rounds-new_block_unlocker_example =
    rounds-new_block_unlocker server (codes "xmr") config
      (unlock_pending_blocks server (codes "xmr") config no_count new_block_unlocker _).1 (pos 5)
      counted _ (Reached.pending no_count new_block_unlocker _ Reached.start)
