-- ===== src/Payouts/Candidates.antt =====
-- payouts/unlocker.go: `unlockCandidates` and `handleBlock`.
use xmrpool.Common.{
  ℕ, ◌+◌, ◌/◌, ◌%◌, Bool, true, false, not, ◌&&◌, Option, none, some, List, [], ◌∷◌, ◌++◌,
  if◌then◌else◌, ltb, length,
}
use xmrpool.Common.Ints.{ℤ, ◌+ℤ◌, eqb_ℤ}
use xmrpool.Common.Words.{wrap64}
use xmrpool.Common.Texts.{Bytes, bytes_eq, hex_encode, to_lower}
use xmrpool.Rpc.Client.{BlockHeader, GetBlockHeaderReply, CallResult, done, failed, panicked}
use xmrpool.Storage.Types.{BlockData}

-- Why unlocking was halted: an error of the node or the backend, or a wrong total reward.
pub data Failure : Type 0 where
  node : Failure
  backend : Failure
  wrong_reward : Failure

-- The configuration, the backend and the client are arguments of the operations.
pub record BlockUnlocker : Type 0 where
  pub halt : Bool
  pub last_fail : Option Failure
  pub counter : ℕ  -- uint64

unfoldable pub halted_by : Failure → BlockUnlocker → BlockUnlocker
halted_by e u = record u { halt = true; last_fail = some e }

-- The counters are the lengths of the lists, but for `uncles`, which stays 0.
pub record UnlockResult : Type 0 where
  pub matured_blocks : List BlockData
  pub orphaned_blocks : List BlockData
  pub orphans : ℕ
  pub uncles : ℕ
  pub blocks : ℕ

-- `fmt.Sprintf("%08x", nonce)` for a uint32, and the loop that reverses its four bytes.
unfoldable pub hex8 : ℕ → Bytes
unfolding hex_encode
hex8 n = hex_encode (n / 16777216 % 256 ∷ n / 65536 % 256 ∷ n / 256 % 256 ∷ n % 256 ∷ [])

unfoldable pub reverse_pairs : Bytes → Bytes → Bytes
reverse_pairs (hi ∷ lo ∷ rest) reversed = reverse_pairs rest (hi ∷ lo ∷ reversed)
reverse_pairs _ reversed = reversed

unfoldable pub block_nonce : ℕ → Bytes
unfolding hex8 reverse_pairs
block_nonce n = reverse_pairs (hex8 n) []

-- `strings.EqualFold` against hexadecimal digits, which fold as ASCII letters only.
abbrev pub equal_fold : Bytes → Bytes → Bool
equal_fold s t = bytes_eq (to_lower s) (to_lower t)

abbrev pub has_nonce : BlockData → ℕ → Bool
has_nonce b nonce = ltb 0 (length b.nonce) && equal_fold b.nonce (block_nonce nonce)

-- `none` is a nil pointer, on which the addition panics; `Int64` wraps.
abbrev pub total_reward : BlockData → Option ℤ
total_reward b = elim b.coin_base_value [
  | none ↦ none
  | some value ↦ elim b.blk_total_fee [ none ↦ none | some fee ↦ some (wrap64 (value +ℤ fee)) ]
]

abbrev pub sum_big : Option ℤ → Option ℤ → Option ℤ
sum_big none _ = none
sum_big (some value) none = none
sum_big (some value) (some fee) = some (value +ℤ fee)

-- `keep` is the option KeepTxFees.
unfoldable pub handle_block : Bool → BlockHeader → BlockData → BlockData
handle_block keep header b = record b {
  extra_reward = if keep then b.blk_total_fee else b.extra_reward;
  orphan = false;
  hash = header.hash;
  reward = if keep then b.coin_base_value else sum_big b.coin_base_value b.blk_total_fee;
}

unfoldable pub orphaned : BlockData → BlockData
orphaned b = record b { orphan = true }

unfoldable pub add_matured : BlockData → UnlockResult → UnlockResult
add_matured b r = record r { blocks = r.blocks + 1; matured_blocks = r.matured_blocks ++ b ∷ [] }

unfoldable pub add_orphan : BlockData → UnlockResult → UnlockResult
add_orphan b r = record r { orphans = r.orphans + 1; orphaned_blocks = r.orphaned_blocks ++ b ∷ [] }

unfoldable pub empty_result : UnlockResult
empty_result = record {
  matured_blocks = [];
  orphaned_blocks = [];
  orphans = 0;
  uncles = 0;
  blocks = 0;
}

-- How the loop ends without a result: with an error of the node; with a wrong reward, which is returned
-- as a nil result and a nil error; or with a panic.
pub data Stop : Type 0 where
  no_header : Stop
  bad_reward : Stop
  crashed : Stop

pub data Unlocked : Type 0 where
  unlocked : UnlockResult → Unlocked
  stopped : Stop → Unlocked

-- What becomes of one candidate: the loop ends, or goes on with a new result.
pub data Judged : Type 0 where
  go_on : UnlockResult → Judged
  end_with : Stop → Judged

-- A block whose hash has fewer than ten characters panics in the log line behind it.
abbrev pub mature : BlockData → UnlockResult → Judged
mature b r = if ltb (length b.hash) 10 then end_with crashed else go_on (add_matured b r)

abbrev pub match_reward : Bool → BlockHeader → BlockData → Option ℤ → UnlockResult → Judged
match_reward keep header b none r = end_with crashed
match_reward keep header b (some total) r =
    if not (eqb_ℤ total header.reward)
    then end_with bad_reward
    else mature (handle_block keep header b) r

abbrev pub judge_header : Bool → BlockHeader → BlockData → UnlockResult → Judged
judge_header keep header b r =
    if has_nonce b header.nonce
    then match_reward keep header b (total_reward b) r
    else go_on (add_orphan (orphaned b) r)

unfoldable pub judge_candidate :
    Bool → CallResult (Option GetBlockHeaderReply) → BlockData → UnlockResult → Judged
unfolding handle_block orphaned add_matured add_orphan block_nonce
judge_candidate keep (failed e) b r = end_with no_header
judge_candidate keep panicked b r = end_with crashed
judge_candidate keep (done none) b r = end_with crashed
judge_candidate keep (done (some reply)) b r = judge_header keep reply.block_header b r

abbrev pub continue_with : Judged → (UnlockResult → Unlocked) → Unlocked
continue_with (end_with e) rest = stopped e
continue_with (go_on r) rest = rest r

-- `header i h` is the daemon's answer to the i-th call, which asks for the header at height h.
unfoldable pub unlock_from :
    Bool
    → (ℕ → ℤ → CallResult (Option GetBlockHeaderReply))
    → ℕ
    → List BlockData
    → UnlockResult
    → Unlocked
unfolding judge_candidate
unlock_from keep header i [] r = unlocked r
unlock_from keep header i (b ∷ bs) r =
    continue_with (judge_candidate keep (header i b.height) b r)
      (λ r'. unlock_from keep header (i + 1) bs r')

unfoldable pub unlock_candidates :
    Bool → (ℕ → ℤ → CallResult (Option GetBlockHeaderReply)) → List BlockData → Unlocked
unfolding unlock_from empty_result
unlock_candidates keep header candidates = unlock_from keep header 0 candidates empty_result
