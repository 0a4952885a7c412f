-- ===== src/Payouts/Verdicts.antt =====
-- payouts/unlocker.go: what unlockCandidates makes of each candidate.
use xmrpool.Common.{
  ℕ, ◌+◌, ◌≡◌, refl, ap, ◌∙◌, sym, Bool, true, false, not, Option, none, some, List, [], ◌∷◌, ◌++◌,
  ◌⊎◌, length, append_assoc, append-nil, arith, inl, inr, if◌then◌else◌, ltb,
}
use xmrpool.Common.Ints.{ℤ, eqb_ℤ, ◌+ℤ◌}
use xmrpool.Rpc.Client.{BlockHeader, GetBlockHeaderReply, CallResult, done, failed, panicked}
use xmrpool.Storage.Types.{BlockData}
use mathlib.Core.Path.{subst}
use xmrpool.Payouts.Candidates.{
  bad_reward, crashed, UnlockResult, Unlocked, unlocked, stopped, Stop, Judged, go_on, end_with,
  has_nonce, total_reward, sum_big, handle_block, orphaned, add_matured, add_orphan, empty_result,
  mature, match_reward, judge_candidate, unlock_from, unlock_candidates,
}

-- A candidate that the chain bears out: its nonce is that of the block, and its reward the block's.
pub record IsFound (header : BlockHeader) (b : BlockData) : Type 0 where
  pub nonce_matches : has_nonce b header.nonce ≡ true
  pub reward_matches :
      (total : ℤ) × (total_reward b ≡ some total) × (eqb_ℤ total header.reward ≡ true)

-- What is kept of a candidate that was found: it is no orphan, has the hash of the block, and its reward
-- is its coinbase value, to which the fees of the transactions are added unless the option KeepTxFees is
-- set; with that option the fees are kept as its extra reward.
pub data Handled (keep : Bool) (header : BlockHeader) (b : BlockData) : BlockData → Type 0 where
  keeps_fees :
      keep ≡ true
      → Handled keep header b (record b {
        extra_reward = b.blk_total_fee;
        orphan = false;
        hash = header.hash;
        reward = b.coin_base_value;
      })
  adds_fees :
      (value fee : ℤ)
      → keep ≡ false
      → b.coin_base_value ≡ some value
      → b.blk_total_fee ≡ some fee
      → Handled keep header b
          (record b { orphan = false; hash = header.hash; reward = some (value +ℤ fee) })

-- The candidates from the i-th on, what was found of them, and what was orphaned, each in their order.
pub data Verdicts (keep : Bool) (header : ℕ → ℤ → CallResult (Option GetBlockHeaderReply))
    : ℕ → List BlockData → List BlockData → List BlockData → Type 0 where
  no_more : (i : ℕ) → Verdicts keep header i [] [] []
  found :
      (i : ℕ) (reply : GetBlockHeaderReply) (b m : BlockData) (bs ms os : List BlockData)
      → header i b.height ≡ done (some reply)
      → IsFound reply.block_header b
      → Handled keep reply.block_header b m
      → Verdicts keep header (i + 1) bs ms os
      → Verdicts keep header i (b ∷ bs) (m ∷ ms) os
  lost :
      (i : ℕ) (reply : GetBlockHeaderReply) (b : BlockData) (bs ms os : List BlockData)
      → header i b.height ≡ done (some reply)
      → has_nonce b reply.block_header.nonce ≡ false
      → Verdicts keep header (i + 1) bs ms os
      → Verdicts keep header i (b ∷ bs) ms (record b { orphan = true } ∷ os)

both_some :
    (b : BlockData) (v f : Option ℤ) (total : ℤ)
    → total_reward (record b { coin_base_value = v; blk_total_fee = f }) ≡ some total
    → ((value : ℤ) × (fee : ℤ) × (v ≡ some value) × (f ≡ some fee))
both_some b none f total e = cc
both_some b (some value) none total e = cc
both_some b (some value) (some fee) total e = (value, fee, refl, refl)

handle_block-Handled :
    (keep : Bool) (header : BlockHeader) (b : BlockData)
    → IsFound header b
    → Handled keep header b (handle_block keep header b)
unfolding handle_block
handle_block-Handled true header b h = keeps_fees refl
handle_block-Handled false header b h =
    let (total, summed, same) = h.reward_matches in
    let (value, fee, is_value, is_fee) =
      both_some b b.coin_base_value b.blk_total_fee total summed in
    subst
      (λ (o : Option ℤ).
        Handled false header b (record b { orphan = false; hash = header.hash; reward = o }))
      (sym (
        ap (λ (o : Option ℤ). sum_big o b.blk_total_fee) is_value
        ∙ ap (λ (o : Option ℤ). sum_big (some value) o) is_fee))
      (adds_fees value fee refl is_value is_fee)

-- What a step that goes on has done to the result.
pub data Judges (keep : Bool) (reply : GetBlockHeaderReply) (b : BlockData) (r : UnlockResult)
    : UnlockResult → Type 0 where
  matures :
      IsFound reply.block_header b
      → Judges keep reply b r (add_matured (handle_block keep reply.block_header b) r)
  orphans :
      has_nonce b reply.block_header.nonce ≡ false
      → Judges keep reply b r (add_orphan (orphaned b) r)

abbrev result_of : UnlockResult → Judged → UnlockResult
result_of r (go_on r') = r'
result_of r (end_with e) = r

module _ (keep : Bool) (reply : GetBlockHeaderReply) (b : BlockData) (r r' : UnlockResult) where
  logged-Judges :
      (short : Bool)
      → IsFound reply.block_header b
      → (if short
          then end_with crashed
          else go_on (add_matured (handle_block keep reply.block_header b) r))
        ≡ go_on r'
      → Judges keep reply b r r'
  logged-Judges true h e = cc
  logged-Judges false h e =
      subst (λ (x : UnlockResult). Judges keep reply b r x) (ap (result_of r) e) (matures h)

  rewarded-Judges :
      (total : ℤ) (same : Bool)
      → has_nonce b reply.block_header.nonce ≡ true
      → total_reward b ≡ some total
      → eqb_ℤ total reply.block_header.reward ≡ same
      → (if not same
          then end_with bad_reward
          else mature (handle_block keep reply.block_header b) r)
        ≡ go_on r'
      → Judges keep reply b r r'
  rewarded-Judges total false hn ht hr e = cc
  rewarded-Judges total true hn ht hr e =
      logged-Judges (ltb (length (handle_block keep reply.block_header b).hash) 10)
        (record { nonce_matches = hn; reward_matches = (total, ht, hr) }) e

  matched-Judges :
      (t : Option ℤ)
      → has_nonce b reply.block_header.nonce ≡ true
      → total_reward b ≡ t
      → match_reward keep reply.block_header b t r ≡ go_on r'
      → Judges keep reply b r r'
  matched-Judges none hn ht e = cc
  matched-Judges (some total) hn ht e =
      rewarded-Judges total (eqb_ℤ total reply.block_header.reward) hn ht refl e

  nonce-Judges :
      (same : Bool)
      → has_nonce b reply.block_header.nonce ≡ same
      → (if same
          then match_reward keep reply.block_header b (total_reward b) r
          else go_on (add_orphan (orphaned b) r))
        ≡ go_on r'
      → Judges keep reply b r r'
  nonce-Judges true hn e = matched-Judges (total_reward b) hn refl e
  nonce-Judges false hn e =
      subst (λ (x : UnlockResult). Judges keep reply b r x) (ap (result_of r) e) (orphans hn)

judge_candidate-Judges :
    (keep : Bool) (o : CallResult (Option GetBlockHeaderReply)) (b : BlockData)
    (r r' : UnlockResult)
    → judge_candidate keep o b r ≡ go_on r'
    → (reply : GetBlockHeaderReply) × (o ≡ done (some reply)) × Judges keep reply b r r'
unfolding judge_candidate
judge_candidate-Judges keep (failed x) b r r' e = cc
judge_candidate-Judges keep panicked b r r' e = cc
judge_candidate-Judges keep (done none) b r r' e = cc
judge_candidate-Judges keep (done (some reply)) b r r' e =
    (reply, refl, nonce-Judges keep reply b r r' (has_nonce b reply.block_header.nonce) refl e)

-- What the loop adds to the result that it starts from.
abbrev Extends : UnlockResult → List BlockData → List BlockData → UnlockResult → Type 0
Extends r ms os r' =
    (r'.matured_blocks ≡ r.matured_blocks ++ ms)
    × (r'.orphaned_blocks ≡ r.orphaned_blocks ++ os)
    × (r'.blocks ≡ r.blocks + length ms)
    × (r'.orphans ≡ r.orphans + length os)
    × (r'.uncles ≡ r.uncles)

Judged-cases : (j : Judged) → ((r : UnlockResult) × (j ≡ go_on r)) ⊎ ((x : Stop) × (j ≡ end_with x))
Judged-cases (go_on r) = inl (r, refl)
Judged-cases (end_with x) = inr (x, refl)

abbrev final_of : UnlockResult → Unlocked → UnlockResult
final_of r (unlocked r') = r'
final_of r (stopped x) = r

-- The loop from the i-th call on: what it found of the candidates, in front of nothing of its own.
abbrev Sorts :
    Bool
    → (ℕ → ℤ → CallResult (Option GetBlockHeaderReply))
    → ℕ
    → List BlockData
    → UnlockResult
    → UnlockResult
    → Type 0
Sorts keep header i bs r r' =
    (ms : List BlockData) × (os : List BlockData) × Verdicts keep header i bs ms os
    × Extends r ms os r'

one_more :
    (keep : Bool) (header : ℕ → ℤ → CallResult (Option GetBlockHeaderReply)) (i : ℕ)
    (reply : GetBlockHeaderReply) (b : BlockData) (bs : List BlockData) (r r1 r' : UnlockResult)
    → header i b.height ≡ done (some reply)
    → Judges keep reply b r r1
    → Sorts keep header (i + 1) bs r1 r'
    → Sorts keep header i (b ∷ bs) r r'
unfolding add_matured add_orphan orphaned
one_more keep header i reply b bs r _ r' e (matures h) (ms, os, v, (m, o, n, k, u)) = (
  handle_block keep reply.block_header b ∷ ms,
  os,
  found i reply b _ bs ms os e h (handle_block-Handled keep reply.block_header b h) v,
  (m ∙ append_assoc r.matured_blocks _ ms, o, omega (arith, n), k, u),
)
one_more keep header i reply b bs r _ r' e (orphans h) (ms, os, v, (m, o, n, k, u)) = (
  ms,
  orphaned b ∷ os,
  lost i reply b bs ms os e h v,
  (m, o ∙ append_assoc r.orphaned_blocks _ os, n, omega (arith, k), u),
)

unlock_from-Sorts :
    (keep : Bool) (header : ℕ → ℤ → CallResult (Option GetBlockHeaderReply)) (i : ℕ)
    (bs : List BlockData) (r r' : UnlockResult)
    → unlock_from keep header i bs r ≡ unlocked r'
    → Sorts keep header i bs r r'
unfolding unlock_from
unlock_from-Sorts keep header i [] r r' e =
    subst (λ (x : UnlockResult). Sorts keep header i [] r x) (ap (final_of r) e)
      (
        [],
        [],
        no_more i,
        (
          sym (append-nil r.matured_blocks),
          sym (append-nil r.orphaned_blocks),
          omega arith,
          omega arith,
          refl,
        ),
      )
unlock_from-Sorts keep header i (b ∷ bs) r r' e =
    elim (Judged-cases (judge_candidate keep (header i b.height) b r)) [
      | inl (r1, go) ↦
          let (reply, answer, judged) = judge_candidate-Judges keep (header i b.height) b r r1 go in
          let rest = rw go at e in
          one_more keep header i reply b bs r r1 r' answer judged
            (unlock_from-Sorts keep header (i + 1) bs r1 r' rest)
      | inr (x, stop) ↦ let wrong = rw stop at e in absurd (no_result x r' wrong)
    ]
  where
    no_result : (x : Stop) (y : UnlockResult) → stopped x ≡ unlocked y → ⊥
    no_result x y w = cc

-- Where unlockCandidates gives a result, every candidate is in it once, in the order of the
-- candidates, by the header that the node sends when it is asked for the candidate's height. A
-- candidate is found, if it has the nonce and the total reward of that header, and then it has the
-- header's hash, and as its reward the coinbase value with the fees, or without them where KeepTxFees
-- sets these aside. It is orphaned, and else unchanged, if its nonce is empty or another one. The
-- counters count the two, and no uncles.
pub unlock_candidates-Verdicts :
    (keep : Bool) (header : ℕ → ℤ → CallResult (Option GetBlockHeaderReply))
    (candidates : List BlockData) (r : UnlockResult)
    → unlock_candidates keep header candidates ≡ unlocked r
    → Verdicts keep header 0 candidates r.matured_blocks r.orphaned_blocks
      × (r.blocks ≡ length r.matured_blocks)
      × (r.orphans ≡ length r.orphaned_blocks)
      × (r.uncles ≡ 0)
unfolding unlock_candidates empty_result
unlock_candidates-Verdicts keep header candidates r e =
    let (ms, os, v, (m, o, n, k, u)) =
      unlock_from-Sorts keep header 0 candidates empty_result r e in
    (
      subst (λ (x : List BlockData). Verdicts keep header 0 candidates x r.orphaned_blocks) (sym m)
          (subst (λ (x : List BlockData). Verdicts keep header 0 candidates ms x) (sym o) v),
      rw m (omega (arith, n)),
      rw o (omega (arith, k)),
      u,
    )
