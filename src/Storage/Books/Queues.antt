-- ===== src/Storage/Books/Queues.antt =====
-- storage/redis.go: the transactions of blocks and shares add the same to the miners and the finances.
use xmrpool.Common.{ℕ, ◌^◌, ◌<◌, ◌≡◌, refl, List, [], ◌∷◌}
use xmrpool.Common.Ints.{ℤ, pos, ◌+ℤ◌, quot_ℤ, int_laws}
use xmrpool.Common.Texts.{Bytes, codes}
use xmrpool.Common.Strings.{join_parts}
use xmrpool.Storage.Types.{text, int, big, join, render, format_key, format_round, BlockData}
use xmrpool.Storage.Redis.{del, z_add, net, rewrites}
use xmrpool.Storage.Payments.{negate64}
use xmrpool.Storage.Shares.{share_commands, share_queue, block_queue}
use xmrpool.Storage.Blocks.{
  Credits, total64, immature_log, immature_queue, matured_queue, orphan_queue, orphans_queue,
}
use xmrpool.Storage.Books.{IsBalanced, to-IsBalanced, append-IsBalanced}
use xmrpool.Storage.Books.Credits.{
  Adds, nothing, append-Adds, AreCredits, sum_of, total64-sum_of, negate64-pos,
  credit_commands-Adds, debit_commands-Adds, Adds-IsBalanced,
}
use xmrpool.Storage.Books.Blocks.{
  keys, immature_commands-Adds, matured_commands-Adds, immature_log-outside, finance-Adds, end-Adds,
  aside-Adds, other_fields, credits_log-outside, matured_tail-Adds,
}

-- What a block that became immature is worth is added to its miners and to the finances.
pub immature_queue-IsBalanced :
    (prefix : Bytes) (block : BlockData) (rewards : Credits)
    → AreCredits rewards
    → sum_of rewards < 2 ^ 63
    → IsBalanced prefix (immature_queue prefix block rewards)
unfolding immature_queue
immature_queue-IsBalanced prefix block rewards h small =
    let (outside, outside') = immature_log-outside prefix block.height block.hash in
    Adds-IsBalanced prefix _ _ _
      (append-Adds prefix _ _ _ _ _ _
        (append-Adds prefix _ _ _ _ _ _ (immature_commands-Adds prefix block) (
          credit_commands-Adds prefix (codes "immature")
            (immature_log prefix block.height block.hash) rewards h outside outside'))
        (finance-Adds prefix (codes "immature") (total64 (pos 0) rewards) [] _ _ (end-Adds prefix)))
      (λ a. rw (total64-sum_of rewards h small) (grind int_laws))

-- The immature credits of an orphan are taken back from its miners and from the finances.
pub orphan_queue-IsBalanced :
    (prefix : Bytes) (block : BlockData) (log : Credits)
    → AreCredits log
    → sum_of log < 2 ^ 63
    → IsBalanced prefix (orphan_queue prefix block log)
unfolding orphan_queue net rewrites
orphan_queue-IsBalanced prefix block log h small =
    let (outside, outside') = immature_log-outside prefix block.round_height block.hash in
    let dropped : Adds prefix (del (immature_log prefix block.round_height block.hash) ∷ []) nothing
        nothing =
      aside-Adds prefix _ (λ at field. refl) (λ a. (rw outside refl, rw outside' refl)) in
    Adds-IsBalanced prefix _ _ _
      (append-Adds prefix _ _ _ _ _ _
        (append-Adds prefix _ _ _ _ _ _ (matured_commands-Adds prefix block)
          (debit_commands-Adds prefix log h small))
        (append-Adds prefix _ _ _ _ _ _ dropped (
          finance-Adds prefix (codes "immature") (negate64 (total64 (pos 0) log)) [] _ _
            (end-Adds prefix))))
      (λ a. rw (total64-sum_of log h small, negate64-pos (sum_of log) small) (grind int_laws))

pub orphans_queue-IsBalanced :
    (prefix : Bytes) (blocks : List BlockData) → IsBalanced prefix (orphans_queue prefix blocks)
unfolding orphans_queue
orphans_queue-IsBalanced prefix [] = Adds-IsBalanced prefix _ _ _ (end-Adds prefix) (λ a. refl)
orphans_queue-IsBalanced prefix (block ∷ blocks) =
    append-IsBalanced prefix _ _
      (Adds-IsBalanced prefix _ _ _ (immature_commands-Adds prefix block) (λ a. refl))
      (orphans_queue-IsBalanced prefix blocks)

moved :
    (i b : ℤ)
    → pos 0 +ℤ (pos 0 +ℤ i) +ℤ b +ℤ (pos 0 +ℤ pos 0)
      ≡ pos 0 +ℤ (pos 0 +ℤ pos 0) +ℤ pos 0 +ℤ (pos 0 +ℤ (b +ℤ (i +ℤ pos 0)))
moved i b = grind int_laws

-- A matured block moves what its miners had as immature out of it, and its rewards into their balances,
-- for them and for the finances.
pub matured_queue-IsBalanced :
    (prefix : Bytes) (ms : ℤ) (block : BlockData) (reward : ℤ) (log rewards : Credits)
    → AreCredits log
    → AreCredits rewards
    → sum_of log < 2 ^ 63
    → sum_of rewards < 2 ^ 63
    → IsBalanced prefix (matured_queue prefix ms block reward log rewards)
unfolding matured_queue net rewrites
matured_queue-IsBalanced prefix ms block reward log rewards hl hr small small' =
    let (outside, outside') = credits_log-outside prefix block.height block.hash in
    let noted : Adds prefix
        (z_add (format_key prefix (text (codes "credits") ∷ text (codes "all") ∷ [])) block.height
            (join (text block.hash ∷ int (quot_ℤ ms 1000) ∷ big block.reward ∷ []))
          ∷ [])
        nothing nothing =
      aside-Adds prefix _ (λ at field. refl) (λ a. (refl, refl)) in
    Adds-IsBalanced prefix _ _ _
      (append-Adds prefix _ _ _ _ _ _
        (append-Adds prefix _ _ _ _ _ _
          (append-Adds prefix _ _ _ _ _ _ (matured_commands-Adds prefix block)
            (append-Adds prefix _ _ _ _ _ _ noted (debit_commands-Adds prefix log hl small)))
          (credit_commands-Adds prefix (codes "balance")
            (format_key prefix (text (codes "credits") ∷ int block.height ∷ text block.hash ∷ []))
            rewards hr outside outside'))
        (matured_tail-Adds prefix _ _ block _ _ _))
      (λ a.
        rw
          (
            total64-sum_of log hl small,
            total64-sum_of rewards hr small',
            negate64-pos (sum_of log) small,
          )
          (moved _ _))

-- Shares and found blocks touch no field of an account.
share_commands-IsBalanced :
    (prefix : Bytes) (ms ts : ℤ) (login id : Bytes) (diff window : ℤ)
    → IsBalanced prefix (share_commands prefix ms ts login id diff window)
unfolding share_commands rewrites net join join_parts render
share_commands-IsBalanced prefix ms ts login id diff window =
    to-IsBalanced prefix _
      (λ a. let (_, _, _, e, _) = other_fields a in (simp (keys, e), simp (keys, e), simp keys))

pub share_queue-IsBalanced :
    (prefix : Bytes) (ms : ℤ) (login id : Bytes) (diff window : ℤ)
    → IsBalanced prefix (share_queue prefix ms login id diff window)
unfolding share_queue rewrites net join join_parts render
share_queue-IsBalanced prefix ms login id diff window =
    append-IsBalanced prefix _ _
      (share_commands-IsBalanced prefix ms (quot_ℤ ms 1000) login id diff window)
      (to-IsBalanced prefix _ (λ a. (refl, refl, simp keys)))

pub block_queue-IsBalanced :
    (prefix : Bytes) (ms : ℤ) (login id : Bytes) (diff window : ℤ) (height : ℕ) (nonce : Bytes)
    → IsBalanced prefix (block_queue prefix ms login id diff window height nonce)
unfolding block_queue rewrites net join join_parts render format_round
block_queue-IsBalanced prefix ms login id diff window height nonce =
    append-IsBalanced prefix _ _
      (share_commands-IsBalanced prefix ms (quot_ℤ ms 1000) login id diff window)
      (to-IsBalanced prefix _
        (λ a. let (_, _, _, _, e) = other_fields a in (simp keys, simp keys, simp (keys, e))))
