-- ===== src/Storage/Books/Taken.antt =====
-- storage/redis.go: a block that leaves the immature ones takes with it what it had given each miner.
use xmrpool.Common.{
  ℕ, ◌^◌, ◌<◌, ◌≡◌, refl, Bool, true, false, none, [], ◌∷◌, ◌++◌, Bool-cases, inl, inr, append-nil,
}
use xmrpool.Common.Ints.{ℤ, pos, ◌+ℤ◌, sub_ℕ, eqb_ℤ, quot_ℤ, int_laws}
use xmrpool.Common.Words.{wrap64}
use xmrpool.Common.Strings.{join_parts, bytes_eq-append}
use xmrpool.Common.Texts.{Bytes, codes, bytes_eq}
use xmrpool.Common.Numbers.{format_int}
use xmrpool.Storage.Types.{BlockData, text, int, big, join, render, format_key}
use xmrpool.Storage.Redis.{Command, h_set, z_add, h_incr_by, del, net, amount_at}
use xmrpool.Storage.Payments.{miner_key, finances_key, negate64}
use xmrpool.Storage.Blocks.{
  Credits, immature_commands, matured_commands, credit_commands, debit_commands, parsed, total64,
  immature_log, immature_queue, matured_queue, orphan_queue,
}
use xmrpool.Storage.Books.{net-append}
use xmrpool.Storage.Books.Credits.{AreCredits, sum_of}
use xmrpool.Storage.Books.Undo.{
  logged, part, net-credited, net-debited, parsed-logged, logged-append,
}

logged-immature_commands :
    (prefix log : Bytes) (block : BlockData) (same : Bool)
    → eqb_ℤ block.height block.round_height ≡ same
    → logged log (immature_commands prefix block) ≡ []
unfolding logged immature_commands
logged-immature_commands prefix log block true e = rw e refl
logged-immature_commands prefix log block false e = rw e refl

net-immature_commands :
    (at : Bytes → Bool) (prefix field : Bytes) (block : BlockData) (same : Bool)
    → eqb_ℤ block.height block.round_height ≡ same
    → net at field (immature_commands prefix block) ≡ pos 0
unfolding net immature_commands
net-immature_commands at prefix field block true e = rw e refl
net-immature_commands at prefix field block false e = rw e refl

-- The log of an immature block, and what its transaction gives to the keys that pass a test.
logged-immature_queue :
    (prefix : Bytes) (block : BlockData) (rewards : Credits)
    → AreCredits rewards
    → sum_of rewards < 2 ^ 63
    → parsed
        (logged (immature_log prefix block.height block.hash) (immature_queue prefix block rewards))
      ≡ rewards
unfolding immature_queue
logged-immature_queue prefix block rewards h small =
    let log = immature_log prefix block.height block.hash in
    let credits = credit_commands prefix (codes "immature") log rewards in
    let tail : logged log
          (h_incr_by (finances_key prefix) (codes "immature") (total64 (pos 0) rewards) ∷ [])
        ≡ [] =
      unfold logged in refl in
    rw
      (
        logged-append log (immature_commands prefix block ++ credits) _,
        logged-append log (immature_commands prefix block) credits,
        logged-immature_commands prefix log block (eqb_ℤ block.height block.round_height) refl,
        tail,
        append-nil (logged log credits),
      )
      (parsed-logged prefix (codes "immature") log rewards h small)

net-immature_queue :
    (at : Bytes → Bool) (prefix : Bytes) (block : BlockData) (rewards : Credits)
    → AreCredits rewards
    → at (finances_key prefix) ≡ false
    → net at (codes "immature") (immature_queue prefix block rewards) ≡ pos (part at prefix rewards)
unfolding immature_queue
net-immature_queue at prefix block rewards h outside =
    let log = immature_log prefix block.height block.hash in
    let credits = credit_commands prefix (codes "immature") log rewards in
    let tail : net at (codes "immature")
          (h_incr_by (finances_key prefix) (codes "immature") (total64 (pos 0) rewards) ∷ [])
        ≡ pos 0 =
      unfold net in rw outside refl in
    rw
      (
        net-append at (codes "immature") (immature_commands prefix block ++ credits) _,
        net-append at (codes "immature") (immature_commands prefix block) credits,
        net-immature_commands at prefix (codes "immature") block
            (eqb_ℤ block.height block.round_height) refl,
        net-credited at prefix log rewards h,
        tail,
      )
      (grind int_laws)

net-orphan_queue :
    (at : Bytes → Bool) (prefix : Bytes) (block : BlockData) (log : Credits)
    → AreCredits log
    → sum_of log < 2 ^ 63
    → at (finances_key prefix) ≡ false
    → net at (codes "immature") (orphan_queue prefix block log) ≡ sub_ℕ 0 (part at prefix log)
unfolding orphan_queue
net-orphan_queue at prefix block log h small outside =
    let head : net at (codes "immature") (matured_commands prefix block) ≡ pos 0 =
      unfold net matured_commands in refl in
    let tail : net at (codes "immature") (
          del (immature_log prefix block.round_height block.hash)
          ∷ h_incr_by (finances_key prefix) (codes "immature") (negate64 (total64 (pos 0) log))
          ∷ [])
        ≡ pos 0 =
      unfold net in rw outside refl in
    rw
      (
        net-append at (codes "immature")
            (matured_commands prefix block ++ debit_commands prefix log) _,
        net-append at (codes "immature") (matured_commands prefix block)
            (debit_commands prefix log),
        head,
        net-debited at prefix log h small,
        tail,
      )
      (grind int_laws)

net-other_credits :
    (at : Bytes → Bool) (prefix log : Bytes) (cs : Credits)
    → net at (codes "immature") (credit_commands prefix (codes "balance") log cs) ≡ pos 0
unfolding net credit_commands
net-other_credits at prefix log [] = refl
net-other_credits at prefix log ((login, amount) ∷ rest) =
    elim (Bool-cases (at (miner_key prefix login))) [
      | inl e ↦ rw (e, net-other_credits at prefix log rest) refl
      | inr e ↦ rw (e, net-other_credits at prefix log rest) refl
    ]

net-noted :
    (at : Bytes → Bool) (prefix : Bytes) (c : Command) (log : Credits)
    → amount_at at (codes "immature") c ≡ none
    → net at (codes "immature") (c ∷ debit_commands prefix log)
      ≡ net at (codes "immature") (debit_commands prefix log)
unfolding net
net-noted at prefix c log e = rw e refl

matured_sum : (n : ℤ) → pos 0 +ℤ n +ℤ pos 0 +ℤ pos 0 ≡ n
matured_sum n = grind int_laws

net-matured_queue :
    (at : Bytes → Bool) (prefix : Bytes) (ms : ℤ) (block : BlockData) (reward : ℤ)
    (log rewards : Credits)
    → AreCredits log
    → sum_of log < 2 ^ 63
    → at (finances_key prefix) ≡ false
    → net at (codes "immature") (matured_queue prefix ms block reward log rewards)
      ≡ sub_ℕ 0 (part at prefix log)
unfolding matured_queue
net-matured_queue at prefix ms block reward log rewards h small outside =
    let head : net at (codes "immature") (matured_commands prefix block) ≡ pos 0 =
      unfold net matured_commands in refl in
    let noted =
      z_add (format_key prefix (text (codes "credits") ∷ text (codes "all") ∷ [])) block.height
        (join (text block.hash ∷ int (quot_ℤ ms 1000) ∷ big block.reward ∷ [])) in
    let credits =
      credit_commands prefix (codes "balance")
        (format_key prefix (text (codes "credits") ∷ int block.height ∷ text block.hash ∷ []))
        rewards in
    let tail : net at (codes "immature") (
          del (immature_log prefix block.round_height block.hash)
          ∷ h_incr_by (finances_key prefix) (codes "balance") (total64 (pos 0) rewards)
          ∷ h_incr_by (finances_key prefix) (codes "immature") (negate64 (total64 (pos 0) log))
          ∷ h_set (finances_key prefix) (codes "lastCreditHeight") (format_int block.height)
          ∷ h_set (finances_key prefix) (codes "lastCreditHash") block.hash
          ∷ h_incr_by (finances_key prefix) (codes "totalMined") (wrap64 reward)
          ∷ [])
        ≡ pos 0 =
      unfold net in rw outside refl in
    rw
      (
        net-append at (codes "immature")
            (matured_commands prefix block ++ noted ∷ debit_commands prefix log ++ credits) _,
        net-append at (codes "immature")
            (matured_commands prefix block ++ noted ∷ debit_commands prefix log) credits,
        net-append at (codes "immature") (matured_commands prefix block)
            (noted ∷ debit_commands prefix log),
        head,
        net-noted at prefix noted log refl,
        net-debited at prefix log h small,
        net-other_credits at prefix
            (format_key prefix (text (codes "credits") ∷ int block.height ∷ text block.hash ∷ []))
            rewards,
        tail,
      )
      (matured_sum _)

abbrev pub is_hash_of : Bytes → Bytes → Bytes → Bool
is_hash_of prefix login key = bytes_eq key (miner_key prefix login)

finances_key-other : (prefix login : Bytes) → is_hash_of prefix login (finances_key prefix) ≡ false
unfolding format_key join join_parts render
finances_key-other prefix login =
    rw (bytes_eq-append prefix (codes ":finances") (codes ":miners:" ++ login)) refl

gone : (n : ℕ) → pos n +ℤ sub_ℕ 0 n ≡ pos 0
gone n = grind int_laws

-- For every miner, what a block added to its immature amount is taken off again when the block is
-- orphaned or matured with the log that the block had written: the changes to it cancel out, for rewards
-- that are not negative and sum up to an int64.
pub immature_queue-Taken :
    (prefix login : Bytes) (ms : ℤ) (block later : BlockData) (reward : ℤ)
    (rewards credited : Credits)
    → AreCredits rewards
    → sum_of rewards < 2 ^ 63
    → (net (is_hash_of prefix login) (codes "immature") (immature_queue prefix block rewards)
          +ℤ net (is_hash_of prefix login) (codes "immature") (
              orphan_queue prefix later (
                parsed (
                  logged
                    (immature_log prefix block.height block.hash)
                    (immature_queue prefix block rewards))))
        ≡ pos 0)
      × (net (is_hash_of prefix login) (codes "immature") (immature_queue prefix block rewards)
            +ℤ net (is_hash_of prefix login) (codes "immature") (
                matured_queue prefix ms later reward
                  (parsed (
                    logged
                      (immature_log prefix block.height block.hash)
                      (immature_queue prefix block rewards)))
                  credited)
          ≡ pos 0)
immature_queue-Taken prefix login ms block later reward rewards credited h small =
    let outside = finances_key-other prefix login in
    let at = is_hash_of prefix login in
    (
      rw
          (
            logged-immature_queue prefix block rewards h small,
            net-immature_queue at prefix block rewards h outside,
            net-orphan_queue at prefix later rewards h small outside,
          )
          (gone (part at prefix rewards)),
      rw
          (
            logged-immature_queue prefix block rewards h small,
            net-immature_queue at prefix block rewards h outside,
            net-matured_queue at prefix ms later reward rewards credited h small outside,
          )
          (gone (part at prefix rewards)),
    )
