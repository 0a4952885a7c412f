-- ===== src/Storage/Books/Blocks.antt =====
-- storage/redis.go: the parts of the transactions of blocks, what each adds to the miners' fields and
-- to the finances.
use xmrpool.Common.{◌≡◌, refl, Bool, true, false, List, [], ◌∷◌, Bool-cases, inl, inr}
use xmrpool.Common.Ints.{ℤ, pos, eqb_ℤ}
use xmrpool.Common.Texts.{Bytes, codes, bytes_eq}
use xmrpool.Common.Strings.{join_parts}
use xmrpool.Storage.Types.{text, int, join, render, format_key, format_round, BlockData}
use xmrpool.Storage.Redis.{Command, h_set, h_incr_by, del, net, rewrites}
use xmrpool.Storage.Payments.{finances_key}
use xmrpool.Storage.Blocks.{immature_commands, matured_commands, immature_log}
use xmrpool.Storage.Books.{
  Account, balance, pending, paid, immature, field_of, is_miner, is_finances, IsBalanced,
  to-IsBalanced, append-IsBalanced, zero_add, is_miner-finances_key, is_finances-finances_key,
  is_miner-format_key, is_finances-format_key,
}
use xmrpool.Storage.Books.Credits.{Adds, nothing, only, append-Adds, ◌⊕◌}

pub ruleset keys = (is_miner-format_key, is_finances-format_key)

renamed-Adds :
    (prefix : Bytes) (block : BlockData) (same : Bool)
    → eqb_ℤ block.height block.round_height ≡ same
    → Adds prefix (immature_commands prefix block) nothing nothing
unfolding immature_commands rewrites net format_round join join_parts render
renamed-Adds prefix block true e = record {
  keeps_miners = λ a. rw e refl;
  keeps_finances = λ a. rw e refl;
  miners = λ a. rw e refl;
  finances = λ a. rw e refl;
}
renamed-Adds prefix block false e = record {
  keeps_miners = λ a. rw e (simp keys);
  keeps_finances = λ a. rw e (simp keys);
  miners = λ a. rw e refl;
  finances = λ a. rw e refl;
}

pub immature_commands-Adds :
    (prefix : Bytes) (block : BlockData)
    → Adds prefix (immature_commands prefix block) nothing nothing
immature_commands-Adds prefix block =
    renamed-Adds prefix block (eqb_ℤ block.height block.round_height) refl

pub matured_commands-Adds :
    (prefix : Bytes) (block : BlockData)
    → Adds prefix (matured_commands prefix block) nothing nothing
unfolding matured_commands rewrites net format_round join join_parts render
matured_commands-Adds prefix block = record {
  keeps_miners = λ a. simp keys;
  keeps_finances = λ a. simp keys;
  miners = λ a. refl;
  finances = λ a. refl;
}

pub immature_log-outside :
    (prefix : Bytes) (height : ℤ) (hash : Bytes)
    → (is_miner prefix (immature_log prefix height hash) ≡ false)
      × (is_finances prefix (immature_log prefix height hash) ≡ false)
unfolding join join_parts render
immature_log-outside prefix height hash = (simp keys, simp keys)

-- A field of the finances incremented.
pub finance-Adds :
    (prefix field : Bytes) (n : ℤ) (cs : List Command) (m f : Bytes → ℤ)
    → Adds prefix cs m f
    → Adds prefix (h_incr_by (finances_key prefix) field n ∷ cs) m (only field n ⊕ f)
unfolding rewrites net
finance-Adds prefix field n cs m f adds = record {
  keeps_miners = λ a. adds.keeps_miners a;
  keeps_finances = λ a. adds.keeps_finances a;
  miners = λ a. rw (is_miner-finances_key prefix) (adds.miners a);
  finances = λ a. elim (Bool-cases (bytes_eq field (field_of a))) [
    | inl e ↦ rw (is_finances-finances_key prefix, e, adds.finances a) refl
    | inr e ↦ rw (is_finances-finances_key prefix, e, adds.finances a) (zero_add (f (field_of a)))
  ];
}

pub end-Adds : (prefix : Bytes) → Adds prefix [] nothing nothing
unfolding rewrites net
end-Adds prefix = record {
  keeps_miners = λ a. refl;
  keeps_finances = λ a. refl;
  miners = λ a. refl;
  finances = λ a. refl;
}

pub aside-Adds :
    (prefix : Bytes) (cs : List Command)
    → ((at : Bytes → Bool) (field : Bytes) → net at field cs ≡ pos 0)
    → ((a : Account)
        → (rewrites (is_miner prefix) (field_of a) cs ≡ false)
          × (rewrites (is_finances prefix) (field_of a) cs ≡ false))
    → Adds prefix cs nothing nothing
aside-Adds prefix cs still kept = record {
  keeps_miners = λ a. (kept a).0;
  keeps_finances = λ a. (kept a).1;
  miners = λ a. still (is_miner prefix) (field_of a);
  finances = λ a. still (is_finances prefix) (field_of a);
}

pub other_fields :
    (a : Account)
    → (bytes_eq (codes "lastCreditHeight") (field_of a) ≡ false)
      × (bytes_eq (codes "lastCreditHash") (field_of a) ≡ false)
      × (bytes_eq (codes "totalMined") (field_of a) ≡ false)
      × (bytes_eq (codes "lastShare") (field_of a) ≡ false)
      × (bytes_eq (codes "blocksFound") (field_of a) ≡ false)
other_fields balance = (refl, refl, refl, refl, refl)
other_fields pending = (refl, refl, refl, refl, refl)
other_fields paid = (refl, refl, refl, refl, refl)
other_fields immature = (refl, refl, refl, refl, refl)

-- The last commands of the matured transaction: what it notes of the block.
noted-Adds :
    (prefix height hash : Bytes) (mined : ℤ)
    → Adds prefix
        (h_set (finances_key prefix) (codes "lastCreditHeight") height
          ∷ h_set (finances_key prefix) (codes "lastCreditHash") hash
          ∷ h_incr_by (finances_key prefix) (codes "totalMined") mined
          ∷ [])
        nothing
        nothing
unfolding rewrites net
noted-Adds prefix height hash mined = record {
  keeps_miners = λ a. rw (is_miner-finances_key prefix) refl;
  keeps_finances = λ a.
      let (e, e', _, _, _) = other_fields a in rw (is_finances-finances_key prefix, e, e') refl;
  miners = λ a. rw (is_miner-finances_key prefix) refl;
  finances =
      λ a. let (_, _, e, _, _) = other_fields a in rw (is_finances-finances_key prefix, e) refl;
}

pub credits_log-outside :
    (prefix : Bytes) (height : ℤ) (hash : Bytes)
    → (is_miner prefix (format_key prefix (text (codes "credits") ∷ int height ∷ text hash ∷ []))
        ≡ false)
      × (is_finances prefix
            (format_key prefix (text (codes "credits") ∷ int height ∷ text hash ∷ []))
          ≡ false)
unfolding join join_parts render
credits_log-outside prefix height hash = (simp keys, simp keys)

pub matured_tail-Adds :
    (prefix hash height : Bytes) (block : BlockData) (mined total total' : ℤ)
    → Adds prefix
        (del (immature_log prefix block.round_height block.hash)
          ∷ h_incr_by (finances_key prefix) (codes "balance") total
          ∷ h_incr_by (finances_key prefix) (codes "immature") total'
          ∷ h_set (finances_key prefix) (codes "lastCreditHeight") height
          ∷ h_set (finances_key prefix) (codes "lastCreditHash") hash
          ∷ h_incr_by (finances_key prefix) (codes "totalMined") mined
          ∷ [])
        (nothing ⊕ nothing)
        (nothing ⊕ (only (codes "balance") total ⊕ (only (codes "immature") total' ⊕ nothing)))
unfolding rewrites net
matured_tail-Adds prefix hash height block mined total total' =
    let (outside, outside') = immature_log-outside prefix block.round_height block.hash in
    append-Adds prefix (del (immature_log prefix block.round_height block.hash) ∷ []) _ _ _ _ _
      (aside-Adds prefix _ (λ at field. refl) (λ a. (rw outside refl, rw outside' refl)))
      (finance-Adds prefix (codes "balance") total _ _ _
        (finance-Adds prefix (codes "immature") total' _ _ _ (noted-Adds prefix height hash mined)))
