-- ===== src/Storage/RoundTrips.antt =====
-- storage/redis.go: what is read back from the rows that the pool wrote.
use xmrpool.Common.{◌≡◌, refl, Bool, true, false, Option, none, some, List, [], ◌∷◌, map, All}
use xmrpool.Common.Ints.{ℤ, pos}
use xmrpool.Common.Words.{IsI64}
use xmrpool.Common.Texts.{Bytes}
use xmrpool.Common.Strings.{split, IsPart, split-join_parts, join_parts-nested}
use xmrpool.Common.Numbers.{
  format_int, parse_int, set_string, parse_int-format_int, set_string-format_big,
}
use xmrpool.Storage.Types.{
  Arg, text, int, flag, big, render, render-IsPart, join, IsField, BlockData, zero_block, key,
  serialize_hash,
}
use xmrpool.Storage.Payments.{pending_payment, read_pending, pending_row}
use xmrpool.Storage.Shares.{candidate_row}
use xmrpool.Storage.Rows.{convert_candidate, convert_block, read_candidate, read_block, parse_bool}

map-render-IsPart : (args : List Arg) → All IsField args → All IsPart (map render args)
map-render-IsPart [] h = _
map-render-IsPart (a ∷ args) (ha, h) = (render-IsPart a ha, map-render-IsPart args h)

-- Splitting a joined row gives its printed fields.
pub split-join :
    (a : Arg) (args : List Arg)
    → All IsField (a ∷ args)
    → split (join (a ∷ args)) ≡ map render (a ∷ args)
unfolding join
split-join a args (ha, h) =
    split-join_parts (render a) (map render args) (render-IsPart a ha, map-render-IsPart args h)

-- The row of a pending payment, of a login without colons and an int64 amount, is read back by
-- GetPendingPayments with that login, that amount, and the score as its time.
pending_payment-pending_row :
    (score : ℤ) (login : Bytes) (amount : ℤ)
    → IsPart login
    → IsI64 amount
    → pending_payment (score, pending_row login amount)
      ≡ some (record { timestamp = score; amount = amount; address = login })
unfolding pending_payment render read_pending
pending_payment-pending_row score login amount part range =
    rw
      (
        split-join (text login) (int amount ∷ []) (part, (range, _)),
        parse_int-format_int amount range,
      )
      refl

-- A candidate as WriteBlock stores it.
abbrev pub candidate_of : ℤ → Bytes → Bytes → Bytes → ℤ → ℤ → ℤ → ℤ → ℤ → Bytes → BlockData
candidate_of score nonce e1 e2 ts diff shares value fee row = record zero_block {
  height = score;
  round_height = score;
  nonce = nonce;
  e_nonce1 = e1;
  e_nonce2 = e2;
  timestamp = ts;
  difficulty = diff;
  total_shares = shares;
  coin_base_value = some value;
  blk_total_fee = some fee;
  candidate_key = row;
}

split-candidate_row :
    (nonce e1 e2 : Bytes) (ts diff shares value fee : ℤ)
    → All IsPart (nonce ∷ e1 ∷ e2 ∷ [])
    → All IsI64 (ts ∷ diff ∷ shares ∷ value ∷ fee ∷ [])
    → split (candidate_row (nonce ∷ e1 ∷ e2 ∷ []) ts diff shares value fee)
      ≡ nonce ∷ e1 ∷ e2 ∷ map format_int (ts ∷ diff ∷ shares ∷ value ∷ fee ∷ [])
unfolding candidate_row join render
split-candidate_row nonce e1 e2 ts diff shares value fee (p0, (p1, (p2, _)))
      (r0, (r1, (r2, (r3, (r4, _))))) =
    let args : List Arg =
      text nonce ∷ text e1 ∷ text e2 ∷ int ts ∷ int diff ∷ int shares ∷ int value ∷ int fee ∷ [] in
    rw
      (join_parts-nested nonce (e1 ∷ e2 ∷ [])
        (map render (int ts ∷ int diff ∷ int shares ∷ int value ∷ int fee ∷ [])))
      (split-join (text nonce)
        (text e1 ∷ text e2 ∷ int ts ∷ int diff ∷ int shares ∷ int value ∷ int fee ∷ [])
        (p0, (p1, (p2, (r0, (r1, (r2, (r3, (r4, _)))))))))

-- The row that WriteBlock adds for a block, of a nonce and two extra nonces without colons and of
-- int64 numbers, is read back by convertCandidateResults with all that it holds, and with the score
-- as its height.
pub convert_candidate-candidate_row :
    (score : ℤ) (nonce e1 e2 : Bytes) (ts diff shares value fee : ℤ)
    → All IsPart (nonce ∷ e1 ∷ e2 ∷ [])
    → All IsI64 (ts ∷ diff ∷ shares ∷ value ∷ fee ∷ [])
    → convert_candidate (score, candidate_row (nonce ∷ e1 ∷ e2 ∷ []) ts diff shares value fee)
      ≡ some (
          candidate_of score nonce e1 e2 ts diff shares value fee
            (candidate_row (nonce ∷ e1 ∷ e2 ∷ []) ts diff shares value fee))
unfolding convert_candidate read_candidate
convert_candidate-candidate_row score nonce e1 e2 ts diff shares value fee parts ranges =
    let (r0, (r1, (r2, (r3, (r4, _))))) = ranges in
    rw
      (
        split-candidate_row nonce e1 e2 ts diff shares value fee parts ranges,
        parse_int-format_int ts r0,
        parse_int-format_int diff r1,
        parse_int-format_int shares r2,
        parse_int-format_int value r3,
        parse_int-format_int fee r4,
      )
      refl

-- A block as it is read back: its hash printed, its reward as a text.
abbrev pub big_value : Option ℤ → Option ℤ
big_value none = some (pos 0)
big_value (some n) = some n

abbrev pub stored_block : ℤ → BlockData → BlockData
stored_block score b = record zero_block {
  height = score;
  round_height = score;
  orphan = b.orphan;
  nonce = b.nonce;
  hash = serialize_hash b;
  timestamp = b.timestamp;
  difficulty = b.difficulty;
  total_shares = b.total_shares;
  coin_base_value = big_value b.coin_base_value;
  blk_total_fee = big_value b.blk_total_fee;
  reward_string = render (big b.reward);
  immature_reward = render (big b.reward);
  immature_key = key b;
}

set_string-render : (o : Option ℤ) → set_string (render (big o)) ≡ big_value o
unfolding render
set_string-render none = unfold set_string in refl
set_string-render (some n) = set_string-format_big n

parse_bool-render : (b : Bool) → parse_bool (render (flag b)) ≡ b
unfolding parse_bool render
parse_bool-render true = refl
parse_bool-render false = refl

parsed-render : (x : ℤ) → IsI64 x → parse_int (render (int x)) ≡ (x, true)
unfolding render
parsed-render x h = parse_int-format_int x h

split-key :
    (b : BlockData)
    → IsPart b.nonce
    → IsPart (serialize_hash b)
    → All IsI64 (b.uncle_height ∷ b.timestamp ∷ b.difficulty ∷ b.total_shares ∷ [])
    → split (key b)
      ≡ map render (
          int b.uncle_height
          ∷ flag b.orphan
          ∷ text b.nonce
          ∷ text (serialize_hash b)
          ∷ int b.timestamp
          ∷ int b.difficulty
          ∷ int b.total_shares
          ∷ big b.coin_base_value
          ∷ big b.blk_total_fee
          ∷ big b.reward
          ∷ [])
unfolding key
split-key b nonce hash (r0, (r1, (r2, (r3, _)))) =
    split-join (int b.uncle_height)
      (flag b.orphan
        ∷ text b.nonce
        ∷ text (serialize_hash b)
        ∷ int b.timestamp
        ∷ int b.difficulty
        ∷ int b.total_shares
        ∷ big b.coin_base_value
        ∷ big b.blk_total_fee
        ∷ big b.reward
        ∷ [])
      (r0, (_, (nonce, (hash, (r1, (r2, (r3, (_, (_, (_, _))))))))))

-- The row of a block, of a nonce and a hash without colons and of int64 numbers, is read back by
-- convertBlockResults with its orphan flag, nonce, hash, timestamp, difficulty, shares, values and
-- reward as a text, and with the score as its height; an empty hash comes back as 0x0, a nil value
-- as 0, and the height of the uncle not at all.
pub convert_block-key :
    (score : ℤ) (b : BlockData)
    → IsPart b.nonce
    → IsPart (serialize_hash b)
    → All IsI64 (b.uncle_height ∷ b.timestamp ∷ b.difficulty ∷ b.total_shares ∷ [])
    → convert_block (score, key b) ≡ some (stored_block score b)
unfolding convert_block read_block
convert_block-key score b nonce hash ranges =
    let (r0, (r1, (r2, (r3, _)))) = ranges in
    rw
      (
        split-key b nonce hash ranges,
        parse_bool-render b.orphan,
        parsed-render b.timestamp r1,
        parsed-render b.difficulty r2,
        parsed-render b.total_shares r3,
        set_string-render b.coin_base_value,
        set_string-render b.blk_total_fee,
      )
      (unfold render in refl)
