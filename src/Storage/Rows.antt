-- ===== src/Storage/Rows.antt =====
-- storage/redis.go: the rows of sorted sets read back.
use xmrpool.Common.{Bool, ◌||◌, Option, none, some, List, [], ◌∷◌, map, if◌then◌else◌}
use xmrpool.Common.Ints.{ℤ}
use xmrpool.Common.Texts.{Bytes, codes, bytes_eq}
use xmrpool.Common.Strings.{split}
use xmrpool.Common.Numbers.{format_int, parse_int, set_string}
use xmrpool.Storage.Types.{
  text, format_key, BlockData, zero_block, Outcome, returned, failed, collect, or_panic,
}
use xmrpool.Storage.Redis.{Redis, z_range_by_score, Reply, rows_reply}

-- One row; `none` is an index out of range.
unfoldable pub read_candidate : ℤ → Bytes → List Bytes → Option BlockData
read_candidate score member (nonce ∷ e1 ∷ e2 ∷ timestamp ∷ difficulty ∷ shares ∷ value ∷ fee ∷ _) =
    some record zero_block {
      height = score;
      round_height = score;
      nonce = nonce;
      e_nonce1 = e1;
      e_nonce2 = e2;
      timestamp = (parse_int timestamp).0;
      difficulty = (parse_int difficulty).0;
      total_shares = (parse_int shares).0;
      coin_base_value = some (parse_int value).0;
      blk_total_fee = some (parse_int fee).0;
      candidate_key = member;
    }
read_candidate score member _ = none

unfoldable pub convert_candidate : ℤ × Bytes → Option BlockData
unfolding read_candidate
convert_candidate (score, member) = read_candidate score member (split member)

unfoldable pub convert_candidate_results : List (ℤ × Bytes) → Option (List BlockData)
unfolding convert_candidate
convert_candidate_results rows = collect convert_candidate rows

-- `strconv.ParseBool`, false where it fails.
unfoldable pub parse_bool : Bytes → Bool
parse_bool s =
    bytes_eq s (codes "1")
    || bytes_eq s (codes "t")
    || bytes_eq s (codes "T")
    || bytes_eq s (codes "true")
    || bytes_eq s (codes "TRUE")
    || bytes_eq s (codes "True")

unfoldable pub read_block : ℤ → Bytes → List Bytes → Option BlockData
unfolding parse_bool
read_block score member
      (uncle ∷ orphan ∷ nonce ∷ hash ∷ timestamp ∷ difficulty ∷ shares ∷ value ∷ fee ∷ reward ∷ _) =
    some record zero_block {
      height = score;
      round_height = score;
      orphan = parse_bool orphan;
      nonce = nonce;
      hash = hash;
      timestamp = (parse_int timestamp).0;
      difficulty = (parse_int difficulty).0;
      total_shares = (parse_int shares).0;
      coin_base_value = set_string value;
      blk_total_fee = set_string fee;
      reward_string = reward;
      immature_reward = reward;
      immature_key = member;
    }
read_block score member _ = none

unfoldable pub convert_block : ℤ × Bytes → Option BlockData
unfolding read_block
convert_block (score, member) = read_block score member (split member)

unfoldable pub convert_block_results : List (ℤ × Bytes) → Option (List BlockData)
unfolding convert_block
convert_block_results rows = collect convert_block rows

-- One entry of a JSON object: an int64 or a text.
pub data Value : Type 0 where
  number : ℤ → Value
  string : Bytes → Value

unfoldable pub convert_string : Bytes × Bytes → Bytes × Value
convert_string (k, v) = let (n, ok) = parse_int v in (k, if ok then number n else string v)

unfoldable pub convert_string_map : List (Bytes × Bytes) → List (Bytes × Value)
unfolding convert_string
convert_string_map m = map convert_string m

pub record Payment : Type 0 where
  pub timestamp : ℤ
  pub tx : Bytes
  pub address : Option Bytes
  pub amount : ℤ

unfoldable pub read_payment : ℤ → Bytes → List Bytes → Option Payment
read_payment score member [] = none
read_payment score member (tx ∷ []) = none
read_payment score member (tx ∷ amount ∷ []) =
    some record { timestamp = score; tx = tx; address = none; amount = (parse_int amount).0 }
read_payment score member (tx ∷ address ∷ amount ∷ _) =
    some
      record { timestamp = score; tx = tx; address = some address; amount = (parse_int amount).0 }

unfoldable pub convert_payment : ℤ × Bytes → Option Payment
unfolding read_payment
convert_payment (score, member) = read_payment score member (split member)

unfoldable pub convert_payments_results : List (ℤ × Bytes) → Option (List Payment)
unfolding convert_payment
convert_payments_results rows = collect convert_payment rows

-- How the rows of a command are read.
abbrev pub blocks_found :
    (List (ℤ × Bytes) → Option (List BlockData)) → Option Reply → Outcome (List BlockData)
blocks_found convert none = failed
blocks_found convert (some (rows_reply rows)) = or_panic (convert rows)
blocks_found convert (some _) = returned []

module _ (redis : Redis) (prefix : Bytes) where
  unfoldable pub get_candidates : ℤ → redis.Db → Outcome (List BlockData) × redis.Db
  get_candidates max_height db =
      let (reply, db') =
        redis.run
          (z_range_by_score
            (format_key prefix (text (codes "blocks") ∷ text (codes "candidates") ∷ [])) (codes "0")
            (format_int max_height))
          db in
      (blocks_found convert_candidate_results reply, db')

  unfoldable pub get_immature_blocks : ℤ → redis.Db → Outcome (List BlockData) × redis.Db
  get_immature_blocks max_height db =
      let (reply, db') =
        redis.run
          (z_range_by_score
            (format_key prefix (text (codes "blocks") ∷ text (codes "immature") ∷ [])) (codes "0")
            (format_int max_height))
          db in
      (blocks_found convert_block_results reply, db')
