-- ===== src/Storage/Types.antt =====
-- storage/redis.go: BlockData, `join` and the keys that are made with it.
use xmrpool.Common.{ℕ, refl, Bool, true, false, Option, none, some, List, [], ◌∷◌, ◌++◌, map}
use xmrpool.Common.Ints.{ℤ, pos}
use xmrpool.Common.Words.{IsI64, IsU64}
use xmrpool.Common.Texts.{Bytes, codes}
use xmrpool.Common.Decimal.{format_uint}
use xmrpool.Common.Strings.{join_parts, IsPart}
use xmrpool.Common.Numbers.{
  format_int, format_big, format_uint-IsPart, format_int-IsPart, format_big-IsPart,
}

-- A Go slice indexed out of range, or a nil *big.Int dereferenced, ends in `panicked`.
pub data Outcome (A : Type 0) : Type 0 where
  returned : A → Outcome A
  failed : Outcome A
  panicked : Outcome A

-- A loop that appends a result for each row, and ends where a row panics.
abbrev pub add_row : {B : Type 0} → Option B → Option (List B) → Option (List B)
add_row none ys = none
add_row (some y) none = none
add_row (some y) (some ys) = some (y ∷ ys)

unfoldable pub collect : {A B : Type 0} → (A → Option B) → List A → Option (List B)
collect f [] = some []
collect f (x ∷ xs) = add_row (f x) (collect f xs)

abbrev pub or_panic : {B : Type 0} → Option B → Outcome B
or_panic none = panicked
or_panic (some b) = returned b

-- `return a, nil`, or the error of the last command.
unfoldable pub reply_of : {A D : Type 0} → A → Bool × D → Outcome A × D
reply_of a (true, db) = (returned a, db)
reply_of a (false, db) = (failed, db)

-- A *big.Int that may be nil is an option.
pub record BlockData : Type 0 where
  pub height : ℤ
  pub timestamp : ℤ
  pub difficulty : ℤ
  pub total_shares : ℤ
  pub uncle : Bool
  pub uncle_height : ℤ
  pub orphan : Bool
  pub hash : Bytes
  pub nonce : Bytes
  pub e_nonce1 : Bytes
  pub e_nonce2 : Bytes
  pub coin_base_value : Option ℤ
  pub blk_total_fee : Option ℤ
  pub reward : Option ℤ
  pub extra_reward : Option ℤ
  pub immature_reward : Bytes
  pub reward_string : Bytes
  pub round_height : ℤ
  pub candidate_key : Bytes
  pub immature_key : Bytes

-- `BlockData{}`
abbrev pub zero_block : BlockData
zero_block = record {
  height = pos 0;
  timestamp = pos 0;
  difficulty = pos 0;
  total_shares = pos 0;
  uncle = false;
  uncle_height = pos 0;
  orphan = false;
  hash = [];
  nonce = [];
  e_nonce1 = [];
  e_nonce2 = [];
  coin_base_value = none;
  blk_total_fee = none;
  reward = none;
  extra_reward = none;
  immature_reward = [];
  reward_string = [];
  round_height = pos 0;
  candidate_key = [];
  immature_key = [];
}

-- The types `join` is called with; a float64 is never passed, and any other type would panic.
pub data Arg : Type 0 where
  text : Bytes → Arg
  int : ℤ → Arg
  uint : ℕ → Arg
  flag : Bool → Arg
  big : Option ℤ → Arg

unfoldable pub render : Arg → Bytes
render (text s) = s
render (int x) = format_int x
render (uint n) = format_uint n
render (flag true) = codes "1"
render (flag false) = codes "0"
render (big (some n)) = format_big n
render (big none) = codes "0"

unfoldable pub join : List Arg → Bytes
unfolding render join_parts
join args = join_parts (map render args)

unfoldable pub format_key : Bytes → List Arg → Bytes
unfolding join
format_key prefix args = join (text prefix ∷ text (join args) ∷ [])

unfoldable pub format_round : Bytes → ℤ → Bytes → Bytes
unfolding format_key
format_round prefix height nonce =
    format_key prefix
      (text (codes "shares") ∷ text (codes "round" ++ format_int height) ∷ text nonce ∷ [])

unfoldable pub serialize_hash : BlockData → Bytes
serialize_hash b = elim b.hash [ [] ↦ codes "0x0" | c ∷ s ↦ c ∷ s ]

unfoldable pub round_key : BlockData → Bytes
unfolding join
round_key b = join (int b.round_height ∷ text b.hash ∷ [])

unfoldable pub key : BlockData → Bytes
unfolding join serialize_hash
key b = join (
    int b.uncle_height
    ∷ flag b.orphan
    ∷ text b.nonce
    ∷ text (serialize_hash b)
    ∷ int b.timestamp
    ∷ int b.difficulty
    ∷ int b.total_shares
    ∷ big b.coin_base_value
    ∷ big b.blk_total_fee
    ∷ big b.reward
    ∷ [])

-- What prints without a colon.
abbrev pub IsField : Arg → Type 0
IsField (text s) = IsPart s
IsField (int x) = IsI64 x
IsField (uint n) = IsU64 n
IsField (flag b) = Unit
IsField (big o) = Unit

pub render-IsPart : (a : Arg) → IsField a → IsPart (render a)
unfolding render
render-IsPart (text s) h = h
render-IsPart (int x) h = format_int-IsPart x h
render-IsPart (uint n) h = format_uint-IsPart n h
render-IsPart (flag true) h = (refl, _)
render-IsPart (flag false) h = (refl, _)
render-IsPart (big (some n)) h = format_big-IsPart n
render-IsPart (big none) h = (refl, _)
