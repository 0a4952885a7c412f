-- ===== src/Storage/Redis.antt =====
-- What storage/redis.go uses of the Redis client: the commands it sends, the replies it reads, and
-- the server behind them, which is a parameter.
use xmrpool.Common.{
  Bool, true, false, Option, none, some, List, [], ◌∷◌, ◌&&◌, ◌||◌, if◌then◌else◌, ◌≡◌,
}
use xmrpool.Common.Ints.{ℤ, pos, ◌+ℤ◌}
use xmrpool.Common.Texts.{Bytes, bytes_eq}

-- One constructor per method, with its arguments in order, but for the expiration of SetNX, which is 0;
-- the score of a sorted set is the integer that the code converts to float64.
pub data Command : Type 0 where
  h_set : Bytes → Bytes → Bytes → Command
  h_set_nx : Bytes → Bytes → Bytes → Command
  h_incr_by : Bytes → Bytes → ℤ → Command
  h_del : Bytes → Bytes → Command
  h_get : Bytes → Bytes → Command
  h_get_all_map : Bytes → Command
  z_add : Bytes → ℤ → Bytes → Command
  z_rem : Bytes → Bytes → Command
  z_incr_by : Bytes → ℤ → Bytes → Command
  z_rem_range_by_score : Bytes → Bytes → Bytes → Command
  z_range_by_score : Bytes → Bytes → Bytes → Command
  z_range : Bytes → ℤ → ℤ → Command
  z_rev_range : Bytes → ℤ → ℤ → Command
  z_card : Bytes → Command
  rename : Bytes → Bytes → Command
  expire : Bytes → ℤ → Command
  del : Bytes → Command
  get : Bytes → Command
  set_nx : Bytes → Bytes → Command
  exists : Bytes → Command
  watch : Bytes → Command
  scan : ℤ → Bytes → ℤ → Command
  s_members : Bytes → Command
  ping : Command
  bg_save : Command

-- `nil` is what the client reports as the error redis.Nil.
pub data Reply : Type 0 where
  nil : Reply
  int_reply : ℤ → Reply
  bool_reply : Bool → Reply
  text_reply : Bytes → Reply
  hash_reply : List (Bytes × Bytes) → Reply
  rows_reply : List (ℤ × Bytes) → Reply
  page_reply : ℤ → List Bytes → Reply
  list_reply : List Bytes → Reply

-- `none` is an error of the connection or of the command; `exec` runs a queue between MULTI and EXEC.
pub record Redis : Type 1 where
  pub Db : Type 0
  pub run : Command → Db → Option Reply × Db
  pub exec : List Command → Db → Option (List Reply) × Db

-- What a command adds to a field, under the keys that pass a test, and what a queue adds.
abbrev pub amount_at : (Bytes → Bool) → Bytes → Command → Option ℤ
amount_at at field (h_incr_by key f n) = if at key && bytes_eq f field then some n else none
amount_at at field _ = none

abbrev pub add_amount : Option ℤ → ℤ → ℤ
add_amount none rest = rest
add_amount (some n) rest = n +ℤ rest

unfoldable pub net : (Bytes → Bool) → Bytes → List Command → ℤ
net at field [] = pos 0
net at field (c ∷ cs) = add_amount (amount_at at field c) (net at field cs)

-- `run` with only the error looked at.
unfoldable pub done : {A D : Type 0} → Option A × D → Bool × D
done (none, db) = (false, db)
done (some a, db) = (true, db)

-- Whether a queue sets a field, or drops its hash, under a key that passes a test.
abbrev pub rewrites_one : (Bytes → Bool) → Bytes → Command → Bool
rewrites_one at field (h_set key f value) = at key && bytes_eq f field
rewrites_one at field (h_set_nx key f value) = at key && bytes_eq f field
rewrites_one at field (h_del key f) = at key && bytes_eq f field
rewrites_one at field (rename old new) = at old || at new
rewrites_one at field (del key) = at key
rewrites_one at field _ = false

unfoldable pub rewrites : (Bytes → Bool) → Bytes → List Command → Bool
rewrites at field [] = false
rewrites at field (c ∷ cs) = rewrites_one at field c || rewrites at field cs

-- What the books rely on of the server: over the keys that pass a test, the sum of a field that a
-- transaction only increments grows by what it adds, and a command that neither sets the field, nor
-- drops it, nor increments it leaves it as it is.
pub record Sums (redis : Redis) : Type 0 where
  pub total : (Bytes → Bool) → Bytes → redis.Db → ℤ
  pub added :
      (at : Bytes → Bool) (field : Bytes) (cs : List Command) (db : redis.Db)
      → rewrites at field cs ≡ false
      → (done (redis.exec cs db)).0 ≡ true
      → total at field (redis.exec cs db).1 ≡ total at field db +ℤ net at field cs
  pub kept :
      (at : Bytes → Bool) (field : Bytes) (c : Command) (db : redis.Db)
      → rewrites_one at field c ≡ false
      → amount_at at field c ≡ none
      → total at field (redis.run c db).1 ≡ total at field db
