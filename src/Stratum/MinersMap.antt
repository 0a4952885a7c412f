-- ===== src/Stratum/MinersMap.antt =====
-- stratum/mmap.go: the map of miners, cut into 32 shards by a hash of the key. Each operation holds
-- the lock of its shard, so it is one step. M stands for *Miner.
pub mod Refinement
use Prim.Native.Nat.{bit_xor}
use xmrpool.Common.{
  ℕ, zero, suc, ◌+◌, ◌*◌, ◌%◌, Bool, Option, List, [], ◌∷◌, ◌++◌, ◌==◌, length, replicate,
}
use xmrpool.Common.Words.{u32}
use xmrpool.Common.Texts.{Bytes}
use xmrpool.Common.Assoc.{Assoc, bytes_key, lookup, insert, erase, contains}

abbrev pub shard_count : ℕ
shard_count = 32

-- `hash/fnv`'s New32: multiply by the prime, then xor the byte.
unfoldable pub fnv32 : ℕ → Bytes → ℕ
fnv32 h [] = h
fnv32 h (b ∷ bs) = fnv32 (bit_xor (u32 (h * 16777619)) b) bs

unfoldable pub shard_index : Bytes → ℕ
unfolding fnv32
shard_index key = fnv32 2166136261 key % shard_count

abbrev pub MinersMap : Type 0 → Type 0
MinersMap M = List (Assoc Bytes M)

module _ {M : Type 0} where
  abbrev pub nth_shard : ℕ → MinersMap M → Assoc Bytes M
  nth_shard i [] = []
  nth_shard zero (s ∷ m) = s
  nth_shard (suc i) (s ∷ m) = nth_shard i m

  -- A write to the shard that a pointer names.
  abbrev pub on_shard : ℕ → (Assoc Bytes M → Assoc Bytes M) → MinersMap M → MinersMap M
  on_shard i f [] = []
  on_shard zero f (s ∷ m) = f s ∷ m
  on_shard (suc i) f (s ∷ m) = s ∷ on_shard i f m

  unfoldable pub new_miners_map : MinersMap M
  new_miners_map = replicate shard_count []

  unfoldable pub get_shard : Bytes → MinersMap M → Assoc Bytes M
  get_shard key m = nth_shard (shard_index key) m

  unfoldable pub set : Bytes → M → MinersMap M → MinersMap M
  set key value m = on_shard (shard_index key) (insert key value) m

  unfoldable pub get : Bytes → MinersMap M → Option M
  unfolding get_shard
  get key m = lookup key (get_shard key m)

  unfoldable pub has : Bytes → MinersMap M → Bool
  unfolding get_shard
  has key m = contains key (get_shard key m)

  unfoldable pub remove : Bytes → MinersMap M → MinersMap M
  remove key m = on_shard (shard_index key) (erase key) m

  unfoldable pub count : MinersMap M → ℕ
  count [] = 0
  count (s ∷ m) = length s + count m

  unfoldable pub is_empty : MinersMap M → Bool
  unfolding count
  is_empty m = count m == 0

  -- The pairs that Iter and IterBuffered send, shard by shard; Go leaves the order in a shard open.
  unfoldable pub iter : MinersMap M → List (Bytes × M)
  iter [] = []
  iter (s ∷ m) = s ++ iter m
