-- ===== src/Stratum/MinersMap/Refinement.antt =====
-- The sharded map behaves as one map.
use xmrpool.Common.{
  ℕ, zero, suc, ◌+◌, ◌<◌, ◌≡◌, refl, none, some, [], ◌∷◌, arith, if◌then◌else◌, ◌==◌, length,
  replicate, length-append, length-replicate,
}
use xmrpool.Common.Texts.{Bytes, bytes_eq, bytes_eq_iff}
use xmrpool.Common.Assoc.{
  Assoc, bytes_key, lookup, insert, erase, lookup-insert, lookup-erase, length-insert,
}
use xmrpool.Stratum.MinersMap.{
  shard_count, shard_index, MinersMap, nth_shard, on_shard, new_miners_map, set, get, has, remove,
  count, iter,
}

-- All 32 shards are there.
abbrev pub IsSharded : {M : Type 0} → MinersMap M → Type 0
IsSharded m = length m ≡ shard_count

shard_index-lt : (key : Bytes) → shard_index key < shard_count
unfolding shard_index
shard_index-lt key = omega arith

module _ {M : Type 0} where
  nth_shard-on_shard :
      (i j : ℕ) (f : Assoc Bytes M → Assoc Bytes M) (m : MinersMap M)
      → j < length m
      → nth_shard i (on_shard j f m) ≡ (if i == j then f (nth_shard i m) else nth_shard i m)
  nth_shard-on_shard i j f [] h = absurd (omega arith)
  nth_shard-on_shard zero zero f (s ∷ m) h = refl
  nth_shard-on_shard zero (suc j) f (s ∷ m) h = ground arith
  nth_shard-on_shard (suc i) zero f (s ∷ m) h = ground arith
  nth_shard-on_shard (suc i) (suc j) f (s ∷ m) h =
      ground (arith, nth_shard-on_shard i j f m (omega arith))

  length-on_shard :
      (i : ℕ) (f : Assoc Bytes M → Assoc Bytes M) (m : MinersMap M)
      → length (on_shard i f m) ≡ length m
  length-on_shard i f [] = refl
  length-on_shard zero f (s ∷ m) = refl
  length-on_shard (suc i) f (s ∷ m) = omega (arith, length-on_shard i f m)

  count-on_shard :
      (i : ℕ) (f : Assoc Bytes M → Assoc Bytes M) (m : MinersMap M)
      → i < length m
      → count (on_shard i f m) + length (nth_shard i m) ≡ count m + length (f (nth_shard i m))
  unfolding count
  count-on_shard i f [] h = absurd (omega arith)
  count-on_shard zero f (s ∷ m) h = omega arith
  count-on_shard (suc i) f (s ∷ m) h = omega (arith, count-on_shard i f m (omega arith))

  length-iter : (m : MinersMap M) → length (iter m) ≡ count m
  unfolding iter count
  length-iter [] = refl
  length-iter (s ∷ m) = omega (arith, length-append s (iter m), length-iter m)

  empty_shards : (key : Bytes) (i n : ℕ) → lookup {V = M} key (nth_shard i (replicate n [])) ≡ none
  unfolding lookup
  empty_shards key i zero = refl
  empty_shards key zero (suc n) = refl
  empty_shards key (suc i) (suc n) = empty_shards key i n

  new_miners_map-get : (key : Bytes) → get {M = M} key new_miners_map ≡ none
  unfolding get new_miners_map
  new_miners_map-get key = empty_shards key (shard_index key) 32

-- Set, Remove and Get behave as on one flat map, whatever shards the keys fall into: a lookup sees
-- the last write to its own key and no write to another; all 32 shards stay; and a new map has no
-- key.
pub get-set-remove :
    {M : Type 0} (j k : Bytes) (v : M) (m : MinersMap M)
    → IsSharded m
    → (get j (set k v m) ≡ (if bytes_eq k j then some v else get j m))
      × (get j (remove k m) ≡ (if bytes_eq k j then none else get j m))
      × IsSharded (set k v m)
      × IsSharded (remove k m)
      × IsSharded {M = M} new_miners_map
      × (get {M = M} j new_miners_map ≡ none)
unfolding get set remove
get-set-remove {M} j k v m h = (
  ground (
    arith,
    here (insert k v),
    lookup-insert j k v (nth_shard (shard_index j) m),
    bytes_eq_iff k j,
  ),
  ground (arith, here (erase k), lookup-erase j k (nth_shard (shard_index j) m), bytes_eq_iff k j),
  omega (arith, length-on_shard (shard_index k) (insert k v) m),
  omega (arith, length-on_shard (shard_index k) (erase k) m),
  unfold new_miners_map in length-replicate {A = Assoc Bytes M} 32 [],
  new_miners_map-get j,
)
  where
    here :
        (f : Assoc Bytes M → Assoc Bytes M)
        → nth_shard (shard_index j) (on_shard (shard_index k) f m) ≡ (
            if shard_index j == shard_index k
            then f (nth_shard (shard_index j) m)
            else nth_shard (shard_index j) m)
    here f =
        nth_shard-on_shard (shard_index j) (shard_index k) f m (omega (arith, shard_index-lt k))

-- Count grows by one exactly when Set writes a key that the map did not have, and the pairs that an
-- iteration sends are as many as Count says.
count-set :
    {M : Type 0} (k : Bytes) (v : M) (m : MinersMap M)
    → IsSharded m
    → (count (set k v m) ≡ (if has k m then count m else count m + 1)) × (length (iter m) ≡ count m)
unfolding set has
count-set {M} k v m h = (
  ground (
    arith,
    count-on_shard (shard_index k) (insert k v) m (omega (arith, shard_index-lt k)),
    length-insert k v (nth_shard (shard_index k) m),
  ),
  length-iter m,
)
