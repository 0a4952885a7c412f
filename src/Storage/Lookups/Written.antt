-- ===== src/Storage/Lookups/Written.antt =====
-- GetNodeStates of storage/redis.go reads what WriteNodeState wrote.
use xmrpool.Common.{
  ℕ, ◌≡◌, refl, sym, ap, ◌∙◌, Bool, true, false, Option, none, some, [], if◌then◌else◌, arith,
}
use mathlib.Core.Path.{subst}
use xmrpool.Common.Assoc.{Assoc, bytes_key, lookup}
use xmrpool.Common.Texts.{Bytes, codes, bytes_eq, bytes_eq_refl}
use xmrpool.Common.Strings.{IsPart}
use xmrpool.Storage.Types.{returned}
use xmrpool.Common.Ints.{ℤ, quot_ℤ}
use xmrpool.Common.Decimal.{format_uint}
use xmrpool.Common.Numbers.{format_int, format_big}
use xmrpool.Storage.Reports.{node_queue, write_node_state}
use xmrpool.Storage.Redis.{Redis, done}
use xmrpool.Storage.Lookups.{Node, get_node_states}
use xmrpool.Storage.Lookups.Nodes.{
  field_of, name_of, IsNodes, or_else, Gathered, gather_nodes-Gathered,
}
use xmrpool.Storage.Lookups.Hashes.{
  Hashes, nodes_key, field_names-IsPart, written, set_fields-node_queue, written-IsNodes,
  after_write, lookup-written,
}

-- The states of two readings of the nodes: the second has what was written of a node in between, and
-- all else is as before.
pub record ReadBack (id : Bytes) (height : ℕ) (diff ms : ℤ) (before after : Assoc Bytes Node)
    : Type 0 where
  pub name : field_of id (codes "name") after ≡ some id
  pub height_text : field_of id (codes "height") after ≡ some (format_uint height)
  pub difficulty : field_of id (codes "difficulty") after ≡ some (format_big diff)
  pub last_beat : field_of id (codes "lastBeat") after ≡ some (format_int (quot_ℤ ms 1000))
  pub others :
      (other field : Bytes)
      → IsPart other
      → IsPart field
      → bytes_eq id other ≡ false
      → field_of other field after ≡ field_of other field before

read_nodes :
    (redis : Redis) (hashes : Hashes redis) (prefix : Bytes) (db : redis.Db)
    → (g : Gathered (hashes.fields (nodes_key prefix) db) [])
    → (get_node_states redis prefix db).0 ≡ returned g.result
unfolding get_node_states
read_nodes redis hashes prefix db g = rw (hashes.get_all (nodes_key prefix) db, g.gathered) refl

done_db : {A D : Type 0} (r : Option A × D) → (done r).1 ≡ r.1
unfolding done
done_db (none, db) = refl
done_db (some a, db) = refl

read_back :
    (id : Bytes) (height : ℕ) (diff ms : ℤ) (fields fields' : Assoc Bytes Bytes)
    (before : Gathered fields []) (after : Gathered fields' [])
    → IsPart id
    → fields'
      ≡ written id id (format_uint height) (format_big diff) (format_int (quot_ℤ ms 1000)) fields
    → ReadBack id height diff ms before.result after.result
unfolding lookup
read_back id height diff ms fields fields' before after plain e =
    let (p1, (p2, (p3, (p4, unused)))) = field_names-IsPart in
    record {
      name = self (codes "name") p1;
      height_text = self (codes "height") p2;
      difficulty = self (codes "difficulty") p3;
      last_beat = self (codes "lastBeat") p4;
      others = λ other field q r differ.
          ground (arith, differ, found other field q r, before.found other field q r);
    }
  where
    values : Bytes → Option Bytes → Option Bytes
    values = after_write id id (format_uint height) (format_big diff) (format_int (quot_ℤ ms 1000))

    found :
        (other field : Bytes)
        → IsPart other
        → IsPart field
        → field_of other field after.result
          ≡ or_else
              (let old = lookup (name_of other field) fields in
                if bytes_eq id other then values field old else old)
              none
    found other field q r =
        after.found other field q r
        ∙ ap (λ (f : Assoc Bytes Bytes). or_else (lookup (name_of other field) f) none) e
        ∙ ap (λ (o : Option Bytes). or_else o none)
            (lookup-written id id (format_uint height) (format_big diff)
              (format_int (quot_ℤ ms 1000)) other field fields plain q r)

    self :
        (field : Bytes)
        → IsPart field
        → field_of id field after.result
          ≡ or_else (values field (lookup (name_of id field) fields)) none
    self field r =
        let old = lookup (name_of id field) fields in
        found id field plain r
        ∙ ap (λ (b : Bool). or_else (if b then values field old else old) none) (bytes_eq_refl id)

-- The hash of the nodes holds fields named by a node and a field, neither with a colon, as only
-- WriteNodeState writes it, and the id of a node has no colon. After a WriteNodeState that succeeds,
-- GetNodeStates returns for that node the name, height, difficulty and beat that were written, and for
-- every other node each field as it was.
pub get_node_states-write_node_state :
    (redis : Redis) (hashes : Hashes redis) (prefix : Bytes) (ms : ℤ) (id : Bytes) (height : ℕ)
    (diff : ℤ) (db : redis.Db)
    → IsNodes (hashes.fields (nodes_key prefix) db)
    → IsPart id
    → (write_node_state redis prefix ms id height diff db).0 ≡ true
    → ((before : Assoc Bytes Node) × (after : Assoc Bytes Node) × ((get_node_states redis prefix
            db).0
          ≡ returned before)
        × ((get_node_states redis prefix (write_node_state redis prefix ms id height diff db).1).0
            ≡ returned after)
        × ReadBack id height diff ms before after)
unfolding write_node_state
get_node_states-write_node_state redis hashes prefix ms id height diff db h plain ok =
    let fields = hashes.fields (nodes_key prefix) db in
    let queue = node_queue prefix ms id height diff in
    let db' = (done (redis.exec queue db)).1 in
    let (only, sets) = set_fields-node_queue prefix ms id height diff fields in
    let is_written : hashes.fields (nodes_key prefix) db'
        ≡ written id id (format_uint height) (format_big diff) (format_int (quot_ℤ ms 1000))
            fields =
      ap (hashes.fields (nodes_key prefix)) (done_db (redis.exec queue db))
      ∙ hashes.set_all (nodes_key prefix) queue db only ok
      ∙ sets in
    let before = gather_nodes-Gathered fields [] h in
    let after = gather_nodes-Gathered (hashes.fields (nodes_key prefix) db') [] (
      subst (λ (f : Assoc Bytes Bytes). IsNodes f) (sym is_written)
        (written-IsNodes id _ _ _ _ fields plain h)) in
    (
      before.result,
      after.result,
      read_nodes redis hashes prefix db before,
      read_nodes redis hashes prefix db' after,
      read_back id height diff ms fields (hashes.fields (nodes_key prefix) db') before after plain
          is_written,
    )
