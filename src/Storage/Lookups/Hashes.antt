-- ===== src/Storage/Lookups/Hashes.antt =====
-- The hash of the nodes under WriteNodeState of storage/redis.go.
use xmrpool.Common.{
  ℕ, ◌≡◌, refl, sym, Bool, true, false, not, ◌&&◌, Option, some, List, [], ◌∷◌, All, if◌then◌else◌,
  ◌==◌, arith, Bool-cases, inl, inr,
}
use xmrpool.Common.Assoc.{Assoc, bytes_key, lookup, insert, lookup-insert}
use xmrpool.Common.Texts.{Bytes, codes, bytes_eq, bytes_eq_iff, bytes_eq_refl}
use xmrpool.Common.Strings.{IsPart}
use xmrpool.Storage.Types.{text, format_key}
use xmrpool.Common.Ints.{ℤ, quot_ℤ}
use xmrpool.Common.Decimal.{format_uint}
use xmrpool.Common.Numbers.{format_int, format_big}
use xmrpool.Storage.Reports.{node_queue}
use xmrpool.Storage.Redis.{Redis, Command, h_set, h_get_all_map, hash_reply, done}
use xmrpool.Storage.Lookups.Nodes.{name_of, name_of-same, NodeField, IsNodes}

-- Fields set in a hash, in order; the other commands of a queue are not looked at.
abbrev pub set_fields : Bytes → List Command → Assoc Bytes Bytes → Assoc Bytes Bytes
set_fields key [] fields = fields
set_fields key (h_set k field value ∷ cs) fields =
    let rest = set_fields key cs in
    if bytes_eq k key then rest (insert field value fields) else rest fields
set_fields key (c ∷ cs) fields = set_fields key cs fields

abbrev pub OnlySets : List Command → Type 0
OnlySets [] = Unit
OnlySets (h_set key field value ∷ cs) = OnlySets cs
OnlySets (c ∷ cs) = ⊥

-- What HSET and HGETALL do to the hashes of a server.
pub record Hashes (redis : Redis) : Type 0 where
  pub fields : Bytes → redis.Db → Assoc Bytes Bytes
  pub set_all :
      (key : Bytes) (cs : List Command) (db : redis.Db)
      → OnlySets cs
      → (done (redis.exec cs db)).0 ≡ true
      → fields key (redis.exec cs db).1 ≡ set_fields key cs (fields key db)
  pub get_all :
      (key : Bytes) (db : redis.Db)
      → (redis.run (h_get_all_map key) db).0 ≡ some (hash_reply (fields key db))

abbrev pub nodes_key : Bytes → Bytes
nodes_key prefix = format_key prefix (text (codes "nodes") ∷ [])

insert-IsNodes :
    (name value : Bytes) (fields : Assoc Bytes Bytes)
    → NodeField (name, value)
    → IsNodes fields
    → IsNodes (insert name value fields)
unfolding insert lookup
insert-IsNodes name value [] entry h = (entry, refl, tt)
insert-IsNodes name value ((k, v) ∷ fields) entry (first, once, h) =
    elim (Bool-cases (bytes_eq k name)) [
      | inl same ↦ rw same (entry, rw (sym ((bytes_eq_iff k name).0 same)) once, h)
      | inr other ↦ rw other (
        first,
        rw (lookup-insert k name value fields)
            (ground (arith, once, other, bytes_eq_iff k name, bytes_eq_iff name k)),
        insert-IsNodes name value fields entry h,
      )
    ]

-- The fields that WriteNodeState sets.
abbrev pub field_names : List Bytes
field_names = codes "name" ∷ codes "height" ∷ codes "difficulty" ∷ codes "lastBeat" ∷ []

pub field_names-IsPart : All IsPart field_names
field_names-IsPart = (
  plain (codes "name") refl,
  (
    plain (codes "height") refl,
    (plain (codes "difficulty") refl, (plain (codes "lastBeat") refl, tt)),
  ),
)
  where
    no_colon : Bytes → Bool
    no_colon [] = true
    no_colon (c ∷ s) = not (c == b':') && no_colon s

    plain : (s : Bytes) → no_colon s ≡ true → IsPart s
    plain [] e = tt
    plain (c ∷ s) e = (ground arith, plain s (ground arith))

unfoldable pub written :
    Bytes → Bytes → Bytes → Bytes → Bytes → Assoc Bytes Bytes → Assoc Bytes Bytes
written id name height difficulty beat fields = insert (name_of id (codes "lastBeat")) beat (
    insert (name_of id (codes "difficulty")) difficulty (
      insert (name_of id (codes "height")) height (insert (name_of id (codes "name")) name fields)))

pub set_fields-node_queue :
    (prefix : Bytes) (ms : ℤ) (id : Bytes) (height : ℕ) (diff : ℤ) (fields : Assoc Bytes Bytes)
    → OnlySets (node_queue prefix ms id height diff)
      × (set_fields (nodes_key prefix) (node_queue prefix ms id height diff) fields
          ≡ written id id
              (format_uint height)
              (format_big diff)
              (format_int (quot_ℤ ms 1000))
              fields)
unfolding node_queue written
set_fields-node_queue prefix ms id height diff fields =
    (tt, rw (bytes_eq_refl (nodes_key prefix)) refl)

pub written-IsNodes :
    (id name height difficulty beat : Bytes) (fields : Assoc Bytes Bytes)
    → IsPart id
    → IsNodes fields
    → IsNodes (written id name height difficulty beat fields)
unfolding written
written-IsNodes id name height difficulty beat fields plain h =
    let (p1, (p2, (p3, (p4, unused)))) = field_names-IsPart in
    insert-IsNodes _ beat _ (named (codes "lastBeat") beat p4) (
      insert-IsNodes _ difficulty _ (named (codes "difficulty") difficulty p3) (
        insert-IsNodes _ height _ (named (codes "height") height p2)
          (insert-IsNodes _ name _ (named (codes "name") name p1) h)))
  where
    named : (field value : Bytes) → IsPart field → NodeField (name_of id field, value)
    named field value part = record {
      id = id;
      field = field;
      named = refl;
      plain_id = plain;
      plain_field = part;
    }

-- What the hash says of a field after the write.
abbrev pub after_write : Bytes → Bytes → Bytes → Bytes → Bytes → Bytes → Option Bytes → Option Bytes
after_write id name height difficulty beat field before =
    if bytes_eq (codes "lastBeat") field
    then some beat
    else if bytes_eq (codes "difficulty") field
    then some difficulty
    else if bytes_eq (codes "height") field
    then some height
    else if bytes_eq (codes "name") field
    then some name
    else before

pub lookup-written :
    (id name height difficulty beat other field : Bytes) (fields : Assoc Bytes Bytes)
    → IsPart id
    → IsPart other
    → IsPart field
    → lookup (name_of other field) (written id name height difficulty beat fields) ≡ (
        let before = lookup (name_of other field) fields in
        if bytes_eq id other
        then after_write id name height difficulty beat field before
        else before)
unfolding written
lookup-written id name height difficulty beat other field fields p q r =
    let (p1, (p2, (p3, (p4, unused)))) = field_names-IsPart in
    rw
      (
        lookup-insert (name_of other field) (name_of id (codes "lastBeat")) beat _,
        lookup-insert (name_of other field) (name_of id (codes "difficulty")) difficulty _,
        lookup-insert (name_of other field) (name_of id (codes "height")) height _,
        lookup-insert (name_of other field) (name_of id (codes "name")) name fields,
        name_of-same id (codes "lastBeat") other field p p4 q r,
        name_of-same id (codes "difficulty") other field p p3 q r,
        name_of-same id (codes "height") other field p p2 q r,
        name_of-same id (codes "name") other field p p1 q r,
      )
      (guarded (bytes_eq id other) (bytes_eq (codes "lastBeat") field)
        (bytes_eq (codes "difficulty") field) (bytes_eq (codes "height") field)
        (bytes_eq (codes "name") field))
  where
    guarded :
        (b l d h n : Bool)
        → (if b && l
            then some beat
            else if b && d
            then some difficulty
            else if b && h
            then some height
            else if b && n
            then some name
            else lookup (name_of other field) fields)
          ≡ (if b
              then (if l
                  then some beat
                  else if d
                  then some difficulty
                  else if h
                  then some height
                  else if n
                  then some name
                  else lookup (name_of other field) fields)
              else lookup (name_of other field) fields)
    guarded true l d h n = refl
    guarded false l d h n = refl
