-- ===== src/Storage/Lookups/Nodes.antt =====
-- What GetNodeStates of storage/redis.go gathers of the fields of the nodes.
use xmrpool.Common.{
  ◌≡◌, refl, sym, ap, ◌∙◌, true, ◌&&◌, Option, none, some, List, [], ◌∷◌, if◌then◌else◌, arith,
  Bool-cases, Option-cases, inl, inr,
}
use xmrpool.Common.Assoc.{Assoc, bytes_key, lookup, insert, lookup-insert}
use xmrpool.Common.Texts.{Bytes, bytes_eq, bytes_eq_iff}
use xmrpool.Common.Strings.{split, IsPart}
use xmrpool.Storage.Types.{text, join, render}
use xmrpool.Storage.RoundTrips.{split-join}
use xmrpool.Storage.Lookups.{Node, add_field, gather_nodes}

abbrev pub node_field : Bytes → Option Node → Option Bytes
node_field field none = none
node_field field (some node) = lookup field node

-- The field of a node, among the nodes gathered so far.
abbrev pub field_of : Bytes → Bytes → Assoc Bytes Node → Option Bytes
field_of id field nodes = node_field field (lookup id nodes)

abbrev pub name_of : Bytes → Bytes → Bytes
name_of id field = join (text id ∷ text field ∷ [])

-- A field of the hash that has the name of a node and a field, neither with a colon.
pub record NodeField (entry : Bytes × Bytes) : Type 0 where
  pub id : Bytes
  pub field : Bytes
  pub named : entry.0 ≡ name_of id field
  pub plain_id : IsPart id
  pub plain_field : IsPart field

split-name_of :
    (id field : Bytes) → IsPart id → IsPart field → split (name_of id field) ≡ id ∷ field ∷ []
unfolding render
split-name_of id field h g = split-join (text id) (text field ∷ []) (h, (g, _))

first_of : {a b : Bytes} {xs ys : List Bytes} → a ∷ xs ≡ b ∷ ys → a ≡ b
first_of e = cc e

second_of : {a b c d : Bytes} {xs ys : List Bytes} → a ∷ c ∷ xs ≡ b ∷ d ∷ ys → c ≡ d
second_of e = cc e

pub name_of-same :
    (id field id' field' : Bytes)
    → IsPart id
    → IsPart field
    → IsPart id'
    → IsPart field'
    → bytes_eq (name_of id field) (name_of id' field') ≡ (bytes_eq id id' && bytes_eq field field')
name_of-same id field id' field' h g h' g' =
    elim (Bool-cases (bytes_eq (name_of id field) (name_of id' field'))) [
      | inl same ↦
          (let parts =
              sym (split-name_of id field h g)
              ∙ ap split ((bytes_eq_iff (name_of id field) (name_of id' field')).0 same)
              ∙ split-name_of id' field' h' g' in
            rw
              (
                same,
                (bytes_eq_iff id id').1 (first_of parts),
                (bytes_eq_iff field field').1 (second_of parts),
              )
              refl)
      | inr differ ↦ ground (
        arith,
        differ,
        bytes_eq_iff id id',
        bytes_eq_iff field field',
        λ (e : id ≡ id') (e' : field ≡ field').
            (bytes_eq_iff (name_of id field) (name_of id' field')).1 (rw (e, e') refl),
      )
    ]

field_of-insert :
    (id field value : Bytes) (node : Node) (nodes : Assoc Bytes Node) (id' field' : Bytes)
    → node_field field' (lookup id nodes) ≡ lookup field' node
    → field_of id' field' (insert id (insert field value node) nodes)
      ≡ (if bytes_eq id id' && bytes_eq field field' then some value else field_of id' field' nodes)
field_of-insert id field value node nodes id' field' same =
    rw (lookup-insert id' id (insert field value node) nodes)
      (ground (arith, same, bytes_eq_iff id id', lookup-insert field' field value node))

field_of-add_field :
    (value id field : Bytes) (nodes : Assoc Bytes Node)
    → ((nodes' : Assoc Bytes Node) × (add_field value (id ∷ field ∷ []) nodes ≡ some nodes')
        × ((id' field' : Bytes)
            → field_of id' field' nodes' ≡ (
                if bytes_eq id id' && bytes_eq field field'
                then some value
                else field_of id' field' nodes)))
unfolding add_field lookup
field_of-add_field value id field nodes = elim (Option-cases (lookup id nodes)) [
  | inl new ↦ (
    insert id (insert field value []) nodes,
    rw (new, add_field) refl,
    λ id' field'. field_of-insert id field value [] nodes id' field' (ap (node_field field') new),
  )
  | inr (node, known) ↦ (
    insert id (insert field value node) nodes,
    rw (known, add_field) refl,
    λ id' field'.
        field_of-insert id field value node nodes id' field' (ap (node_field field') known),
  )
]

-- A hash of such fields, each once.
abbrev pub IsNodes : Assoc Bytes Bytes → Type 0
IsNodes [] = Unit
IsNodes ((name, value) ∷ fields) =
    NodeField (name, value) × (lookup name fields ≡ none) × IsNodes fields

-- The value found first, or else the other.
abbrev pub or_else : Option Bytes → Option Bytes → Option Bytes
or_else (some v) other = some v
or_else none other = other

-- What was gathered of the fields, beside what was there.
pub record Gathered (fields : Assoc Bytes Bytes) (nodes : Assoc Bytes Node) : Type 0 where
  pub result : Assoc Bytes Node
  pub gathered : gather_nodes fields nodes ≡ some result
  pub found :
      (id field : Bytes)
      → IsPart id
      → IsPart field
      → field_of id field result
        ≡ or_else (lookup (name_of id field) fields) (field_of id field nodes)

pub gather_nodes-Gathered :
    (fields : Assoc Bytes Bytes) (nodes : Assoc Bytes Node) → IsNodes fields → Gathered fields nodes
unfolding gather_nodes lookup
gather_nodes-Gathered [] nodes h = record {
  result = nodes;
  gathered = refl;
  found = λ id field p q. refl;
}
gather_nodes-Gathered ((name, value) ∷ fields) nodes (entry, once, h) =
    let (nodes1, added, changed) = field_of-add_field value entry.id entry.field nodes in
    let rest = gather_nodes-Gathered fields nodes1 h in
    let parts : split name ≡ entry.id ∷ entry.field ∷ [] =
      ap split entry.named ∙ split-name_of entry.id entry.field entry.plain_id entry.plain_field in
    record {
      result = rest.result;
      gathered = rw (parts, gather_nodes, added) rest.gathered;
      found = λ id field p q. ground (
        arith,
        rest.found id field p q,
        changed id field,
        ap (λ (n : Bytes). bytes_eq n (name_of id field)) entry.named,
        name_of-same entry.id entry.field id field entry.plain_id entry.plain_field p q,
        λ (e : bytes_eq name (name_of id field) ≡ true).
            ap (λ (n : Bytes). lookup n fields) (sym ((bytes_eq_iff name (name_of id field)).0 e))
            ∙ once,
      );
    }
