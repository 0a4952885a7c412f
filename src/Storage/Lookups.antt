-- ===== src/Storage/Lookups.antt =====
-- storage/redis.go: the plain lookups, and `GetNodeStates`, which gathers the fields of the nodes.
pub mod Nodes
pub mod Hashes
pub mod Written
use xmrpool.Common.{Bool, true, false, Option, none, some, List, [], ◌∷◌, get_elem?}
use xmrpool.Common.Assoc.{Assoc, bytes_key, lookup, insert}
use xmrpool.Common.Texts.{Bytes, codes}
use xmrpool.Common.Strings.{split}
use xmrpool.Storage.Types.{text, format_key, Outcome, returned, failed, or_panic}
use xmrpool.Storage.Redis.{
  Redis, h_get_all_map, exists, s_members, ping, bg_save, Reply, bool_reply, text_reply, hash_reply,
  list_reply,
}

-- A list beside an error is empty.
abbrev pub members_found : Option Reply → List Bytes × Bool
members_found (some (list_reply members)) = (members, true)
members_found _ = ([], false)

abbrev pub flag_found : Option Reply → Outcome Bool
flag_found (some (bool_reply b)) = returned b
flag_found _ = failed

abbrev pub text_found : Option Reply → Outcome Bytes
text_found (some (text_reply s)) = returned s
text_found _ = failed

abbrev pub Node : Type 0
Node = Assoc Bytes Bytes

-- One field of the hash, whose name has the node and the field; `none` is an index out of range.
unfoldable pub add_field : Bytes → List Bytes → Assoc Bytes Node → Option (Assoc Bytes Node)
add_field value (id ∷ field ∷ rest) nodes = elim (lookup id nodes) [
  | none ↦ some (insert id (insert field value []) nodes)
  | some node ↦ some (insert id (insert field value node) nodes)
]
add_field value _ nodes = none

-- The loop over the hash, in the order in which it is walked.
unfoldable pub gather_nodes : List (Bytes × Bytes) → Assoc Bytes Node → Option (Assoc Bytes Node)
unfolding add_field
gather_nodes [] nodes = some nodes
gather_nodes ((key, value) ∷ fields) nodes = elim (add_field value (split key) nodes) [
  | none ↦ none
  | some nodes' ↦ gather_nodes fields nodes'
]

abbrev pub nodes_found : Option Reply → Outcome (Assoc Bytes Node)
nodes_found (some (hash_reply fields)) = or_panic (gather_nodes fields [])
nodes_found _ = failed

module _ (redis : Redis) where
  unfoldable pub check : redis.Db → Outcome Bytes × redis.Db
  check db = let (reply, db') = redis.run ping db in (text_found reply, db')

  unfoldable pub bg_save_now : redis.Db → Outcome Bytes × redis.Db
  bg_save_now db = let (reply, db') = redis.run bg_save db in (text_found reply, db')

  module _ (prefix : Bytes) where
    unfoldable pub get_blacklist : redis.Db → (List Bytes × Bool) × redis.Db
    get_blacklist db =
        let (reply, db') =
          redis.run (s_members (format_key prefix (text (codes "blacklist") ∷ []))) db in
        (members_found reply, db')

    unfoldable pub get_whitelist : redis.Db → (List Bytes × Bool) × redis.Db
    get_whitelist db =
        let (reply, db') =
          redis.run (s_members (format_key prefix (text (codes "whitelist") ∷ []))) db in
        (members_found reply, db')

    unfoldable pub is_miner_exists : Bytes → redis.Db → Outcome Bool × redis.Db
    is_miner_exists login db =
        let (reply, db') =
          redis.run (exists (format_key prefix (text (codes "miners") ∷ text login ∷ []))) db in
        (flag_found reply, db')

    -- The states of the nodes, with the ids under which the loop keeps them.
    unfoldable pub get_node_states : redis.Db → Outcome (Assoc Bytes Node) × redis.Db
    unfolding gather_nodes
    get_node_states db =
        let (reply, db') =
          redis.run (h_get_all_map (format_key prefix (text (codes "nodes") ∷ []))) db in
        (nodes_found reply, db')
