-- ===== src/Storage/Tests/Nodes.antt =====
-- The states of the nodes and the luck, at concrete inputs.
use xmrpool.Common.{◌≡◌, refl, true, some, List, [], ◌∷◌, map, length, arith}
use xmrpool.Common.Ints.{pos}
use xmrpool.Common.Assoc.{Assoc}
use xmrpool.Common.Texts.{Bytes, codes}
use xmrpool.Storage.Types.{returned, zero_block, BlockData}
use xmrpool.Storage.Redis.{Redis, Command, h_get_all_map, Reply, int_reply, hash_reply}
use xmrpool.Storage.Reports.{write_node_state}
use xmrpool.Storage.Lookups.{Node, get_node_states}
use xmrpool.Storage.Lookups.Nodes.{name_of, IsNodes}
use xmrpool.Storage.Lookups.Hashes.{Hashes, set_fields}
use xmrpool.Storage.Lookups.Written.{ReadBack, get_node_states-write_node_state}
use xmrpool.Storage.Luck.{luck_rows}
use xmrpool.Storage.Luck.Windows.{up_to_unfilled, row_for, luck_rows-windows}

abbrev answer : Command → (Bytes → Assoc Bytes Bytes) → Reply
answer (h_get_all_map key) db = hash_reply (db key)
answer _ db = int_reply (pos 1)

-- A server of hashes alone.
abbrev hash_server : Redis
hash_server = record {
  Db = Bytes → Assoc Bytes Bytes;
  run = λ c db. (some (answer c db), db);
  exec = λ cs db. (some [], λ key. set_fields key cs (db key));
}

hashes : Hashes hash_server
hashes = record {
  fields = λ key db. db key;
  set_all = λ key cs db only ok. refl;
  get_all = λ key db. refl;
}

-- One other node is there already.
abbrev other_node : Bytes → Assoc Bytes Bytes
other_node key = (name_of (codes "b") (codes "name"), codes "b") ∷ []

other_node-IsNodes : IsNodes (other_node [])
unfolding xmrpool.Common.Assoc.lookup
other_node-IsNodes = (
  record {
    id = codes "b";
    field = codes "name";
    named = refl;
    plain_id = (refl, tt);
    plain_field = (refl, (refl, (refl, (refl, tt))));
  },
  refl,
  tt,
)

get_node_states-write_node_state_example :
    (before : Assoc Bytes Node) × (after : Assoc Bytes Node) × ((get_node_states hash_server
        (codes "xmr")
        other_node).0
      ≡ returned before)
    × ((get_node_states hash_server
          (codes "xmr")
          (write_node_state hash_server
            (codes "xmr")
            (pos 5000)
            (codes "a")
            7
            (pos 9)
            other_node).1).0
        ≡ returned after)
    × ReadBack (codes "a") 7 (pos 9) (pos 5000) before after
unfolding hashes write_node_state xmrpool.Storage.Redis.done
get_node_states-write_node_state_example =
    get_node_states-write_node_state hash_server hashes (codes "xmr") (pos 5000) (codes "a") 7
      (pos 9) other_node other_node-IsNodes (refl, tt) refl

abbrev two_blocks : List BlockData
two_blocks =
    record zero_block { total_shares = pos 90; difficulty = pos 100 }
    ∷ record zero_block { total_shares = pos 130; difficulty = pos 100; orphan = true }
    ∷ []

luck_rows-windows_example :
    luck_rows two_blocks (map pos (1 ∷ 64 ∷ 128 ∷ []))
    ≡ map (row_for two_blocks) (up_to_unfilled (length two_blocks) (1 ∷ 64 ∷ 128 ∷ []))
luck_rows-windows_example =
    luck_rows-windows two_blocks (1 ∷ 64 ∷ 128 ∷ []) (omega arith, (omega arith, (omega arith, tt)))
