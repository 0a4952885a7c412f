-- ===== src/Storage/Blocks.antt =====
-- storage/redis.go: blocks that became immature, matured or orphaned, and the credits for them.
use xmrpool.Common.{Bool, false, not, Option, none, some, List, [], ◌∷◌, ◌++◌, if◌then◌else◌}
use xmrpool.Common.Ints.{ℤ, pos, ◌+ℤ◌, quot_ℤ, eqb_ℤ}
use xmrpool.Common.Words.{wrap64}
use xmrpool.Common.Texts.{Bytes, codes}
use xmrpool.Common.Numbers.{format_int, parse_int}
use xmrpool.Storage.Types.{
  text, int, big, join, format_key, format_round, BlockData, key, reply_of, Outcome, failed,
  panicked,
}
use xmrpool.Storage.Redis.{
  Redis, Command, h_set, h_set_nx, h_incr_by, z_add, z_rem, rename, del, watch, h_get_all_map,
  Reply, hash_reply, done,
}
use xmrpool.Storage.Payments.{negate64, miner_key, finances_key}

-- A Go map ranged over: its entries in the order of the iteration.
abbrev pub Credits : Type 0
Credits = List (Bytes × ℤ)

unfoldable pub immature_commands : Bytes → BlockData → List Command
immature_commands prefix block =
    let rest =
      z_rem (format_key prefix (text (codes "blocks") ∷ text (codes "candidates") ∷ []))
        block.candidate_key
      ∷ z_add (format_key prefix (text (codes "blocks") ∷ text (codes "immature") ∷ []))
          block.height (key block)
      ∷ [] in
    if not (eqb_ℤ block.height block.round_height)
    then rename (format_round prefix block.round_height block.nonce)
        (format_round prefix block.height block.nonce)
      ∷ rest
    else rest

unfoldable pub matured_commands : Bytes → BlockData → List Command
matured_commands prefix block =
    del (format_round prefix block.round_height block.nonce)
    ∷ z_rem (format_key prefix (text (codes "blocks") ∷ text (codes "immature") ∷ []))
        block.immature_key
    ∷ z_add (format_key prefix (text (codes "blocks") ∷ text (codes "matured") ∷ [])) block.height
        (key block)
    ∷ []

-- The sum that a loop adds up on int64.
unfoldable pub total64 : ℤ → Credits → ℤ
total64 total [] = total
total64 total ((login, amount) ∷ rest) = total64 (wrap64 (total +ℤ amount)) rest

-- One loop: a field of each miner, and the entry in the log of credits.
unfoldable pub credit_commands : Bytes → Bytes → Bytes → Credits → List Command
credit_commands prefix field log [] = []
credit_commands prefix field log ((login, amount) ∷ rest) =
    h_incr_by (miner_key prefix login) field amount
    ∷ h_set_nx log login (format_int amount)
    ∷ credit_commands prefix field log rest

unfoldable pub debit_commands : Bytes → Credits → List Command
debit_commands prefix [] = []
debit_commands prefix ((login, amount) ∷ rest) =
    h_incr_by (miner_key prefix login) (codes "immature") (negate64 amount)
    ∷ debit_commands prefix rest

-- The log entries, as ParseInt reads them.
unfoldable pub parsed : List (Bytes × Bytes) → Credits
parsed [] = []
parsed ((login, value) ∷ rest) = (login, (parse_int value).0) ∷ parsed rest

abbrev pub immature_log : Bytes → ℤ → Bytes → Bytes
immature_log prefix height hash =
    format_key prefix
      (text (codes "credits") ∷ text (codes "immature") ∷ int height ∷ text hash ∷ [])

unfoldable pub immature_queue : Bytes → BlockData → Credits → List Command
unfolding immature_commands credit_commands total64
immature_queue prefix block rewards =
    immature_commands prefix block
    ++ credit_commands prefix (codes "immature") (immature_log prefix block.height block.hash)
        rewards
    ++ h_incr_by (finances_key prefix) (codes "immature") (total64 (pos 0) rewards) ∷ []

-- `reward` is what RewardInSatoshi reads, which a nil reward would make panic.
unfoldable pub matured_queue : Bytes → ℤ → BlockData → ℤ → Credits → Credits → List Command
unfolding matured_commands debit_commands credit_commands total64
matured_queue prefix ms block reward immature rewards =
    matured_commands prefix block
    ++ z_add (format_key prefix (text (codes "credits") ∷ text (codes "all") ∷ [])) block.height
        (join (text block.hash ∷ int (quot_ℤ ms 1000) ∷ big block.reward ∷ []))
      ∷ debit_commands prefix immature
    ++ credit_commands prefix (codes "balance")
        (format_key prefix (text (codes "credits") ∷ int block.height ∷ text block.hash ∷ []))
        rewards
    ++ del (immature_log prefix block.round_height block.hash)
      ∷ h_incr_by (finances_key prefix) (codes "balance") (total64 (pos 0) rewards)
      ∷ h_incr_by (finances_key prefix) (codes "immature") (negate64 (total64 (pos 0) immature))
      ∷ h_set (finances_key prefix) (codes "lastCreditHeight") (format_int block.height)
      ∷ h_set (finances_key prefix) (codes "lastCreditHash") block.hash
      ∷ h_incr_by (finances_key prefix) (codes "totalMined") (wrap64 reward)
      ∷ []

unfoldable pub orphan_queue : Bytes → BlockData → Credits → List Command
unfolding matured_commands debit_commands total64
orphan_queue prefix block immature =
    matured_commands prefix block
    ++ debit_commands prefix immature
    ++ del (immature_log prefix block.round_height block.hash)
      ∷ h_incr_by (finances_key prefix) (codes "immature") (negate64 (total64 (pos 0) immature))
      ∷ []

unfoldable pub orphans_queue : Bytes → List BlockData → List Command
unfolding immature_commands
orphans_queue prefix [] = []
orphans_queue prefix (block ∷ blocks) =
    immature_commands prefix block ++ orphans_queue prefix blocks

-- `Val` of a map: empty after an error.
abbrev pub map_of : Option Reply → List (Bytes × Bytes)
map_of (some (hash_reply m)) = m
map_of _ = []

unfoldable pub round_shares : List (Bytes × Bytes) → Credits
unfolding parsed
round_shares m = parsed m

abbrev pub shares_found : Option Reply → Option Credits
shares_found none = none
shares_found (some (hash_reply m)) = some (round_shares m)
shares_found (some _) = some []

module _ (redis : Redis) (prefix : Bytes) where
  unfoldable pub write_immature_block : BlockData → Credits → redis.Db → Bool × redis.Db
  write_immature_block block rewards db = done (redis.exec (immature_queue prefix block rewards) db)

  unfoldable pub write_pending_orphans : List BlockData → redis.Db → Bool × redis.Db
  write_pending_orphans blocks db = done (redis.exec (orphans_queue prefix blocks) db)

  -- `Watch` and the read of the log, which is done before the error of `Watch` is looked at.
  unfoldable pub read_log : BlockData → redis.Db → Option (List (Bytes × Bytes)) × redis.Db
  read_log block db =
      let log = immature_log prefix block.round_height block.hash in
      let (watched, db1) = redis.run (watch log) db in
      let (reply, db2) = redis.run (h_get_all_map log) db1 in
      (elim watched [ none ↦ none | some _ ↦ some (map_of reply) ], db2)

  unfoldable pub write_matured :
      ℤ
      → BlockData
      → Credits
      → Option ℤ
      → Option (List (Bytes × Bytes)) × redis.Db
      → Outcome Unit × redis.Db
  write_matured ms block rewards reward (none, db) = (failed, db)
  write_matured ms block rewards none (some log, db) = (panicked, db)
  write_matured ms block rewards (some reward) (some log, db) =
      reply_of _ (done (redis.exec (matured_queue prefix ms block reward (parsed log) rewards) db))

  unfoldable pub write_matured_block : ℤ → BlockData → Credits → redis.Db → Outcome Unit × redis.Db
  unfolding write_matured
  write_matured_block ms block rewards db =
      write_matured ms block rewards block.reward (read_log block db)

  unfoldable pub write_orphaned :
      BlockData → Option (List (Bytes × Bytes)) × redis.Db → Bool × redis.Db
  write_orphaned block (none, db) = (false, db)
  write_orphaned block (some log, db) =
      done (redis.exec (orphan_queue prefix block (parsed log)) db)

  unfoldable pub write_orphan : BlockData → redis.Db → Bool × redis.Db
  unfolding write_orphaned
  write_orphan block db = write_orphaned block (read_log block db)

  unfoldable pub get_round_shares : ℤ → Bytes → redis.Db → Option Credits × redis.Db
  get_round_shares height nonce db =
      let (reply, db') = redis.run (h_get_all_map (format_round prefix height nonce)) db in
      (shares_found reply, db')
