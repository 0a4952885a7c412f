-- ===== src/Storage/Shares.antt =====
-- storage/redis.go: shares and found blocks, with the check for work that was seen before.
use xmrpool.Common.{
  ℕ, ◌+◌, ◌-◌, ◌^◌, Bool, true, false, Option, none, some, List, [], ◌∷◌, ◌++◌, get_elem?,
}
use xmrpool.Common.Ints.{ℤ, pos, ◌+ℤ◌, quot_ℤ, eqb_ℤ}
use xmrpool.Common.Words.{u64, wrap64, signed64}
use xmrpool.Common.Texts.{Bytes, codes}
use xmrpool.Common.Decimal.{format_uint}
use xmrpool.Common.Strings.{join_parts}
use xmrpool.Common.Numbers.{format_int, parse_int}
use xmrpool.Storage.Types.{
  text, int, join, format_key, format_round, reply_of, Outcome, returned, failed, panicked,
}
use xmrpool.Storage.Redis.{
  Redis, Command, h_set, h_incr_by, h_del, z_add, z_incr_by, z_rem_range_by_score, rename, expire,
  h_get_all_map, Reply, int_reply, hash_reply, done,
}

abbrev pub pow_key : Bytes → Bytes
pow_key prefix = format_key prefix (text (codes "pow") ∷ [])

-- The commands of `writeShare`, at ms milliseconds and ts seconds.
unfoldable pub share_commands : Bytes → ℤ → ℤ → Bytes → Bytes → ℤ → ℤ → List Command
share_commands prefix ms ts login id diff window =
    h_incr_by (format_key prefix (text (codes "shares") ∷ text (codes "roundCurrent") ∷ [])) login
      diff
    ∷ z_add (format_key prefix (text (codes "hashrate") ∷ [])) ts
        (join (int diff ∷ text login ∷ text id ∷ int ms ∷ []))
    ∷ z_add (format_key prefix (text (codes "hashrate") ∷ text login ∷ [])) ts
        (join (int diff ∷ text id ∷ int ms ∷ []))
    ∷ expire (format_key prefix (text (codes "hashrate") ∷ text login ∷ [])) window
    ∷ h_set (format_key prefix (text (codes "miners") ∷ text login ∷ [])) (codes "lastShare")
        (format_int ts)
    ∷ []

unfoldable pub share_queue : Bytes → ℤ → Bytes → Bytes → ℤ → ℤ → List Command
unfolding share_commands
share_queue prefix ms login id diff window =
    share_commands prefix ms (quot_ℤ ms 1000) login id diff window
    ++ h_incr_by (format_key prefix (text (codes "stats") ∷ [])) (codes "roundShares") diff ∷ []

-- What `WriteBlock` queues; `nonce` is params[0].
unfoldable pub block_queue : Bytes → ℤ → Bytes → Bytes → ℤ → ℤ → ℕ → Bytes → List Command
unfolding share_commands
block_queue prefix ms login id diff window height nonce =
    share_commands prefix ms (quot_ℤ ms 1000) login id diff window
    ++ h_set (format_key prefix (text (codes "stats") ∷ [])) (codes "lastBlockFound")
        (format_int (quot_ℤ ms 1000))
      ∷ h_del (format_key prefix (text (codes "stats") ∷ [])) (codes "roundShares")
      ∷ z_incr_by (format_key prefix (text (codes "finders") ∷ [])) (pos 1) login
      ∷ h_incr_by (format_key prefix (text (codes "miners") ∷ text login ∷ []))
          (codes "blocksFound") (pos 1)
      ∷ rename (format_key prefix (text (codes "shares") ∷ text (codes "roundCurrent") ∷ []))
          (format_round prefix (signed64 height) nonce)
      ∷ h_get_all_map (format_round prefix (signed64 height) nonce)
      ∷ []

-- The loop over the shares of the round; a value that does not parse counts as ParseInt returns it.
unfoldable pub total_of : ℤ → List (Bytes × Bytes) → ℤ
total_of total [] = total
total_of total ((login, value) ∷ rest) = total_of (wrap64 (total +ℤ (parse_int value).0)) rest

unfoldable pub candidate_row : List Bytes → ℤ → ℤ → ℤ → ℤ → ℤ → Bytes
candidate_row params ts round_diff total coin_base_value blk_total_fee = join (
    text (join_parts params)
    ∷ int ts
    ∷ int round_diff
    ∷ int total
    ∷ int coin_base_value
    ∷ int blk_total_fee
    ∷ [])

unfoldable pub candidates_key : Bytes → Bytes
candidates_key prefix = format_key prefix (text (codes "blocks") ∷ text (codes "candidates") ∷ [])

-- `val == 0`: nothing was added to the set, so the work was there.
abbrev pub pow_exists : Option Reply → Option Bool
pow_exists none = none
pow_exists (some (int_reply n)) = some (eqb_ℤ n (pos 0))
pow_exists (some _) = some true

-- The shares of the round, which the eleventh reply holds.
abbrev pub shares_of : List Reply → List (Bytes × Bytes)
shares_of replies = elim (get_elem? replies 10) [
  | some r ↦ elim r [ hash_reply shares ↦ shares | _ ↦ [] ]
  | none ↦ []
]

module _ (redis : Redis) (prefix : Bytes) where
  -- The removal's reply is not looked at; height - 3 is taken on uint64.
  unfoldable pub check_pow_exist : ℕ → List Bytes → redis.Db → Option Bool × redis.Db
  check_pow_exist height params db =
      let (removed, db1) =
        redis.run
          (z_rem_range_by_score (pow_key prefix) (codes "-inf")
            (b'(' ∷ format_uint (u64 (height + 2 ^ 64 - 3))))
          db in
      let (added, db2) = redis.run (z_add (pow_key prefix) (pos height) (join_parts params)) db1 in
      (pow_exists added, db2)

  unfoldable pub write_fresh_share :
      ℤ → Bytes → Bytes → ℤ → ℤ → Option Bool × redis.Db → Outcome Bool × redis.Db
  write_fresh_share ms login id diff window (none, db) = (failed, db)
  write_fresh_share ms login id diff window (some true, db) = (returned true, db)
  write_fresh_share ms login id diff window (some false, db) =
      reply_of false (done (redis.exec (share_queue prefix ms login id diff window) db))

  unfoldable pub write_share :
      ℤ → Bytes → Bytes → List Bytes → ℤ → ℕ → ℤ → redis.Db → Outcome Bool × redis.Db
  unfolding write_fresh_share
  write_share ms login id params diff height window db =
      write_fresh_share ms login id diff window (check_pow_exist height params db)

  unfoldable pub write_invalid_share : ℤ → ℤ → Bytes → Bytes → ℤ → redis.Db → Bool × redis.Db
  write_invalid_share ms ts login id diff db = done (
      redis.run
        (z_add (format_key prefix (text (codes "invalidhashrate") ∷ [])) ts
          (join (int diff ∷ text login ∷ text id ∷ int ms ∷ [])))
        db)

  unfoldable pub write_reject_share : ℤ → ℤ → Bytes → Bytes → ℤ → redis.Db → Bool × redis.Db
  write_reject_share ms ts login id diff db = done (
      redis.run
        (z_add (format_key prefix (text (codes "rejecthashrate") ∷ [])) ts
          (join (int diff ∷ text login ∷ text id ∷ int ms ∷ [])))
        db)

  -- After the transaction: the candidate's row is added, with the shares counted.
  unfoldable pub add_candidate :
      ℤ → List Bytes → ℤ → ℕ → ℤ → ℤ → Option (List Reply) × redis.Db → Outcome Bool × redis.Db
  unfolding candidates_key
  add_candidate ts params round_diff height coin_base_value blk_total_fee (none, db) = (failed, db)
  add_candidate ts params round_diff height coin_base_value blk_total_fee (some replies, db) =
      let row =
        candidate_row params ts round_diff (total_of (pos 0) (shares_of replies)) coin_base_value
          blk_total_fee in
      reply_of false (done (redis.run (z_add (candidates_key prefix) (pos height) row) db))

  unfoldable pub write_fresh_block :
      ℤ
      → Bytes
      → Bytes
      → List Bytes
      → ℤ
      → ℤ
      → ℕ
      → ℤ
      → ℤ
      → ℤ
      → Option Bool × redis.Db
      → Outcome Bool × redis.Db
  unfolding add_candidate
  write_fresh_block ms login id params diff round_diff height cbv fee window (none, db) =
      (failed, db)
  write_fresh_block ms login id params diff round_diff height cbv fee window (some true, db) =
      (returned true, db)
  write_fresh_block ms login id [] diff round_diff height cbv fee window (some false, db) =
      (panicked, db)
  write_fresh_block ms login id (nonce ∷ more) diff round_diff height cbv fee window
        (some false, db) =
      add_candidate (quot_ℤ ms 1000) (nonce ∷ more) round_diff height cbv fee
        (redis.exec (block_queue prefix ms login id diff window height nonce) db)

  unfoldable pub write_block :
      ℤ → Bytes → Bytes → List Bytes → ℤ → ℤ → ℕ → ℤ → ℤ → ℤ → redis.Db → Outcome Bool × redis.Db
  unfolding write_fresh_block
  write_block ms login id params diff round_diff height cbv fee window db =
      write_fresh_block ms login id params diff round_diff height cbv fee window
        (check_pow_exist height params db)
