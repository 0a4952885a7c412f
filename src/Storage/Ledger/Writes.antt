-- ===== src/Storage/Ledger/Writes.antt =====
-- storage/redis.go: each write keeps the books.
use xmrpool.Common.{
  ℕ, ◌^◌, ◌<◌, ◌≡◌, refl, ap, ◌∙◌, sym, Bool, true, false, Option, none, some, List, [], ◌∷◌,
}
use xmrpool.Common.Ints.{ℤ, quot_ℤ}
use xmrpool.Common.Texts.{Bytes}
use xmrpool.Storage.Types.{returned, BlockData}
use xmrpool.Storage.Redis.{Redis, Sums, Command, Reply}
use xmrpool.Storage.Shares.{
  check_pow_exist, write_share, write_fresh_share, write_block, write_fresh_block, add_candidate,
}
use xmrpool.Storage.Blocks.{
  Credits, parsed, read_log, write_matured_block, write_matured, write_orphan, write_orphaned,
  orphan_queue,
}
use xmrpool.Storage.Books.{IsBalanced}
use xmrpool.Storage.Books.Queues.{
  matured_queue-IsBalanced, orphan_queue-IsBalanced, share_queue-IsBalanced, block_queue-IsBalanced,
}
use mathlib.Core.Path.{subst}
use xmrpool.Storage.Books.Credits.{AreCredits, sum_of}
use xmrpool.Storage.Ledger.{
  IsBooked, run-IsBooked, exec-IsBooked, done_database, done-some, other_outcome, reply_of-returned,
}

module _ (redis : Redis) (sums : Sums redis) (prefix : Bytes) where
  check_pow_exist-IsBooked :
      (height : ℕ) (params : List Bytes) (db : redis.Db)
      → IsBooked redis sums prefix db
      → IsBooked redis sums prefix (check_pow_exist redis prefix height params db).1
  unfolding check_pow_exist
  check_pow_exist-IsBooked height params db h =
      run-IsBooked redis sums prefix _ _ (λ a. (refl, refl, refl, refl))
        (run-IsBooked redis sums prefix _ db (λ a. (refl, refl, refl, refl)) h)

  write_fresh_share-IsBooked :
      (ms : ℤ) (login id : Bytes) (diff window : ℤ) (r : Option Bool × redis.Db) (b : Bool)
      (db' : redis.Db)
      → write_fresh_share redis prefix ms login id diff window r ≡ (returned b, db')
      → IsBooked redis sums prefix r.1
      → IsBooked redis sums prefix db'
  unfolding write_fresh_share
  write_fresh_share-IsBooked ms login id diff window (none, db) b db' e h =
      absurd (other_outcome _ _ _ _ refl e)
  write_fresh_share-IsBooked ms login id diff window (some true, db) b db' e h =
      subst (λ (d : redis.Db). IsBooked redis sums prefix d) (ap (λ (r : _). r.1) e) h
  write_fresh_share-IsBooked ms login id diff window (some false, db) b db' e h =
      exec-IsBooked redis sums prefix _ db db'
        (share_queue-IsBalanced prefix ms login id diff window) (reply_of-returned false b _ db' e)
        h

  pub write_share-IsBooked :
      (ms : ℤ) (login id : Bytes) (params : List Bytes) (diff : ℤ) (height : ℕ) (window : ℤ)
      (db db' : redis.Db) (b : Bool)
      → write_share redis prefix ms login id params diff height window db ≡ (returned b, db')
      → IsBooked redis sums prefix db
      → IsBooked redis sums prefix db'
  unfolding write_share
  write_share-IsBooked ms login id params diff height window db db' b e h =
      write_fresh_share-IsBooked ms login id diff window _ b db' e
        (check_pow_exist-IsBooked height params db h)

  added_candidate-IsBooked :
      (ts : ℤ) (params : List Bytes) (round_diff : ℤ) (height : ℕ) (value fee : ℤ)
      (r : Option (List Reply) × redis.Db) (db' : redis.Db) (b : Bool)
      → ((replies : List Reply) → r.0 ≡ some replies → IsBooked redis sums prefix r.1)
      → add_candidate redis prefix ts params round_diff height value fee r ≡ (returned b, db')
      → IsBooked redis sums prefix db'
  unfolding add_candidate
  added_candidate-IsBooked ts params round_diff height value fee (none, db) db' b h e =
      absurd (other_outcome _ _ _ _ refl e)
  added_candidate-IsBooked ts params round_diff height value fee (some replies, db) db' b h e =
      let ok = reply_of-returned false b _ db' e in
      subst (λ (d : redis.Db). IsBooked redis sums prefix d)
        (sym (done_database _) ∙ ap (λ (r : Bool × redis.Db). r.1) ok)
        (run-IsBooked redis sums prefix _ db (λ a. (refl, refl, refl, refl)) (h replies refl))

  -- The candidate is added to a sorted set, behind a transaction that is balanced.
  add_candidate-IsBooked :
      (ts : ℤ) (params : List Bytes) (round_diff : ℤ) (height : ℕ) (value fee : ℤ)
      (cs : List Command) (db db' : redis.Db) (b : Bool)
      → IsBalanced prefix cs
      → add_candidate redis prefix ts params round_diff height value fee (redis.exec cs db)
        ≡ (returned b, db')
      → IsBooked redis sums prefix db
      → IsBooked redis sums prefix db'
  add_candidate-IsBooked ts params round_diff height value fee cs db db' b balanced e h =
      added_candidate-IsBooked ts params round_diff height value fee (redis.exec cs db) db' b
        (λ replies ok.
          exec-IsBooked redis sums prefix cs db _ balanced (done-some (redis.exec cs db) replies ok)
            h)
        e

  write_fresh_block-IsBooked :
      (ms : ℤ) (login id : Bytes) (params : List Bytes) (diff round_diff : ℤ) (height : ℕ)
      (value fee window : ℤ) (r : Option Bool × redis.Db) (b : Bool) (db' : redis.Db)
      → write_fresh_block redis prefix ms login id params diff round_diff height value fee window r
        ≡ (returned b, db')
      → IsBooked redis sums prefix r.1
      → IsBooked redis sums prefix db'
  unfolding write_fresh_block
  write_fresh_block-IsBooked ms login id params diff round_diff height value fee window (none, db) b
        db' e h =
      absurd (other_outcome _ _ _ _ refl e)
  write_fresh_block-IsBooked ms login id params diff round_diff height value fee window
        (some true, db) b db' e h =
      subst (λ (d : redis.Db). IsBooked redis sums prefix d) (ap (λ (r : _). r.1) e) h
  write_fresh_block-IsBooked ms login id [] diff round_diff height value fee window (some false, db)
        b db' e h =
      absurd (other_outcome _ _ _ _ refl e)
  write_fresh_block-IsBooked ms login id (nonce ∷ more) diff round_diff height value fee window
        (some false, db) b db' e h =
      add_candidate-IsBooked (quot_ℤ ms 1000) (nonce ∷ more) round_diff height value fee _ db db' b
        (block_queue-IsBalanced prefix ms login id diff window height nonce) e h

  pub write_block-IsBooked :
      (ms : ℤ) (login id : Bytes) (params : List Bytes) (diff round_diff : ℤ) (height : ℕ)
      (value fee window : ℤ) (db db' : redis.Db) (b : Bool)
      → write_block redis prefix ms login id params diff round_diff height value fee window db
        ≡ (returned b, db')
      → IsBooked redis sums prefix db
      → IsBooked redis sums prefix db'
  unfolding write_block
  write_block-IsBooked ms login id params diff round_diff height value fee window db db' b e h =
      write_fresh_block-IsBooked ms login id params diff round_diff height value fee window _ b db'
        e (check_pow_exist-IsBooked height params db h)

  read_log-IsBooked :
      (block : BlockData) (db : redis.Db)
      → IsBooked redis sums prefix db
      → IsBooked redis sums prefix (read_log redis prefix block db).1
  unfolding read_log
  read_log-IsBooked block db h =
      run-IsBooked redis sums prefix _ _ (λ a. (refl, refl, refl, refl))
        (run-IsBooked redis sums prefix _ db (λ a. (refl, refl, refl, refl)) h)

  write_matured-IsBooked :
      (ms : ℤ) (block : BlockData) (rewards : Credits) (reward : Option ℤ)
      (log : List (Bytes × Bytes)) (db db' : redis.Db) (u : Unit)
      → AreCredits (parsed log)
      → AreCredits rewards
      → sum_of (parsed log) < 2 ^ 63
      → sum_of rewards < 2 ^ 63
      → write_matured redis prefix ms block rewards reward (some log, db) ≡ (returned u, db')
      → IsBooked redis sums prefix db
      → IsBooked redis sums prefix db'
  unfolding write_matured
  write_matured-IsBooked ms block rewards none log db db' u hl hr sl sr e h =
      absurd (other_outcome _ _ _ _ refl e)
  write_matured-IsBooked ms block rewards (some reward) log db db' u hl hr sl sr e h =
      exec-IsBooked redis sums prefix _ db db'
        (matured_queue-IsBalanced prefix ms block reward (parsed log) rewards hl hr sl sr)
        (reply_of-returned _ u _ db' e) h

  pub write_matured_block-IsBooked :
      (ms : ℤ) (block : BlockData) (rewards : Credits) (log : List (Bytes × Bytes))
      (db db' : redis.Db) (u : Unit)
      → AreCredits (parsed log)
      → AreCredits rewards
      → sum_of (parsed log) < 2 ^ 63
      → sum_of rewards < 2 ^ 63
      → (read_log redis prefix block db).0 ≡ some log
      → write_matured_block redis prefix ms block rewards db ≡ (returned u, db')
      → IsBooked redis sums prefix db
      → IsBooked redis sums prefix db'
  unfolding write_matured_block
  write_matured_block-IsBooked ms block rewards log db db' u hl hr sl sr found e h =
      write_matured-IsBooked ms block rewards block.reward log _ db' u hl hr sl sr
        (subst
          (λ (o : Option (List (Bytes × Bytes))).
            write_matured redis prefix ms block rewards block.reward
              (o, (read_log redis prefix block db).1)
            ≡ (returned u, db'))
          found e)
        (read_log-IsBooked block db h)

  pub write_orphan-IsBooked :
      (block : BlockData) (log : List (Bytes × Bytes)) (db db' : redis.Db)
      → AreCredits (parsed log)
      → sum_of (parsed log) < 2 ^ 63
      → (read_log redis prefix block db).0 ≡ some log
      → write_orphan redis prefix block db ≡ (true, db')
      → IsBooked redis sums prefix db
      → IsBooked redis sums prefix db'
  unfolding write_orphan write_orphaned
  write_orphan-IsBooked block log db db' hl sl found e h =
      exec-IsBooked redis sums prefix (orphan_queue prefix block (parsed log)) _ db'
        (orphan_queue-IsBalanced prefix block (parsed log) hl sl)
        (subst
          (λ (o : Option (List (Bytes × Bytes))).
            write_orphaned redis prefix block (o, (read_log redis prefix block db).1) ≡ (true, db'))
          found e)
        (read_log-IsBooked block db h)
