-- ===== src/Storage/Ledger.antt =====
-- storage/redis.go: the books of the miners and of the finances agree, whatever was written.
pub mod Writes
pub mod Steps
use xmrpool.Common.{
  ℕ, ◌^◌, ◌<◌, ◌≡◌, refl, ap, ◌∙◌, sym, Bool, true, false, Option, none, some, List, [], ◌∷◌, arith,
  Bool-cases, inl, inr,
}
use xmrpool.Common.Ints.{ℤ, pos, ◌+ℤ◌}
use xmrpool.Common.Texts.{Bytes}
use xmrpool.Storage.Types.{reply_of, Outcome, returned, failed, panicked, BlockData}
use xmrpool.Storage.Redis.{
  Redis, Sums, Command, Reply, net, rewrites, rewrites_one, amount_at, done,
}
use xmrpool.Storage.Payments.{
  update_queue, rollback_queue, payment_queue, update_balance, rollback_balance, write_payment,
}
use xmrpool.Storage.Shares.{check_pow_exist, write_share, write_fresh_share, share_queue}
use xmrpool.Storage.Blocks.{
  Credits, parsed, read_log, write_immature_block, write_matured_block, write_matured, write_orphan,
  write_orphaned, write_pending_orphans,
}
use xmrpool.Storage.Books.{Account, field_of, is_miner, is_finances, IsBalanced}
use xmrpool.Storage.Books.Queues.{
  immature_queue-IsBalanced, matured_queue-IsBalanced, orphan_queue-IsBalanced,
  orphans_queue-IsBalanced, share_queue-IsBalanced, block_queue-IsBalanced,
}
use xmrpool.Storage.Books.Payments.{
  update_queue-IsBalanced, rollback_queue-IsBalanced, payment_queue-IsBalanced,
}
use mathlib.Core.Path.{subst}
use xmrpool.Storage.Books.Credits.{AreCredits, sum_of}

pub done_database : {A D : Type 0} → (r : Option A × D) → (done r).1 ≡ r.1
unfolding done
done_database (none, db) = refl
done_database (some a, db) = refl

module _ (redis : Redis) (sums : Sums redis) (prefix : Bytes) where
  -- Over all miners, each field of an account sums up to what the finances say.
  unfoldable pub IsBooked : redis.Db → Type 0
  IsBooked db =
      (a : Account)
      → sums.total (is_miner prefix) (field_of a) db
        ≡ sums.total (is_finances prefix) (field_of a) db

-- A command that leaves all accounts as they are.
abbrev pub IsAside : Bytes → Command → Type 0
IsAside prefix c =
    (a : Account)
    → (rewrites_one (is_miner prefix) (field_of a) c ≡ false)
      × (amount_at (is_miner prefix) (field_of a) c ≡ none)
      × (rewrites_one (is_finances prefix) (field_of a) c ≡ false)
      × (amount_at (is_finances prefix) (field_of a) c ≡ none)

module _ (redis : Redis) (sums : Sums redis) (prefix : Bytes) where
  pub run-IsBooked :
      (c : Command) (db : redis.Db)
      → IsAside prefix c
      → IsBooked redis sums prefix db
      → IsBooked redis sums prefix (redis.run c db).1
  unfolding IsBooked
  run-IsBooked c db aside h a =
      let (m, n, f, g) = aside a in
      sums.kept (is_miner prefix) (field_of a) c db m n
      ∙ h a
      ∙ sym (sums.kept (is_finances prefix) (field_of a) c db f g)

  pub exec-IsBooked :
      (cs : List Command) (db db' : redis.Db)
      → IsBalanced prefix cs
      → done (redis.exec cs db) ≡ (true, db')
      → IsBooked redis sums prefix db
      → IsBooked redis sums prefix db'
  unfolding IsBooked IsBalanced
  exec-IsBooked cs db db' balanced e h a =
      let (m, f, same) = balanced a in
      let there : (redis.exec cs db).1 ≡ db' =
        sym (done_database (redis.exec cs db)) ∙ ap (λ (r : Bool × redis.Db). r.1) e in
      let ok : (done (redis.exec cs db)).0 ≡ true = ap (λ (r : Bool × redis.Db). r.0) e in
      rw
        (
          sym there,
          sums.added (is_miner prefix) (field_of a) cs db m ok,
          sums.added (is_finances prefix) (field_of a) cs db f ok,
          h a,
          same,
        )
        refl

abbrev is_returned : {A : Type 0} → Outcome A → Bool
is_returned (returned a) = true
is_returned failed = false
is_returned panicked = false

pub other_outcome :
    {A D : Type 0} (o : Outcome A) (b : A) (db db' : D)
    → is_returned o ≡ false
    → ◌≡◌ {A = Outcome A × D} (o, db) (returned b, db')
    → ⊥
other_outcome o b db db' h e =
    let same : o ≡ returned b = ap (λ (r : Outcome _ × _). r.0) e in
    let wrong : is_returned o ≡ true = ap is_returned same in cc

pub reply_of-returned :
    {A D : Type 0} (a b : A) (p : Bool × D) (db : D)
    → reply_of a p ≡ (returned b, db)
    → p ≡ (true, db)
unfolding reply_of
reply_of-returned a b (true, db') db e = ap (λ (d : _). (true, d)) (ap (λ (r : _). r.1) e)
reply_of-returned a b (false, db') db e = absurd (other_outcome _ _ _ _ refl e)

pub done-some : {A D : Type 0} (r : Option A × D) (a : A) → r.0 ≡ some a → done r ≡ (true, r.1)
unfolding done
done-some (none, db) a e = cc
done-some (some b, db) a e = refl
