-- ===== src/Stratum/Share/Books.antt =====
-- What a share that is no block leaves in the books of stratum/miner.go processShare.
use xmrpool.Common.{
  suc, ◌≡◌, refl, ◌⊎◌, inl, inr, ℕ, Option, none, some, Option-cases, Bool, true, false, List, ◌∷◌,
}
use xmrpool.Common.Ints.{ℤ, pos, quot_ℤ}
use xmrpool.Common.Words.{pattern64}
use xmrpool.Common.Assoc.{int_key, insert}
use xmrpool.Common.Texts.{Bytes}
use xmrpool.Stratum.MinersMap.{MinersMap, get, set}
use xmrpool.Stratum.Types.{
  Miner, BlockTemplate, Session, Endpoint, write_share, write_invalid_share, Stored, stored, exists,
  store_failed, Env, World, returned, pure, ◌>>◌,
}
use xmrpool.Stratum.Runs.{return-after}
use xmrpool.Stratum.Share.{
  add64, amount_at, on_miner, store_share, credit, record_duplicate, write_normal_share,
}

data StoredCases (s : Stored) : Type 0 where
  seen : s ≡ exists → StoredCases s
  new : s ≡ stored → StoredCases s
  lost : s ≡ store_failed → StoredCases s

stored_cases : (s : Stored) → StoredCases s
stored_cases exists = seen refl
stored_cases stored = new refl
stored_cases store_failed = lost refl

abbrev pub changed_to : Bytes → (Miner → Miner) → MinersMap Miner → Option Miner → MinersMap Miner
changed_to key f ms none = ms
changed_to key f ms (some m) = set key (f m) ms

-- The map in which the miner of a key, if there is one, is changed.
abbrev pub with_miner : Bytes → (Miner → Miner) → MinersMap Miner → MinersMap Miner
with_miner key f ms = changed_to key f ms (get key ms)

-- A miner with one more valid share, and with a share of a difficulty at a time in seconds.
abbrev pub one_valid : Miner → Miner
one_valid m = record m { valid_shares = add64 m.valid_shares (pos 1) }

abbrev pub with_share : ℤ → ℤ → Miner → Miner
with_share now diff m = record m {
  shares = insert now (add64 (amount_at now m.shares) diff) m.shares;
}

on_miner-with_miner :
    (key : Bytes) (f : Miner → Miner) (w : World)
    → on_miner key f w ≡ returned tt (record w { miners = with_miner key f w.miners })
on_miner-with_miner key f w = elim (Option-cases (get key w.miners)) [
  | inl missing ↦ rw (changed_to, missing) refl
  | inr (m, there) ↦ rw (changed_to, there) refl
]

module _ (env : Env) (key : Bytes) (cs : Session) (e : Endpoint) (t : BlockTemplate) where
  -- The miners after a share that counts, for which the clock is read for the n-th time.
  abbrev pub credited_miners : ℕ → MinersMap Miner → MinersMap Miner
  credited_miners n ms =
      with_miner key (with_share (quot_ℤ (env.make_timestamp n) 1000) e.config_difficulty)
        (with_miner key one_valid ms)

  credit-returned :
      (w : World)
      → credit env key cs e t w
        ≡ returned true (record w {
          round_shares = add64 w.round_shares e.config_difficulty;
          ticks = suc w.ticks;
          miners = credited_miners w.ticks w.miners;
        })
  unfolding credit
  credit-returned w =
      let w1 = record w { round_shares = add64 w.round_shares e.config_difficulty } in
      let w2 = record w1 { miners = with_miner key one_valid w1.miners } in
      let sharing = with_share (quot_ℤ (env.make_timestamp w.ticks) 1000) e.config_difficulty in
      let w3 = record w2 { ticks = suc w2.ticks; miners = with_miner key sharing w2.miners } in
      return-after (on_miner key one_valid) (store_share env key e.config_difficulty >> pure true)
        w1 w2 (returned true w3) (on_miner-with_miner key one_valid w1)
        (return-after (store_share env key e.config_difficulty) (pure true) w2 w3 (returned true w3)
          (on_miner-with_miner key sharing (record w2 { ticks = suc w2.ticks })) refl)

  -- How a share is booked, by what the backend said of it: the answer, and the state after it.
  pub data Booked (params : List Bytes) (w w' : World) (b : Bool) : Type 0 where
    repeated :
        env.stored w.ticks ≡ exists
        → b ≡ false
        → w'.round_shares ≡ w.round_shares
        → w'.miners ≡ w.miners
        → w'.calls
          ≡ write_invalid_share
              (env.make_timestamp (suc w.ticks))
              (quot_ℤ (env.make_timestamp (suc w.ticks)) 1000)
              cs.login
              cs.id
              e.difficulty
            ∷ write_share cs.login cs.id params e.difficulty (pattern64 t.height)
            ∷ w.calls
        → Booked params w w' b
    credited :
        (env.stored w.ticks ≡ stored) ⊎ (env.stored w.ticks ≡ store_failed)
        → b ≡ true
        → w'.round_shares ≡ add64 w.round_shares e.config_difficulty
        → w'.miners ≡ credited_miners (suc w.ticks) w.miners
        → w'.calls ≡ write_share cs.login cs.id params e.difficulty (pattern64 t.height) ∷ w.calls
        → Booked params w w' b

  -- From any state, `write_normal_share` returns, and leaves the template and the sessions as they are.
  -- If the backend says that it has the share already, the answer is `false`, the round shares and the
  -- miners stay, and the backend is told of the share and then of an invalid share. If it has stored it,
  -- or failed to, the answer is `true`, the round grows by the configured difficulty, the miner, if it is
  -- registered, has one more valid share, and that difficulty more at the second of the booking, and the
  -- backend is told of the share alone.
  pub write_normal_share-Booked :
      (params : List Bytes) (w : World)
      → ((b : Bool) × (w' : World) × (write_normal_share env key cs e t params w ≡ returned b w')
          × (w'.block_template ≡ w.block_template)
          × (w'.sessions ≡ w.sessions)
          × (w'.session_of ≡ w.session_of)
          × Booked params w w' b)
  unfolding write_normal_share record_duplicate
  write_normal_share-Booked params w =
      let w1 = record w {
        calls = write_share cs.login cs.id params e.difficulty (pattern64 t.height) ∷ w.calls;
        ticks = suc w.ticks;
      } in
      let done = credit-returned w1 in
      let ms_now = env.make_timestamp (suc w.ticks) in
      let told = record w1 {
        calls =
            write_invalid_share ms_now (quot_ℤ ms_now 1000) cs.login cs.id e.difficulty ∷ w1.calls;
        ticks = suc (suc w1.ticks);
      } in
      let paid = record w1 {
        round_shares = add64 w.round_shares e.config_difficulty;
        ticks = suc w1.ticks;
        miners = credited_miners w1.ticks w1.miners;
      } in
      elim (stored_cases (env.stored w.ticks)) [
        | seen is ↦ (false, told, rw is refl, refl, refl, refl, repeated is refl refl refl refl)
        | new is ↦ (true, paid, rw is done, refl, refl, refl, credited (inl is) refl refl refl refl)
        | lost is ↦
            (true, paid, rw is done, refl, refl, refl, credited (inr is) refl refl refl refl)
      ]
