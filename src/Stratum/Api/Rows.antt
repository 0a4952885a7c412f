-- ===== src/Stratum/Api/Rows.antt =====
-- The rows of the miners in the statistics of stratum/api.go.
use xmrpool.Common.{ℕ, ◌+◌, ◌≡◌, refl, ap, ◌∙◌, none, some, List, [], ◌∷◌, if◌then◌else◌, arith}
use xmrpool.Common.Ints.{ℤ, pos, ◌-ℤ◌, ltb_ℤ, leb_ℤ, quot_ℤ}
use xmrpool.Common.Words.{wrap64}
use xmrpool.Common.Texts.{Bytes}
use xmrpool.Common.Assoc.{Assoc}
use xmrpool.Stratum.Share.{add64}
use xmrpool.Stratum.Share.Hashrate.{hashrate, visit_shares, get_last_beat}
use xmrpool.Stratum.Types.{Miner, Env, World}
use xmrpool.Stratum.Api.{Settings, MinerRow, seconds_at, visit_miner, visit_miners}

-- The entries that are no older than a time.
abbrev pub since : {V : Type 0} → ℤ → Assoc ℤ V → Assoc ℤ V
since time [] = []
since time ((k, v) ∷ rest) =
    let later = since time rest in if leb_ℤ time k then (k, v) ∷ later else later

-- The sum of the shares, from a total on, on int64.
abbrev pub sum_shares : ℤ → Assoc ℤ ℤ → ℤ
sum_shares total [] = total
sum_shares total ((k, v) ∷ rest) = sum_shares (add64 total v) rest

-- The shares of the last day as of a time in seconds.
abbrev pub of_day : {V : Type 0} → ℤ → Assoc ℤ V → Assoc ℤ V
of_day now shares = since (wrap64 (now -ℤ pos 86400)) shares

-- The time that shares are spread over: the window, or less for a miner that has not been there so long.
abbrev pub spread : ℤ → ℤ → Miner → ℤ
spread now window m =
    let online = wrap64 (now -ℤ m.started_at) in if ltb_ℤ window online then window else online

module _ (oldest from : ℤ) where
  visit_shares-kept :
      (total : ℤ) (shares : Assoc ℤ ℤ)
      → (visit_shares oldest from total shares).1 ≡ since oldest shares
  unfolding visit_shares
  visit_shares-kept total [] = refl
  visit_shares-kept total ((k, v) ∷ rest) =
      ground (arith, visit_shares-kept total rest, visit_shares-kept (add64 total v) rest)

  visit_shares-sum :
      (total : ℤ) (shares : Assoc ℤ ℤ)
      → (visit_shares oldest from total shares).0
        ≡ sum_shares total (since from (since oldest shares))
  unfolding visit_shares
  visit_shares-sum total [] = refl
  visit_shares-sum total ((k, v) ∷ rest) =
      ground (arith, visit_shares-sum total rest, visit_shares-sum (add64 total v) rest)

-- The sum that a rate at a time and for a window has, and what the reading leaves of the shares.
hashrate-sum :
    (now window : ℤ) (m : Miner)
    → (hashrate now window m).0.0
      ≡ sum_shares (pos 0) (since (wrap64 (now -ℤ window)) (of_day now m.shares))
unfolding hashrate
hashrate-sum now window m =
    visit_shares-sum (wrap64 (now -ℤ pos 86400)) (wrap64 (now -ℤ window)) (pos 0) m.shares

hashrate-kept :
    (now window : ℤ) (m : Miner) → (hashrate now window m).1.shares ≡ of_day now m.shares
unfolding hashrate
hashrate-kept now window m =
    visit_shares-kept (wrap64 (now -ℤ pos 86400)) (wrap64 (now -ℤ window)) (pos 0) m.shares

module _ (env : Env) (settings : Settings) where
  -- The row of a miner for whom the clock is read for the n-th and the next time. A rate is the sum of
  -- the shares in its window and the time that they are spread over.
  pub record IsRow (now : ℤ) (n : ℕ) (x : Bytes × Miner) (r : MinerRow) : Type 0 where
    pub name : r.name ≡ x.0
    pub rate_sum :
        r.hashrate.0
        ≡ sum_shares (pos 0) (
            since
              (wrap64 (seconds_at env settings n -ℤ quot_ℤ settings.estimation_window 1000000000))
              (of_day (seconds_at env settings n) x.1.shares))
    pub rate_time :
        r.hashrate.1
        ≡ spread (seconds_at env settings n) (quot_ℤ settings.estimation_window 1000000000) x.1
    pub day_sum :
        r.hashrate24h.0
        ≡ sum_shares (pos 0) (
            of_day (seconds_at env settings (n + 1)) (
              of_day
                (seconds_at env settings (n + 1))
                (of_day (seconds_at env settings n) x.1.shares)))
    pub day_time : r.hashrate24h.1 ≡ spread (seconds_at env settings (n + 1)) (pos 86400) x.1
    pub beat : r.last_beat ≡ x.1.last_beat
    pub valid : r.valid_shares ≡ x.1.valid_shares
    pub stale : r.stale_shares ≡ x.1.stale_shares
    pub invalid : r.invalid_shares ≡ x.1.invalid_shares
    pub accepted : r.accepts ≡ x.1.accepts
    pub rejected : r.rejects ≡ x.1.rejects
    pub address : r.ip ≡ (if settings.hide_ip then none else some x.1.ip)
    pub warned :
        r.warning
        ≡ ltb_ℤ (quot_ℤ (quot_ℤ settings.timeout 2) 1000000) (wrap64 (now -ℤ x.1.last_beat))
    pub late : r.timed_out ≡ ltb_ℤ (quot_ℤ settings.timeout 1000000) (wrap64 (now -ℤ x.1.last_beat))

  -- One row for each miner, in order.
  pub data Rows (now : ℤ) : ℕ → List (Bytes × Miner) → List MinerRow → Type 0 where
    no_row : (n : ℕ) → Rows now n [] []
    next_row :
        (n : ℕ) (x : Bytes × Miner) (r : MinerRow) (xs : List (Bytes × Miner)) (rs : List MinerRow)
        → IsRow now n x r
        → Rows now (n + 2) xs rs
        → Rows now n (x ∷ xs) (r ∷ rs)

  visit_miner-IsRow :
      (now : ℤ) (x : Bytes × Miner) (w : World)
      → IsRow now w.ticks x (visit_miner env settings now x w).0
  unfolding visit_miner hashrate get_last_beat
  visit_miner-IsRow now (key, m) w =
      let first = seconds_at env settings w.ticks in
      let second = seconds_at env settings (w.ticks + 1) in
      let window = quot_ℤ settings.estimation_window 1000000000 in
      record {
        name = refl;
        rate_sum = hashrate-sum first window m;
        rate_time = refl;
        day_sum =
            hashrate-sum second (pos 86400) (hashrate first window m).1
            ∙ ap (λ (xs : Assoc ℤ ℤ). sum_shares (pos 0) (of_day second (of_day second xs)))
                (hashrate-kept first window m);
        day_time = refl;
        beat = refl;
        valid = refl;
        stale = refl;
        invalid = refl;
        accepted = refl;
        rejected = refl;
        address = refl;
        warned = refl;
        late = refl;
      }

  pub visit_miners-Rows :
      (now : ℤ) (xs : List (Bytes × Miner)) (w : World)
      → Rows now w.ticks xs (visit_miners env settings now xs w).0.0
  unfolding visit_miners visit_miner
  visit_miners-Rows now [] w = no_row w.ticks
  visit_miners-Rows now (x ∷ xs) w =
      next_row w.ticks x (visit_miner env settings now x w).0 xs
        (visit_miners env settings now xs (visit_miner env settings now x w).1).0.0
        (visit_miner-IsRow now x w) (visit_miners-Rows now xs (visit_miner env settings now x w).1)
