-- ===== src/Payouts/Bounds.antt =====
-- payouts/unlocker.go: how far the rewards of a round can be from what there is to share out.
use xmrpool.Common.{
  ℕ, zero, suc, ◌+◌, ◌*◌, ◌^◌, ◌≤◌, ◌<◌, ◌≡◌, refl, ap, ◌∙◌, Bool, Option, some, [], ◌∷◌, length,
  arith, Bool-cases, inl, inr,
}
use xmrpool.Common.Ints.{ℤ, pos, negsuc, pos_part, neg_part, ◌+ℤ◌, ◌*ℤ◌, int_laws}
use xmrpool.Common.Words.{wrap64, wrap64_id}
use xmrpool.Common.Assoc.{lookup, insert, bytes_key}
use xmrpool.Common.Texts.{Bytes, bytes_eq}
use xmrpool.Common.Numbers.{parse_int-digits_before}
use xmrpool.Storage.Blocks.{Credits}
use xmrpool.Storage.Books.Credits.{AreCredits, sum_of}
use xmrpool.Payouts.Fractions.{rat_mul, nearest, float_string, whole}
use xmrpool.Payouts.Rewards.{or_zero, add_reward, share_out, calculate_rewards_for_shares}
use native.Mathlib.Nat.{
  mul-zero, zero-mul, mul-add, add-mul, suc-mul, div-mul-le_self, lt_of_mul-lt-mul_right,
  mul-le-mul_left, mul-le-mul_right, le_of_mul-le-mul_right, mul_assoc,
}

-- Adding to one login's reward adds to the sum.
plus : (a : ℤ) (v : ℕ) → neg_part a ≡ 0 → a +ℤ pos v ≡ pos (pos_part a + v)
plus a v h = grind int_laws

sum_of-insert :
    (login : Bytes) (v : ℕ) (rewards : Credits) (x : ℤ)
    → AreCredits rewards
    → sum_of rewards + v < 2 ^ 63
    → x ≡ wrap64 (or_zero (lookup login rewards) +ℤ pos v)
    → AreCredits (insert login x rewards) × (sum_of (insert login x rewards) ≡ sum_of rewards + v)
unfolding insert lookup
sum_of-insert login v [] x h small e =
    let whole : x ≡ pos (0 + v) =
      e ∙ ap wrap64 (plus (pos 0) v refl) ∙ wrap64_id (pos (0 + v)) (omega arith) in
    rw whole ((refl, _), omega arith)
sum_of-insert login v ((j, w) ∷ rest) x (nonneg, h) small e = elim (Bool-cases (bytes_eq j login)) [
  | inl same ↦
      let found : or_zero (lookup login ((j, w) ∷ rest)) ≡ w = rw same refl in
      let whole : x ≡ pos (pos_part w + v) =
        e
        ∙ ap (λ (y : ℤ). wrap64 (y +ℤ pos v)) found
        ∙ ap wrap64 (plus w v nonneg)
        ∙ wrap64_id (pos (pos_part w + v)) (omega arith) in
      rw (same, whole) ((refl, h), omega arith)
  | inr other ↦
      let there : lookup login ((j, w) ∷ rest) ≡ lookup login rest = rw other refl in
      let (credits, sum) =
        sum_of-insert login v rest x h (omega arith)
          (e ∙ ap (λ (o : Option ℤ). wrap64 (or_zero o +ℤ pos v)) there) in
      rw other ((nonneg, credits), omega (arith, sum))
]

-- One miner's reward: the nearest whole number of n / d.
whole-nearest :
    (n d : ℕ) → nearest n d < 2 ^ 63 → whole (record { num = pos n; den = d }) ≡ pos (nearest n d)
unfolding whole float_string
whole-nearest n d small = ap (λ (r : ℤ × Bool). r.0) (parse_int-digits_before (nearest n d) small)

nearest-le : (n d : ℕ) → nearest n d * (2 * d) ≤ 2 * n + d
nearest-le n zero = omega arith
nearest-le n (suc d) = div-mul-le_self (2 * n + suc d) (2 * suc d)

pos-* : (a b : ℕ) → pos a *ℤ pos b ≡ pos (a * b)
unfolding ◌*ℤ◌
pos-* a b = rw (mul-zero a, zero-mul b, zero-mul 0) (ground arith)

-- The bound of the loop, over rewards so far, with E half-units to a reward.
add-below :
    (x v n m s k d : ℕ)
    → v * (2 * d) ≤ 2 * (n * m) + d
    → x * (2 * d) + 2 * (n * (m + s)) + (suc k) * d < 2 ^ 63 * (2 * d)
    → ((x + v) * (2 * d) + 2 * (n * s) + k * d ≤ x * (2 * d) + 2 * (n * (m + s)) + (suc k) * d)
      × (x + v < 2 ^ 63)
add-below x v n m s k d h small =
    let split : n * (m + s) ≡ n * m + n * s = mul-add n m s in
    let both : (x + v) * (2 * d) ≡ x * (2 * d) + v * (2 * d) = add-mul x v (2 * d) in
    let more : suc k * d ≡ k * d + d = suc-mul k d in
    (omega arith, lt_of_mul-lt-mul_right (2 * d) (omega arith))

-- The loop of calculateRewardsForShares, from the rewards so far.
share_out-Bounded :
    (shares : Credits) (n d t : ℕ) (rewards : Credits)
    → AreCredits shares
    → AreCredits rewards
    → sum_of rewards * (2 * (suc d * suc t))
        + 2 * (n * sum_of shares)
        + length shares * (suc d * suc t)
      < 2 ^ 63 * (2 * (suc d * suc t))
    → (result : Credits) × (share_out shares
          (pos (suc t))
          (record { num = pos n; den = suc d })
          rewards
        ≡ some result)
      × AreCredits result
      × (sum_of result * (2 * (suc d * suc t))
          ≤ sum_of rewards * (2 * (suc d * suc t))
            + 2 * (n * sum_of shares)
            + length shares * (suc d * suc t))
unfolding share_out add_reward
share_out-Bounded [] n d t rewards hs hr small = (rewards, refl, hr, omega arith)
share_out-Bounded ((login, negsuc m) ∷ shares) n d t rewards (nonneg, hs) hr small =
    absurd (omega arith)
share_out-Bounded ((login, pos m) ∷ shares) n d t rewards (nonneg, hs) hr small =
    let v = nearest (n * m) (suc d * suc t) in
    let (below, fits) =
      add-below (sum_of rewards) v n m (sum_of shares) (length shares) (suc d * suc t)
        (nearest-le (n * m) (suc d * suc t)) small in
    let value : whole
          (rat_mul (record { num = pos n; den = suc d }) (record { num = pos m; den = suc t }))
        ≡ pos v =
      rw (pos-* n m) (whole-nearest (n * m) (suc d * suc t) (omega arith)) in
    let (credits, sum) = sum_of-insert login v rewards _ hr fits refl in
    let (result, e, good, bound) =
      share_out-Bounded shares n d t
        (insert login (wrap64 (or_zero (lookup login rewards) +ℤ pos v)) rewards) hs credits
        (rw sum (omega arith)) in
    let scaled : sum_of (insert login (wrap64 (or_zero (lookup login rewards) +ℤ pos v)) rewards)
          * (2 * (suc d * suc t))
        ≡ (sum_of rewards + v) * (2 * (suc d * suc t)) =
      ap (λ (s : ℕ). s * (2 * (suc d * suc t))) sum in
    (result, rw value e, good, omega (arith, bound, scaled))

enough :
    (n d t s k : ℕ)
    → s ≤ suc t
    → n + k < 2 ^ 62
    → 0 * (2 * (suc d * suc t)) + 2 * (n * s) + k * (suc d * suc t) < 2 ^ 63 * (2 * (suc d * suc t))
enough n d t s k within small =
    let unit : suc t ≤ suc d * suc t = omega (arith, suc-mul d (suc t)) in
    let shared : n * s ≤ n * suc t = mul-le-mul_left n within in
    let scaled : n * suc t ≤ n * (suc d * suc t) = mul-le-mul_left n unit in
    let all : (n + k) * (suc d * suc t) ≤ 2 ^ 62 * (suc d * suc t) =
      mul-le-mul_right (suc d * suc t) (omega arith) in
    omega (arith, add-mul n k (suc d * suc t))

-- Dividing a bound by the total.
per_unit :
    (r n d t s k : ℕ)
    → s ≤ suc t
    → r * (2 * (suc d * suc t)) ≤ 2 * (n * s) + k * (suc d * suc t)
    → r * (2 * suc d) ≤ 2 * n + k * suc d
per_unit r n d t s k within bound =
    let shared : n * s ≤ n * suc t = mul-le-mul_left n within in
    let left : r * (2 * suc d) * suc t ≡ r * (2 * (suc d * suc t)) =
      mul_assoc r (2 * suc d) (suc t) ∙ ap (λ (x : ℕ). r * x) (mul_assoc 2 (suc d) (suc t)) in
    let right : (2 * n + k * suc d) * suc t ≡ 2 * (n * suc t) + k * (suc d * suc t) =
      rw (add-mul (2 * n) (k * suc d) (suc t), mul_assoc 2 n (suc t), mul_assoc k (suc d) (suc t))
        refl in
    le_of_mul-le-mul_right {k = suc t} (omega (arith, left, right)) (omega arith)

-- For a reward of n / (d + 1) and shares that are not negative and sum up to no more than the
-- total, which is not 0, where n and the number of miners together are below 2^62,
-- calculateRewardsForShares returns rewards; they are not negative, and their sum exceeds the part
-- of the reward that the shares are of the total, and so the reward, by at most half a unit per
-- miner.
pub calculate_rewards_for_shares-Bounded :
    (shares : Credits) (n d t : ℕ)
    → AreCredits shares
    → sum_of shares ≤ suc t
    → n + length shares < 2 ^ 62
    → (result : Credits) × (calculate_rewards_for_shares shares
          (pos (suc t))
          (record { num = pos n; den = suc d })
        ≡ some result)
      × AreCredits result
      × (sum_of result * (2 * (suc d * suc t))
          ≤ 2 * (n * sum_of shares) + length shares * (suc d * suc t))
      × (sum_of result * (2 * suc d) ≤ 2 * n + length shares * suc d)
unfolding calculate_rewards_for_shares
calculate_rewards_for_shares-Bounded shares n d t hs within small =
    let (result, e, good, bound) =
      share_out-Bounded shares n d t [] hs _
        (enough n d t (sum_of shares) (length shares) within small) in
    (
      result,
      e,
      good,
      omega (arith, bound),
      per_unit (sum_of result) n d t (sum_of shares) (length shares) within (omega (arith, bound)),
    )
