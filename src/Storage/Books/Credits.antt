-- ===== src/Storage/Books/Credits.antt =====
-- storage/redis.go: the loops over the credits of a round add up to the total that the pool books.
use xmrpool.Common.{
  ℕ, ◌+◌, ◌^◌, ◌<◌, ◌≡◌, refl, ap, ◌∙◌, sym, Bool, false, List, [], ◌∷◌, ◌++◌, All, if◌then◌else◌,
  arith, Bool-cases, inl, inr,
}
use xmrpool.Common.Ints.{ℤ, pos, negsuc, pos_part, neg_part, ◌+ℤ◌, ◌-ℤ◌, sub_ℕ, int_laws}
use xmrpool.Common.Words.{wrap64_id}
use xmrpool.Common.Texts.{Bytes, codes, bytes_eq}
use xmrpool.Storage.Redis.{Command, net, rewrites}
use xmrpool.Storage.Payments.{negate64}
use xmrpool.Storage.Blocks.{Credits, total64, credit_commands, debit_commands}
use xmrpool.Storage.Books.{
  Account, field_of, is_miner, is_finances, IsBalanced, to-IsBalanced, net-append, rewrites-append,
  is_miner-miner_key, is_finances-miner_key,
}

-- Credits that are not negative, and what they sum up to.
abbrev pub sum_of : Credits → ℕ
sum_of [] = 0
sum_of ((login, amount) ∷ rest) = pos_part amount + sum_of rest

abbrev pub AreCredits : Credits → Type 0
AreCredits = All (λ c. neg_part c.1 ≡ 0)

total64_from :
    (t : ℕ) (cs : Credits)
    → AreCredits cs
    → t + sum_of cs < 2 ^ 63
    → total64 (pos t) cs ≡ pos (t + sum_of cs)
unfolding total64
total64_from t [] h small = ap pos (omega arith)
total64_from t ((login, amount) ∷ rest) (nonneg, h) small =
    let added : pos t +ℤ amount ≡ pos (t + pos_part amount) = grind int_laws in
    rw
      (
        added,
        wrap64_id (pos (t + pos_part amount)) (omega arith),
        total64_from (t + pos_part amount) rest h (omega arith),
      )
      (ap pos (omega arith))

pub total64-sum_of :
    (cs : Credits) → AreCredits cs → sum_of cs < 2 ^ 63 → total64 (pos 0) cs ≡ pos (sum_of cs)
total64-sum_of cs h small = total64_from 0 cs h (omega arith) ∙ ap pos (omega arith)

zero_minus : (n : ℕ) → pos 0 -ℤ pos n ≡ sub_ℕ 0 n
zero_minus n = grind int_laws

pub negate64-pos : (n : ℕ) → n < 2 ^ 63 → negate64 (pos n) ≡ sub_ℕ 0 n
unfolding negate64
negate64-pos n h = rw (zero_minus n) (wrap64_id (sub_ℕ 0 n) (ground arith))

-- What a queue adds to the fields of the miners and of the finances, setting and dropping none.
pub record Adds (prefix : Bytes) (cs : List Command) (m f : Bytes → ℤ) : Type 0 where
  pub keeps_miners : (a : Account) → rewrites (is_miner prefix) (field_of a) cs ≡ false
  pub keeps_finances : (a : Account) → rewrites (is_finances prefix) (field_of a) cs ≡ false
  pub miners : (a : Account) → net (is_miner prefix) (field_of a) cs ≡ m (field_of a)
  pub finances : (a : Account) → net (is_finances prefix) (field_of a) cs ≡ f (field_of a)

abbrev pub nothing : Bytes → ℤ
nothing field = pos 0

abbrev pub only : Bytes → ℤ → Bytes → ℤ
only at n field = if bytes_eq at field then n else pos 0

infixl 65 ◌⊕◌
abbrev pub ◌⊕◌ : (Bytes → ℤ) → (Bytes → ℤ) → Bytes → ℤ
(m ⊕ n) field = m field +ℤ n field

pub append-Adds :
    (prefix : Bytes) (xs ys : List Command) (m f m' f' : Bytes → ℤ)
    → Adds prefix xs m f
    → Adds prefix ys m' f'
    → Adds prefix (xs ++ ys) (m ⊕ m') (f ⊕ f')
append-Adds prefix xs ys m f m' f' x y = record {
  keeps_miners = λ a.
      rw (rewrites-append (is_miner prefix) (field_of a) xs ys, x.keeps_miners a, y.keeps_miners a)
        refl;
  keeps_finances = λ a.
      rw
        (
          rewrites-append (is_finances prefix) (field_of a) xs ys,
          x.keeps_finances a,
          y.keeps_finances a,
        )
        refl;
  miners = λ a. rw (net-append (is_miner prefix) (field_of a) xs ys, x.miners a, y.miners a) refl;
  finances =
      λ a. rw (net-append (is_finances prefix) (field_of a) xs ys, x.finances a, y.finances a) refl;
}

-- The loops that credit and debit the miners.
rewrites-credit_commands :
    (at : Bytes → Bool) (prefix field log f : Bytes) (cs : Credits)
    → at log ≡ false
    → rewrites at f (credit_commands prefix field log cs) ≡ false
unfolding rewrites credit_commands
rewrites-credit_commands at prefix field log f [] h = refl
rewrites-credit_commands at prefix field log f ((login, amount) ∷ rest) h =
    rw (h, rewrites-credit_commands at prefix field log f rest h) refl

miners-credit_commands :
    (prefix field log f : Bytes) (cs : Credits)
    → AreCredits cs
    → net (is_miner prefix) f (credit_commands prefix field log cs) ≡ only field (pos (sum_of cs)) f
unfolding net credit_commands
miners-credit_commands prefix field log f [] h = ground arith
miners-credit_commands prefix field log f ((login, amount) ∷ rest) (nonneg, h) =
    let added : amount +ℤ pos (sum_of rest) ≡ pos (pos_part amount + sum_of rest) =
      grind int_laws in
    elim (Bool-cases (bytes_eq field f)) [
      | inl e ↦
          let rest_added : net (is_miner prefix) f (credit_commands prefix field log rest)
              ≡ pos (sum_of rest) =
            rw (miners-credit_commands prefix field log f rest h, e) refl in
          rw (is_miner-miner_key prefix login, e, rest_added) added
      | inr e ↦
          rw
            (
              is_miner-miner_key prefix login,
              e,
              miners-credit_commands prefix field log f rest h,
              e,
            )
            refl
    ]

finances-credit_commands :
    (prefix field log f : Bytes) (cs : Credits)
    → net (is_finances prefix) f (credit_commands prefix field log cs) ≡ pos 0
unfolding net credit_commands
finances-credit_commands prefix field log f [] = refl
finances-credit_commands prefix field log f ((login, amount) ∷ rest) =
    rw (is_finances-miner_key prefix login, finances-credit_commands prefix field log f rest) refl

pub credit_commands-Adds :
    (prefix field log : Bytes) (cs : Credits)
    → AreCredits cs
    → is_miner prefix log ≡ false
    → is_finances prefix log ≡ false
    → Adds prefix (credit_commands prefix field log cs) (only field (pos (sum_of cs))) nothing
credit_commands-Adds prefix field log cs h m f = record {
  keeps_miners = λ a. rewrites-credit_commands (is_miner prefix) prefix field log (field_of a) cs m;
  keeps_finances =
      λ a. rewrites-credit_commands (is_finances prefix) prefix field log (field_of a) cs f;
  miners = λ a. miners-credit_commands prefix field log (field_of a) cs h;
  finances = λ a. finances-credit_commands prefix field log (field_of a) cs;
}

rewrites-debit_commands :
    (at : Bytes → Bool) (prefix f : Bytes) (cs : Credits)
    → rewrites at f (debit_commands prefix cs) ≡ false
unfolding rewrites debit_commands
rewrites-debit_commands at prefix f [] = refl
rewrites-debit_commands at prefix f ((login, amount) ∷ rest) =
    rewrites-debit_commands at prefix f rest

pub negate64-amount :
    (amount : ℤ)
    → neg_part amount ≡ 0
    → pos_part amount < 2 ^ 63
    → negate64 amount ≡ sub_ℕ 0 (pos_part amount)
negate64-amount (pos n) nonneg small = negate64-pos n small
negate64-amount (negsuc n) nonneg small = absurd (omega arith)

pub debit_added : (n k : ℕ) → sub_ℕ 0 n +ℤ sub_ℕ 0 k ≡ sub_ℕ 0 (n + k)
unfolding ◌+ℤ◌
debit_added n k = ground arith

miners-debit_commands :
    (prefix f : Bytes) (cs : Credits)
    → AreCredits cs
    → sum_of cs < 2 ^ 63
    → net (is_miner prefix) f (debit_commands prefix cs)
      ≡ only (codes "immature") (sub_ℕ 0 (sum_of cs)) f
unfolding net debit_commands
miners-debit_commands prefix f [] h small = ground arith
miners-debit_commands prefix f ((login, amount) ∷ rest) (nonneg, h) small =
    elim (Bool-cases (bytes_eq (codes "immature") f)) [
      | inl e ↦
          let rest_added : net (is_miner prefix) f (debit_commands prefix rest)
              ≡ sub_ℕ 0 (sum_of rest) =
            rw (miners-debit_commands prefix f rest h (omega arith), e) refl in
          rw
            (
              is_miner-miner_key prefix login,
              e,
              rest_added,
              negate64-amount amount nonneg (omega arith),
            )
            (debit_added (pos_part amount) (sum_of rest))
      | inr e ↦
          rw
            (
              is_miner-miner_key prefix login,
              e,
              miners-debit_commands prefix f rest h (omega arith),
              e,
            )
            refl
    ]

finances-debit_commands :
    (prefix f : Bytes) (cs : Credits)
    → net (is_finances prefix) f (debit_commands prefix cs) ≡ pos 0
unfolding net debit_commands
finances-debit_commands prefix f [] = refl
finances-debit_commands prefix f ((login, amount) ∷ rest) =
    rw (is_finances-miner_key prefix login, finances-debit_commands prefix f rest) refl

pub debit_commands-Adds :
    (prefix : Bytes) (cs : Credits)
    → AreCredits cs
    → sum_of cs < 2 ^ 63
    → Adds prefix (debit_commands prefix cs) (only (codes "immature") (sub_ℕ 0 (sum_of cs))) nothing
debit_commands-Adds prefix cs h small = record {
  keeps_miners = λ a. rewrites-debit_commands (is_miner prefix) prefix (field_of a) cs;
  keeps_finances = λ a. rewrites-debit_commands (is_finances prefix) prefix (field_of a) cs;
  miners = λ a. miners-debit_commands prefix (field_of a) cs h small;
  finances = λ a. finances-debit_commands prefix (field_of a) cs;
}

pub Adds-IsBalanced :
    (prefix : Bytes) (cs : List Command) (m f : Bytes → ℤ)
    → Adds prefix cs m f
    → ((a : Account) → m (field_of a) ≡ f (field_of a))
    → IsBalanced prefix cs
Adds-IsBalanced prefix cs m f adds same = to-IsBalanced prefix cs (λ a.
    (adds.keeps_miners a, adds.keeps_finances a, adds.miners a ∙ same a ∙ sym (adds.finances a)))
