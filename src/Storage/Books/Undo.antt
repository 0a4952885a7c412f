-- ===== src/Storage/Books/Undo.antt =====
-- storage/redis.go: what a matured or orphaned block takes from the immature amount of each miner.
use xmrpool.Common.{
  ℕ, ◌+◌, ◌^◌, ◌<◌, ◌≤◌, ◌≡◌, refl, ap, sym, Bool, List, [], ◌∷◌, ◌++◌, arith, Bool-cases, inl, inr,
  if◌then◌else◌, append_assoc,
}
use xmrpool.Common.Ints.{pos, negsuc, pos_part, ◌+ℤ◌, sub_ℕ, int_laws}
use xmrpool.Common.Texts.{Bytes, codes, bytes_eq, bytes_eq_refl}
use xmrpool.Common.Numbers.{parse_int-format_int}
use xmrpool.Storage.Redis.{Command, h_set_nx, net}
use xmrpool.Storage.Payments.{miner_key}
use xmrpool.Storage.Blocks.{Credits, credit_commands, debit_commands, parsed}
use xmrpool.Storage.Books.Credits.{AreCredits, sum_of, negate64-amount, debit_added}

-- The entries that a queue writes into a log.
abbrev pub entry : Bytes → Command → List (Bytes × Bytes)
entry log (h_set_nx key field value) = if bytes_eq key log then (field, value) ∷ [] else []
entry log _ = []

unfoldable pub logged : Bytes → List Command → List (Bytes × Bytes)
logged log [] = []
logged log (c ∷ cs) = entry log c ++ logged log cs

-- What the credits of the logins that pass a test sum up to.
abbrev pub part : (Bytes → Bool) → Bytes → Credits → ℕ
part at prefix [] = 0
part at prefix ((login, amount) ∷ rest) =
    (if at (miner_key prefix login) then pos_part amount else 0) + part at prefix rest

pub part-le : (at : Bytes → Bool) (prefix : Bytes) (cs : Credits) → part at prefix cs ≤ sum_of cs
part-le at prefix [] = omega arith
part-le at prefix ((login, amount) ∷ rest) = ground (arith, part-le at prefix rest)

pub given : (n k : ℕ) → pos n +ℤ pos k ≡ pos (n + k)
given n k = grind int_laws

pub net-credited :
    (at : Bytes → Bool) (prefix log : Bytes) (cs : Credits)
    → AreCredits cs
    → net at (codes "immature") (credit_commands prefix (codes "immature") log cs)
      ≡ pos (part at prefix cs)
unfolding net credit_commands
net-credited at prefix log [] h = refl
net-credited at prefix log ((login, negsuc n) ∷ rest) (nonneg, h) = absurd (omega arith)
net-credited at prefix log ((login, pos n) ∷ rest) (nonneg, h) =
    elim (Bool-cases (at (miner_key prefix login))) [
      | inl e ↦ rw (e, net-credited at prefix log rest h) (given n (part at prefix rest))
      | inr e ↦ rw (e, net-credited at prefix log rest h) (ap pos (omega arith))
    ]

pub net-debited :
    (at : Bytes → Bool) (prefix : Bytes) (cs : Credits)
    → AreCredits cs
    → sum_of cs < 2 ^ 63
    → net at (codes "immature") (debit_commands prefix cs) ≡ sub_ℕ 0 (part at prefix cs)
unfolding net debit_commands
net-debited at prefix [] h small = refl
net-debited at prefix ((login, amount) ∷ rest) (nonneg, h) small =
    elim (Bool-cases (at (miner_key prefix login))) [
      | inl e ↦
          rw
            (
              e,
              net-debited at prefix rest h (omega arith),
              negate64-amount amount nonneg (omega arith),
            )
            (debit_added (pos_part amount) (part at prefix rest))
      | inr e ↦ rw (e, net-debited at prefix rest h (omega arith)) (ap (sub_ℕ 0) (omega arith))
    ]

-- The log that the immature transaction writes holds its rewards.
pub parsed-logged :
    (prefix field log : Bytes) (cs : Credits)
    → AreCredits cs
    → sum_of cs < 2 ^ 63
    → parsed (logged log (credit_commands prefix field log cs)) ≡ cs
unfolding parsed logged credit_commands
parsed-logged prefix field log [] h small = refl
parsed-logged prefix field log ((login, negsuc n) ∷ rest) (nonneg, h) small = absurd (omega arith)
parsed-logged prefix field log ((login, pos n) ∷ rest) (nonneg, h) small =
    rw
      (
        bytes_eq_refl log,
        parse_int-format_int (pos n) (omega arith),
        parsed-logged prefix field log rest h (omega arith),
      )
      refl

pub logged-append :
    (log : Bytes) (xs ys : List Command) → logged log (xs ++ ys) ≡ logged log xs ++ logged log ys
unfolding logged
logged-append log [] ys = refl
logged-append log (c ∷ xs) ys =
    rw (logged-append log xs ys) (sym (append_assoc (entry log c) (logged log xs) (logged log ys)))
