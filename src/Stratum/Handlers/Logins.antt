-- ===== src/Stratum/Handlers/Logins.antt =====
-- How the login of a miner is read in stratum/handlers.go.
use xmrpool.Common.{
  ℕ, ◌≡◌, refl, sym, ap, ==_iff, false, Option, none, some, [], ◌∷◌, ◌++◌, ◌==◌, Bool-cases, inl,
  inr, All,
}
use xmrpool.Common.Texts.{Bytes}
use xmrpool.Stratum.Handlers.{default_worker_id, split_dot, extract_worker_id}

abbrev pub NotDot : ℕ → Type 0
NotDot c = (c == b'.') ≡ false

-- What a login is split into: without a dot it is an address; else it is an address without a dot, a
-- dot, and the id of a worker.
pub data Split (login address id : Bytes) : Type 0 where
  no_dot : All NotDot login → address ≡ login → id ≡ default_worker_id → Split login address id
  dot : All NotDot address → address ++ b'.' ∷ id ≡ login → Split login address id

data Splits (s : Bytes) : Type 0 where
  whole : All NotDot s → split_dot s ≡ (s, none) → Splits s
  parts :
      (before after : Bytes)
      → All NotDot before
      → before ++ b'.' ∷ after ≡ s
      → split_dot s ≡ (before, some after)
      → Splits s

split_dot-Splits : (s : Bytes) → Splits s
split_dot-Splits [] = whole tt refl
split_dot-Splits (c ∷ s) = elim (Bool-cases (c == b'.')) [
  | inl is_dot ↦
      parts [] s tt (ap (λ (x : ℕ). x ∷ s) (sym ((==_iff c b'.').0 is_dot))) (rw is_dot refl)
  | inr not_dot ↦ elim (split_dot-Splits s) [
    | whole clean split ↦ whole (not_dot, clean) (rw (not_dot, split) refl)
    | parts before after clean joined split ↦
        parts (c ∷ before) after (not_dot, clean) (ap (λ (x : Bytes). c ∷ x) joined)
          (rw (not_dot, split) refl)
  ]
]

abbrev worker_in : Bytes → Bytes × Option Bytes → Bytes × Bytes
worker_in login r = elim r.1 [ none ↦ (login, default_worker_id) | some id ↦ (r.0, id) ]

-- Any login is read as an address and the id of a worker: without a dot the whole of it is the address
-- and the id is "0"; else the address is what stands before the first dot, and the id what stands
-- after it.
pub extract_worker_id-Split :
    (login : Bytes) → Split login (extract_worker_id login).0 (extract_worker_id login).1
unfolding extract_worker_id
extract_worker_id-Split login = elim (split_dot-Splits login) [
  | whole clean split ↦
      (let is : extract_worker_id login ≡ (login, default_worker_id) = ap (worker_in login) split in
        rw is (no_dot clean refl refl))
  | parts before after clean joined split ↦
      (let is : extract_worker_id login ≡ (before, after) = ap (worker_in login) split in
        rw is (dot clean joined))
]
