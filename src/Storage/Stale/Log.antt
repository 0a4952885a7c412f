-- ===== src/Storage/Stale/Log.antt =====
-- A Redis server whose iterations end, and the log of what FlushStaleStats asks it.
use xmrpool.Common.{
  ℕ, ◌≤◌, ◌<◌, ◌≡◌, refl, sym, true, false, ◌||◌, Option, none, some, List, [], ◌∷◌, ◌++◌, All,
  arith,
}
use xmrpool.Common.Ints.{ℤ, pos, ◌+ℤ◌, eqb_ℤ}
use xmrpool.Common.Words.{wrap64}
use xmrpool.Common.Texts.{Bytes, bytes_eq, bytes_eq_iff}
use xmrpool.Storage.Redis.{Redis, Command, z_rem_range_by_score, Reply, int_reply, page_reply}
use xmrpool.Storage.Payees.{login_of}
use xmrpool.Storage.Stale.{is_member, removal, stale_scan}

abbrev pub HasLogin : Bytes → Type 0
HasLogin row = (login : Bytes) × (login_of row ≡ some login)

-- What SCAN promises of this server: an iteration has so many pages left, its keys have three parts, and
-- a removal succeeds and does not make the iteration longer.
pub record Scanning (redis : Redis) (prefix : Bytes) : Type 0 where
  pub left : ℤ → redis.Db → ℕ
  pub page :
      (c : ℤ) (db : redis.Db)
      → ((c' : ℤ) × (rows : List Bytes) × ((redis.run (stale_scan prefix c) db).0
            ≡ some (page_reply c' rows))
          × All HasLogin rows
          × (eqb_ℤ c' (pos 0) ≡ false → left c' (redis.run (stale_scan prefix c) db).1 < left c db))
  pub removed :
      (key max : Bytes) (db : redis.Db)
      → ((n : ℤ) × ((redis.run (removal key max) db).0 ≡ some (int_reply n))
          × ((c : ℤ) → left c (redis.run (removal key max) db).1 ≤ left c db))

abbrev pub Log : Type 0
Log = List (Command × Option Reply)

-- The server with a log of what it was asked and replied, the latest first.
abbrev pub logged : Redis → Redis
logged redis = record {
  Db = Log × redis.Db;
  run = λ c s. let (r, db) = redis.run c s.1 in (r, ((c, r) ∷ s.0, db));
  exec = λ cs s. let (r, db) = redis.exec cs s.1 in (r, (s.0, db));
}

-- The removals of a log, what they count, and the logins of the keys on its pages.
abbrev pub removals : Log → List Command
removals [] = []
removals ((z_rem_range_by_score key lo hi, r) ∷ log) = z_rem_range_by_score key lo hi ∷ removals log
removals ((c, r) ∷ log) = removals log

abbrev pub counted : Log → ℤ
counted [] = pos 0
counted ((z_rem_range_by_score key lo hi, some (int_reply n)) ∷ log) = wrap64 (counted log +ℤ n)
counted ((c, r) ∷ log) = counted log

abbrev pub logins_of : List Bytes → List Bytes
logins_of [] = []
logins_of (row ∷ rows) = elim (login_of row) [
  | none ↦ logins_of rows
  | some login ↦ login ∷ logins_of rows
]

abbrev pub logins_seen : Log → List Bytes
logins_seen [] = []
logins_seen ((c, some (page_reply c' rows)) ∷ log) = logins_of rows ++ logins_seen log
logins_seen ((c, r) ∷ log) = logins_seen log

abbrev pub Distinct : List Bytes → Type 0
Distinct [] = Unit
Distinct (x ∷ xs) = (is_member x xs ≡ false) × Distinct xs

pub is_member-append :
    (x : Bytes) (xs ys : List Bytes) → is_member x (xs ++ ys) ≡ (is_member x xs || is_member x ys)
is_member-append x [] ys = refl
is_member-append x (y ∷ xs) ys = ground (arith, is_member-append x xs ys)

pub is_member-same :
    (x y : Bytes) (xs : List Bytes)
    → bytes_eq x y ≡ true
    → is_member x xs ≡ true
    → is_member y xs ≡ true
is_member-same x y xs e h = rw (sym ((bytes_eq_iff x y).0 e)) h
