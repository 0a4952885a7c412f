-- ===== src/Storage/Payees.antt =====
-- storage/redis.go: `GetPayees`, a loop over the pages of a SCAN.
use xmrpool.Common.{
  ℕ, zero, suc, ◌≤◌, ◌≡◌, refl, true, false, Option, none, some, List, [], ◌∷◌, ◌++◌, if◌then◌else◌,
  get_elem?, arith, ◌⊎◌, inl, inr, Bool, ◌||◌, ap, Bool-cases,
}
use xmrpool.Common.Ints.{ℤ, pos, eqb_ℤ}
use xmrpool.Common.Texts.{Bytes, codes, bytes_eq, bytes_eq_iff}
use xmrpool.Common.Strings.{split}
use xmrpool.Storage.Types.{text, format_key, Outcome, returned, failed, panicked}
use xmrpool.Storage.Redis.{Redis, scan, Reply, page_reply}

-- A Go set, its members in the order they came.
unfoldable pub add_member : Bytes → List Bytes → List Bytes
add_member x [] = x ∷ []
add_member x (y ∷ ys) = let rest = add_member x ys in if bytes_eq y x then y ∷ ys else y ∷ rest

unfoldable pub add_members : List Bytes → List Bytes → List Bytes
unfolding add_member
add_members [] members = members
add_members (x ∷ xs) members = add_members xs (add_member x members)

-- The third part of a key; `none` is an index out of range.
unfoldable pub login_of : Bytes → Option Bytes
login_of row = get_elem? (split row) 2

-- The rows of one page.
unfoldable pub add_rows : List Bytes → List Bytes → Option (List Bytes)
unfolding login_of add_member
add_rows [] payees = some payees
add_rows (row ∷ rows) payees = elim (login_of row) [
  | none ↦ none
  | some login ↦ add_rows rows (add_member login payees)
]

module _ (redis : Redis) (prefix : Bytes) where
  abbrev pub next_page : ℤ → redis.Db → Option Reply × redis.Db
  next_page c db =
      redis.run
        (scan c (format_key prefix (text (codes "miners") ∷ text (codes "*") ∷ [])) (pos 100)) db

module _ (redis : Redis) (prefix : Bytes) where
  -- What a page does: the loop ends with an outcome, or goes on from a cursor with the payees so far.
  abbrev pub after_rows : ℤ → Option (List Bytes) → Outcome (List Bytes) ⊎ (ℤ × List Bytes)
  after_rows c none = inl panicked
  after_rows c (some payees) = if eqb_ℤ c (pos 0) then inl (returned payees) else inr (c, payees)

  abbrev pub after_page : List Bytes → Option Reply → Outcome (List Bytes) ⊎ (ℤ × List Bytes)
  after_page payees (some (page_reply c rows)) = after_rows c (add_rows rows payees)
  after_page payees _ = inl failed

module _ (redis : Redis) where
  abbrev pub continue_scan :
      Outcome (List Bytes) ⊎ (ℤ × List Bytes)
      → (ℤ → List Bytes → Option (Outcome (List Bytes)) × redis.Db)
      → redis.Db
      → Option (Outcome (List Bytes)) × redis.Db
  continue_scan (inl outcome) rest db = (some outcome, db)
  continue_scan (inr (c, payees)) rest db = rest c payees

module _ (redis : Redis) (prefix : Bytes) where
  -- The loop on fuel; `none` is fuel that ran out.
  unfoldable pub scan_loop :
      ℕ → ℤ → List Bytes → redis.Db → Option (Outcome (List Bytes)) × redis.Db
  unfolding add_rows
  scan_loop zero c payees db = (none, db)
  scan_loop (suc fuel) c payees db =
      continue_scan redis (after_page redis prefix payees (next_page redis prefix c db).0)
        (λ c' payees'. scan_loop fuel c' payees' (next_page redis prefix c db).1)
        (next_page redis prefix c db).1

  unfoldable pub get_payees : ℕ → redis.Db → Option (Outcome (List Bytes)) × redis.Db
  unfolding scan_loop
  get_payees fuel db = scan_loop fuel (pos 0) [] db

-- Logins of rows, where all have three parts.
pub data Logins : List Bytes → List Bytes → Type 0 where
  none_left : Logins [] []
  one_login :
      (row login : Bytes) (rows logins : List Bytes)
      → login_of row ≡ some login
      → Logins rows logins
      → Logins (row ∷ rows) (login ∷ logins)

-- An iteration of the server: n pages from a cursor on, the last of which has the cursor 0 again, with
-- the logins of the keys of all of them.
pub data Iteration (redis : Redis) (prefix : Bytes)
    : ℕ → ℤ → redis.Db → List Bytes → redis.Db → Type 0 where
  last_page :
      (c c' : ℤ) (db : redis.Db) (rows logins : List Bytes)
      → (next_page redis prefix c db).0 ≡ some (page_reply c' rows)
      → Logins rows logins
      → eqb_ℤ c' (pos 0) ≡ true
      → Iteration redis prefix 1 c db logins (next_page redis prefix c db).1
  one_page :
      (n : ℕ) (c c' : ℤ) (db db' : redis.Db) (rows logins more : List Bytes)
      → (next_page redis prefix c db).0 ≡ some (page_reply c' rows)
      → Logins rows logins
      → eqb_ℤ c' (pos 0) ≡ false
      → Iteration redis prefix n c' (next_page redis prefix c db).1 more db'
      → Iteration redis prefix (suc n) c db (logins ++ more) db'

add_rows-Logins :
    (rows logins payees : List Bytes)
    → Logins rows logins
    → add_rows rows payees ≡ some (add_members logins payees)
unfolding add_rows add_members
add_rows-Logins _ _ payees none_left = refl
add_rows-Logins _ _ payees (one_login row login rows logins e rest) =
    rw (e, add_rows) (add_rows-Logins rows logins (add_member login payees) rest)

add_members-append :
    (xs ys payees : List Bytes)
    → add_members (xs ++ ys) payees ≡ add_members ys (add_members xs payees)
unfolding add_members
add_members-append [] ys payees = refl
add_members-append (x ∷ xs) ys payees = add_members-append xs ys (add_member x payees)

abbrev pub is_in : Bytes → List Bytes → Bool
is_in x [] = false
is_in x (y ∷ ys) = bytes_eq y x || is_in x ys

add_member-is_in :
    (x y : Bytes) (ys : List Bytes) → is_in x (add_member y ys) ≡ (bytes_eq y x || is_in x ys)
unfolding add_member
add_member-is_in x y [] = refl
add_member-is_in x y (z ∷ zs) = elim (Bool-cases (bytes_eq z y)) [
  | inl same ↦
      (let alike : bytes_eq z x ≡ bytes_eq y x =
          ap (λ (s : Bytes). bytes_eq s x) ((bytes_eq_iff z y).0 same) in
        rw same (ground (arith, alike)))
  | inr other ↦ rw other (ground (arith, add_member-is_in x y zs))
]

add_members-is_in :
    (x : Bytes) (xs ys : List Bytes) → is_in x (add_members xs ys) ≡ (is_in x xs || is_in x ys)
unfolding add_members
add_members-is_in x [] ys = refl
add_members-is_in x (y ∷ xs) ys =
    ground (arith, add_members-is_in x xs (add_member y ys), add_member-is_in x y ys)

module _ (redis : Redis) (prefix : Bytes) where
  -- With a step for each page the loop returns what the pages add.
  scan_loop-returned :
      (n fuel : ℕ) (c : ℤ) (logins payees : List Bytes) (db db' : redis.Db)
      → Iteration redis prefix n c db logins db'
      → n ≤ fuel
      → scan_loop redis prefix fuel c payees db ≡ (some (returned (add_members logins payees)), db')
  unfolding scan_loop
  scan_loop-returned _ zero c _ payees db _ (last_page _ c' _ rows logins page e zero_again)
        enough =
      absurd (omega arith)
  scan_loop-returned _ zero c _ payees db db'
        (one_page n _ c' _ _ rows logins more page e going rest) enough =
      absurd (omega arith)
  scan_loop-returned _ (suc fuel) c _ payees db _ (last_page _ c' _ rows logins page e zero_again)
        enough =
      rw (page, add_rows-Logins rows logins payees e, zero_again) refl
  scan_loop-returned _ (suc fuel) c _ payees db db'
        (one_page n _ c' _ _ rows logins more page e going rest) enough =
      rw (page, add_rows-Logins rows logins payees e, going, add_members-append logins more payees)
        (scan_loop-returned n fuel c' more (add_members logins payees) _ db' rest (omega arith))

  -- The loop of GetPayees ends: if the cursor is 0 again after n pages of the server, and all keys
  -- on them have three parts, then with n steps or more the loop returns the set of what it had and
  -- the logins of all these keys: whatever is one of the two, and nothing else, is in it.
  pub scan_loop-Iteration :
      (n fuel : ℕ) (c : ℤ) (logins payees : List Bytes) (db db' : redis.Db)
      → Iteration redis prefix n c db logins db'
      → n ≤ fuel
      → (scan_loop redis prefix fuel c payees db
          ≡ (some (returned (add_members logins payees)), db'))
        × ((x : Bytes) → is_in x (add_members logins payees) ≡ (is_in x logins || is_in x payees))
  scan_loop-Iteration n fuel c logins payees db db' pages enough = (
    scan_loop-returned n fuel c logins payees db db' pages enough,
    λ x. add_members-is_in x logins payees,
  )
