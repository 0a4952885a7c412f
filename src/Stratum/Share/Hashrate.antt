-- ===== src/Stratum/Share/Hashrate.antt =====
-- stratum/miner.go: `getLastBeat` and `hashrate`, which also forgets what is older than a day.
use xmrpool.Common.{◌≡◌, refl, true, false, [], ◌∷◌, if◌then◌else◌, Bool-cases, inl, inr, All}
use xmrpool.Common.Ints.{ℤ, pos, ◌-ℤ◌, ltb_ℤ, leb_ℤ}
use xmrpool.Common.Words.{wrap64}
use xmrpool.Common.Assoc.{Assoc, int_key}
use xmrpool.Stratum.Types.{Miner}
use xmrpool.Stratum.Share.{add64}

unfoldable pub get_last_beat : Miner → ℤ
get_last_beat m = m.last_beat

-- The loop over the shares, from a total: what is counted since `since`, and what is left of them when
-- those before `oldest` are deleted.
unfoldable pub visit_shares : ℤ → ℤ → ℤ → Assoc ℤ ℤ → ℤ × Assoc ℤ ℤ
visit_shares oldest since total [] = (total, [])
visit_shares oldest since total ((k, v) ∷ rest) =
    let skipped = visit_shares oldest since total rest in
    let counted = visit_shares oldest since (add64 total v) rest in
    if ltb_ℤ k oldest
    then skipped
    else if leb_ℤ since k
    then (counted.0, (k, v) ∷ counted.1)
    else (skipped.0, (k, v) ∷ skipped.1)

-- The rate is a float64: its two operands, and the miner afterwards; `window` is in seconds.
unfoldable pub hashrate : ℤ → ℤ → Miner → (ℤ × ℤ) × Miner
unfolding visit_shares
hashrate now window m =
    let online = wrap64 (now -ℤ m.started_at) in
    let (total, kept) =
      visit_shares (wrap64 (now -ℤ pos 86400)) (wrap64 (now -ℤ window)) (pos 0) m.shares in
    ((total, if ltb_ℤ window online then window else online), record m { shares = kept })

module _ (oldest since k v : ℤ) (rest : Assoc ℤ ℤ) where
  visit_old :
      (total : ℤ)
      → ltb_ℤ k oldest ≡ true
      → visit_shares oldest since total ((k, v) ∷ rest) ≡ visit_shares oldest since total rest
  unfolding visit_shares
  visit_old total e = rw e refl

  visit_counted :
      (total : ℤ)
      → ltb_ℤ k oldest ≡ false
      → leb_ℤ since k ≡ true
      → visit_shares oldest since total ((k, v) ∷ rest) ≡ (
        (visit_shares oldest since (add64 total v) rest).0,
        (k, v) ∷ (visit_shares oldest since (add64 total v) rest).1,
      )
  unfolding visit_shares
  visit_counted total e f = rw (e, f) refl

  visit_kept :
      (total : ℤ)
      → ltb_ℤ k oldest ≡ false
      → leb_ℤ since k ≡ false
      → visit_shares oldest since total ((k, v) ∷ rest) ≡ (
        (visit_shares oldest since total rest).0,
        (k, v) ∷ (visit_shares oldest since total rest).1,
      )
  unfolding visit_shares
  visit_kept total e f = rw (e, f) refl

visit_shares-again :
    (oldest since total : ℤ) (shares : Assoc ℤ ℤ)
    → visit_shares oldest since total (visit_shares oldest since total shares).1
      ≡ visit_shares oldest since total shares
visit_shares-again oldest since total [] = unfold visit_shares in refl
visit_shares-again oldest since total ((k, v) ∷ rest) = elim (Bool-cases (ltb_ℤ k oldest)) [
  | inl old ↦
      rw (visit_old oldest since k v rest total old) (visit_shares-again oldest since total rest)
  | inr young ↦ elim (Bool-cases (leb_ℤ since k)) [
    | inl recent ↦
        rw
          (
            visit_counted oldest since k v rest total young recent,
            visit_counted oldest since k v (visit_shares oldest since (add64 total v) rest).1 total
                young recent,
            visit_shares-again oldest since (add64 total v) rest,
          )
          refl
    | inr before ↦
        rw
          (
            visit_kept oldest since k v rest total young before,
            visit_kept oldest since k v (visit_shares oldest since total rest).1 total young before,
            visit_shares-again oldest since total rest,
          )
          refl
  ]
]

abbrev pub AreRecent : ℤ → Assoc ℤ ℤ → Type 0
AreRecent oldest shares = All (λ s. ltb_ℤ s.0 oldest ≡ false) shares

visit_shares-AreRecent :
    (oldest since total : ℤ) (shares : Assoc ℤ ℤ)
    → AreRecent oldest (visit_shares oldest since total shares).1
visit_shares-AreRecent oldest since total [] = unfold visit_shares in _
visit_shares-AreRecent oldest since total ((k, v) ∷ rest) = elim (Bool-cases (ltb_ℤ k oldest)) [
  | inl old ↦
      rw (visit_old oldest since k v rest total old)
        (visit_shares-AreRecent oldest since total rest)
  | inr young ↦ elim (Bool-cases (leb_ℤ since k)) [
    | inl recent ↦
        rw (visit_counted oldest since k v rest total young recent)
          (young, visit_shares-AreRecent oldest since (add64 total v) rest)
    | inr before ↦
        rw (visit_kept oldest since k v rest total young before)
          (young, visit_shares-AreRecent oldest since total rest)
  ]
]

-- Reading the hashrate twice at the same time gives the same numbers and the same miner: what the first
-- reading deletes is what the second would not have counted; and no share of more than a day ago is left.
pub hashrate-again :
    (now window : ℤ) (m : Miner)
    → (hashrate now window (hashrate now window m).1 ≡ hashrate now window m)
      × AreRecent (wrap64 (now -ℤ pos 86400)) (hashrate now window m).1.shares
unfolding hashrate
hashrate-again now window m =
    let oldest = wrap64 (now -ℤ pos 86400) in
    let since = wrap64 (now -ℤ window) in
    (
      rw (visit_shares-again oldest since (pos 0) m.shares) refl,
      visit_shares-AreRecent oldest since (pos 0) m.shares,
    )
