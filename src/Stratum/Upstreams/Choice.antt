-- ===== src/Stratum/Upstreams/Choice.antt =====
-- Which daemon is chosen, and when the server gives up.
use xmrpool.Common.{
  ℕ, suc, ◌+◌, ◌-◌, ◌≡◌, refl, ap, ◌∙◌, sym, Bool, true, false, ◌&&◌, Option, none, some, List, [],
  ◌∷◌, ◌++◌, arith, leb, if◌then◌else◌, length, drop, length-append, length-drop, drop-append_le,
  drop-drop, Bool-cases, inl, inr,
}
use xmrpool.Rpc.Client.{RpcClient, GetBlockTemplateReply, Answer, check}
use xmrpool.Stratum.Upstreams.{
  Upstreams, running, fatal_exit, passes, crashed, check_each, all_true, window, record_state,
  check_upstreams,
}

module _ {R : Type 0} (unmarshal : R → Option GetBlockTemplateReply) (answers : ℕ → Answer R) where
  -- The lowest index from `i` on whose daemon passes, and no daemon's check panics.
  unfoldable pub first_passing : ℕ → List RpcClient → Option ℕ
  first_passing i [] = none
  first_passing i (v ∷ vs) =
      if passes (check unmarshal v (answers i)).1 then some i else first_passing (suc i) vs

  abbrev pub AllReturn : ℕ → List RpcClient → Type 0
  AllReturn i [] = Unit {0}
  AllReturn i (v ∷ vs) = (crashed (check unmarshal v (answers i)).1 ≡ false) × AllReturn (suc i) vs

  unfoldable pub checked : ℕ → List RpcClient → List RpcClient
  checked i [] = []
  checked i (v ∷ vs) = (check unmarshal v (answers i)).0 ∷ checked (suc i) vs

  abbrev pub or_else : Option ℕ → ℕ → ℕ
  or_else none d = d
  or_else (some i) d = i

  check_each-backup :
      (i candidate : ℕ) (vs : List RpcClient)
      → AllReturn i vs
      → check_each unmarshal answers i candidate true vs ≡ (checked i vs, candidate, false)
  unfolding check_each checked
  check_each-backup i candidate [] h = refl
  check_each-backup i candidate (v ∷ vs) (here, h) =
      ground (arith, check_each-backup (suc i) candidate vs h)

  check_each-first :
      (i candidate : ℕ) (vs : List RpcClient)
      → AllReturn i vs
      → check_each unmarshal answers i candidate false vs
        ≡ (checked i vs, or_else (first_passing i vs) candidate, false)
  unfolding check_each checked first_passing
  check_each-first i candidate [] h = refl
  check_each-first i candidate (v ∷ vs) (here, h) =
      ground (arith, check_each-first (suc i) candidate vs h, check_each-backup (suc i) i vs h)

  -- Where no check panics, every client is checked once, in order, and the server then works with
  -- the first daemon whose check passes, or with the first of all if none does.
  pub check_upstreams-first_passing :
      (s : Upstreams)
      → AllReturn 0 s.upstreams
      → let s' = (check_upstreams unmarshal answers s).0 in
        (s'.upstreams ≡ checked 0 s.upstreams)
        × (s'.upstream ≡ or_else (first_passing 0 s.upstreams) 0)
  unfolding check_upstreams
  check_upstreams-first_passing s h = ground (arith, check_each-first 0 0 s.upstreams h)

-- The latest states of a history.
abbrev pub latest : List Bool → List Bool
latest history = drop (length history - window) history

length-latest-snoc :
    (h : List Bool) (b : Bool) → length (latest h ++ b ∷ []) ≡ length h - (length h - window) + 1
length-latest-snoc h b =
    omega (arith, length-append (latest h) (b ∷ []), length-drop (length h - window) h)

latest-latest :
    (h : List Bool) (b : Bool)
    → drop (length (latest h ++ b ∷ []) - window) (latest h ++ b ∷ []) ≡ latest (h ++ b ∷ [])
latest-latest h b =
    let n = length h - window in
    let outer = length (latest h ++ b ∷ []) - window in
    let total : n + outer ≡ length (h ++ b ∷ []) - window =
      omega (arith, length-latest-snoc h b, length-append h (b ∷ [])) in
    ap (drop outer) (sym (drop-append_le n h (b ∷ []) (omega arith)))
    ∙ drop-drop outer n (h ++ b ∷ [])
    ∙ ap (λ (k : ℕ). drop k (h ++ b ∷ [])) total

-- Over any history of rounds: the states kept are the latest 60 at most, and the process ends
-- exactly in a round by which 60 rounds have been recorded and the latest 60 found all daemons
-- sick.
pub record_state-latest :
    (h : List Bool) (b : Bool)
    → record_state b (latest h) ≡ (
      latest (h ++ b ∷ []),
      if leb window (length h + 1) && all_true (latest (h ++ b ∷ [])) then fatal_exit else running,
    )
unfolding record_state
record_state-latest h b = elim (Bool-cases (leb window (length h + 1))) [
  | inl full ↦
      let reached : leb window (length (latest h ++ b ∷ [])) ≡ true =
        ground (arith, length-latest-snoc h b) in
      rw (reached, full, latest-latest h b) refl
  | inr short ↦
      let early : leb window (length (latest h ++ b ∷ [])) ≡ false =
        ground (arith, length-latest-snoc h b) in
      let all_of_h : length h - window ≡ 0 = ground arith in
      let all_of_both : length (h ++ b ∷ []) - window ≡ 0 =
        ground (arith, length-append h (b ∷ [])) in
      rw (early, short, all_of_h, all_of_both) refl
]
