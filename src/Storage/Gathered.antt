-- ===== src/Storage/Gathered.antt =====
-- storage/redis.go: what is collected for one id is what its own rows give.
use xmrpool.Common.{
  ◌≡◌, refl, ap, ◌∙◌, sym, Option, none, some, List, [], ◌∷◌, if◌then◌else◌, Bool-cases,
  Option-cases, inl, inr,
}
use xmrpool.Common.Ints.{ℤ, ◌-ℤ◌}
use xmrpool.Common.Assoc.{Assoc, lookup, insert, bytes_key, lookup-insert}
use xmrpool.Common.Words.{wrap64}
use xmrpool.Common.Texts.{Bytes, bytes_eq, bytes_eq_iff}
use xmrpool.Storage.Stats.{
  ShareRow, share_row, known, gather, Worker, zero_worker, add_to_worker, convert_workers_stats,
}

-- The rows of one id, added up from the first to the last.
abbrev pub own_one :
    {W : Type 0} → W → (ShareRow → W → W) → Bytes → Option ShareRow → Option W → Option W
own_one empty add id none w = w
own_one empty add id (some s) w = if bytes_eq s.id id then some (add s (known empty w)) else w

unfoldable pub own_rows :
    {W : Type 0} → W → (ShareRow → W → W) → Bytes → List (ℤ × Bytes) → Option W → Option W
own_rows empty add id [] w = w
own_rows empty add id (row ∷ rows) w =
    own_rows empty add id rows (own_one empty add id (share_row row) w)

-- The value that a row leaves for an id.
lookup-added :
    {W : Type 0} (empty : W) (add : ShareRow → W → W) (id : Bytes) (s : ShareRow)
    (m : Assoc Bytes W)
    → lookup id (insert s.id (add s (known empty (lookup s.id m))) m)
      ≡ own_one empty add id (some s) (lookup id m)
lookup-added empty add id s m = elim (Bool-cases (bytes_eq s.id id)) [
  | inl e ↦
      let there : lookup s.id m ≡ lookup id m =
        ap (λ (k : Bytes). lookup k m) ((bytes_eq_iff s.id id).0 e) in
      rw (lookup-insert id s.id (add s (known empty (lookup s.id m))) m, e, there) refl
  | inr e ↦ rw (lookup-insert id s.id (add s (known empty (lookup s.id m))) m, e) refl
]

gather-own_rows :
    {W : Type 0} (empty : W) (add : ShareRow → W → W) (id : Bytes) (rows : List (ℤ × Bytes))
    (m r : Assoc Bytes W)
    → gather empty add rows m ≡ some r
    → lookup id r ≡ own_rows empty add id rows (lookup id m)
unfolding gather own_rows
gather-own_rows {W} empty add id [] m r e =
    ap (λ (o : Option (Assoc Bytes W)). lookup id (known m o)) (sym e)
gather-own_rows {W} empty add id (row ∷ rows) m r e = elim (Option-cases (share_row row)) [
  | inl none_there ↦ let wrong = rw none_there at e in cc
  | inr (s, found) ↦
      let rest = rw found at e in
      gather-own_rows empty add id rows (insert s.id (add s (known empty (lookup s.id m))) m) r rest
      ∙ ap (own_rows empty add id rows) (
          lookup-added empty add id s m
          ∙ ap (λ (o : Option ShareRow). own_one empty add id o (lookup id m)) (sym found))
]

-- Where convertWorkersStats returns, the entry of each worker is what the worker's own rows give, added
-- up from the first to the last from an empty one, and there is none without a row: the rows of the other
-- workers between them change nothing.
pub convert_workers_stats-own_rows :
    (now window : ℤ) (rows : List (ℤ × Bytes)) (workers : Assoc Bytes Worker) (id : Bytes)
    → convert_workers_stats now window rows ≡ some workers
    → lookup id workers ≡ own_rows zero_worker (add_to_worker (wrap64 (now -ℤ window))) id rows none
unfolding convert_workers_stats lookup
convert_workers_stats-own_rows now window rows workers id e =
    gather-own_rows zero_worker (add_to_worker (wrap64 (now -ℤ window))) id rows [] workers e
