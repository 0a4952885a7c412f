-- ===== src/Stratum/Share/Accepted.antt =====
-- What a share has to be for processShare of stratum/miner.go to take it.
use xmrpool.Common.{
  ℕ, suc, ◌≡◌, refl, Bool, true, false, not, ◌&&◌, some, List, arith, ◌⊎◌, if◌then◌else◌,
  Bool-cases, Option-cases, inl, inr,
}
use xmrpool.Common.Ints.{pos, ◌≤ℤ◌, leb_ℤ, ltb_ℤ}
use xmrpool.Common.Texts.{Bytes, bytes_eq, bytes_eq_iff, hex_encode}
use xmrpool.Util.Difficulty.{get_hash_difficulty}
use xmrpool.Stratum.Types.{Job, BlockTemplate, Session, Endpoint, Env, World, Run, returned}
use xmrpool.Stratum.Upstreams.{rpc}
use xmrpool.Stratum.Blob.{share_buffer}
use xmrpool.Stratum.Runs.{found-returned}
use xmrpool.Stratum.Share.{reject_share, grade, share_hash, judge, process_share}

either_false :
    (b : Bool) (w1 w2 : World)
    → ((w' : World) × ((if b then returned false w1 else returned false w2) ≡ returned false w'))
either_false true w1 w2 = (w1, refl)
either_false false w1 w2 = (w2, refl)

false_not_true : {r : Run Bool} {w w' : World} → r ≡ returned false w → r ≡ returned true w' → ⊥
false_not_true p q = ground (arith, p, q)

module _ (env : Env) (key : Bytes) (cs : Session) (e : Endpoint) (t : BlockTemplate) where
  -- The hash of a share is as difficult as the block or as the port asks; and it is the result that
  -- the miner claims, unless that check is switched off.
  pub record AcceptedShare (job : Job) (nonce result : Bytes) : Type 0 where
    pub share : Bytes
    pub hash : Bytes
    pub difficulty : ℕ
    pub built : share_buffer t job e nonce ≡ some share
    pub hashed : share_hash env key cs e t share result ≡ some hash
    pub honest : (env.config.bypass_share_validation ≡ true) ⊎ (hex_encode hash ≡ result)
    pub measured : get_hash_difficulty hash ≡ some difficulty
    pub enough : (t.difficulty ≤ℤ pos difficulty) ⊎ (e.difficulty ≤ℤ pos difficulty)

  reject_share-false :
      (w : World) → ((w' : World) × (reject_share env key cs e t w ≡ returned false w'))
  unfolding reject_share
  reject_share-false w = either_false (env.write_fails (suc w.ticks)) _ _

  grade-true :
      (params : List Bytes) (share : Bytes) (d : ℕ) (w w' : World)
      → grade env key cs e t params share d w ≡ returned true w'
      → (t.difficulty ≤ℤ pos d) ⊎ (e.difficulty ≤ℤ pos d)
  unfolding grade
  grade-true params share d w w' h = elim (Bool-cases (leb_ℤ t.difficulty (pos d))) [
    | inl block ↦ inl (ground arith)
    | inr no_block ↦ elim (Bool-cases (ltb_ℤ (pos d) e.difficulty)) [
      | inl easy ↦
          (let (w1, refused) = reject_share-false w in
            absurd (false_not_true refused (rw (no_block, easy) at h)))
      | inr hard ↦ inr (ground arith)
    ]
  ]

  judge-true :
      (params : List Bytes) (share hash result : Bytes) (w w' : World)
      → judge env key cs e t params share hash result w ≡ returned true w'
      → ((env.config.bypass_share_validation ≡ true) ⊎ (hex_encode hash ≡ result))
        × ((d : ℕ) × (get_hash_difficulty hash ≡ some d)
            × ((t.difficulty ≤ℤ pos d) ⊎ (e.difficulty ≤ℤ pos d)))
  unfolding judge
  judge-true params share hash result w w' h =
      elim (Bool-cases
        (not env.config.bypass_share_validation && not (bytes_eq (hex_encode hash) result))) [
          | inl wrong ↦ absurd (false_not_true refl (rw wrong at h))
          | inr fine ↦ (
            ground (arith, bytes_eq_iff (hex_encode hash) result),
            elim (Option-cases (get_hash_difficulty hash)) [
              | inl missing ↦ absurd (false_not_true refl (rw (fine, missing) at h))
              | inr (d, is) ↦ (d, is, grade-true params share d w w' (rw (fine, is) at h))
            ],
          )
        ]

  -- A share that `process_share` answers `true` for: its buffer and its hash were made, the hash is what
  -- the miner claims unless that check is bypassed, it has a difficulty, and this difficulty reaches the
  -- one of the block template or the one of the port.
  pub process_share-true :
      (job : Job) (nonce result : Bytes) (w w' : World)
      → process_share env key cs e t job nonce result w ≡ returned true w'
      → AcceptedShare job nonce result
  unfolding process_share
  process_share-true job nonce result w w' h =
      let (r, has_rpc, h1) = found-returned (rpc w.upstreams) _ w true w' h in
      let (share, built, h2) = found-returned (share_buffer t job e nonce) _ w true w' h1 in
      let (hash, hashed, h3) =
        found-returned (share_hash env key cs e t share result) _ w true w' h2 in
      let (honest, (d, measured, enough)) = judge-true _ share hash result w w' h3 in
      record {
        share = share;
        hash = hash;
        difficulty = d;
        built = built;
        hashed = hashed;
        honest = honest;
        measured = measured;
        enough = enough;
      }
