-- ===== src/Stratum/Handlers.antt =====
-- stratum/handlers.go: the requests of a miner; and handleMessage of stratum.go.
pub mod Submits
pub mod Duplicates
pub mod Logins
use xmrpool.Common.{
  ℕ, Bool, true, false, not, ◌&&◌, Option, none, some, List, [], ◌∷◌, ◌==◌, if◌then◌else◌, length,
}
use xmrpool.Common.Ints.{ℤ, pos, eqb_ℤ}
use xmrpool.Common.Texts.{Bytes, codes, all_lower_hex, to_lower}
use xmrpool.Stratum.MinersMap.{get, set}
use xmrpool.Stratum.Types.{
  Job, Miner, Session, Endpoint, JobReplyData, SubmitParams, Env, World, Run, returned, crashed,
  ◌>>=◌, ◌>>◌, pure, gets, modify, or_crash, ask, session_at, endpoint_at, put_session,
}
use xmrpool.Stratum.Jobs.{submit, find_job, write_job}
use xmrpool.Stratum.Refresh.{issue_job}
use xmrpool.Stratum.Share.{add64, on_miner, heartbeat, add_invalid, process_share}

pub data Reply (A : Type 0) : Type 0 where
  accepted : A → Reply A
  refused : Bytes → Reply A

unfoldable pub new_miner : Bytes → Bytes → Miner
new_miner id ip = record {
  last_beat = pos 0;
  started_at = pos 0;
  valid_shares = pos 0;
  invalid_shares = pos 0;
  stale_shares = pos 0;
  accepts = pos 0;
  rejects = pos 0;
  shares = [];
  id = id;
  ip = ip;
}

abbrev pub default_worker_id : Bytes
default_worker_id = codes "0"

-- `strings.SplitN(s, ".", 2)`: the text before the first dot and, if there is one, that after it.
abbrev pub split_dot : Bytes → Bytes × Option Bytes
split_dot [] = ([], none)
split_dot (c ∷ s) =
    let (before, after) = split_dot s in if c == b'.' then ([], some s) else (c ∷ before, after)

unfoldable pub extract_worker_id : Bytes → Bytes × Bytes
extract_worker_id login = elim (split_dot login).1 [
  | none ↦ (login, default_worker_id)
  | some id ↦ ((split_dot login).0, id)
]

-- `^[0-9a-f]{8}$`
unfoldable pub is_nonce : Bytes → Bool
is_nonce s = length s == 8 && all_lower_hex s

abbrev pub register_miner : Miner → World → Run (Unit {0})
register_miner m = modify λ w. record w { miners = set m.id m w.miners }

abbrev pub is_active : ℕ → List ℕ → Bool
is_active sid [] = false
is_active sid (s ∷ ss) = if s == sid then true else is_active sid ss

abbrev pub register_session : ℕ → World → Run (Unit {0})
register_session sid =
    modify λ w. if is_active sid w.sessions then w else record w { sessions = sid ∷ w.sessions }

abbrev pub refuse : {A : Type 0} → Bytes → World → Run (Reply A)
refuse message = pure (refused message)

module _ (env : Env) (sid : ℕ) where
  -- The rest of a login, once the address is good.
  unfoldable pub admit : Bytes → Bytes → World → Run (Reply (Bytes × JobReplyData))
  admit address id = do
    template ← gets (λ w. w.block_template)
    (λ w. elim template [
      | none ↦ refuse (codes "Job not ready") w
      | some t ↦
          (do
            cs ← session_at sid
            put_session sid (record cs { login = address; id = id })
            known ← gets (λ w. get id w.miners)
            (λ w. elim known [
              | none ↦ register_miner (new_miner id cs.ip) w
              | some m ↦ returned tt w
            ])
            register_session sid
            heartbeat env id
            reply ← issue_job env t sid
            pure (accepted (id, reply)))
            w
    ])

  unfoldable pub handle_login : Bytes → World → Run (Reply (Bytes × JobReplyData))
  unfolding admit extract_worker_id
  handle_login login w =
      let (address, id) = extract_worker_id login in
      if not env.config.bypass_address_validation && not (env.validate_address address)
      then refuse (codes "Invalid address used for login") w
      else admit address id w

  unfoldable pub handle_get_job : Bytes → World → Run (Reply JobReplyData)
  handle_get_job id w = elim (get id w.miners) [
    | none ↦ refuse (codes "Unauthenticated") w
    | some m ↦ elim w.block_template [
      | none ↦ refuse (codes "Job not ready") w
      | some t ↦ (do heartbeat env id; reply ← issue_job env t sid; pure (accepted reply)) w
    ]
  ]

  -- A nonce that was not submitted for this job before.
  unfoldable pub submit_fresh :
      SubmitParams → Session → Endpoint → Job → World → Run (Reply (Unit {0}))
  submit_fresh params cs e job = do
    t ← (λ w. or_crash w.block_template w)
    (λ w.
        if not (eqb_ℤ job.height t.height)
        then (do
          on_miner params.id λ m. record m { stale_shares = add64 m.stale_shares (pos 1) }
          refuse (codes "Block expired"))
            w
        else (do
          valid ← process_share env params.id cs e t job (to_lower params.nonce) params.result
          (λ w.
              if valid then returned (accepted tt) w else refuse (codes "Low difficulty share") w))
            w)

  -- What `job.submit` answered: the nonce was there before, or it is new.
  unfoldable pub after_nonce :
      SubmitParams → Session → Endpoint → Bool → Job → World → Run (Reply (Unit {0}))
  unfolding submit_fresh
  after_nonce params cs e exist job = do
    put_session sid (record cs { valid_jobs = write_job params.job_id job cs.valid_jobs })
    (λ w.
        if exist
        then (add_invalid params.id >> refuse (codes "Duplicate share")) w
        else submit_fresh params cs e job w)

  unfoldable pub submit_to :
      SubmitParams → Session → Endpoint → Job → World → Run (Reply (Unit {0}))
  unfolding after_nonce
  submit_to params cs e job w =
      if not (is_nonce params.nonce)
      then refuse (codes "Malformed nonce") w
      else after_nonce params cs e (submit (to_lower params.nonce) job).0
          (submit (to_lower params.nonce) job).1 w

  -- The session's job with the id that the share names.
  unfoldable pub submit_for : SubmitParams → Session → Endpoint → World → Run (Reply (Unit {0}))
  unfolding submit_to
  submit_for params cs e w = elim (find_job params.job_id cs.valid_jobs) [
    | none ↦ refuse (codes "Invalid job id") w
    | some job ↦ submit_to params cs e job w
  ]

  -- The rest of a submit, once the miner is known.
  unfoldable pub submit_job : SubmitParams → World → Run (Reply (Unit {0}))
  unfolding submit_for
  submit_job params = do cs ← session_at sid; e ← endpoint_at cs.endpoint; submit_for params cs e

  unfoldable pub handle_submit : SubmitParams → World → Run (Reply (Unit {0}))
  unfolding submit_job
  handle_submit params w = elim (get params.id w.miners) [
    | none ↦ refuse (codes "Unauthenticated") w
    | some m ↦ (heartbeat env params.id >> submit_job params) w
  ]
