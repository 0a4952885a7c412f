-- ===== src/Stratum/Handlers/Submits.antt =====
-- Which shares handleSubmitRPC of stratum/handlers.go takes, and which it refuses.
use xmrpool.Common.{
  ℕ, suc, if◌then◌else◌, ◌≡◌, refl, Bool, true, false, not, some, ◌∷◌, arith, Bool-cases,
  Option-cases, inl, inr,
}
use xmrpool.Common.Ints.{eqb_ℤ}
use xmrpool.Common.Assoc.{eqb_ℤ_iff, nat_key, lookup}
use xmrpool.Common.Texts.{Bytes, codes, to_lower}
use xmrpool.Stratum.MinersMap.{get}
use xmrpool.Stratum.Types.{
  Job, Miner, BlockTemplate, Session, Endpoint, SubmitParams, Env, World, Run, returned, ◌>>=◌,
}
use xmrpool.Stratum.Jobs.{has_submission, submit, find_job}
use xmrpool.Stratum.Runs.{bind-returned, found-returned, heartbeat-keeps, after-returned}
use xmrpool.Stratum.Share.{heartbeat, process_share}
use xmrpool.Stratum.Share.Accepted.{AcceptedShare, process_share-true}
use xmrpool.Stratum.Handlers.{
  Reply, accepted, refused, is_nonce, submit_fresh, after_nonce, submit_to, submit_for, submit_job,
  handle_submit,
}

accepted_not_refused :
    {A : Type 0} {r : Run (Reply A)} {m : Bytes} {a : A} {w w' : World}
    → r ≡ returned (refused m) w
    → r ≡ returned (accepted a) w'
    → ⊥
accepted_not_refused p q = ground (arith, p, q)

abbrev answer : Bytes → Bool → World → Run (Reply (Unit {0}))
answer m valid w = if valid then returned (accepted tt) w else returned (refused m) w

answer-accepted :
    (m : Bytes) (valid : Bool) (w w' : World)
    → answer m valid w ≡ returned (accepted tt) w'
    → valid ≡ true
answer-accepted m true w w' h = refl
answer-accepted m false w w' h = absurd (accepted_not_refused refl h)

answered-accepted :
    (run : World → Run Bool) (m : Bytes) (w w' : World)
    → (run >>= answer m) w ≡ returned (accepted tt) w'
    → ((w1 : World) × (run w ≡ returned true w1))
answered-accepted run m w w' h =
    let (valid, w1, ran, last) = bind-returned run (answer m) w (accepted tt) w' h in
    let yes_valid = answer-accepted m valid w1 w' last in (w1, rw (← yes_valid) ran)

-- A job that a fresh nonce was submitted for is unchanged but for its submissions.
abbrev pub with_nonce : Bytes → Job → Job
with_nonce nonce job = record job { submissions = nonce ∷ job.submissions }

module _ (env : Env) (sid : ℕ) (params : SubmitParams) where
  -- The state in which a share is taken.
  pub record AcceptedSubmit (w : World) : Type 0 where
    pub miner : Miner
    pub session : Session
    pub endpoint : Endpoint
    pub job : Job
    pub template : BlockTemplate
    pub known : get params.id w.miners ≡ some miner
    pub session_is : lookup sid w.session_of ≡ some session
    pub endpoint_is : lookup session.endpoint w.endpoint_of ≡ some endpoint
    pub job_is : find_job params.job_id session.valid_jobs ≡ some job
    pub well_formed : is_nonce params.nonce ≡ true
    pub fresh : has_submission (to_lower params.nonce) job.submissions ≡ false
    pub template_is : w.block_template ≡ some template
    pub current : job.height ≡ template.height
    pub share :
        AcceptedShare env params.id session endpoint template
          (with_nonce (to_lower params.nonce) job)
          (to_lower params.nonce)
          params.result

  submit_fresh-accepted :
      (cs : Session) (e : Endpoint) (job : Job) (w w' : World)
      → submit_fresh env sid params cs e job w ≡ returned (accepted tt) w'
      → ((t : BlockTemplate) × (w.block_template ≡ some t)
          × (job.height ≡ t.height)
          × AcceptedShare env params.id cs e t job (to_lower params.nonce) params.result)
  unfolding submit_fresh
  submit_fresh-accepted cs e job w w' h =
      let (t, is, h1) = found-returned w.block_template _ w (accepted tt) w' h in
      elim (Bool-cases (not (eqb_ℤ job.height t.height))) [
        | inl stale ↦ absurd (accepted_not_refused refl (rw stale at h1))
        | inr current ↦
            (let (w1, ran) =
                answered-accepted
                  (process_share env params.id cs e t job (to_lower params.nonce) params.result)
                  (codes "Low difficulty share") w w' (rw current at h1) in
              (
                t,
                is,
                ground (arith, eqb_ℤ_iff job.height t.height),
                process_share-true env params.id cs e t job (to_lower params.nonce) params.result w
                    w1 ran,
              ))
      ]

  submit_to-accepted :
      (cs : Session) (e : Endpoint) (job : Job) (w w' : World)
      → submit_to env sid params cs e job w ≡ returned (accepted tt) w'
      → (is_nonce params.nonce ≡ true)
        × (has_submission (to_lower params.nonce) job.submissions ≡ false)
        × ((t : BlockTemplate) × (w.block_template ≡ some t)
            × (job.height ≡ t.height)
            × AcceptedShare env params.id cs e t
                (with_nonce (to_lower params.nonce) job)
                (to_lower params.nonce)
                params.result)
  unfolding submit_to after_nonce submit
  submit_to-accepted cs e job w w' h = elim (Bool-cases (is_nonce params.nonce)) [
    | inr bad ↦ absurd (accepted_not_refused refl (rw bad at h))
    | inl good ↦ elim (Bool-cases (has_submission (to_lower params.nonce) job.submissions)) [
      | inl old ↦ absurd (accepted_not_refused refl (rw (good, old) at h))
      | inr new ↦ (
        good,
        new,
        submit_fresh-accepted cs e (with_nonce (to_lower params.nonce) job) _ w'
            (rw (good, new) at h),
      )
    ]
  ]

  -- A share that `handle_submit` accepts, from any state: its miner is registered, its session has the
  -- job that it names, its nonce is eight lower-case hexadecimal digits that were not submitted for that
  -- job before, the job is for the height of the current template, and the hash of the share is what
  -- the miner claims (unless that check is bypassed) and reaches the difficulty of the block or the port.
  pub handle_submit-accepted :
      (w w' : World) → handle_submit env sid params w ≡ returned (accepted tt) w' → AcceptedSubmit w
  unfolding handle_submit submit_job submit_for
  handle_submit-accepted w w' h = elim (Option-cases (get params.id w.miners)) [
    | inl unknown ↦ absurd (accepted_not_refused refl (rw (handle_submit, unknown) at h))
    | inr (m, known) ↦
        (let (ms, beat) = heartbeat-keeps env params.id w in
          let w1 = record w { ticks = suc w.ticks; miners = ms } in
          let h0 = rw (handle_submit, known) at h in
          let h1 =
            after-returned (heartbeat env params.id) (submit_job env sid params) w w1
              (returned (accepted tt) w') beat h0 in
          let (cs, session_is, h2) =
            found-returned (lookup sid w.session_of) _ w1 (accepted tt) w' h1 in
          let (e, endpoint_is, h3) =
            found-returned (lookup cs.endpoint w.endpoint_of) _ w1 (accepted tt) w' h2 in
          elim (Option-cases (find_job params.job_id cs.valid_jobs)) [
            | inl no_job ↦ absurd (accepted_not_refused refl (rw (submit_for, no_job) at h3))
            | inr (job, job_is) ↦
                (let (well_formed, fresh, (t, template_is, current, share)) =
                    submit_to-accepted cs e job w1 w' (rw (submit_for, job_is) at h3) in
                  record {
                    miner = m;
                    session = cs;
                    endpoint = e;
                    job = job;
                    template = t;
                    known = known;
                    session_is = session_is;
                    endpoint_is = endpoint_is;
                    job_is = job_is;
                    well_formed = well_formed;
                    fresh = fresh;
                    template_is = template_is;
                    current = current;
                    share = share;
                  })
          ])
  ]
