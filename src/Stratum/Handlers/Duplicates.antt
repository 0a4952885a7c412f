-- ===== src/Stratum/Handlers/Duplicates.antt =====
-- How handleSubmitRPC of stratum/handlers.go refuses a share that was submitted before.
use xmrpool.Common.{ℕ, suc, ◌≡◌, refl, ap, ◌∙◌, Bool, true, some}
use xmrpool.Common.Ints.{pos}
use xmrpool.Common.Assoc.{nat_key, lookup, insert}
use xmrpool.Common.Texts.{Bytes, codes, to_lower}
use xmrpool.Stratum.MinersMap.{MinersMap, get}
use xmrpool.Stratum.Types.{
  Job, Miner, Session, Endpoint, SubmitParams, Env, World, returned, ◌>>=◌, endpoint_at,
}
use xmrpool.Stratum.Jobs.{has_submission, submit, find_job, write_job}
use xmrpool.Stratum.Runs.{on_miner-keeps, heartbeat-keeps, return-after, bind-found}
use xmrpool.Stratum.Share.{add64, add_invalid, heartbeat}
use xmrpool.Stratum.Handlers.{
  refused, is_nonce, after_nonce, submit_to, submit_for, submit_job, handle_submit, refuse,
}

module _ (env : Env) (sid : ℕ) (params : SubmitParams) where
  -- The state after a repeated share: time, the miners, and the session with its job written back.
  abbrev pub after_duplicate : MinersMap Miner → Session → Job → World → World
  after_duplicate ms cs job w = record w {
    ticks = suc w.ticks;
    miners = ms;
    session_of =
        insert sid (record cs { valid_jobs = write_job params.job_id job cs.valid_jobs })
          w.session_of;
  }

  submit-repeated :
      (nonce : Bytes) (job : Job)
      → has_submission nonce job.submissions ≡ true
      → submit nonce job ≡ (true, job)
  unfolding submit
  submit-repeated nonce job old = rw old refl

  after_nonce-duplicate :
      (cs : Session) (e : Endpoint) (job : Job) (w : World)
      → ((ms : MinersMap Miner) × (after_nonce env sid params cs e true job w
            ≡ returned (refused (codes "Duplicate share")) (record w {
              miners = ms;
              session_of =
                  insert sid
                    (record cs { valid_jobs = write_job params.job_id job cs.valid_jobs })
                    w.session_of;
            })))
  unfolding after_nonce
  after_nonce-duplicate cs e job w =
      let put = record w {
        session_of =
            insert sid (record cs { valid_jobs = write_job params.job_id job cs.valid_jobs })
              w.session_of;
      } in
      let (ms, counted) =
        on_miner-keeps params.id (λ m. record m { invalid_shares = add64 m.invalid_shares (pos 1) })
          put in
      (
        ms,
        return-after (add_invalid params.id) (refuse (codes "Duplicate share")) put
            (record put { miners = ms }) _ counted refl,
      )

  submit_to-duplicate :
      (cs : Session) (e : Endpoint) (job : Job) (w : World)
      → is_nonce params.nonce ≡ true
      → has_submission (to_lower params.nonce) job.submissions ≡ true
      → submit_to env sid params cs e job w ≡ after_nonce env sid params cs e true job w
  unfolding submit_to
  submit_to-duplicate cs e job w good old = rw good (
      ap (λ (r : Bool × Job). after_nonce env sid params cs e r.0 r.1 w)
        (submit-repeated (to_lower params.nonce) job old))

  -- A nonce that was submitted before for the job it names, by a registered miner in a session that has
  -- the job: the share is refused as a duplicate, and of the state only the clock, the miners and the
  -- session's stored jobs are written; the backend is not called, and the template, the round shares,
  -- the upstreams and the endpoints stay as they are.
  pub handle_submit-duplicate :
      (w : World) (m : Miner) (cs : Session) (e : Endpoint) (job : Job)
      → get params.id w.miners ≡ some m
      → lookup sid w.session_of ≡ some cs
      → lookup cs.endpoint w.endpoint_of ≡ some e
      → find_job params.job_id cs.valid_jobs ≡ some job
      → is_nonce params.nonce ≡ true
      → has_submission (to_lower params.nonce) job.submissions ≡ true
      → ((ms : MinersMap Miner) × (handle_submit env sid params w
            ≡ returned (refused (codes "Duplicate share")) (after_duplicate ms cs job w)))
  unfolding handle_submit submit_job submit_for
  handle_submit-duplicate w m cs e job known session_is endpoint_is job_is good old =
      let (ms, beat) = heartbeat-keeps env params.id w in
      let w1 = record w { ticks = suc w.ticks; miners = ms } in
      let (ms', repeated) = after_nonce-duplicate cs e job w1 in
      let rest : submit_job env sid params w1
          ≡ returned (refused (codes "Duplicate share")) (after_duplicate ms' cs job w) =
        bind-found (lookup sid w.session_of)
          (λ s. endpoint_at s.endpoint >>= submit_for env sid params s) w1 cs session_is
        ∙ bind-found (lookup cs.endpoint w.endpoint_of) (submit_for env sid params cs) w1 e
            endpoint_is
        ∙ rw (submit_for, job_is) (submit_to-duplicate cs e job w1 good old ∙ repeated) in
      (
        ms',
        rw (handle_submit, known)
            (return-after (heartbeat env params.id) (submit_job env sid params) w w1 _ beat rest),
      )
