-- ===== src/Stratum/Connections/Requests.antt =====
-- What the requests of stratum/handlers.go, and the shares of miner.go, do to the map of sessions.
use xmrpool.Common.{ℕ, arith, suc, Bool, true, false, List}
use xmrpool.Common.Assoc.{nat_key, insert}
use xmrpool.Common.Texts.{Bytes}
use xmrpool.Rpc.Client.{RpcClient, submit_block}
use xmrpool.Stratum.Upstreams.{rpc}
use xmrpool.Stratum.Types.{Job, BlockTemplate, Session, Endpoint, SubmitParams, Env, World, ◌>>◌}
use xmrpool.Stratum.Jobs.{write_job}
use xmrpool.Stratum.Refresh.{remove_session, set_nth, refresh_block_template}
use xmrpool.Stratum.Share.{
  credit, record_duplicate, reject_share, write_normal_share, block_accepted, submit_found_block,
  grade, judge, process_share,
}
use xmrpool.Stratum.Handlers.{
  handle_get_job, submit_fresh, after_nonce, submit_to, submit_for, submit_job, handle_submit,
}
use xmrpool.Stratum.Connections.Kept.{
  Stays, bind-Stays, found-Stays, issue_job-Stays, refresh_block_template-Stays,
}

module _ (P : List ℕ → Type 0) (removed : (s : ℕ) (ss : List ℕ) → P ss → P (remove_session s ss))
    (env : Env) where
  module _ (key : Bytes) (cs : Session) (e : Endpoint) (t : BlockTemplate) where
    credit-Stays : (w : World) → P w.sessions → Stays P (credit env key cs e t w)
    unfolding credit
    credit-Stays w h = ground arith

    record_duplicate-Stays :
        (w : World) → P w.sessions → Stays P (record_duplicate env key cs e t w)
    unfolding record_duplicate
    record_duplicate-Stays w h = h

    reject_share-Stays : (w : World) → P w.sessions → Stays P (reject_share env key cs e t w)
    unfolding reject_share
    reject_share-Stays w h = ground arith

    renewed-Stays :
        (w : World)
        → P w.sessions
        → Stays P ((refresh_block_template env true >> credit env key cs e t) w)
    renewed-Stays w h =
        bind-Stays P removed (refresh_block_template env true) _ w
          (refresh_block_template-Stays P removed env true w h) (λ u. credit-Stays)

    module _ (params : List Bytes) where
      write_normal_share-Stays :
          (w : World) → P w.sessions → Stays P (write_normal_share env key cs e t params w)
      unfolding write_normal_share
      write_normal_share-Stays w h = grind (arith, record_duplicate-Stays, credit-Stays)

      block_accepted-Stays :
          (r : RpcClient) (share : Bytes) (w : World)
          → P w.sessions
          → Stays P (block_accepted env key cs e t params r share w)
      unfolding block_accepted
      block_accepted-Stays r share w h =
          grind (arith, record_duplicate-Stays, credit-Stays, renewed-Stays)

      submit_found_block-Stays :
          (share : Bytes) (w : World)
          → P w.sessions
          → Stays P (submit_found_block env key cs e t params share w)
      unfolding submit_found_block
      submit_found_block-Stays share w h = found-Stays P removed (rpc w.upstreams) _ w λ r.
          let (r', result) = submit_block r (env.submit_answer w.ticks) in
          ground (
            arith,
            block_accepted-Stays r' share
                (record w {
                  ticks = suc w.ticks;
                  upstreams = record (w.upstreams) {
                    upstreams = set_nth w.upstreams.upstream r' w.upstreams.upstreams;
                  };
                })
                h,
          )

      grade-Stays :
          (share : Bytes) (hash_diff : ℕ) (w : World)
          → P w.sessions
          → Stays P (grade env key cs e t params share hash_diff w)
      unfolding grade
      grade-Stays share hash_diff w h =
          grind (arith, submit_found_block-Stays, reject_share-Stays, write_normal_share-Stays)

    judge-Stays :
        (params : List Bytes) (share hash result : Bytes) (w : World)
        → P w.sessions
        → Stays P (judge env key cs e t params share hash result w)
    unfolding judge
    judge-Stays params share hash result w h = grind (arith, grade-Stays)

    process_share-Stays :
        (job : Job) (nonce result : Bytes) (w : World)
        → P w.sessions
        → Stays P (process_share env key cs e t job nonce result w)
    unfolding process_share
    process_share-Stays job nonce result w h = grind (arith, judge-Stays)

  pub handle_get_job-Stays :
      (sid : ℕ) (id : Bytes) (w : World) → P w.sessions → Stays P (handle_get_job env sid id w)
  unfolding handle_get_job
  handle_get_job-Stays sid id w h = grind (arith, issue_job-Stays P removed)

  submit_fresh-Stays :
      (sid : ℕ) (params : SubmitParams) (cs : Session) (e : Endpoint) (job : Job) (w : World)
      → P w.sessions
      → Stays P (submit_fresh env sid params cs e job w)
  unfolding submit_fresh
  submit_fresh-Stays sid params cs e job w h = grind (arith, process_share-Stays)

  after_nonce-Stays :
      (sid : ℕ) (params : SubmitParams) (cs : Session) (e : Endpoint) (exist : Bool) (job : Job)
      (w : World)
      → P w.sessions
      → Stays P (after_nonce env sid params cs e exist job w)
  unfolding after_nonce
  after_nonce-Stays sid params cs e true job w h = grind arith
  after_nonce-Stays sid params cs e false job w h =
      submit_fresh-Stays sid params cs e job
        (record w {
          session_of =
              insert sid (record cs { valid_jobs = write_job params.job_id job cs.valid_jobs })
                w.session_of;
        })
        h

  submit_to-Stays :
      (sid : ℕ) (params : SubmitParams) (cs : Session) (e : Endpoint) (job : Job) (w : World)
      → P w.sessions
      → Stays P (submit_to env sid params cs e job w)
  unfolding submit_to
  submit_to-Stays sid params cs e job w h = grind (arith, after_nonce-Stays)

  pub handle_submit-Stays :
      (sid : ℕ) (params : SubmitParams) (w : World)
      → P w.sessions
      → Stays P (handle_submit env sid params w)
  unfolding handle_submit submit_job submit_for
  handle_submit-Stays sid params w h = grind (arith, submit_to-Stays)
