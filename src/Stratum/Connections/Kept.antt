-- ===== src/Stratum/Connections/Kept.antt =====
-- What the calls of stratum/handlers.go, miner.go and blocks.go do to the map of sessions.
use xmrpool.Common.{
  ℕ, Bool, true, false, Option, none, some, List, [], ◌∷◌, if◌then◌else◌, ◌&&◌, suc, sym,
}
use xmrpool.Common.Texts.{Bytes}
use mathlib.Core.Path.{subst}
use xmrpool.Rpc.Client.{GetBlockTemplateReply, CallResult, done, failed, panicked}
use xmrpool.Blocktemplate.Wire.{Result, ok, err, panicked as unpack_panicked}
use xmrpool.Stratum.Types.{Miner, BlockTemplate, Env, World, Run, ◌>>=◌, or_crash}
use xmrpool.Stratum.Refresh.{
  store_template, install_unpacked, install, on_reply, fetch_block_template, is_new_template,
  checked_template, remove_session, issue_job, push_job_to, push_to_each, broadcast_new_jobs,
  refresh_block_template,
}
use xmrpool.Stratum.Share.{on_miner, heartbeat}
use xmrpool.Stratum.Runs.{Ends, bind-Ends, on_miner-keeps, heartbeat-keeps}
use xmrpool.Stratum.Upstreams.{rpc}
use xmrpool.Stratum.Jobs.{get_job}
use xmrpool.Common.Assoc.{nat_key, lookup}
use xmrpool.Blocktemplate.Block.{BlockTemplateBlob}

-- What holds of the registered sessions after a call that returns.
abbrev pub Stays : {A : Type 0} → (List ℕ → Type 0) → Run A → Type 0
Stays P r = Ends (λ a w. P w.sessions) r

-- A predicate on the registered sessions that does not mind if one is removed.
module _ (P : List ℕ → Type 0)
    (removed : (s : ℕ) (ss : List ℕ) → P ss → P (remove_session s ss)) where
  pub bind-Stays :
      {A B : Type 0} (m : World → Run A) (f : A → World → Run B) (w : World)
      → Stays P (m w)
      → ((a : A) (w1 : World) → P w1.sessions → Stays P (f a w1))
      → Stays P ((m >>= f) w)
  bind-Stays m f w h k = bind-Ends (λ a w1. P w1.sessions) (λ b w1. P w1.sessions) m f w h k

  pub if-Stays :
      {A : Type 0} (b : Bool) (x y : Run A) → Stays P x → Stays P y → Stays P (if b then x else y)
  if-Stays true x y p q = p
  if-Stays false x y p q = q

  pub option-Stays :
      {A B : Type 0} (o : Option A) (r : Run B) (f : A → Run B)
      → Stays P r
      → ((a : A) → Stays P (f a))
      → Stays P (elim o [ none ↦ r | some a ↦ f a ])
  option-Stays none r f h k = h
  option-Stays (some a) r f h k = k a

  pub found-Stays :
      {A B : Type 0} (o : Option A) (f : A → World → Run B) (w : World)
      → ((a : A) → Stays P (f a w))
      → Stays P ((or_crash o >>= f) w)
  found-Stays none f w k = tt
  found-Stays (some a) f w k = k a

  pub on_miner-Stays :
      (key : Bytes) (f : Miner → Miner) (w : World) → P w.sessions → Stays P (on_miner key f w)
  on_miner-Stays key f w h =
      let (ms, e) = on_miner-keeps key f w in subst (λ (r : Run (Unit {0})). Stays P r) (sym e) h

  pub heartbeat-Stays :
      (env : Env) (key : Bytes) (w : World) → P w.sessions → Stays P (heartbeat env key w)
  heartbeat-Stays env key w h =
      let (ms, e) = heartbeat-keeps env key w in subst (λ (r : Run (Unit {0})). Stays P r) (sym e) h

  pub issue_job-Stays :
      (env : Env) (t : BlockTemplate) (sid : ℕ) (w : World)
      → P w.sessions
      → Stays P (issue_job env t sid w)
  unfolding issue_job
  issue_job-Stays env t sid w h = found-Stays (lookup sid w.session_of) _ w λ cs.
      found-Stays (lookup cs.endpoint w.endpoint_of) _ w
        λ e. found-Stays (get_job env t cs e) _ w λ r. h

  store_template-Stays :
      (t : Option BlockTemplate) (w : World) → P w.sessions → Stays P (store_template t w)
  unfolding store_template
  store_template-Stays none w h = h
  store_template-Stays (some t) w h = h

  install_unpacked-Stays :
      (reply : GetBlockTemplateReply) (u : Result (BlockTemplateBlob × Bytes)) (w : World)
      → P w.sessions
      → Stays P (install_unpacked reply u w)
  install_unpacked-Stays reply (ok (blob, rest)) w h =
      store_template-Stays (checked_template reply blob) w h
  install_unpacked-Stays reply (err e) w h = h
  install_unpacked-Stays reply unpack_panicked w h = tt

  on_reply-Stays :
      (env : Env) (result : CallResult (Option GetBlockTemplateReply)) (w : World)
      → P w.sessions
      → Stays P (on_reply env result w)
  unfolding install
  on_reply-Stays env (failed e) w h = h
  on_reply-Stays env panicked w h = tt
  on_reply-Stays env (done none) w h = tt
  on_reply-Stays env (done (some reply)) w h =
      if-Stays (is_new_template w.block_template reply) _ _ (install_unpacked-Stays reply _ w h) h

  fetch_block_template-Stays :
      (env : Env) (w : World) → P w.sessions → Stays P (fetch_block_template env w)
  unfolding fetch_block_template
  fetch_block_template-Stays env w h =
      found-Stays (rpc w.upstreams) _ w λ r. search (on_reply-Stays, h)

  push_job_to-Stays :
      (env : Env) (t : BlockTemplate) (sid : ℕ) (w : World)
      → P w.sessions
      → Stays P (push_job_to env t sid w)
  unfolding push_job_to
  push_job_to-Stays env t sid w h =
      bind-Stays (issue_job env t sid) _ w (issue_job-Stays env t sid w h) λ reply w1 h1.
        elim (env.push_fails w1.ticks)
          as (λ b.
            P
              (if b
                then record w1 { ticks = suc w1.ticks; sessions = remove_session sid w1.sessions }
                else record w1 { ticks = suc w1.ticks }).sessions) [
                  | true ↦ removed sid w1.sessions h1
                  | false ↦ h1
                ]

  push_to_each-Stays :
      (env : Env) (t : BlockTemplate) (sids : List ℕ) (w : World)
      → P w.sessions
      → Stays P (push_to_each env t sids w)
  unfolding push_to_each
  push_to_each-Stays env t [] w h = h
  push_to_each-Stays env t (sid ∷ sids) w h =
      bind-Stays (push_job_to env t sid) _ w (push_job_to-Stays env t sid w h)
        λ u w1 h1. push_to_each-Stays env t sids w1 h1

  broadcast_new_jobs-Stays :
      (env : Env) (w : World) → P w.sessions → Stays P (broadcast_new_jobs env w)
  unfolding broadcast_new_jobs
  broadcast_new_jobs-Stays env w h =
      option-Stays w.block_template _ _ h λ t. push_to_each-Stays env t w.sessions w h

  pub refresh_block_template-Stays :
      (env : Env) (bcast : Bool) (w : World)
      → P w.sessions
      → Stays P (refresh_block_template env bcast w)
  unfolding refresh_block_template
  refresh_block_template-Stays env bcast w h =
      bind-Stays (fetch_block_template env) _ w (fetch_block_template-Stays env w h)
        λ new w1 h1. if-Stays (new && bcast) _ _ (broadcast_new_jobs-Stays env w1 h1) h1
