-- ===== src/Stratum/Messages.antt =====
-- stratum/stratum.go: handleMessage, which takes a request to its handler and answers it, and
-- NewEndpoint.
pub mod Kept
use xmrpool.Common.{ℕ, Bool, true, false, ◌||◌, Option, none, some, if◌then◌else◌}
use xmrpool.Common.Ints.{ℤ}
use xmrpool.Common.Texts.{Bytes, codes, bytes_eq}
use xmrpool.Util.Difficulty.{get_target_hex}
use xmrpool.Stratum.Types.{
  Endpoint, JobReplyData, SubmitParams, Env, World, Run, returned, ◌>>=◌, pure, ask,
}
use xmrpool.Stratum.Handlers.{Reply, accepted, refused, handle_login, handle_get_job, handle_submit}

-- The endpoint of a port with this difficulty, whose random instance id is given; `none` is the
-- division by a difficulty of zero.
unfoldable pub new_endpoint : ℤ → Bytes → Option Endpoint
new_endpoint difficulty instance_id = elim (get_target_hex difficulty) [
  | none ↦ none
  | some target ↦ some (record {
    job_sequence = 0;
    config_difficulty = difficulty;
    difficulty = difficulty;
    instance_id = instance_id;
    extra_nonce = 0;
    target_hex = target;
  })
]

-- P stands for the raw JSON of the parameters.
pub record JsonRpcReq (P : Type 0) : Type 0 where
  pub id : Option Bytes
  pub method : Bytes
  pub params : Option P

-- What is written to the connection: the result of a method, a status, an error, or nothing.
pub data Sent : Type 0 where
  login_result : Bytes × JobReplyData → Sent
  job_result : JobReplyData → Sent
  status : Bytes → Sent
  error : Bytes → Sent
  nothing : Sent

-- json.Unmarshal at the parameter types of the three methods.
pub record Unmarshal (P : Type 0) : Type 0 where
  pub login : P → Option Bytes
  pub get_job : P → Option Bytes
  pub submit : P → Option SubmitParams

-- In the answers below, the Boolean says whether an error is returned, which ends the connection.
module _ (env : Env) where
  unfoldable pub send_result : Sent → World → Run (Sent × Bool)
  send_result message = do fails ← ask env.push_fails; pure (message, fails)

  unfoldable pub send_error : Bytes → Bool → World → Run (Sent × Bool)
  send_error message drop = do fails ← ask env.push_fails; pure (error message, fails || drop)

  abbrev pub respond : {A : Type 0} → (A → Sent) → Bool → Reply A → World → Run (Sent × Bool)
  respond result drop (accepted a) = send_result (result a)
  respond result drop (refused m) = send_error m drop

  -- Unmarshal, the handler, and the reply.
  abbrev pub call :
      {Q A : Type 0}
      → (Q → World → Run (Reply A))
      → (A → Sent)
      → Bool
      → Option Q
      → World
      → Run (Sent × Bool)
  call handler result drop none = pure (nothing, true)
  call handler result drop (some q) = handler q >>= respond result drop

module _ {P : Type 0} (env : Env) (sid : ℕ) (unmarshal : Unmarshal P) where
  unfoldable pub dispatch : Bytes → P → World → Run (Sent × Bool)
  unfolding send_result send_error
  dispatch method p =
      if bytes_eq method (codes "login")
      then call env (handle_login env sid) login_result true (unmarshal.login p)
      else if bytes_eq method (codes "getjob")
      then call env (handle_get_job env sid) job_result true (unmarshal.get_job p)
      else if bytes_eq method (codes "submit")
      then call env (handle_submit env sid) (λ r. status (codes "OK")) false (unmarshal.submit p)
      else if bytes_eq method (codes "keepalived")
      then send_result env (status (codes "KEEPALIVED"))
      else send_error env (codes "Invalid method") true

  unfoldable pub handle_message : JsonRpcReq P → World → Run (Sent × Bool)
  unfolding dispatch
  handle_message req w = elim req.id [
    | none ↦ returned (nothing, true) w
    | some id ↦ elim req.params [
      | none ↦ returned (nothing, true) w
      | some p ↦ dispatch req.method p w
    ]
  ]
