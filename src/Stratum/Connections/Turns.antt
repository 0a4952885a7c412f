-- ===== src/Stratum/Connections/Turns.antt =====
-- What a turn of the loop of handleClient does to the map of sessions.
use xmrpool.Common.{ℕ, ◌≡◌, Bool, true, false, Option, none, some, List, ◌∷◌, arith, suc}
use xmrpool.Common.Ints.{ℤ}
use xmrpool.Common.Texts.{Bytes, codes}
use xmrpool.Stratum.MinersMap.{get}
use xmrpool.Stratum.Types.{
  JobReplyData, pure, Miner, BlockTemplate, Env, World, Run, returned, ◌>>=◌, ◌>>◌,
}
use xmrpool.Stratum.Refresh.{remove_session, issue_job}
use xmrpool.Stratum.Share.{heartbeat}
use xmrpool.Stratum.Handlers.{
  Reply, accepted, refused, extract_worker_id, is_active, register_miner, new_miner,
  register_session, admit, handle_login, handle_get_job, handle_submit,
}
use xmrpool.Stratum.Messages.{
  login_result, job_result, status, Sent, JsonRpcReq, Unmarshal, send_result, send_error, respond,
  call, dispatch, handle_message,
}
use xmrpool.Common.Assoc.{nat_key, lookup, insert}
use xmrpool.Stratum.Connections.{Line, on_request, on_line}
use xmrpool.Stratum.Connections.Kept.{
  Stays, bind-Stays, option-Stays, found-Stays, heartbeat-Stays, issue_job-Stays,
}
use xmrpool.Stratum.Connections.Requests.{handle_get_job-Stays, handle_submit-Stays}

-- A predicate on the registered sessions that does not mind if one is removed, nor if `sid` is added.
module _ (P : List ℕ → Type 0) (removed : (s : ℕ) (ss : List ℕ) → P ss → P (remove_session s ss))
    (env : Env) (sid : ℕ)
    (added : (ss : List ℕ) → is_active sid ss ≡ false → P ss → P (sid ∷ ss)) where
  register_session-Stays : (w : World) → P w.sessions → Stays P (register_session sid w)
  register_session-Stays w h = grind (arith, added)

  -- The end of a login.
  abbrev give_job : Bytes → BlockTemplate → World → Run (Reply (Bytes × JobReplyData))
  give_job id t = do
    register_session sid
    heartbeat env id
    reply ← issue_job env t sid
    pure (accepted (id, reply))

  give_job-Stays :
      (id : Bytes) (t : BlockTemplate) (w : World) → P w.sessions → Stays P (give_job id t w)
  give_job-Stays id t w h =
      bind-Stays P removed (register_session sid) (λ u. heartbeat env id >> answer) w
        (register_session-Stays w h)
        λ u w1 h1.
          bind-Stays P removed (heartbeat env id) (λ v. answer) w1
            (heartbeat-Stays P removed env id w1 h1)
            λ v w2 h2.
              bind-Stays P removed (issue_job env t sid) (λ reply. pure (accepted (id, reply))) w2
                (issue_job-Stays P removed env t sid w2 h2) λ reply w3 h3. h3
    where
      answer : World → Run (Reply (Bytes × JobReplyData))
      answer = issue_job env t sid >>= λ reply. pure (accepted (id, reply))

  abbrev know : Bytes → Bytes → Option Miner → World → Run (Unit {0})
  know id ip known w = elim known [
    | none ↦ register_miner (new_miner id ip) w
    | some m ↦ returned tt w
  ]

  admit-Stays :
      (address id : Bytes) (w : World) → P w.sessions → Stays P (admit env sid address id w)
  unfolding admit
  admit-Stays address id w h = option-Stays P removed w.block_template _ _ h λ t.
      found-Stays P removed (lookup sid w.session_of) _ w λ cs.
        let w1 = record w {
          session_of = insert sid (record cs { login = address; id = id }) w.session_of;
        } in
        bind-Stays P removed (know id cs.ip (get id w.miners)) (λ u. give_job id t) w1
          (option-Stays P removed (get id w.miners) _ _ h λ m. h) λ u. give_job-Stays id t

  handle_login-Stays :
      (login : Bytes) (w : World) → P w.sessions → Stays P (handle_login env sid login w)
  unfolding handle_login
  handle_login-Stays login w h =
      let (address, id) = extract_worker_id login in ground (arith, admit-Stays address id w h)

  send_result-Stays : (m : Sent) (w : World) → P w.sessions → Stays P (send_result env m w)
  unfolding send_result
  send_result-Stays m w h = h

  send_error-Stays :
      (m : Bytes) (drop : Bool) (w : World) → P w.sessions → Stays P (send_error env m drop w)
  unfolding send_error
  send_error-Stays m drop w h = h

  respond-Stays :
      {A : Type 0} (result : A → Sent) (drop : Bool) (r : Reply A) (w : World)
      → P w.sessions
      → Stays P (respond env result drop r w)
  respond-Stays result drop (accepted a) w h = send_result-Stays (result a) w h
  respond-Stays result drop (refused m) w h = send_error-Stays m drop w h

  call-Stays :
      {Q A : Type 0} (handler : Q → World → Run (Reply A)) (result : A → Sent) (drop : Bool)
      (o : Option Q) (w : World)
      → ((q : Q) → Stays P (handler q w))
      → P w.sessions
      → Stays P (call env handler result drop o w)
  call-Stays handler result drop none w k h = h
  call-Stays handler result drop (some q) w k h =
      bind-Stays P removed (handler q) (respond env result drop) w (k q) (respond-Stays result drop)

  dispatch-Stays :
      {Q : Type 0} (unmarshal : Unmarshal Q) (method : Bytes) (p : Q) (w : World)
      → P w.sessions
      → Stays P (dispatch env sid unmarshal method p w)
  unfolding dispatch
  dispatch-Stays unmarshal method p w h = ground (
    arith,
    call-Stays (handle_login env sid) login_result true (unmarshal.login p) w
        (λ q. handle_login-Stays q w h) h,
    call-Stays (handle_get_job env sid) job_result true (unmarshal.get_job p) w
        (λ q. handle_get_job-Stays P removed env sid q w h) h,
    call-Stays (handle_submit env sid) (λ r. status (codes "OK")) false (unmarshal.submit p) w
        (λ q. handle_submit-Stays P removed env sid q w h) h,
    send_result-Stays (status (codes "KEEPALIVED")) w h,
    send_error-Stays (codes "Invalid method") true w h,
  )

  handle_message-Stays :
      {Q : Type 0} (unmarshal : Unmarshal Q) (req : JsonRpcReq Q) (w : World)
      → P w.sessions
      → Stays P (handle_message env sid unmarshal req w)
  unfolding handle_message
  handle_message-Stays unmarshal req w h =
      option-Stays P removed req.id _ _ h
        λ id. option-Stays P removed req.params _ _ h λ p. dispatch-Stays unmarshal req.method p w h

  module _ {Q : Type 0} (unmarshal : Unmarshal Q) (decode : Bytes → Option (JsonRpcReq Q))
      (timeout : ℤ) where
    on_request-Stays :
        (o : Option (JsonRpcReq Q)) (d : ℤ) (w : World)
        → P w.sessions
        → Stays P (on_request env unmarshal decode timeout sid o d w)
    unfolding on_request
    on_request-Stays none d w h = h
    on_request-Stays (some req) d w h =
        bind-Stays P removed (handle_message env sid unmarshal req) _
          (record w { ticks = suc w.ticks }) (handle_message-Stays unmarshal req _ h) λ r w1 h1. h1

    pub on_line-Stays :
        (line : Line) (d : ℤ) (w : World)
        → P w.sessions
        → Stays P (on_line env unmarshal decode timeout sid line d w)
    unfolding on_line
    on_line-Stays line d w h = ground (arith, on_request-Stays (decode line.data_read) d w h)
