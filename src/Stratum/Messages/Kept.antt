-- ===== src/Stratum/Messages/Kept.antt =====
-- After which requests handleMessage of stratum/stratum.go keeps a connection.
use xmrpool.Common.{
  ℕ, ◌≡◌, refl, Bool, true, false, Option, none, some, arith, Bool-cases, Option-cases, inl, inr,
}
use xmrpool.Common.Texts.{Bytes, codes, bytes_eq}
use xmrpool.Stratum.Types.{Env, World, Run, returned}
use xmrpool.Stratum.Runs.{bind-returned}
use xmrpool.Stratum.Handlers.{Reply, accepted, refused, handle_login, handle_get_job, handle_submit}
use xmrpool.Stratum.Messages.{
  JsonRpcReq, Sent, login_result, job_result, status, error, nothing, Unmarshal, send_result,
  send_error, respond, call, dispatch, handle_message,
}

abbrev pub is_error : Sent → Bool
is_error (error m) = true
is_error _ = false

abbrev pub is_nothing : Sent → Bool
is_nothing nothing = true
is_nothing _ = false

-- A reply that keeps a connection: something is sent, and only a refused share is an error.
pub record KeptReply (method : Bytes) (s : Sent) : Type 0 where
  pub sent : is_nothing s ≡ false
  pub only_submit : is_error s ≡ true → bytes_eq method (codes "submit") ≡ true

same_reply : {a b : Sent × Bool} {w w' : World} → returned a w ≡ returned b w' → a ≡ b
same_reply e = cc e

-- A result is neither nothing nor an error.
abbrev Proper : {A : Type 0} → (A → Sent) → Type 0
Proper {A} result = (a : A) → (is_nothing (result a) ≡ false) × (is_error (result a) ≡ false)

true_not_false : true ≡ false → ⊥
true_not_false e = cc e

abbrev outcome : Sent → Bool → World → Run (Sent × Bool)
outcome s b w = returned (s, b) w

ended : {s : Sent} {w w' : World} → outcome nothing true w ≡ outcome s false w' → ⊥
ended e = ground (arith, same_reply e)

module _ (env : Env) where
  send_error-kept :
      (m : Bytes) (drop : Bool) (s : Sent) (w w' : World)
      → send_error env m drop w ≡ returned (s, false) w'
      → (s ≡ error m) × (drop ≡ false)
  unfolding send_error
  send_error-kept m drop s w w' h = ground (arith, same_reply h)

  send_result-kept :
      (m s : Sent) (w w' : World) → send_result env m w ≡ returned (s, false) w' → s ≡ m
  unfolding send_result
  send_result-kept m s w w' h = ground (arith, same_reply h)

  respond-kept :
      {A : Type 0} (result : A → Sent) (drop : Bool) (r : Reply A) (s : Sent) (w w' : World)
      → Proper result
      → respond env result drop r w ≡ returned (s, false) w'
      → (is_nothing s ≡ false) × (is_error s ≡ true → drop ≡ false)
  respond-kept result drop (accepted a) s w w' proper h =
      let same = send_result-kept (result a) s w w' h in
      (rw same (proper a).0, λ e. ground (arith, proper a, same))
  respond-kept result drop (refused m) s w w' proper h =
      let (same, kept) = send_error-kept m drop s w w' h in (rw same refl, λ e. kept)

  call-kept :
      {Q A : Type 0} (handler : Q → World → Run (Reply A)) (result : A → Sent) (drop : Bool)
      (o : Option Q) (s : Sent) (w w' : World)
      → Proper result
      → call env handler result drop o w ≡ returned (s, false) w'
      → (is_nothing s ≡ false) × (is_error s ≡ true → drop ≡ false)
  call-kept handler result drop none s w w' proper h = ground (arith, same_reply h)
  call-kept handler result drop (some q) s w w' proper h =
      let (r, w1, ran, last) =
        bind-returned (handler q) (respond env result drop) w (s, false) w' h in
      respond-kept result drop r s w1 w' proper last

module _ {P : Type 0} (env : Env) (sid : ℕ) (unmarshal : Unmarshal P) where
  dispatch-KeptReply :
      (method : Bytes) (p : P) (s : Sent) (w w' : World)
      → dispatch env sid unmarshal method p w ≡ returned (s, false) w'
      → KeptReply method s
  unfolding dispatch
  dispatch-KeptReply method p s w w' h = elim (Bool-cases (bytes_eq method (codes "login"))) [
    | inl login ↦
        (let (sent, kept) =
            call-kept env (handle_login env sid) login_result true (unmarshal.login p) s w w'
              (λ a. (refl, refl)) (rw login at h) in
          record { sent = sent; only_submit = λ e. absurd (true_not_false (kept e)) })
    | inr no_login ↦ elim (Bool-cases (bytes_eq method (codes "getjob"))) [
      | inl get_job ↦
          (let (sent, kept) =
              call-kept env (handle_get_job env sid) job_result true (unmarshal.get_job p) s w w'
                (λ a. (refl, refl)) (rw (no_login, get_job) at h) in
            record { sent = sent; only_submit = λ e. absurd (true_not_false (kept e)) })
      | inr no_get_job ↦ elim (Bool-cases (bytes_eq method (codes "submit"))) [
        | inl submit ↦
            (let (sent, kept) =
                call-kept env (handle_submit env sid) (λ r. status (codes "OK")) false
                  (unmarshal.submit p) s w w' (λ a. (refl, refl))
                  (rw (no_login, no_get_job, submit) at h) in
              record { sent = sent; only_submit = λ e. submit })
        | inr no_submit ↦ elim (Bool-cases (bytes_eq method (codes "keepalived"))) [
          | inl alive ↦
              (let same =
                  send_result-kept env (status (codes "KEEPALIVED")) s w w'
                    (rw (no_login, no_get_job, no_submit, alive) at h) in
                record { sent = rw same refl; only_submit = λ e. ground (arith, same) })
          | inr unknown ↦ absurd (
              true_not_false
                (send_error-kept env (codes "Invalid method") true s w w'
                  (rw (no_login, no_get_job, no_submit, unknown) at h)).1)
        ]
      ]
    ]
  ]

  -- A request after which `handle_message` reports no error, so that the connection stays open, has an
  -- id and parameters, and was answered; and if the answer was an error, then the method was a submit.
  pub handle_message-KeptReply :
      (req : JsonRpcReq P) (s : Sent) (w w' : World)
      → handle_message env sid unmarshal req w ≡ returned (s, false) w'
      → ((id : Bytes) × (req.id ≡ some id))
        × ((p : P) × (req.params ≡ some p))
        × KeptReply req.method s
  unfolding handle_message
  handle_message-KeptReply req s w w' h = elim (Option-cases req.id) [
    | inl no_id ↦ absurd (ended (rw (handle_message, no_id) at h))
    | inr (id, has_id) ↦ elim (Option-cases req.params) [
      | inl no_params ↦ absurd (ended (rw (handle_message, has_id, no_params) at h))
      | inr (p, has_params) ↦ (
        (id, has_id),
        (p, has_params),
        dispatch-KeptReply req.method p s w w' (rw (handle_message, has_id, has_params) at h),
      )
    ]
  ]
