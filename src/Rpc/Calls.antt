-- ===== src/Rpc/Calls.antt =====
-- What a check of a daemon does to the client and answers, by what the daemon sends.
use xmrpool.Common.{
  ℕ, ◌≤◌, ◌<◌, ◌≡◌, Bool, not, Option, none, some, ltb, leb, ◌||◌, arith, Bool-cases, Option-cases,
  inl, inr, ◌⊎◌, true,
}
use xmrpool.Common.Texts.{Bytes}
use xmrpool.Rpc.Client.{
  RpcClient, GetBlockTemplateReply, Body, malformed, null_body, object, Answer, no_request,
  no_response, response, bad_request, transport, bad_status, bad_json, bad_result, daemon_error,
  CallResult, done, failed, panicked, mark_sick, mark_alive, do_post, decode_body, unmarshal_result,
  get_block_template, check_result, check,
}

-- The check of a client at `r` by what the daemon sent: the client after it, and what it returns.
pub data Leaves {R : Type 0} (u : R → Option GetBlockTemplateReply) (r : RpcClient)
    : Answer R → RpcClient × CallResult Bool → Type 0 where
  unsent : Leaves u r no_request (r, failed bad_request)
  silent : Leaves u r no_response (mark_sick r, failed transport)
  refused :
      (status : ℕ) (body : Body R)
      → (status < 200) ⊎ (400 ≤ status)
      → Leaves u r (response status body) (r, failed bad_status)
  garbled :
      (status : ℕ)
      → 200 ≤ status
      → status < 400
      → Leaves u r (response status malformed) (mark_sick r, failed bad_json)
  empty :
      (status : ℕ)
      → 200 ≤ status
      → status < 400
      → Leaves u r (response status null_body) (r, panicked)
  reported :
      (status : ℕ) (message : Bytes) (result : Option R)
      → 200 ≤ status
      → status < 400
      → Leaves u r
          (response status (object (some (some message)) result))
          (mark_sick r, failed (daemon_error message))
  unnamed :
      (status : ℕ) (result : Option R)
      → 200 ≤ status
      → status < 400
      → Leaves u r (response status (object (some none) result)) (mark_sick r, panicked)
  unreadable :
      (status : ℕ) (raw : R)
      → 200 ≤ status
      → status < 400
      → u raw ≡ none
      → Leaves u r (response status (object none (some raw))) (r, failed bad_result)
  without_result :
      (status : ℕ)
      → 200 ≤ status
      → status < 400
      → Leaves u r
          (response status (object none none))
          (mark_alive r, done (not (mark_alive r).sick))
  passed :
      (status : ℕ) (raw : R) (reply : GetBlockTemplateReply)
      → 200 ≤ status
      → status < 400
      → u raw ≡ some reply
      → Leaves u r
          (response status (object none (some raw)))
          (mark_alive r, done (not (mark_alive r).sick))

module _ {R : Type 0} (u : R → Option GetBlockTemplateReply) (r : RpcClient) (status : ℕ)
    (least : 200 ≤ status) (less : status < 400) where
  body-Leaves :
      (body : Body R)
      → Leaves u r (response status body) (check_result (unmarshal_result u (decode_body r body)))
  body-Leaves malformed = garbled status least less
  body-Leaves null_body = empty status least less
  body-Leaves (object (some (some message)) result) = reported status message result least less
  body-Leaves (object (some none) result) = unnamed status result least less
  body-Leaves (object none none) = without_result status least less
  body-Leaves (object none (some raw)) = elim (Option-cases (u raw)) [
    | inl bad ↦ rw bad (unreadable status raw least less bad)
    | inr (reply, good) ↦ rw good (passed status raw reply least less good)
  ]

status_cases :
    (status : ℕ) → (ltb status 200 || leb 400 status) ≡ true → (status < 200) ⊎ (400 ≤ status)
status_cases status h = elim (Bool-cases (ltb status 200)) [
  | inl low ↦ inl (ground (arith, low))
  | inr high ↦ inr (ground (arith, h, high))
]

-- For every way in which a daemon answers: a check counts as one success exactly if the status is one of
-- 200 to 399, the body is a JSON object without an error, and its result, if there is one, is of the
-- right form; it then answers whether the client is well after it. It counts as one failure exactly if
-- no response came, or with such a status the body is not JSON or reports an error; it then fails, or
-- panics where the error's message is no string. A bad status, a request that cannot be built, a `null`
-- body, which panics, and a result of the wrong form leave the client as it was.
pub check-Leaves :
    {R : Type 0} (u : R → Option GetBlockTemplateReply) (r : RpcClient) (a : Answer R)
    → Leaves u r a (check u r a)
unfolding check get_block_template do_post
check-Leaves u r no_request = unsent
check-Leaves u r no_response = silent
check-Leaves u r (response status body) = elim (Bool-cases (ltb status 200 || leb 400 status)) [
  | inl bad ↦ rw bad (refused status body (status_cases status bad))
  | inr good ↦ rw good (body-Leaves u r status (ground (arith, good)) (ground (arith, good)) body)
]
