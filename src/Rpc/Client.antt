-- ===== src/Rpc/Client.antt =====
-- rpc/rpc.go: RPCClient, its calls, and markSick and markAlive. What the daemon answers is an
-- argument; the lock and the atomic operations leave no other interleaving of these methods.
use xmrpool.Common.{ℕ, Bool, true, false, not, ◌||◌, Option, none, some, ltb, leb, if◌then◌else◌}
use xmrpool.Common.Ints.{ℤ, pos, ◌+ℤ◌, leb_ℤ}
use xmrpool.Common.Words.{wrap64}
use xmrpool.Common.Texts.{Bytes}

pub record GetBlockTemplateReply : Type 0 where
  pub difficulty : ℤ
  pub height : ℤ
  pub blob : Bytes
  pub reserved_offset : ℤ
  pub prev_hash : Bytes
  pub expected_reward : ℤ
  pub seed_hash : Bytes
  pub next_seed_hash : Bytes

pub record GetInfoReply : Type 0 where
  pub incoming_connections : ℤ
  pub outgoing_connections : ℤ
  pub height : ℤ
  pub tx_pool_size : ℤ
  pub status : Bytes

-- The header fields that the block unlocker reads.
pub record BlockHeader : Type 0 where
  pub hash : Bytes
  pub nonce : ℕ  -- uint32
  pub reward : ℤ

pub record GetBlockHeaderReply : Type 0 where
  pub block_header : BlockHeader
  pub status : Bytes
  pub untrusted : Bool

pub record GetBlockCountReply : Type 0 where
  pub count : ℤ
  pub status : Bytes

-- The URL and the HTTP client are left out: they only reach the daemon.
pub record RpcClient : Type 0 where
  pub sick_rate : ℤ
  pub success_rate : ℤ
  pub accepts : ℤ
  pub rejects : ℤ
  pub last_submission_at : ℤ
  pub fails_count : ℤ
  pub name : Bytes
  pub sick : Bool
  pub info : Option GetInfoReply

unfoldable pub new_client : Bytes → RpcClient
new_client name = record {
  sick_rate = pos 0;
  success_rate = pos 0;
  accepts = pos 0;
  rejects = pos 0;
  last_submission_at = pos 0;
  fails_count = pos 0;
  name = name;
  sick = false;
  info = none;
}

unfoldable pub mark_sick : RpcClient → RpcClient
mark_sick r =
    let fails = if not r.sick then wrap64 (r.fails_count +ℤ pos 1) else r.fails_count in
    let rate = wrap64 (r.sick_rate +ℤ pos 1) in
    record r {
      fails_count = fails;
      sick_rate = rate;
      success_rate = pos 0;
      sick = if leb_ℤ (pos 5) rate then true else r.sick;
    }

unfoldable pub mark_alive : RpcClient → RpcClient
mark_alive r =
    let rate = wrap64 (r.success_rate +ℤ pos 1) in
    if leb_ℤ (pos 5) rate
    then record r { sick = false; sick_rate = pos 0; success_rate = pos 0 }
    else record r { success_rate = rate }

-- The body of a reply: not a JSON object of the expected form; the literal `null`; or an object.
-- Its `error` may be absent, or an object whose `message` may fail to be a string. A present
-- `result` is the raw text, of type R.
pub data Body (R : Type 0) : Type 0 where
  malformed : Body R
  null_body : Body R
  object : Option (Option Bytes) → Option R → Body R

-- What becomes of the request: it cannot be built; no response comes; or a status and a body.
pub data Answer (R : Type 0) : Type 0 where
  no_request : Answer R
  no_response : Answer R
  response : ℕ → Body R → Answer R

pub data CallError : Type 0 where
  bad_request transport bad_status bad_json bad_result : CallError
  daemon_error : Bytes → CallError

pub data CallResult (A : Type 0) : Type 0 where
  done : A → CallResult A
  failed : CallError → CallResult A
  panicked : CallResult A

-- What `doPost` makes of the body of a good response.
abbrev pub decode_body : {R : Type 0} → RpcClient → Body R → RpcClient × CallResult (Option R)
decode_body r malformed = (mark_sick r, failed bad_json)
decode_body r null_body = (r, panicked)
decode_body r (object (some (some message)) result) = (mark_sick r, failed (daemon_error message))
decode_body r (object (some none) result) = (mark_sick r, panicked)
decode_body r (object none result) = (r, done result)

unfoldable pub do_post : {R : Type 0} → RpcClient → Answer R → RpcClient × CallResult (Option R)
do_post r no_request = (r, failed bad_request)
do_post r no_response = (mark_sick r, failed transport)
do_post r (response status body) =
    if ltb status 200 || leb 400 status then (r, failed bad_status) else decode_body r body

-- The part that GetBlockTemplate, GetInfo, GetBlockCount and GetBlockHeaderByHeight share: `none`
-- is the nil reply of a response with no result. `unmarshal` is json.Unmarshal at the reply's type.
abbrev pub unmarshal_result :
    {R A : Type 0}
    → (R → Option A)
    → RpcClient × CallResult (Option R)
    → RpcClient × CallResult (Option A)
unmarshal_result unmarshal (r, failed e) = (r, failed e)
unmarshal_result unmarshal (r, panicked) = (r, panicked)
unmarshal_result unmarshal (r, done none) = (r, done none)
unmarshal_result unmarshal (r, done (some raw)) =
    (r, elim (unmarshal raw) [ none ↦ failed bad_result | some reply ↦ done (some reply) ])

unfoldable pub get_block_template :
    {R : Type 0}
    → (R → Option GetBlockTemplateReply)
    → RpcClient
    → Answer R
    → RpcClient × CallResult (Option GetBlockTemplateReply)
get_block_template unmarshal r answer = unmarshal_result unmarshal (do_post r answer)

unfoldable pub get_info :
    {R : Type 0}
    → (R → Option GetInfoReply)
    → RpcClient
    → Answer R
    → RpcClient × CallResult (Option GetInfoReply)
get_info unmarshal r answer = unmarshal_result unmarshal (do_post r answer)

unfoldable pub get_block_count :
    {R : Type 0}
    → (R → Option GetBlockCountReply)
    → RpcClient
    → Answer R
    → RpcClient × CallResult (Option GetBlockCountReply)
get_block_count unmarshal r answer = unmarshal_result unmarshal (do_post r answer)

unfoldable pub get_block_header_by_height :
    {R : Type 0}
    → (R → Option GetBlockHeaderReply)
    → RpcClient
    → Answer R
    → RpcClient × CallResult (Option GetBlockHeaderReply)
get_block_header_by_height unmarshal r answer = unmarshal_result unmarshal (do_post r answer)

unfoldable pub submit_block :
    {R : Type 0} → RpcClient → Answer R → RpcClient × CallResult (Option R)
submit_block r answer = do_post r answer

-- `Check`: any reply without an error counts, a nil one too.
abbrev pub check_result :
    RpcClient × CallResult (Option GetBlockTemplateReply) → RpcClient × CallResult Bool
check_result (r, failed e) = (r, failed e)
check_result (r, panicked) = (r, panicked)
check_result (r, done reply) = let r' = mark_alive r in (r', done (not r'.sick))

unfoldable pub check :
    {R : Type 0}
    → (R → Option GetBlockTemplateReply)
    → RpcClient
    → Answer R
    → RpcClient × CallResult Bool
unfolding get_block_template
check unmarshal r answer = check_result (get_block_template unmarshal r answer)

abbrev pub store_info :
    RpcClient × CallResult (Option GetInfoReply) → RpcClient × CallResult (Option GetInfoReply)
store_info (r, failed e) = (r, failed e)
store_info (r, panicked) = (r, panicked)
store_info (r, done reply) = (record r { info = reply }, done reply)

unfoldable pub update_info :
    {R : Type 0}
    → (R → Option GetInfoReply)
    → RpcClient
    → Answer R
    → RpcClient × CallResult (Option GetInfoReply)
unfolding get_info
update_info unmarshal r answer = store_info (get_info unmarshal r answer)
