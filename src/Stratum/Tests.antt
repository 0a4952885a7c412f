-- ===== src/Stratum/Tests.antt =====
-- Runs of the mining server, and its theorems at concrete inputs.
mod Parts
mod Rates
mod Lines
mod Pages
use xmrpool.Common.{
  ℕ, zero, suc, ◌+◌, ◌-◌, ◌≤◌, ◌≡◌, refl, ap, Bool, true, false, ◌&&◌, Option, none, some, List, [],
  ◌∷◌, ◌++◌, arith, leb, if◌then◌else◌, length, drop, replicate,
}
use xmrpool.Common.Ints.{ℤ, pos}
use xmrpool.Common.Assoc.{nat_key, bytes_key, int_key, lookup, insert}
use xmrpool.Common.Texts.{Bytes, codes, hex_encode, hex_prefix, bytes_eq}
use xmrpool.Blocktemplate.Wire.{ok}
use xmrpool.Blocktemplate.Block.{BtcUtility}
use xmrpool.Rpc.Client.{
  GetBlockTemplateReply, new_client, Answer, no_response, response, object, check,
  get_block_template, do_post, mark_sick, mark_alive,
}
use xmrpool.Stratum.Upstreams.{
  Upstreams, running, fatal_exit, window, all_true, record_state, check_upstreams,
}
use xmrpool.Stratum.Upstreams.Choice.{
  first_passing, checked, latest, check_upstreams-first_passing, record_state-latest,
}
use xmrpool.Stratum.MinersMap.{MinersMap, get, set, has, remove, count, iter, new_miners_map}
use xmrpool.Stratum.MinersMap.Refinement.{IsSharded, get-set-remove}
use xmrpool.Stratum.Types.{
  Job, Miner, BlockTemplate, Session, Endpoint, SubmitParams, JobReplyData, stored, Env, World, Run,
  returned, crashed,
}
use xmrpool.Stratum.Blob.{next_blob}
use xmrpool.Stratum.Jobs.{push_job, get_job}
use xmrpool.Stratum.Blob.Layout.{SameBlob, share_buffer-next_blob}
use xmrpool.Stratum.Jobs.Issue.{Issued, GetJobKeeps, get_job-Issued}
use xmrpool.Stratum.Jobs.Submissions.{Submitted, submit-Submitted}
use xmrpool.Stratum.Refresh.{fetch_block_template}
use xmrpool.Stratum.Refresh.Fetch.{Fetched, fetch_block_template-Fetched}
use xmrpool.Stratum.Runs.{continue}
use xmrpool.Stratum.Share.{write_normal_share}
use xmrpool.Stratum.Share.Books.{Booked, write_normal_share-Booked}
use xmrpool.Stratum.Messages.{
  JsonRpcReq, Unmarshal, status, send_result, respond, dispatch, handle_message,
}
use xmrpool.Stratum.Messages.Kept.{KeptReply, handle_message-KeptReply}
use xmrpool.Stratum.Handlers.Logins.{Split, extract_worker_id-Split}
use xmrpool.Stratum.Handlers.{Reply, accepted, refused, new_miner, handle_submit}
use xmrpool.Stratum.Handlers.Submits.{AcceptedSubmit, handle_submit-accepted}
use xmrpool.Stratum.Handlers.Duplicates.{after_duplicate, handle_submit-duplicate}

abbrev nothing_special : BtcUtility
nothing_special = record {
  convert_uint32_to_little_endian = λ x. x;
  convert_uint32_from_little_endian = λ x. x;
  dump_uint32_to_bytes = λ x. [];
  load_uint32_from_bytes = λ bs. 0;
  assert = λ b. ok tt;
}

-- A hash of difficulty 255.
abbrev share_of_255 : Bytes
share_of_255 = replicate 31 0 ++ (1 ∷ [])

abbrev pub env : Env
env = record {
  config = record {
    address = codes "4A";
    bypass_address_validation = true;
    bypass_share_validation = false;
  };
  make_timestamp = λ n. pos 1700000000000;
  template_answer = λ n. no_response;
  submit_answer = λ n. no_response;
  stored = λ n. stored;
  write_fails = λ n. false;
  push_fails = λ n. false;
  validate_address = λ a. true;
  convert_blob = λ b. b;
  rx_hash = λ blob seed. share_of_255;
  cryptonight_fast_hash = λ b. b;
  utility = nothing_special;
}

abbrev pub template : BlockTemplate
template = record {
  diff_int64 = pos 1000;
  height = pos 3000000;
  difficulty = pos 1000;
  reserved_offset = pos 60;
  prev_hash = codes "ab";
  buffer = replicate 80 0;
  seed_hash = 1 ∷ 2 ∷ [];
  block_reward = pos 600;
  tx_total_fee = pos 5;
  next_seed_hash = [];
}

abbrev job : Job
job = record { height = pos 3000000; id = codes "1"; extra_nonce = 7; submissions = [] }

abbrev session : Session
session = record {
  last_block_height = pos 2999999;
  ip = [];
  login = codes "4A";
  id = codes "w";
  endpoint = 0;
  valid_jobs = job ∷ [];
}

abbrev endpoint : Endpoint
endpoint = record {
  job_sequence = 1;
  config_difficulty = pos 100;
  difficulty = pos 100;
  instance_id = 9 ∷ 8 ∷ 7 ∷ 6 ∷ [];
  extra_nonce = 7;
  target_hex = [];
}

abbrev pub world : World
world = record {
  miners = set (codes "w") (new_miner (codes "w") []) new_miners_map;
  block_template = some template;
  round_shares = pos 0;
  block_stats = [];
  upstreams = record { upstream = 0; upstreams = new_client [] ∷ []; upstreams_states = [] };
  sessions = 0 ∷ [];
  session_of = (0, session) ∷ [];
  endpoint_of = (0, endpoint) ∷ [];
  ticks = 0;
  calls = [];
}

abbrev nonce : Bytes
nonce = codes "0a0b0c0d"

abbrev params : SubmitParams
params = record {
  id = codes "w";
  job_id = codes "1";
  nonce = nonce;
  result = hex_encode share_of_255;
}

abbrev state_after : {A : Type 0} → Run A → World
state_after (returned a w) = w
state_after crashed = world

abbrev after_share : World
after_share = state_after (handle_submit env 0 params world)

share_taken : handle_submit env 0 params world ≡ returned (accepted tt) after_share
unfolding handle_submit xmrpool.Stratum.Handlers.after_nonce xmrpool.Stratum.Handlers.submit_for
    xmrpool.Stratum.Handlers.submit_fresh xmrpool.Stratum.Handlers.submit_job
    xmrpool.Stratum.Handlers.submit_to xmrpool.Stratum.Handlers.is_nonce
    xmrpool.Stratum.MinersMap.get set new_miners_map xmrpool.Stratum.MinersMap.shard_index
    xmrpool.Stratum.MinersMap.fnv32 xmrpool.Stratum.MinersMap.get_shard lookup insert
    xmrpool.Stratum.Jobs.find_job xmrpool.Stratum.Jobs.submit xmrpool.Stratum.Jobs.write_job
    xmrpool.Stratum.Share.process_share xmrpool.Stratum.Share.write_normal_share
    xmrpool.Stratum.Share.credit xmrpool.Stratum.Share.grade xmrpool.Stratum.Share.judge
    xmrpool.Stratum.Share.rx_hash_of xmrpool.Stratum.Share.share_hash xmrpool.Stratum.Upstreams.rpc
    xmrpool.Stratum.Blob.share_buffer xmrpool.Stratum.Blob.reserve xmrpool.Stratum.Blob.copy_from
    xmrpool.Stratum.Blob.copy_range hex_encode hex_prefix
    xmrpool.Util.Difficulty.get_hash_difficulty xmrpool.Util.Difficulty.reverse
    xmrpool.Util.Difficulty.set_bytes xmrpool.Common.Ints.◌+ℤ◌ xmrpool.Common.Words.wrap64
share_taken = refl

handle_submit-accepted_example : AcceptedSubmit env 0 params world
handle_submit-accepted_example = handle_submit-accepted env 0 params world after_share share_taken

abbrev seen_job : Job
seen_job = record job { submissions = nonce ∷ [] }

abbrev seen_session : Session
seen_session = record session { valid_jobs = seen_job ∷ [] }

abbrev seen_world : World
seen_world = record world { session_of = (0, seen_session) ∷ [] }

miner_known : get (codes "w") seen_world.miners ≡ some (new_miner (codes "w") [])
unfolding get set new_miners_map xmrpool.Stratum.MinersMap.shard_index
    xmrpool.Stratum.MinersMap.fnv32 xmrpool.Stratum.MinersMap.get_shard lookup insert
miner_known = refl

handle_submit-duplicate_example :
    (ms : MinersMap Miner) × (handle_submit env 0 params seen_world
      ≡ returned
          (refused (codes "Duplicate share"))
          (after_duplicate env 0 params ms seen_session seen_job seen_world))
unfolding lookup xmrpool.Stratum.Jobs.find_job xmrpool.Stratum.Handlers.is_nonce
handle_submit-duplicate_example =
    handle_submit-duplicate env 0 params seen_world (new_miner (codes "w") []) seen_session endpoint
      seen_job miner_known refl refl refl refl refl

share_buffer-next_blob_example : SameBlob env template 60 job endpoint nonce
unfolding hex_prefix
share_buffer-next_blob_example =
    share_buffer-next_blob env template 60 job endpoint nonce refl (omega arith) (omega arith) refl
      refl

submit-Submitted_example : Submitted (codes "1") nonce job (job ∷ [])
unfolding xmrpool.Stratum.Jobs.find_job
submit-Submitted_example = submit-Submitted (codes "1") nonce job (job ∷ []) refl

one-Issued : Issued session.valid_jobs endpoint.job_sequence
unfolding xmrpool.Common.Decimal.format_uint xmrpool.Common.Decimal.digits_before
one-Issued = record { few = omega arith; ids = ((1, refl, omega arith), tt) }

abbrev blob_sent : Bytes
blob_sent = hex_encode (replicate 60 0 ++ (0 ∷ 0 ∷ 0 ∷ 8 ∷ 9 ∷ 8 ∷ 7 ∷ 6 ∷ replicate 12 0))

blob_is : next_blob env template 8 endpoint.instance_id ≡ some blob_sent
unfolding next_blob xmrpool.Stratum.Blob.reserve xmrpool.Stratum.Blob.copy_from
    xmrpool.Stratum.Blob.copy_range hex_encode
blob_is = refl

get_job-Issued_example :
    (reply : JobReplyData) × (cs' : Session) × (e' : Endpoint) × (get_job env template session
        endpoint
      ≡ some (reply, cs', e'))
    × GetJobKeeps template session endpoint reply cs' e'
get_job-Issued_example =
    get_job-Issued env template session endpoint blob_sent blob_is (omega arith) one-Issued

-- A block with a coinbase output of 100.
abbrev pub block_bytes : Bytes
block_bytes =
    16
    ∷ 16
    ∷ 1
    ∷ (replicate 36 0 ++ (2 ∷ 60 ∷ 1 ∷ 5 ∷ 1 ∷ 100 ∷ (replicate 33 0 ++ (9 ∷ 0 ∷ 0 ∷ 0 ∷ []))))

abbrev pub good_reply : GetBlockTemplateReply
good_reply = record {
  difficulty = pos 1000;
  height = pos 3000001;
  blob = hex_encode block_bytes;
  reserved_offset = pos 60;
  prev_hash = codes "cd";
  expected_reward = pos 110;
  seed_hash = [];
  next_seed_hash = [];
}

abbrev fetch_env : Env
fetch_env = record env {
  template_answer = λ n. response 200 (object none (some (some good_reply)));
}

abbrev after_fetch : World
after_fetch = state_after (fetch_block_template fetch_env world)

template_fetched : fetch_block_template fetch_env world ≡ returned true after_fetch
unfolding fetch_block_template xmrpool.Stratum.Upstreams.rpc get_block_template do_post hex_prefix
    hex_encode xmrpool.Blocktemplate.Block.unpack_template_blob
    xmrpool.Blocktemplate.Block.unpack_block xmrpool.Blocktemplate.Block.unpack_header
    xmrpool.Blocktemplate.VarInt.unpack_var_int xmrpool.Blocktemplate.Crypto.unpack_hash
    xmrpool.Blocktemplate.Wire.read_into xmrpool.Blocktemplate.Wire.read
    xmrpool.Blocktemplate.Block.unpack_u32 xmrpool.Blocktemplate.Transaction.unpack_miner_tx
    xmrpool.Blocktemplate.Wire.make_slice xmrpool.Blocktemplate.Loops.unpack_each
    xmrpool.Blocktemplate.Transaction.unpack_tx_in xmrpool.Blocktemplate.Crypto.unpack_pub_key
    xmrpool.Blocktemplate.Transaction.unpack_tx_out xmrpool.Blocktemplate.VarInt.read_groups
    xmrpool.Blocktemplate.VarInt.sum_groups xmrpool.Common.Ints.◌+ℤ◌ xmrpool.Common.Ints.◌-ℤ◌
    xmrpool.Common.Words.wrap64 xmrpool.Stratum.Refresh.checked_template
    xmrpool.Stratum.Refresh.install xmrpool.Stratum.Refresh.is_new_template
    xmrpool.Stratum.Refresh.store_template
template_fetched = refl

fetch_block_template-Fetched_example : Fetched fetch_env world after_fetch true
fetch_block_template-Fetched_example =
    fetch_block_template-Fetched fetch_env world after_fetch true template_fetched

-- Parameters that are decoded already.
abbrev pub decoded : Unmarshal SubmitParams
decoded = record { login = λ p. some p.id; get_job = λ p. some p.id; submit = λ p. some p }

abbrev submit_request : JsonRpcReq SubmitParams
submit_request = record { id = some (codes "1"); method = codes "submit"; params = some params }

abbrev after_request : World
after_request = record after_share { ticks = suc after_share.ticks }

request_answered :
    handle_message env 0 decoded submit_request world
    ≡ returned (status (codes "OK"), false) after_request
unfolding handle_message dispatch send_result
request_answered =
    ap (λ (r : Run (Reply (Unit {0}))). continue (respond env (λ u. status (codes "OK")) false) r)
      share_taken

handle_message-KeptReply_example :
    ((id : Bytes) × (submit_request.id ≡ some id))
    × ((p : SubmitParams) × (submit_request.params ≡ some p))
    × KeptReply submit_request.method (status (codes "OK"))
handle_message-KeptReply_example =
    handle_message-KeptReply env 0 decoded submit_request (status (codes "OK")) world after_request
      request_answered

write_normal_share-Booked_example :
    (b : Bool) × (w' : World) × (write_normal_share env
        (codes "w")
        session
        endpoint
        template
        (nonce ∷ [])
        world
      ≡ returned b w')
    × (w'.block_template ≡ world.block_template)
    × (w'.sessions ≡ world.sessions)
    × (w'.session_of ≡ world.session_of)
    × Booked env (codes "w") session endpoint template (nonce ∷ []) world w' b
write_normal_share-Booked_example =
    write_normal_share-Booked env (codes "w") session endpoint template (nonce ∷ []) world
