-- ===== src/Stratum/Refresh.antt =====
-- stratum/blocks.go fetchBlockTemplate and handlers.go broadcastNewJobs and refreshBlockTemplate.
pub mod Fetch
use xmrpool.Common.{
  ℕ, zero, suc, ◌<◌, Bool, true, false, not, ◌&&◌, Option, none, some, List, [], ◌∷◌, ltb, leb,
  ◌==◌, if◌then◌else◌, length, replicate,
}
use xmrpool.Common.Ints.{ℤ, pos, ltb_ℤ, ◌-ℤ◌}
use xmrpool.Common.Words.{wrap64, signed64}
use xmrpool.Common.Texts.{Bytes, bytes_eq, hex_prefix}
use xmrpool.Blocktemplate.Wire.{Result, ok, err, panicked as unpack_panicked}
use xmrpool.Blocktemplate.Crypto.{zero_hash}
use xmrpool.Blocktemplate.Transaction.{TxOutGen}
use xmrpool.Blocktemplate.Block.{BlockTemplateBlob, unpack_template_blob}
use xmrpool.Rpc.Client.{
  RpcClient, GetBlockTemplateReply, CallResult, done, failed, panicked, get_block_template,
}
use xmrpool.Stratum.Upstreams.{rpc}
use xmrpool.Stratum.Types.{
  BlockTemplate, Session, Endpoint, JobReplyData, Env, World, Run, returned, crashed, ◌>>=◌, ◌>>◌,
  pure, gets, modify, or_crash, ask, session_at, endpoint_at, put_session, put_endpoint,
}
use xmrpool.Stratum.Jobs.{get_job}

abbrev pub set_nth : {A : Type 0} → ℕ → A → List A → List A
set_nth i a [] = []
set_nth zero a (x ∷ xs) = a ∷ xs
set_nth (suc i) a (x ∷ xs) = x ∷ set_nth i a xs

-- A write through the pointer that `s.rpc()` returned.
abbrev pub put_rpc : RpcClient → World → Run (Unit {0})
put_rpc r = modify λ w. record w {
  upstreams = record (w.upstreams) {
    upstreams = set_nth w.upstreams.upstream r w.upstreams.upstreams;
  };
}

-- What the test on `prevHash` and the height decides: whether the template is a new one.
unfoldable pub is_new_template : Option BlockTemplate → GetBlockTemplateReply → Bool
is_new_template none reply = true
is_new_template (some t) reply =
    if bytes_eq t.prev_hash reply.prev_hash
    then (length reply.prev_hash == 0) && ltb_ℤ t.height reply.height
    else true

abbrev pub zero_blob : BlockTemplateBlob
zero_blob = record {
  block = record {
    block_header = record {
      major_version = 0;
      minor_version = 0;
      timestamp = 0;
      prev_id = zero_hash;
      nonce = 0;
    };
    miner_tx = record {
      version = 0;
      unlock_time = 0;
      vin = [];
      vout = [];
      extra = [];
      rct_sig_type = 0;
    };
    tx_hashes = [];
  };
}

-- `int64(Vout[0].Amount)`
abbrev pub first_amount : List TxOutGen → Option ℤ
first_amount [] = none
first_amount (o ∷ os) = some (signed64 o.amount)

-- The template that a reply and its block reward make.
abbrev pub template_of : GetBlockTemplateReply → ℤ → BlockTemplate
template_of reply reward = record {
  diff_int64 = reply.difficulty;
  height = reply.height;
  difficulty = reply.difficulty;
  reserved_offset = reply.reserved_offset;
  prev_hash = reply.prev_hash;
  buffer = hex_prefix reply.blob;
  seed_hash = hex_prefix reply.seed_hash;
  block_reward = reward;
  tx_total_fee = wrap64 (reply.expected_reward -ℤ reward);
  next_seed_hash = hex_prefix reply.next_seed_hash;
}

-- The checks on the unpacked blob: an output, and an expected reward that is not below it.
unfoldable pub checked_template : GetBlockTemplateReply → BlockTemplateBlob → Option BlockTemplate
checked_template reply blob = elim (first_amount blob.block.miner_tx.vout) [
  | none ↦ none
  | some reward ↦
      if ltb_ℤ reply.expected_reward reward then none else some (template_of reply reward)
]

unfoldable pub store_template : Option BlockTemplate → World → Run Bool
store_template none w = returned false w
store_template (some t) w = returned true (record w { block_template = some t })

abbrev pub install_unpacked :
    GetBlockTemplateReply → Result (BlockTemplateBlob × Bytes) → World → Run Bool
install_unpacked reply (ok (blob, rest)) w = store_template (checked_template reply blob) w
install_unpacked reply (err e) w = returned false w
install_unpacked reply unpack_panicked w = crashed

unfoldable pub install : Env → GetBlockTemplateReply → World → Run Bool
unfolding store_template checked_template
install env reply =
    install_unpacked reply (unpack_template_blob env.utility zero_blob (hex_prefix reply.blob))

-- A nil reply is dereferenced: the process panics.
abbrev pub on_reply : Env → CallResult (Option GetBlockTemplateReply) → World → Run Bool
on_reply env (failed e) w = returned false w
on_reply env panicked w = crashed
on_reply env (done none) w = crashed
on_reply env (done (some reply)) w =
    let new = install env reply w in
    if is_new_template w.block_template reply then new else returned false w

unfoldable pub fetch_block_template : Env → World → Run Bool
unfolding install is_new_template
fetch_block_template env = do
  r ← (λ w. or_crash (rpc w.upstreams) w)
  answer ← ask env.template_answer
  let (r', result) = get_block_template (λ (raw : Option GetBlockTemplateReply). raw) r answer
  put_rpc r'
  on_reply env result

abbrev pub remove_session : ℕ → List ℕ → List ℕ
remove_session sid [] = []
remove_session sid (s ∷ ss) =
    let rest = remove_session sid ss in if s == sid then rest else s ∷ rest

-- `getJob` on the objects in the store.
unfoldable pub issue_job : Env → BlockTemplate → ℕ → World → Run JobReplyData
issue_job env t sid = do
  cs ← session_at sid
  e ← endpoint_at cs.endpoint
  (reply, cs', e') ← or_crash (get_job env t cs e)
  put_session sid cs'
  put_endpoint cs.endpoint e'
  pure reply

-- The goroutine that broadcastNewJobs starts for one session: a push that fails removes the session. The
-- deadline that follows one that succeeds is left out: the state holds no deadlines.
unfoldable pub push_job_to : Env → BlockTemplate → ℕ → World → Run (Unit {0})
unfolding issue_job
push_job_to env t sid = do
  reply ← issue_job env t sid
  fails ← ask env.push_fails
  modify λ w. if fails then record w { sessions = remove_session sid w.sessions } else w

-- The goroutines one after another, in the order in which the map of sessions was walked.
unfoldable pub push_to_each : Env → BlockTemplate → List ℕ → World → Run (Unit {0})
push_to_each env t [] = pure tt
push_to_each env t (sid ∷ sids) = push_job_to env t sid >> push_to_each env t sids

unfoldable pub broadcast_new_jobs : Env → World → Run (Unit {0})
unfolding push_to_each
broadcast_new_jobs env w = elim w.block_template [
  | none ↦ returned tt w
  | some t ↦ push_to_each env t w.sessions w
]

unfoldable pub refresh_block_template : Env → Bool → World → Run (Unit {0})
unfolding fetch_block_template broadcast_new_jobs
refresh_block_template env bcast = do
  new_block ← fetch_block_template env
  (λ w. let jobs = broadcast_new_jobs env w in if new_block && bcast then jobs else returned tt w)
