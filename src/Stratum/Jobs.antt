-- ===== src/Stratum/Jobs.antt =====
-- stratum/miner.go: the jobs of a session.
pub mod Issue
pub mod Submissions
use xmrpool.Common.{
  ℕ, ◌+◌, Bool, true, false, Option, none, some, List, [], ◌∷◌, ◌++◌, ltb, if◌then◌else◌, length,
  drop,
}
use xmrpool.Common.Ints.{ℤ, pos, eqb_ℤ}
use xmrpool.Common.Words.{u32, u64}
use xmrpool.Common.Texts.{Bytes, codes, bytes_eq, hex_encode}
use xmrpool.Common.Decimal.{format_uint}
use xmrpool.Stratum.Types.{Job, BlockTemplate, Session, Endpoint, JobReplyData, Env}
use xmrpool.Stratum.Blob.{and_then, next_blob}

abbrev pub has_submission : Bytes → List Bytes → Bool
has_submission nonce [] = false
has_submission nonce (n ∷ ns) = if bytes_eq n nonce then true else has_submission nonce ns

-- The answer says whether the nonce was there before.
unfoldable pub submit : Bytes → Job → Bool × Job
submit nonce job =
    if has_submission nonce job.submissions
    then (true, job)
    else (false, record job { submissions = nonce ∷ job.submissions })

unfoldable pub push_job : Job → List Job → List Job
push_job job jobs =
    let longer = jobs ++ job ∷ [] in if ltb 4 (length longer) then drop 1 longer else longer

unfoldable pub find_job : Bytes → List Job → Option Job
find_job id [] = none
find_job id (job ∷ jobs) = if bytes_eq job.id id then some job else find_job id jobs

-- A write through the pointer that `findJob` returned.
unfoldable pub write_job : Bytes → Job → List Job → List Job
write_job id new [] = []
write_job id new (job ∷ jobs) =
    if bytes_eq job.id id then new ∷ jobs else job ∷ write_job id new jobs

abbrev pub empty_reply : JobReplyData
empty_reply = record {
  algo = [];
  blob = [];
  height = pos 0;
  job_id = [];
  target = [];
  seed_hash = [];
  next_seed_hash = [];
}

abbrev pub job_reply : BlockTemplate → Endpoint → Bytes → Bytes → JobReplyData
job_reply t e blob id = record {
  algo = codes "rx/0";
  blob = blob;
  height = t.height;
  job_id = id;
  target = e.target_hex;
  seed_hash = hex_encode t.seed_hash;
  next_seed_hash = hex_encode t.next_seed_hash;
}

abbrev pub new_job : BlockTemplate → Endpoint → Job
new_job t e = record {
  height = t.height;
  id = format_uint (u64 (e.job_sequence + 1));
  extra_nonce = u32 (e.extra_nonce + 1);
  submissions = [];
}

-- The reply, and the session and its endpoint after it; `none` is a slice out of range in `nextBlob`.
unfoldable pub get_job :
    Env → BlockTemplate → Session → Endpoint → Option (JobReplyData × Session × Endpoint)
get_job env t cs e =
    let seen = record cs { last_block_height = t.height } in
    let job = new_job t e in
    if eqb_ℤ cs.last_block_height t.height
    then some (empty_reply, seen, e)
    else and_then (next_blob env t job.extra_nonce e.instance_id) λ blob. some (
      job_reply t e blob job.id,
      record seen { valid_jobs = push_job job cs.valid_jobs },
      record e { extra_nonce = job.extra_nonce; job_sequence = u64 (e.job_sequence + 1) },
    )
