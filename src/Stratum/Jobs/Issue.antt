-- ===== src/Stratum/Jobs/Issue.antt =====
-- What stratum/miner.go keeps of the jobs of a session: the four newest, under distinct ids.
use xmrpool.Common.{
  ℕ, ◌+◌, ◌-◌, ◌^◌, ◌≤◌, ◌<◌, ◌≡◌, refl, sym, ap, ◌∙◌, some, List, [], ◌∷◌, ◌++◌, arith, ltb,
  length, drop, length-append, length-drop, Bool-cases, inl, inr, All,
}
use xmrpool.Common.Ints.{eqb_ℤ}
use xmrpool.Common.Words.{u32, u64}
use xmrpool.Common.Texts.{Bytes, bytes_eq_iff, bytes_eq_refl}
use xmrpool.Common.Assoc.{eqb_ℤ_iff}
use xmrpool.Common.Decimal.{format_uint, format_uint-injective}
use xmrpool.Stratum.Types.{Job, BlockTemplate, Session, Endpoint, JobReplyData, Env}
use xmrpool.Stratum.Blob.{next_blob}
use xmrpool.Stratum.Jobs.{push_job, find_job, empty_reply, job_reply, new_job, get_job}

-- For a list of at most four jobs, `push_job` leaves the newest four of the list with the job behind it,
-- in their order, and so at most four.
push_job-newest :
    (job : Job) (jobs : List Job)
    → length jobs ≤ 4
    → (push_job job jobs ≡ drop (length jobs + 1 - 4) (jobs ++ job ∷ []))
      × (length (push_job job jobs) ≤ 4)
unfolding push_job
push_job-newest job jobs h = elim (Bool-cases (ltb 4 (length (jobs ++ job ∷ [])))) [
  | inl over ↦
      (let one : 1 ≡ length jobs + 1 - 4 = ground (arith, length-append jobs (job ∷ [])) in
        (
          rw over (ap (λ (k : ℕ). drop k (jobs ++ job ∷ [])) one),
          rw over
              (omega (arith, length-drop 1 (jobs ++ job ∷ []), length-append jobs (job ∷ []), h)),
        ))
  | inr fits ↦
      (let none_over : 0 ≡ length jobs + 1 - 4 = ground (arith, length-append jobs (job ∷ [])) in
        (
          rw fits (ap (λ (k : ℕ). drop k (jobs ++ job ∷ [])) none_over),
          rw fits (ground (arith, length-append jobs (job ∷ []))),
        ))
]

-- Jobs whose ids are the decimal forms of numbers up to n.
abbrev pub IssuedBy : ℕ → Job → Type 0
IssuedBy n job = (k : ℕ) × (job.id ≡ format_uint k) × (k ≤ n)

-- At most four jobs, whose ids an endpoint with this sequence number gave out.
pub record Issued (jobs : List Job) (sequence : ℕ) : Type 0 where
  pub few : length jobs ≤ 4
  pub ids : All (IssuedBy sequence) jobs

All-later : (n m : ℕ) (jobs : List Job) → n ≤ m → All (IssuedBy n) jobs → All (IssuedBy m) jobs
All-later n m [] h a = tt
All-later n m (job ∷ jobs) h ((k, is, le), rest) =
    ((k, is, omega (arith, le, h)), All-later n m jobs h rest)

-- What was issued stays so while other sessions of the endpoint take numbers.
pub Issued-later : (n m : ℕ) (jobs : List Job) → n ≤ m → Issued jobs n → Issued jobs m
Issued-later n m jobs h i = record { few = i.few; ids = All-later n m jobs h i.ids }

All-append_one :
    (n : ℕ) (jobs : List Job) (job : Job)
    → All (IssuedBy n) jobs
    → IssuedBy n job
    → All (IssuedBy n) (jobs ++ job ∷ [])
All-append_one n [] job a p = (p, tt)
All-append_one n (j ∷ jobs) job (q, a) p = (q, All-append_one n jobs job a p)

All-tail : (n : ℕ) (jobs : List Job) → All (IssuedBy n) jobs → All (IssuedBy n) (drop 1 jobs)
All-tail n [] a = tt
All-tail n (j ∷ jobs) (q, a) = a

push_job-All :
    (n : ℕ) (job : Job) (jobs : List Job)
    → All (IssuedBy n) jobs
    → IssuedBy n job
    → All (IssuedBy n) (push_job job jobs)
unfolding push_job
push_job-All n job jobs a p = elim (Bool-cases (ltb 4 (length (jobs ++ job ∷ [])))) [
  | inl over ↦ rw over (All-tail n (jobs ++ job ∷ []) (All-append_one n jobs job a p))
  | inr fits ↦ rw fits (All-append_one n jobs job a p)
]

-- A number that is not given out yet is the id of no job.
find_job-fresh :
    (n : ℕ) (job : Job) (jobs : List Job)
    → n + 1 < 2 ^ 64
    → job.id ≡ format_uint (n + 1)
    → All (IssuedBy n) jobs
    → find_job job.id (jobs ++ job ∷ []) ≡ some job
unfolding find_job
find_job-fresh n job [] bound is a = ground (arith, bytes_eq_refl job.id)
find_job-fresh n job (j ∷ jobs) bound is ((k, is', le), a) =
    let apart : ¬ (j.id ≡ job.id) = λ e. omega (
      arith,
      format_uint-injective k (n + 1) (omega (arith, le, bound)) bound (sym is' ∙ e ∙ is),
      le,
    ) in
    ground (arith, bytes_eq_iff j.id job.id, find_job-fresh n job jobs bound is a)

find_job-push_job :
    (n : ℕ) (job : Job) (jobs : List Job)
    → n + 1 < 2 ^ 64
    → job.id ≡ format_uint (n + 1)
    → All (IssuedBy n) jobs
    → find_job job.id (push_job job jobs) ≡ some job
unfolding push_job find_job
find_job-push_job n job [] bound is a = find_job-fresh n job [] bound is tt
find_job-push_job n job (j ∷ jobs) bound is (q, a) =
    elim (Bool-cases (ltb 4 (length (j ∷ jobs ++ job ∷ [])))) [
      | inl over ↦ rw over (find_job-fresh n job jobs bound is a)
      | inr fits ↦ rw fits (find_job-fresh n job (j ∷ jobs) bound is (q, a))
    ]

-- What a call of `get_job` did, by the height that the session saw last.
pub data GotJob (t : BlockTemplate) (cs : Session) (e : Endpoint) (reply : JobReplyData)
    (cs' : Session) (e' : Endpoint) : Type 0 where
  nothing_new :
      cs.last_block_height ≡ t.height
      → reply ≡ empty_reply
      → cs'.valid_jobs ≡ cs.valid_jobs
      → e' ≡ e
      → GotJob t cs e reply cs' e'
  job_made :
      ¬ (cs.last_block_height ≡ t.height)
      → find_job reply.job_id cs'.valid_jobs ≡ some (new_job t e)
      → e'.extra_nonce ≡ u32 (e.extra_nonce + 1)
      → reply.height ≡ t.height
      → GotJob t cs e reply cs' e'

pub record GetJobKeeps (t : BlockTemplate) (cs : Session) (e : Endpoint) (reply : JobReplyData)
    (cs' : Session) (e' : Endpoint) : Type 0 where
  pub issued : Issued cs'.valid_jobs e'.job_sequence
  pub seen : cs'.last_block_height ≡ t.height
  pub what : GotJob t cs e reply cs' e'

-- Given a blob, and at most four jobs with ids that the endpoint gave out before, whose sequence number
-- is not about to wrap around, `get_job` returns, and its result has at most four such jobs again and
-- remembers the height of the template. If the session had that height already, the reply is empty, and
-- the jobs and the endpoint are as before; else the id in the reply finds, among the jobs of the session,
-- the new job, made for the height of the template and with the extra nonce after the endpoint's last.
pub get_job-Issued :
    (env : Env) (t : BlockTemplate) (cs : Session) (e : Endpoint) (blob : Bytes)
    → next_blob env t (u32 (e.extra_nonce + 1)) e.instance_id ≡ some blob
    → e.job_sequence + 1 < 2 ^ 64
    → Issued cs.valid_jobs e.job_sequence
    → ((reply : JobReplyData) × (cs' : Session) × (e' : Endpoint) × (get_job env t cs e
          ≡ some (reply, cs', e'))
        × GetJobKeeps t cs e reply cs' e')
unfolding get_job
get_job-Issued env t cs e blob made bound i =
    elim (Bool-cases (eqb_ℤ cs.last_block_height t.height)) [
      | inl same ↦ (
        empty_reply,
        record cs { last_block_height = t.height },
        e,
        rw same refl,
        record {
          issued = i;
          seen = refl;
          what = nothing_new ((eqb_ℤ_iff cs.last_block_height t.height).0 same) refl refl refl;
        },
      )
      | inr differ ↦
          (let job = new_job t e in
            let next : u64 (e.job_sequence + 1) ≡ e.job_sequence + 1 = omega (arith, bound) in
            let is : job.id ≡ format_uint (e.job_sequence + 1) = ap format_uint next in
            (
              job_reply t e blob job.id,
              record cs { last_block_height = t.height; valid_jobs = push_job job cs.valid_jobs },
              record e { extra_nonce = job.extra_nonce; job_sequence = u64 (e.job_sequence + 1) },
              rw (differ, made) refl,
              record {
                issued = record {
                  few = (push_job-newest job cs.valid_jobs i.few).1;
                  ids =
                      push_job-All (u64 (e.job_sequence + 1)) job cs.valid_jobs
                        (All-later e.job_sequence (u64 (e.job_sequence + 1)) cs.valid_jobs
                          (omega (arith, next)) i.ids)
                        (u64 (e.job_sequence + 1), refl, omega arith);
                };
                seen = refl;
                what =
                    job_made (λ h. ground (arith, eqb_ℤ_iff cs.last_block_height t.height))
                      (find_job-push_job e.job_sequence job cs.valid_jobs bound is i.ids) refl refl;
              },
            ))
    ]
