-- ===== src/Stratum/Jobs/Submissions.antt =====
-- The nonces that stratum/miner.go keeps for each job of a session.
use xmrpool.Common.{◌≡◌, refl, ◌∙◌, true, some, List, [], ◌∷◌, arith, Bool-cases, inl, inr}
use xmrpool.Common.Texts.{Bytes, bytes_eq_iff, bytes_eq_refl}
use xmrpool.Stratum.Types.{Job}
use xmrpool.Stratum.Jobs.{has_submission, submit, find_job, write_job}

pub find_job-id :
    (id : Bytes) (jobs : List Job) (job : Job) → find_job id jobs ≡ some job → job.id ≡ id
unfolding find_job
find_job-id id [] job e = ground arith
find_job-id id (j ∷ jobs) job e = grind (arith, bytes_eq_iff j.id id, find_job-id id jobs job)

find_job-write_job :
    (id : Bytes) (new old : Job) (jobs : List Job)
    → new.id ≡ id
    → find_job id jobs ≡ some old
    → find_job id (write_job id new jobs) ≡ some new
unfolding find_job write_job
find_job-write_job id new old [] same e = ground arith
find_job-write_job id new old (j ∷ jobs) same e =
    ground
      (arith, bytes_eq_iff j.id id, bytes_eq_iff new.id id, find_job-write_job id new old jobs same)

find_job-write_job_other :
    (j id : Bytes) (new : Job) (jobs : List Job)
    → new.id ≡ id
    → ¬ (j ≡ id)
    → find_job j (write_job id new jobs) ≡ find_job j jobs
unfolding find_job write_job
find_job-write_job_other j id new [] same apart = refl
find_job-write_job_other j id new (x ∷ jobs) same apart = grind (
  arith,
  bytes_eq_iff x.id id,
  bytes_eq_iff x.id j,
  bytes_eq_iff new.id j,
  find_job-write_job_other j id new jobs same apart,
)

-- What submitting a nonce for a job of a list does.
pub record Submitted (id nonce : Bytes) (job : Job) (jobs : List Job) : Type 0 where
  pub was : (submit nonce job).0 ≡ has_submission nonce job.submissions
  pub found : find_job id (write_job id (submit nonce job).1 jobs) ≡ some (submit nonce job).1
  pub now : has_submission nonce (submit nonce job).1.submissions ≡ true
  pub others :
      (n : Bytes)
      → ¬ (n ≡ nonce)
      → has_submission n (submit nonce job).1.submissions ≡ has_submission n job.submissions
  pub height : (submit nonce job).1.height ≡ job.height
  pub extra_nonce : (submit nonce job).1.extra_nonce ≡ job.extra_nonce
  pub elsewhere :
      (j : Bytes)
      → ¬ (j ≡ id)
      → find_job j (write_job id (submit nonce job).1 jobs) ≡ find_job j jobs

submit-id : (nonce : Bytes) (job : Job) → (submit nonce job).1.id ≡ job.id
unfolding submit
submit-id nonce job = elim (Bool-cases (has_submission nonce job.submissions)) [
  | inl old ↦ rw old refl
  | inr new ↦ rw new refl
]

-- Submitting a nonce for the job that `find_job` finds under an id, and writing the job back: the answer
-- is whether the nonce was submitted before; afterwards the same id finds that job, with that nonce
-- submitted, with every other nonce as it was, and with its height and extra nonce unchanged; every
-- other id finds what it found.
pub submit-Submitted :
    (id nonce : Bytes) (job : Job) (jobs : List Job)
    → find_job id jobs ≡ some job
    → Submitted id nonce job jobs
unfolding submit
submit-Submitted id nonce job jobs e =
    let same = submit-id nonce job ∙ find_job-id id jobs job e in
    record {
      was = ground arith;
      found = find_job-write_job id (submit nonce job).1 job jobs same e;
      now = ground (arith, bytes_eq_refl nonce);
      others = λ n apart. ground (arith, bytes_eq_iff nonce n);
      height = ground arith;
      extra_nonce = ground arith;
      elsewhere = λ j apart. find_job-write_job_other j id (submit nonce job).1 jobs same apart;
    }
