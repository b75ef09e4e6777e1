-- ===== src/Api/Jobs/Exclusive.antt =====
-- internal/api/jobs.go: which jobs may run beside one another, in any order of the steps.
use clash_of_tokens.Base.{ℕ, ◌≤◌, String, ◌≡◌, true, some, length}
use clash_of_tokens.Api.Jobs.{
  Job, Jobs, Submission, is_running, Finish, no_jobs, job_at, admit_job, progress, cancel, expire,
  close, finish,
}
use clash_of_tokens.Api.Jobs.Counts.{count_on, count_running, occurrences}

-- A step of the process on its jobs, under the lock. A goroutine finishes its own job, once.
pub data Step (s : Jobs) : Jobs → Type 0 where
  submits :
      (id path : String) (revision : ℕ) (resource : String)
      → Step s (admit_job id path revision resource s).0
  progresses : (key : ℕ) (stage : String) → Step s (progress key stage s)
  cancels : (id : String) → Step s (cancel id s)
  expires : (key : ℕ) → Step s (expire key s)
  closes : Step s (close s)
  finishes :
      (job : Job) (f : Finish)
      → job_at job.key s.items ≡ some job
      → is_running job.state ≡ true
      → Step s (finish job f s)

pub data Reaches : Jobs → Type 0 where
  start : Reaches no_jobs
  next : {s t : Jobs} → Reaches s → Step s t → Reaches t

pub record Kept (s : Jobs) : Type 0 where
  pub few : length s.items ≤ 128
  pub active : length s.resources ≤ 4
  pub reserved : (r : String) → count_on r s.items ≡ occurrences r s.resources
  pub exclusive : (r : String) → occurrences r s.resources ≤ 1
  pub total : count_running s.items ≡ length s.resources

abbrev Admits : Jobs × Submission → Type 0
Admits (s, a) = Kept s
