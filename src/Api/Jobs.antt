-- ===== src/Api/Jobs.antt =====
-- internal/api/jobs.go: the management jobs, with what is done of one under the lock at a time.
--
-- A job is a Go object that its goroutine shares with the list: its `key` stands for the pointer.
-- Times are left out. The context of a job ends once, by its deadline or by a call of cancel.
pub mod Counts
pub mod Exclusive
use clash_of_tokens.Base.{
  ℕ, suc, ◌+◌, String, Bool, true, false, not, ◌&&◌, ◌||◌, List, [], ◌∷◌, ◌++◌, Option, none, some,
  ltb, leb, eqb, ◌==◌, if◌then◌else◌, length, contains, find, starts_with,
}
use clash_of_tokens.Protocol.Usage.{bytes_equal}
use clash_of_tokens.Routing.Preferences.{has_suffix}

pub data JobState : Type 0 where
  running completed failed timed_out canceled stale : JobState

abbrev pub state_text : JobState → String
state_text running = "running"
state_text completed = "completed"
state_text failed = "failed"
state_text timed_out = "timed_out"
state_text canceled = "canceled"
state_text stale = "stale"

abbrev pub is_running : JobState → Bool
is_running running = true
is_running completed = false
is_running failed = false
is_running timed_out = false
is_running canceled = false
is_running stale = false

pub data ContextError : Type 0 where
  deadline_exceeded context_canceled : ContextError

pub record JobEvent : Type 0 where
  pub sequence : ℕ
  pub stage : String

pub record Job : Type 0 where
  pub key : ℕ
  pub id : String
  pub path : String
  pub state : JobState
  pub revision : ℕ
  pub status : ℕ
  pub result : Option (List ℕ)
  pub events : List JobEvent
  pub stage : String
  pub has_cancel : Bool
  pub resource : String
  pub context : Option ContextError

pub record Jobs : Type 0 where
  pub items : List Job
  pub closed : Bool
  pub resources : List String
  pub next_key : ℕ

abbrev pub no_jobs : Jobs
no_jobs = record { items = []; closed = false; resources = []; next_key = 0 }

abbrev pub max_jobs : ℕ
max_jobs = 128

abbrev pub max_active : ℕ
max_active = 4

-- The first job at a pointer, and a write through it.
unfoldable pub job_at : ℕ → List Job → Option Job
job_at key [] = none
job_at key (j ∷ js) = if eqb j.key key then some j else job_at key js

unfoldable pub write_job : ℕ → (Job → Job) → List Job → List Job
write_job key f [] = []
write_job key f (j ∷ js) = if eqb j.key key then f j ∷ js else j ∷ write_job key f js

-- delete(resources, resource).
unfoldable pub delete_resource : String → List String → List String
delete_resource r [] = []
delete_resource r (x ∷ xs) = let rest = delete_resource r xs in if x == r then rest else x ∷ rest

-- The oldest job that has ended makes room.
unfoldable pub evict : List Job → List Job
evict [] = []
evict (j ∷ js) = if is_running j.state then j ∷ evict js else js

abbrev pub new_job : ℕ → String → String → ℕ → String → Job
new_job key id path revision resource = record {
  key = key;
  id = id;
  path = path;
  state = running;
  revision = revision;
  status = 0;
  result = none;
  events = record { sequence = 1; stage = "accepted" } ∷ [];
  stage = "accepted";
  has_cancel = true;
  resource = resource;
  context = none;
}

pub data Submission : Type 0 where
  accepted : Job → Submission
  resource_busy capacity_exhausted : Submission

abbrev pub make_room : List Job → List Job
make_room items = if leb max_jobs (length items) then evict items else items

-- The part of jobsAdmin that admits a job, between Lock and Unlock.
unfoldable pub admit_job : String → String → ℕ → String → Jobs → Jobs × Submission
unfolding evict
admit_job id path revision resource jobs =
    let job = new_job jobs.next_key id path revision resource in
    if contains jobs.resources resource
    then (jobs, resource_busy)
    else if jobs.closed || leb max_active (length jobs.resources)
    then (jobs, capacity_exhausted)
    else (
      record jobs {
        resources = resource ∷ jobs.resources;
        items = make_room jobs.items ++ (job ∷ []);
        next_key = suc jobs.next_key;
      },
      accepted job,
    )

abbrev pub add_event : String → Job → Job
add_event stage j = record j {
  events = j.events ++ (record { sequence = length j.events + 1; stage = stage } ∷ []);
}

-- outcome.progress.
abbrev pub progressed : String → Job → Job
progressed stage j =
    if ltb (length j.events) 15
    then add_event stage (record j { stage = stage })
    else record j { stage = stage }

unfoldable pub progress : ℕ → String → Jobs → Jobs
unfolding write_job
progress key stage jobs = record jobs { items = write_job key (progressed stage) jobs.items }

abbrev pub end_context : ContextError → Option ContextError → Option ContextError
end_context e none = some e
end_context e (some c) = some c

-- `if job.cancel != nil { job.cancel() }`.
abbrev pub cancel_job : Job → Job
cancel_job j =
    if j.has_cancel then record j { context = end_context context_canceled j.context } else j

-- A DELETE of the job with an ID.
unfoldable pub cancel : String → Jobs → Jobs
unfolding write_job
cancel id jobs = elim (find (λ j. j.id == id) jobs.items) [
  | none ↦ jobs
  | some job ↦ record jobs { items = write_job job.key cancel_job jobs.items }
]

-- The deadline of a job's context.
unfoldable pub expire : ℕ → Jobs → Jobs
unfolding write_job
expire key jobs = record jobs {
  items =
      write_job key (λ j. record j { context = end_context deadline_exceeded j.context })
        jobs.items;
}

abbrev pub cancel_all : List Job → List Job
cancel_all [] = []
cancel_all (j ∷ js) = cancel_job j ∷ cancel_all js

unfoldable pub close : Jobs → Jobs
close jobs = record jobs { closed = true; items = cancel_all jobs.items }

-- What a job's HTTP handler has written.
pub record JobResponse : Type 0 where
  pub status : ℕ
  pub body : List ℕ
  pub overflow : Bool

unfoldable pub write_header : ℕ → JobResponse → JobResponse
write_header status r = if eqb r.status 0 then record r { status = status } else r

-- Write returns the number of bytes written; `none` is io.ErrShortBuffer.
unfoldable pub write_body : List ℕ → JobResponse → JobResponse × Option ℕ
write_body b r =
    let r' = if eqb r.status 0 then record r { status = 200 } else r in
    if ltb 1_048_576 (length r.body + length b)
    then (record r' { overflow = true }, none)
    else (record r' { body = r.body ++ b }, some (length b))

pub record OperationVersion : Type 0 where
  pub revision : ℕ
  pub vault : List ℕ

unfoldable pub same_version : OperationVersion → OperationVersion → Bool
unfolding bytes_equal
same_version a b = eqb a.revision b.revision && bytes_equal a.vault b.vault

-- What the deferred function of runManagementJob finds when the handler has returned: the panic, the
-- response, the version that the operation committed, the version of the request and the current one,
-- the credentials of the vault with their versions, and what encoding/json makes of the body: the
-- credential that it names, and whether it is valid.
pub record Finish : Type 0 where
  pub panicked : Bool
  pub response : JobResponse
  pub committed : Option OperationVersion
  pub version : OperationVersion
  pub current : OperationVersion
  pub vault : List (String × ℕ)
  pub named : Option (String × ℕ)
  pub valid_json : Bool

abbrev pub some_version : Option OperationVersion → Bool
some_version none = false
some_version (some v) = true

abbrev pub is_committed : Finish → Bool
is_committed f = some_version f.committed && ltb f.response.status 400

abbrev pub version_or : Option OperationVersion → OperationVersion → OperationVersion
version_or none v = v
version_or (some w) v = w

abbrev pub expected_version : Finish → OperationVersion
expected_version f = if is_committed f then version_or f.committed f.version else f.version

-- A path on which a credential may be refreshed.
unfoldable pub may_refresh : String → Bool
unfolding has_suffix
may_refresh path =
    (starts_with path "/admin/credentials/" && has_suffix path "/refresh")
    || path == "/admin/credentials/import-browser"

unfoldable pub holds_credential : List (String × ℕ) → Option (String × ℕ) → Bool
holds_credential vault none = false
holds_credential [] (some named) = false
holds_credential ((id, version) ∷ rest) (some named) =
    (id == named.0 && eqb version named.1) || holds_credential rest (some named)

unfoldable pub own_refresh : String → Finish → Bool
unfolding may_refresh holds_credential
own_refresh path f =
    may_refresh path
    && (eqb f.response.status 200
        && (eqb f.current.revision (expected_version f).revision
            && holds_credential f.vault f.named))

abbrev pub timed_out_by : Option ContextError → Bool
timed_out_by none = false
timed_out_by (some deadline_exceeded) = true
timed_out_by (some context_canceled) = false

abbrev pub ended_by : Option ContextError → Bool
ended_by none = false
ended_by (some e) = true

-- The state that the job ends in.
unfoldable pub verdict : String → Option ContextError → Finish → JobState
unfolding same_version own_refresh
verdict path context f =
    if f.panicked || f.response.overflow
    then failed
    else if timed_out_by context && not (is_committed f)
    then timed_out
    else if ended_by context && not (is_committed f)
    then canceled
    else if not (same_version f.current (expected_version f)) && not (own_refresh path f)
    then stale
    else if leb 400 f.response.status
    then failed
    else completed

abbrev pub keeps_result : JobState → Finish → Bool
keeps_result completed f = true
keeps_result failed f = not f.panicked && not f.response.overflow
keeps_result running f = false
keeps_result timed_out f = false
keeps_result canceled f = false
keeps_result stale f = false

unfoldable pub finished : Finish → Job → Job
unfolding verdict
finished f j =
    let state = verdict j.path j.context f in
    add_event (state_text state) (record j {
      status = if f.panicked || f.response.overflow then 500 else f.response.status;
      state = state;
      result = if keeps_result state f && f.valid_json then some f.response.body else j.result;
      stage = state_text state;
      has_cancel = false;
      context = end_context context_canceled j.context;
    })

-- The deferred function, between Lock and Unlock, for the goroutine's own job.
unfoldable pub finish : Job → Finish → Jobs → Jobs
unfolding finished delete_resource write_job
finish job f jobs = record jobs {
  resources = delete_resource job.resource jobs.resources;
  items = write_job job.key (finished f) jobs.items;
}
