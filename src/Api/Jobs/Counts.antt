-- ===== src/Api/Jobs/Counts.antt =====
-- internal/api/jobs.go: how many jobs run, and on which resources, after each change of the list.
use clash_of_tokens.Base.{
  ℕ, suc, ◌+◌, ◌≤◌, ◌<◌, String, ◌≡◌, refl, sym, ap, ◌∙◌, inl, inr, Bool, true, false, not, ◌&&◌,
  ◌||◌, List, [], ◌∷◌, ◌++◌, Option, some, arith, leb, eqb, ◌==◌, eq_iff, if◌then◌else◌, length,
  contains, Bool-cases, if_intro, if_false,
}
use clash_of_tokens.Api.Jobs.{
  Job, JobState, running, completed, failed, timed_out, canceled, stale, is_running, ContextError,
  Finish, job_at, write_job, delete_resource, evict, make_room, progressed, cancel_job, cancel_all,
  timed_out_by, ended_by, is_committed, same_version, expected_version, own_refresh, verdict,
  finished,
}

abbrev pub one : Bool → ℕ
one b = if b then 1 else 0

-- The jobs that run on a resource, and those that run.
abbrev pub count_on : String → List Job → ℕ
count_on r [] = 0
count_on r (j ∷ js) = one (is_running j.state && (j.resource == r)) + count_on r js

abbrev pub count_running : List Job → ℕ
count_running [] = 0
count_running (j ∷ js) = one (is_running j.state) + count_running js

abbrev pub occurrences : String → List String → ℕ
occurrences r [] = 0
occurrences r (x ∷ xs) = one (x == r) + occurrences r xs

pub write_any-length :
    (f : Job → Job) (key : ℕ) (js : List Job) → length (write_job key f js) ≡ length js
unfolding write_job
write_any-length f key [] = refl
write_any-length f key (j ∷ js) = ground (arith, write_any-length f key js)

-- A write that leaves the state and the resource of a job.
module _ (f : Job → Job)
    (same : (j : Job) → ((f j).state ≡ j.state) × ((f j).resource ≡ j.resource)) where
  pub write_job-count_on :
      (r : String) (key : ℕ) (js : List Job) → count_on r (write_job key f js) ≡ count_on r js
  unfolding write_job
  write_job-count_on r key [] = refl
  write_job-count_on r key (j ∷ js) = elim (Bool-cases (eqb j.key key)) [
    | inl e ↦ rw (e, (same j).0, (same j).1) refl
    | inr e ↦
        rw e (
          ap (λ z. one (is_running j.state && (j.resource == r)) + z) (write_job-count_on r key js))
  ]

  pub write_job-count_running :
      (key : ℕ) (js : List Job) → count_running (write_job key f js) ≡ count_running js
  unfolding write_job
  write_job-count_running key [] = refl
  write_job-count_running key (j ∷ js) = elim (Bool-cases (eqb j.key key)) [
    | inl e ↦ rw (e, (same j).0) refl
    | inr e ↦ rw e (ap (λ z. one (is_running j.state) + z) (write_job-count_running key js))
  ]

pub progressed_same :
    (stage : String) (j : Job)
    → ((progressed stage j).state ≡ j.state) × ((progressed stage j).resource ≡ j.resource)
progressed_same stage j = (ground arith, ground arith)

pub cancel_job_same :
    (j : Job) → ((cancel_job j).state ≡ j.state) × ((cancel_job j).resource ≡ j.resource)
cancel_job_same j = (ground arith, ground arith)

pub record Ended (z : JobState) : Type 0 where
  pub ended : is_running z ≡ false

pub verdict-Ended :
    (path : String) (c : Option ContextError) (f : Finish) → Ended (verdict path c f)
unfolding verdict
verdict-Ended path c f =
    if_intro Ended (f.panicked || f.response.overflow) failed _ (record { ended = refl })
      (if_intro Ended (timed_out_by c && not (is_committed f)) timed_out _ (record { ended = refl })
        (if_intro Ended (ended_by c && not (is_committed f)) canceled _ (record { ended = refl })
          (if_intro Ended
            (not (same_version f.current (expected_version f)) && not (own_refresh path f)) stale _
            (record { ended = refl })
            (if_intro Ended (leb 400 f.response.status) failed completed (record { ended = refl })
              (record { ended = refl })))))

pub finished_same :
    (f : Finish) (j : Job)
    → (is_running (finished f j).state ≡ false) × ((finished f j).resource ≡ j.resource)
unfolding finished
finished_same f j = ((verdict-Ended j.path j.context f).ended, refl)

pub cancel_all-length : (js : List Job) → length (cancel_all js) ≡ length js
cancel_all-length [] = refl
cancel_all-length (j ∷ js) = ap suc (cancel_all-length js)

pub cancel_all-count_on : (r : String) (js : List Job) → count_on r (cancel_all js) ≡ count_on r js
cancel_all-count_on r [] = refl
cancel_all-count_on r (j ∷ js) =
    rw ((cancel_job_same j).0, (cancel_job_same j).1)
      (ap (λ z. one (is_running j.state && (j.resource == r)) + z) (cancel_all-count_on r js))

pub cancel_all-count_running : (js : List Job) → count_running (cancel_all js) ≡ count_running js
cancel_all-count_running [] = refl
cancel_all-count_running (j ∷ js) =
    rw (cancel_job_same j).0 (ap (λ z. one (is_running j.state) + z) (cancel_all-count_running js))

-- The list without its oldest ended job.
pub evict-count_on : (r : String) (js : List Job) → count_on r (evict js) ≡ count_on r js
unfolding evict
evict-count_on r [] = refl
evict-count_on r (j ∷ js) = ground (arith, evict-count_on r js)

pub evict-count_running : (js : List Job) → count_running (evict js) ≡ count_running js
unfolding evict
evict-count_running [] = refl
evict-count_running (j ∷ js) = ground (arith, evict-count_running js)

pub evict-length :
    (js : List Job) → count_running js < length js → length (evict js) + 1 ≡ length js
unfolding evict
evict-length [] h = absurd (omega arith)
evict-length (j ∷ js) h = ground (arith, evict-length js)

-- The end of a running job, in the list and in the map.
pub finish-count_on :
    (r : String) (f : Finish) (key : ℕ) (job : Job) (js : List Job)
    → job_at key js ≡ some job
    → is_running job.state ≡ true
    → count_on r (write_job key (finished f) js) + one (job.resource == r) ≡ count_on r js
unfolding job_at write_job
finish-count_on r f key job [] h k = cc
finish-count_on r f key job (j ∷ js) h k = elim (Bool-cases (eqb j.key key)) [
  | inl e ↦ let p : j ≡ job = ground arith in rw (e, (finished_same f j).0, p, k) (omega arith)
  | inr e ↦
      let ih = finish-count_on r f key job js (sym (if_false _ _ _ e) ∙ h) k in
      rw e (omega (arith, ih))
]

pub finish-count_running :
    (f : Finish) (key : ℕ) (job : Job) (js : List Job)
    → job_at key js ≡ some job
    → is_running job.state ≡ true
    → count_running (write_job key (finished f) js) + 1 ≡ count_running js
unfolding job_at write_job
finish-count_running f key job [] h k = cc
finish-count_running f key job (j ∷ js) h k = elim (Bool-cases (eqb j.key key)) [
  | inl e ↦ let p : j ≡ job = ground arith in rw (e, (finished_same f j).0, p, k) (omega arith)
  | inr e ↦
      let ih = finish-count_running f key job js (sym (if_false _ _ _ e) ∙ h) k in
      rw e (omega (arith, ih))
]

pub delete_resource-occurrences :
    (r x : String) (xs : List String)
    → occurrences r (delete_resource x xs) ≡ (if x == r then 0 else occurrences r xs)
unfolding delete_resource
delete_resource-occurrences r x [] = ground arith
delete_resource-occurrences r x (y ∷ ys) =
    ground (arith, delete_resource-occurrences r x ys, eq_iff x r, eq_iff y x, eq_iff y r)

pub delete_resource-length :
    (x : String) (xs : List String) → length (delete_resource x xs) + occurrences x xs ≡ length xs
unfolding delete_resource
delete_resource-length x [] = refl
delete_resource-length x (y ∷ ys) = ground (arith, delete_resource-length x ys)

pub alone_on :
    (r : String) (job : Job) → job.state ≡ running → count_on r (job ∷ []) ≡ one (job.resource == r)
alone_on r job e = rw e (omega arith)

pub alone : (job : Job) → job.state ≡ running → count_running (job ∷ []) ≡ 1
alone job e = rw e (omega arith)

pub count_on-append :
    (r : String) (xs ys : List Job) → count_on r (xs ++ ys) ≡ count_on r xs + count_on r ys
count_on-append r [] ys = omega arith
count_on-append r (x ∷ xs) ys = omega (arith, count_on-append r xs ys)

pub count_running-append :
    (xs ys : List Job) → count_running (xs ++ ys) ≡ count_running xs + count_running ys
count_running-append [] ys = omega arith
count_running-append (x ∷ xs) ys = omega (arith, count_running-append xs ys)

pub contains-occurrences :
    (xs : List String) (r : String) → contains xs r ≡ false → occurrences r xs ≡ 0
unfolding contains
contains-occurrences [] r h = refl
contains-occurrences (x ∷ xs) r h = ground (arith, contains-occurrences xs r)

pub make_room-count_on : (r : String) (js : List Job) → count_on r (make_room js) ≡ count_on r js
make_room-count_on r js = ground (arith, evict-count_on r js)

pub make_room-count_running : (js : List Job) → count_running (make_room js) ≡ count_running js
make_room-count_running js = ground (arith, evict-count_running js)

pub make_room-length :
    (js : List Job) → count_running js ≤ 4 → length js ≤ 128 → length (make_room js) + 1 ≤ 128
make_room-length js h l = ground (arith, evict-length js)
