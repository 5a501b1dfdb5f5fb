-- ===== src/Scheduler/Transitions.antt =====
-- What running, cancelling and the worker do to the rows of scheduler_jobs.
use simple_scanner.Common.{
  ℕ, ◌≡◌, ◌≢◌, refl, inl, inr, Bool, true, false, Option, none, some, List, [], ◌∷◌, arith, ◌==◌,
  Bool-cases, is_some, subst, ◌∙◌,
}
use simple_scanner.Scheduler.Value.{redact, obj, end}
use simple_scanner.Scheduler.Job.{Job, Store, is_queued, is_terminal, job_started}
use simple_scanner.Scheduler.Repository.{find, get, put, with_defaults, save, append_event}
use simple_scanner.Scheduler.Service.{Env, not_found, event, Outcome, returned, raised}
use simple_scanner.Scheduler.Execution.{
  finished_job, crashed_job, finish_outcome, finish_running_job, execute, started_job, run_row,
  run_job,
}
use simple_scanner.Scheduler.Soundness.{final_status-terminal, find-job_id}

-- The row of the id is there, and in a terminal state.
abbrev pub is_closed_row : Option Job → Bool
is_closed_row none = false
is_closed_row (some j) = is_terminal j.status

find-put_self :
    (j : Job) (js : List Job) → is_closed_row (find j.job_id (put j js)) ≡ is_terminal j.status
unfolding find put
find-put_self j [] = ground arith
find-put_self j (k ∷ ks) = elim (Bool-cases (k.job_id == j.job_id)) [
  | inl same ↦ rw same (ground arith)
  | inr other ↦ rw (other, other) (find-put_self j ks)
]

find-put_ne : (j : Job) (id : ℕ) (js : List Job) → id ≢ j.job_id → find id (put j js) ≡ find id js
unfolding find put
find-put_ne j id [] n = ground (arith, n)
find-put_ne j id (k ∷ ks) n = ground (arith, n, find-put_ne j id ks n)

-- A job that has come to its end: it is in a terminal state, and no worker holds it.
abbrev pub IsClosed : Job → Type 0
IsClosed j = (is_terminal j.status ≡ true) × (is_some j.lease_owner ≡ false)

finish_outcome-IsClosed :
    (env : Env) (j : Job) (o : Outcome) (s : Store) → IsClosed (finish_outcome env j o s).0
finish_outcome-IsClosed env j (returned v) s = (final_status-terminal _, refl)
finish_outcome-IsClosed env j (raised e) s = (refl, refl)

pub finish-IsClosed : (env : Env) (j : Job) (s : Store) → IsClosed (finish_running_job env j s).0
unfolding finish_running_job
finish-IsClosed env j s = finish_outcome-IsClosed env j (execute env j) s

-- What finishing a job leaves in the table.
finish_outcome-rows :
    (env : Env) (j : Job) (o : Outcome) (s : Store)
    → (is_closed_row (find j.job_id (finish_outcome env j o s).1.jobs) ≡ true)
      × ((id : ℕ) → id ≢ j.job_id → find id (finish_outcome env j o s).1.jobs ≡ find id s.jobs)
unfolding event append_event save
finish_outcome-rows env j (returned v) s =
    let job = with_defaults (finished_job env j (redact env.secrets v)) in
    (find-put_self job s.jobs ∙ final_status-terminal _, λ id n. find-put_ne job id s.jobs n)
finish_outcome-rows env j (raised e) s =
    let job = with_defaults (crashed_job env j e) in
    (find-put_self job s.jobs, λ id n. find-put_ne job id s.jobs n)

run_row-rows :
    (env : Env) (id : ℕ) (j : Job) (s : Store)
    → j.job_id ≡ id
    → is_queued j.status ≡ true
    → (is_closed_row (find id (run_row env id (some j) s).1.jobs) ≡ true)
      × ((other : ℕ)
          → other ≢ id
          → find other (run_row env id (some j) s).1.jobs ≡ find other s.jobs)
unfolding event append_event save finish_running_job
run_row-rows env id j s e q =
    let started =
      event env id job_started "Scheduler job started synchronously by operator." (obj end)
        (save (started_job env j) s) in
    let done_rows =
      finish_outcome-rows env (started_job env j) (execute env (started_job env j)) started in
    simp q (
      subst
          (λ i.
            is_closed_row (find i (finish_running_job env (started_job env j) started).1.jobs)
            ≡ true)
          e done_rows.0,
      λ other n.
          done_rows.1 other (λ h. n (h ∙ e))
          ∙ find-put_ne (with_defaults (started_job env j)) other s.jobs (λ h. n (h ∙ e)),
    )

-- `run_job` on every branch. A job that is missing changes nothing; one that is not queued leaves the
-- rows as they were; one that is queued is in a terminal state afterwards, whatever its work returns
-- or raises, and every other row is as it was.
pub run_job-rows :
    (env : Env) (id : ℕ) (s : Store)
    → (find id s.jobs ≡ none → run_job env id s ≡ (not_found id, s))
      × ((j : Job)
          → find id s.jobs ≡ some j
          → is_queued j.status ≡ false
          → (run_job env id s).1.jobs ≡ s.jobs)
      × ((j : Job)
          → find id s.jobs ≡ some j
          → is_queued j.status ≡ true
          → (is_closed_row (find id (run_job env id s).1.jobs) ≡ true)
            × ((other : ℕ) → other ≢ id → find other (run_job env id s).1.jobs ≡ find other s.jobs))
unfolding run_job get event append_event
run_job-rows env id s = (
  (λ e. rw (e, run_row) refl),
  (λ j e q. rw (e, run_row) (simp q refl)),
  λ j e q. rw (e, run_row) (run_row-rows env id j s (find-job_id id s.jobs e) q),
)
