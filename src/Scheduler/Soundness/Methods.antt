-- ===== src/Scheduler/Soundness/Methods.antt =====
-- Each method of the repository and of the service keeps the table of jobs sound.
use simple_scanner.Common.{
  ℕ, ◌≡◌, subst, sym, inl, inr, false, String, Option, none, some, List, [], ◌∷◌, arith, ltb, All,
  str_eq, or_else, nat_or, Bool-cases, Option-cases,
}
use simple_scanner.Common.Int.{ℤ, pos}
use simple_scanner.Scheduler.Value.{redact}
use simple_scanner.Scheduler.Job.{Job, Store, is_queued}
use simple_scanner.Scheduler.Repository.{
  find, get, update, append_event, leased, may_lease, lease_row, lease, lease_each, add_some,
  beaten, heartbeat, heartbeat_row, is_held_by,
}
use simple_scanner.Scheduler.Service.{
  Env, Outcome, returned, raised, event, cancelled_job, cancel_row,
}
use simple_scanner.Scheduler.Execution.{
  run_row, finished_job, crashed_job, execute, finish_outcome, finish_running_job, started_job,
  run_job, run_each,
}
use simple_scanner.Scheduler.Worker.{
  requeued_job, expired_job, recover_job, recover_each, leased_event, work_job, work_each,
}
use simple_scanner.Scheduler.Soundness.Table.{
  IsSound, AllSound, IsActive, save-Sound, find-Sound, find-job_id, update-Sound,
}
use simple_scanner.Scheduler.Soundness.Rows.{
  leased-Active, beaten-Active, next_expiry_held, started_job-Active, cancelled_job-Sound,
  requeued_job-Sound, expired_job-Sound, crashed_job-Sound, finished_job-Sound,
}

-- What a read of one row gives: the row is sound, and is the one that its id names.
abbrev pub IsRow : Store → Option Job → Type 0
IsRow s none = Unit
IsRow s (some j) = IsSound j × (find j.job_id s.jobs ≡ some j)

pub find-IsRow : (id : ℕ) (s : Store) → AllSound s → IsRow s (find id s.jobs)
find-IsRow id s hs = elim (Option-cases (find id s.jobs)) [
  | inl missing ↦ rw missing tt
  | inr (j, found) ↦ rw found (
    find-Sound id s.jobs hs found,
    subst (λ k. find k s.jobs ≡ some j) (sym (find-job_id id s.jobs found)) found,
  )
]

-- A row that the update finds is the one that was read.
pub update-row :
    (s : Store) (f : Job → Job) (j : Job)
    → find j.job_id s.jobs ≡ some j
    → IsSound (f j)
    → AllSound s
    → All IsSound (update j.job_id f s.jobs)
update-row s f j e h hs =
    update-Sound j.job_id f s.jobs
      (λ k found.
        subst (λ x. IsSound (f x)) (let same : j ≡ k = ground (arith, e, found) in same) h)
      hs

-- A method that changes one row at most: the table stays sound, and what it returns is running.
abbrev pub IsStep : Option Job × Store → Type 0
IsStep out = AllSound out.1 × All IsActive (add_some out.0 [])

pub lease_row-IsStep :
    (o : Option Job) (owner : String) (n now : ℕ) (s : Store)
    → AllSound s
    → IsRow s o
    → IsStep (lease_row o owner n now s)
lease_row-IsStep none owner n now s hs r = (hs, tt)
lease_row-IsStep (some j) owner n now s hs r = elim (Bool-cases (may_lease now j)) [
  | inl e ↦
      let active = leased-Active owner n now j r.0 e in
      rw e (update-row s (leased owner n now) j r.1 active.0 hs, (active, tt))
  | inr e ↦ rw e (hs, tt)
]

pub lease-IsStep :
    (id : ℕ) (owner : String) (n : Option ℤ) (now : ℕ) (s : Store)
    → AllSound s
    → IsStep (lease id owner n now s)
unfolding lease
lease-IsStep id owner n now s hs =
    lease_row-IsStep (find id s.jobs) owner _ now s hs (find-IsRow id s hs)

pub heartbeat_row-IsStep :
    (o : Option Job) (owner : String) (n : Option ℤ) (now : ℕ) (s : Store)
    → str_eq "" owner ≡ false
    → AllSound s
    → IsRow s o
    → IsStep (heartbeat_row o owner n now s)
heartbeat_row-IsStep none owner n now s ne hs r = (hs, tt)
heartbeat_row-IsStep (some j) owner n now s ne hs r = elim (Bool-cases (is_held_by owner j)) [
  | inl e ↦
      let active = beaten-Active owner n now j r.0 ne e (next_expiry_held owner n now j r.0 ne e) in
      rw e (update-row s (beaten n now) j r.1 active.0 hs, (active, tt))
  | inr e ↦ rw e (hs, tt)
]

pub heartbeat-IsStep :
    (id : ℕ) (owner : String) (n : Option ℤ) (now : ℕ) (s : Store)
    → str_eq "" owner ≡ false
    → AllSound s
    → IsStep (heartbeat id owner n now s)
unfolding heartbeat
heartbeat-IsStep id owner n now s ne hs =
    heartbeat_row-IsStep (find id s.jobs) owner n now s ne hs (find-IsRow id s hs)

-- The loops: a table and a list of jobs that it returned.
abbrev pub AreActive : List Job × Store → Type 0
AreActive out = AllSound out.1 × All IsActive out.0

pub All-add_some :
    (o : Option Job) (js : List Job)
    → All IsActive (add_some o [])
    → All IsActive js
    → All IsActive (add_some o js)
All-add_some none js h hs = hs
All-add_some (some j) js h hs = (h.0, hs)

pub lease_each-Active :
    (js : List Job) (owner : String) (n : Option ℤ) (now : ℕ) (s : Store)
    → AllSound s
    → AreActive (lease_each js owner n now s)
unfolding lease_each
lease_each-Active [] owner n now s hs = (hs, tt)
lease_each-Active (j ∷ js) owner n now s hs =
    let first = lease-IsStep j.job_id owner n now s hs in
    let rest = lease_each-Active js owner n now (lease j.job_id owner n now s).1 first.0 in
    (rest.0, All-add_some (lease j.job_id owner n now s).0 _ first.1 rest.1)

pub finish_outcome-Sound :
    (env : Env) (j : Job) (o : Outcome) (s : Store)
    → IsActive j
    → AllSound s
    → AllSound (finish_outcome env j o s).1
unfolding event append_event
finish_outcome-Sound env j (returned v) s h hs =
    save-Sound (finished_job env j (redact env.secrets v)) s
      (finished_job-Sound env j (redact env.secrets v) h) hs
finish_outcome-Sound env j (raised e) s h hs =
    save-Sound (crashed_job env j e) s (crashed_job-Sound env j e h) hs

pub finish-Sound :
    (env : Env) (j : Job) (s : Store)
    → IsActive j
    → AllSound s
    → AllSound (finish_running_job env j s).1
unfolding finish_running_job
finish-Sound env j s h hs = finish_outcome-Sound env j (execute env j) s h hs

pub run_row-Sound :
    (env : Env) (id : ℕ) (o : Option Job) (s : Store)
    → AllSound s
    → IsRow s o
    → AllSound (run_row env id o s).1
unfolding event append_event
run_row-Sound env id none s hs r = hs
run_row-Sound env id (some j) s hs r = elim (Bool-cases (is_queued j.status)) [
  | inl e ↦
      let active = started_job-Active env j r.0 e in
      rw e (
        finish-Sound env (started_job env j) _ active
          (save-Sound (started_job env j) s active.0 hs))
  | inr e ↦ rw e hs
]

pub run_job-Sound : (env : Env) (id : ℕ) (s : Store) → AllSound s → AllSound (run_job env id s).1
unfolding run_job get
run_job-Sound env id s hs = run_row-Sound env id (find id s.jobs) s hs (find-IsRow id s hs)

pub run_each-Sound :
    (env : Env) (js : List Job) (s : Store) → AllSound s → AllSound (run_each env js s).1
unfolding run_each
run_each-Sound env [] s hs = hs
run_each-Sound env (j ∷ js) s hs =
    run_each-Sound env js (run_job env j.job_id s).1 (run_job-Sound env j.job_id s hs)

pub cancel_row-Sound :
    (env : Env) (id : ℕ) (o : Option Job) (s : Store)
    → AllSound s
    → IsRow s o
    → AllSound (cancel_row env id o s).1
unfolding event append_event
cancel_row-Sound env id none s hs r = hs
cancel_row-Sound env id (some j) s hs r = elim (Bool-cases (is_queued j.status)) [
  | inl e ↦ rw e (save-Sound (cancelled_job env j) s (cancelled_job-Sound env j r.0 e) hs)
  | inr e ↦ rw e hs
]

pub recover_job-Sound :
    (env : Env) (j : Job) (s : Store) → IsActive j → AllSound s → AllSound (recover_job env j s).1
unfolding recover_job event append_event
recover_job-Sound env j s h hs =
    elim (Bool-cases (ltb j.attempt_count (nat_or (some j.max_attempts) 1))) [
      | inl e ↦
          rw (e, recover_job) (save-Sound (requeued_job env j) s (requeued_job-Sound env j h) hs)
      | inr e ↦
          rw (e, recover_job) (save-Sound (expired_job env j) s (expired_job-Sound env j h) hs)
    ]

pub recover_each-Sound :
    (env : Env) (js : List Job) (s : Store)
    → All IsActive js
    → AllSound s
    → AllSound (recover_each env js s).1
unfolding recover_each
recover_each-Sound env [] s h hs = hs
recover_each-Sound env (j ∷ js) s h hs =
    recover_each-Sound env js (recover_job env j s).1 h.1 (recover_job-Sound env j s h.0 hs)

pub or_else-Active :
    (o : Option Job) (j : Job) → All IsActive (add_some o []) → IsActive j → IsActive (or_else o j)
or_else-Active none j h a = a
or_else-Active (some k) j h a = h.0

pub work_job-Sound :
    (env : Env) (owner : String) (n : ℕ) (j : Job) (s : Store)
    → str_eq "" owner ≡ false
    → IsActive j
    → AllSound s
    → AllSound (work_job env owner n j s).1
unfolding work_job event append_event
work_job-Sound env owner n j s ne h hs =
    let step =
      heartbeat-IsStep j.job_id owner (some (pos n)) env.now (leased_event env owner n j s) ne hs in
    finish-Sound env
      (or_else (heartbeat j.job_id owner (some (pos n)) env.now (leased_event env owner n j s)).0 j)
      _ (or_else-Active _ j step.1 h) step.0

pub work_each-Sound :
    (env : Env) (owner : String) (n : ℕ) (js : List Job) (s : Store)
    → str_eq "" owner ≡ false
    → All IsActive js
    → AllSound s
    → AllSound (work_each env owner n js s).1
unfolding work_each
work_each-Sound env owner n [] s ne h hs = hs
work_each-Sound env owner n (j ∷ js) s ne h hs =
    work_each-Sound env owner n js (work_job env owner n j s).1 ne h.1
      (work_job-Sound env owner n j s ne h.0 hs)
