-- ===== src/Scheduler/Soundness/Rows.antt =====
-- Each row that a method of the scheduler writes is sound.
use simple_scanner.Common.{
  ℕ, ◌≡◌, inl, inr, true, false, String, Option, arith, is_some, str_eq, Option-cases,
}
use simple_scanner.Common.Int.{ℤ}
use simple_scanner.Scheduler.Value.{Value}
use simple_scanner.Scheduler.Job.{Job, is_queued, is_terminal, JobType}
use simple_scanner.Scheduler.Repository.{leased, may_lease, beaten, next_expiry, is_held_by}
use simple_scanner.Scheduler.Service.{Env, CreateRequest, new_job, cancelled_job}
use simple_scanner.Scheduler.Execution.{final_status, finished_job, crashed_job, started_job}
use simple_scanner.Scheduler.Worker.{requeued_job, expired_job}
use simple_scanner.Scheduler.Soundness.Table.{IsSound, IsActive}

-- The rows that the methods write.
pub leased-Active :
    (owner : String) (n now : ℕ) (j : Job)
    → IsSound j
    → may_lease now j ≡ true
    → IsActive (leased owner n now j)
leased-Active owner n now j h e = ground arith

pub beaten-Active :
    (owner : String) (n : Option ℤ) (now : ℕ) (j : Job)
    → IsSound j
    → str_eq "" owner ≡ false
    → is_held_by owner j ≡ true
    → is_some (next_expiry n now j.lease_expires_at) ≡ is_some j.lease_expires_at
    → IsActive (beaten n now j)
beaten-Active owner n now j h ne e k = ground arith

-- An expiry is only renewed where a lease is held.
pub next_expiry_held :
    (owner : String) (n : Option ℤ) (now : ℕ) (j : Job)
    → IsSound j
    → str_eq "" owner ≡ false
    → is_held_by owner j ≡ true
    → is_some (next_expiry n now j.lease_expires_at) ≡ is_some j.lease_expires_at
next_expiry_held owner n now j h ne e = elim (Option-cases j.lease_owner) [
  | inl free ↦ ground arith
  | inr (o, held) ↦ ground arith
]

pub started_job-Active :
    (env : Env) (j : Job) → IsSound j → is_queued j.status ≡ true → IsActive (started_job env j)
started_job-Active env j h e = ground arith

pub cancelled_job-Sound :
    (env : Env) (j : Job) → IsSound j → is_queued j.status ≡ true → IsSound (cancelled_job env j)
cancelled_job-Sound env j h e = ground arith

pub requeued_job-Sound : (env : Env) (j : Job) → IsActive j → IsSound (requeued_job env j)
requeued_job-Sound env j h = ground arith

pub expired_job-Sound : (env : Env) (j : Job) → IsActive j → IsSound (expired_job env j)
expired_job-Sound env j h = ground arith

pub new_job-Sound : (env : Env) (t : JobType) (r : CreateRequest) → IsSound (new_job env t r)
new_job-Sound env t r = ground arith

pub crashed_job-Sound :
    (env : Env) (j : Job) (e : String) → IsActive j → IsSound (crashed_job env j e)
crashed_job-Sound env j e h = ground arith

pub final_status-terminal : (v : Value) → is_terminal (final_status v) ≡ true
unfolding final_status
final_status-terminal v = ground arith

pub finished_job-Sound :
    (env : Env) (j : Job) (v : Value) → IsActive j → IsSound (finished_job env j v)
finished_job-Sound env j v h = ground (arith, final_status-terminal v)
