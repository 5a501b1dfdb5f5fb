-- ===== src/Scheduler/Service.antt =====
-- SchedulerService of services/quant-engine/app/services/scheduler.py. The readings of the clock in
-- one call are one reading, `now`.
use simple_scanner.Common.{ℕ, String, Bool, true, Option, none, some, List, [], if◌then◌else◌}
use simple_scanner.Common.Int.{ℤ, pos, int_or}
use simple_scanner.Scheduler.Value.{
  Value, null, bool, text, obj, end, field, py_or, get_key, redact,
}
use simple_scanner.Scheduler.Job.{
  JobType, parse_job_type, job_type_text, queued, cancelled, is_queued, status_text, Job,
  job_created, job_cancel_blocked, job_cancelled, EventType, Store,
}
use simple_scanner.Scheduler.Repository.{get, save, append_event}

-- What a handler of a job does: it returns a dictionary, or raises an exception with a text.
pub data Outcome : Type 0 where
  returned : Value → Outcome
  raised : String → Outcome

-- What the service reads from outside: the clock, the environment, the id that is hashed from a job's
-- type and its time, Python's `str`, and the work of the other services, by the type of the job.
pub record Env : Type 0 where
  pub now : ℕ
  pub key_present : Bool
  pub secrets : List String
  pub stable_id : JobType → ℕ → ℕ
  pub str : Value → String
  pub perform : JobType → Value → Outcome

-- The payload of `create_job`.
pub record CreateRequest : Type 0 where
  pub job_type : String
  pub priority : Option ℤ
  pub scheduled_for : Option ℕ
  pub payload : Value
  pub created_by : Option String

pub data Response : Type 0 where
  unsupported_job_type : String → Response
  not_found : ℕ → Response
  only_queued_jobs_can_be_cancelled only_queued_jobs_can_run : Job → Response
  done : Job → Response

-- `_event`
unfoldable pub event : Env → ℕ → EventType → String → Value → Store → Store
event env id kind message metadata s =
    append_event env.now id kind message (redact env.secrets metadata) s

-- A dictionary with one key.
abbrev pub single : String → Value → Value
single k v = obj (field k v end)

-- A job that was asked for, before it is saved.
abbrev pub new_job : Env → JobType → CreateRequest → Job
new_job env t r =
    let safe_payload = redact env.secrets (py_or r.payload (obj end)) in
    record {
      job_id = env.stable_id t env.now;
      job_type = t;
      status = queued;
      priority = int_or r.priority (pos 100);
      scheduled_for = r.scheduled_for;
      started_at = none;
      completed_at = none;
      failed_reason = null;
      payload = safe_payload;
      result = obj end;
      warnings = [];
      research_cycle_id = get_key "research_cycle_id" safe_payload;
      created_by = r.created_by;
      lease_owner = none;
      lease_expires_at = none;
      heartbeat_at = none;
      attempt_count = 0;
      max_attempts = 1;
      timeout_seconds = 900;
      last_error = null;
      created_at = env.now;
      updated_at = env.now;
    }

unfoldable pub create_job : Env → CreateRequest → Store → Response × Store
unfolding parse_job_type
create_job env r s = elim (parse_job_type r.job_type) [
  | none ↦ (unsupported_job_type r.job_type, s)
  | some t ↦
      let job = new_job env t r in
      (
        done job,
        append_event env.now job.job_id job_created
            "Scheduler job queued for explicit operator-run preparation."
            (single "job_type" (text (job_type_text t))) (save job s),
      )
]

abbrev pub cancelled_job : Env → Job → Job
cancelled_job env j = record j {
  status = cancelled;
  completed_at = some env.now;
  updated_at = env.now;
  result = single "cancelled" (bool true);
}

abbrev pub cancel_row : Env → ℕ → Option Job → Store → Response × Store
cancel_row env id none s = (not_found id, s)
cancel_row env id (some j) s =
    if is_queued j.status
    then (
      done (cancelled_job env j),
      event env id job_cancelled "Queued scheduler job cancelled by operator." (obj end)
          (save (cancelled_job env j) s),
    )
    else (
      only_queued_jobs_can_be_cancelled j,
      event env id job_cancel_blocked "Only queued scheduler jobs can be cancelled."
          (single "status" (text (status_text j.status))) s,
    )

unfoldable pub cancel : Env → ℕ → Store → Response × Store
unfolding event
cancel env id s = cancel_row env id (get id s) s
