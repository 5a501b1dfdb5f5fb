-- ===== src/Scheduler/Worker.antt =====
-- Recovery of stale leases and the bounded worker of SchedulerService in
-- services/quant-engine/app/services/scheduler.py.
use simple_scanner.Common.{
  ℕ, String, Bool, true, false, Option, none, some, List, [], ◌∷◌, ◌++◌, ltb, if◌then◌else◌,
  or_else, nat_or,
}
use simple_scanner.Common.Texts.{sorted_set}
use simple_scanner.Common.Int.{ℤ, pos, int_or}
use simple_scanner.Scheduler.Value.{Value, null, num, text, obj, end, field}
use simple_scanner.Scheduler.Job.{
  queued, failed, status_text, Job, job_started, job_leased, job_heartbeat, job_released,
  job_stale_recovered, Store,
}
use simple_scanner.Scheduler.Repository.{bounded, save, list_stale_running, lease_next, heartbeat}
use simple_scanner.Scheduler.Service.{Env, event, single}
use simple_scanner.Scheduler.Execution.{finish_running_job}

-- One stale job: back to the queue while attempts are left, else failed.
abbrev pub stale_warnings : Job → List String
stale_warnings j =
    sorted_set (j.warnings ++ "Scheduler worker lease expired before terminal completion." ∷ [])

abbrev pub requeued_job : Env → Job → Job
requeued_job env j = record j {
  status = queued;
  lease_owner = none;
  lease_expires_at = none;
  heartbeat_at = none;
  failed_reason = null;
  last_error = text "scheduler_lease_expired_requeued";
  warnings = stale_warnings j;
  updated_at = env.now;
}

abbrev pub expired_job : Env → Job → Job
expired_job env j = record j {
  status = failed;
  completed_at = some env.now;
  failed_reason = text "scheduler_lease_expired";
  result =
      obj (field "status" (text "error") (field "reason" (text "scheduler_lease_expired") end));
  lease_owner = none;
  lease_expires_at = none;
  heartbeat_at = none;
  last_error = text "scheduler_lease_expired";
  warnings = stale_warnings j;
  updated_at = env.now;
}

abbrev pub attempts_metadata : Job → Value
attempts_metadata j = obj (
    field "attempt_count" (num (pos j.attempt_count))
      (field "max_attempts" (num (pos (nat_or (some j.max_attempts) 1))) end))

unfoldable pub recover_job : Env → Job → Store → Job × Store
unfolding event
recover_job env j s = elim (ltb j.attempt_count (nat_or (some j.max_attempts) 1)) [
  | true ↦ (
    requeued_job env j,
    event env j.job_id job_stale_recovered
        "Expired scheduler worker lease recovered and returned to queued state."
        (attempts_metadata j) (save (requeued_job env j) s),
  )
  | false ↦ (
    expired_job env j,
    event env j.job_id job_stale_recovered
        "Expired scheduler worker lease exhausted attempts and was marked failed."
        (attempts_metadata j) (save (expired_job env j) s),
  )
]

unfoldable pub recover_each : Env → List Job → Store → List Job × Store
recover_each env [] s = ([], s)
recover_each env (j ∷ js) s =
    let (r, s') = recover_job env j s in let (rs, s'') = recover_each env js s' in (r ∷ rs, s'')

unfoldable pub recover_stale_leases : Env → Option ℤ → Store → List Job × Store
unfolding recover_each
recover_stale_leases env limit s =
    recover_each env (list_stale_running (bounded 1 100 (int_or limit (pos 25))) env.now s) s

abbrev pub owner_metadata : String → Value
owner_metadata owner = single "lease_owner" (text owner)

unfoldable pub leased_event : Env → String → ℕ → Job → Store → Store
unfolding event
leased_event env owner n j s =
    event env j.job_id job_leased "Scheduler job leased by bounded one-shot local worker."
      (obj (field "lease_owner" (text owner) (field "lease_seconds" (num (pos n)) end))) s

-- One leased job in the loop of `run_worker_once`.
unfoldable pub work_job : Env → String → ℕ → Job → Store → Job × Store
unfolding event leased_event
work_job env owner n j s =
    let id = j.job_id in
    let s₁ = leased_event env owner n j s in
    let (beat, s₂) = heartbeat id owner (some (pos n)) env.now s₁ in
    let s₃ =
      event env id job_heartbeat "Scheduler worker heartbeat recorded." (owner_metadata owner) s₂ in
    let s₄ =
      event env id job_started "Scheduler job started by bounded one-shot local worker."
        (owner_metadata owner) s₃ in
    let (job, s₅) = finish_running_job env (or_else beat j) s₄ in
    (
      job,
      event env id job_released "Scheduler worker lease released after terminal job status."
          (obj (
            field "lease_owner" (text owner)
              (field "final_status" (text (status_text job.status)) end)))
          s₅,
    )

unfoldable pub work_each : Env → String → ℕ → List Job → Store → List Job × Store
work_each env owner n [] s = ([], s)
work_each env owner n (j ∷ js) s =
    let (r, s') = work_job env owner n j s in
    let (rs, s'') = work_each env owner n js s' in (r ∷ rs, s'')

-- `run_worker_once`, for an owner's name that `_lease_owner` has put in form.
unfoldable pub run_worker_once :
    Env → Option ℤ → String → Option ℤ → Bool → Store → List Job × Store
unfolding work_each recover_stale_leases
run_worker_once env max_jobs owner lease_seconds recover_stale s =
    let most = bounded 1 10 (int_or max_jobs (pos 3)) in
    let n = bounded 30 86_400 (int_or lease_seconds (pos 900)) in
    let s₁ = if recover_stale then (recover_stale_leases env (some (pos most)) s).1 else s in
    let (jobs, s₂) = lease_next owner (some (pos most)) (some (pos n)) env.now s₁ in
    work_each env owner n jobs s₂
