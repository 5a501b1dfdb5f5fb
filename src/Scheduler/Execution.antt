-- ===== src/Scheduler/Execution.antt =====
-- Running a job: `_execute`, `_finish_running_job`, `run_job` and `run_pending` of SchedulerService in
-- services/quant-engine/app/services/scheduler.py.
use simple_scanner.Common.{
  ℕ, String, Bool, true, false, not, ◌&&◌, ◌||◌, Option, none, some, List, [], ◌∷◌, ◌++◌,
  if◌then◌else◌,
}
use simple_scanner.Common.Texts.{sorted_set}
use simple_scanner.Common.Int.{ℤ, pos, int_or}
use simple_scanner.Scheduler.Value.{
  Value, null, bool, text, arr, obj, Items, nil, cons, end, field, truthy, py_or, get_key, contains,
  redact, refresh_data_requested,
}
use simple_scanner.Scheduler.Job.{
  JobType, export_research_cycle, fmp_capability_check, fmp_quote_snapshot, fmp_eod_refresh,
  fmp_intraday_refresh, fmp_incremental_intraday_refresh, fmp_seed_ingestion, job_type_text, Status,
  queued, running, completed, failed, cancelled, blocked, is_queued, status_text, Job,
  job_run_blocked, job_started, job_failed, job_finished, Store,
}
use simple_scanner.Scheduler.Repository.{bounded, get, save, list_pending}
use simple_scanner.Scheduler.Service.{
  Env, Outcome, Response, done, event, not_found, only_queued_jobs_can_run, raised, returned,
  single,
}

-- The texts of a list's items that are truthy: `[str(item) for item in items if item]`.
unfoldable pub item_texts : (Value → String) → Items → List String
item_texts str nil = []
item_texts str (cons v vs) = let rest = item_texts str vs in if truthy v then str v ∷ rest else rest

abbrev pub warning_texts : (Value → String) → Value → List String
warning_texts str (arr vs) = item_texts str vs
warning_texts str v = []

abbrev pub text_in : List String → Value → Bool
text_in ss (text s) = contains ss s
text_in ss v = false

abbrev pub is_true : Value → Bool
is_true (bool b) = b
is_true v = false

-- `_final_status`
unfoldable pub final_status : Value → Status
final_status result =
    if text_in ("blocked" ∷ "BLOCKED" ∷ []) (get_key "status" result)
      || is_true (get_key "blocked" result)
    then blocked
    else if text_in ("failed" ∷ "error" ∷ "not_found" ∷ []) (get_key "status" result)
        || truthy (get_key "reason" result)
    then failed
    else completed

-- `_failed_reason`; `None` is `null`, and the value is kept where the code takes its text.
unfoldable pub failed_reason : Value → Status → Value
failed_reason result failed =
    py_or (get_key "reason" result) (
      py_or (get_key "failed_reason" result)
        (py_or (get_key "block_reason" result) (text "failed")))
failed_reason result blocked = py_or (get_key "reason" result) (
    py_or (get_key "failed_reason" result) (py_or (get_key "block_reason" result) (text "blocked")))
failed_reason result st = null

-- The jobs of `_fmp_job` that go to the provider, so need its key; a dry run of the seed does not.
abbrev pub needs_key : JobType → Value → Bool
needs_key fmp_capability_check p = true
needs_key fmp_quote_snapshot p = true
needs_key fmp_eod_refresh p = true
needs_key fmp_intraday_refresh p = true
needs_key fmp_incremental_intraday_refresh p = true
needs_key fmp_seed_ingestion p = not (truthy (get_key "dry_run" p))
needs_key t p = false

abbrev pub needs_cycle : JobType → Bool
needs_cycle export_research_cycle = true
needs_cycle t = false

abbrev pub blocked_result : String → String → Value
blocked_result reason warning = obj (
    field "status" (text "blocked")
      (field "reason" (text reason) (field "warnings" (arr (cons (text warning) nil)) end)))

-- `_execute`, its guards and those of the handlers; what the handlers call is `env.perform`.
unfoldable pub execute : Env → Job → Outcome
execute env j =
    if refresh_data_requested j.payload && not env.key_present
    then returned (
        blocked_result "fmp_api_key_required_for_refresh_data"
          "refresh_data requested but FMP_API_KEY is missing.")
    else if needs_cycle j.job_type && not (truthy (get_key "research_cycle_id" j.payload))
    then returned (
        obj
          (field "status" (text "failed") (field "reason" (text "research_cycle_id_required") end)))
    else if needs_key j.job_type j.payload && not env.key_present
    then returned (
        blocked_result "fmp_api_key_required"
          "FMP scheduler jobs require FMP_API_KEY in the runtime environment.")
    else env.perform j.job_type j.payload

-- The job as `_finish_running_job` saves it, after a result and after an exception.
abbrev pub finished_job : Env → Job → Value → Job
finished_job env j result =
    let reason = failed_reason result (final_status result) in
    record j {
      status = final_status result;
      completed_at = some env.now;
      updated_at = env.now;
      failed_reason = reason;
      result = result;
      warnings = sorted_set (
          j.warnings
          ++ warning_texts env.str (get_key "warnings" result)
          ++ "Scheduler job completed without model activation." ∷ []);
      research_cycle_id = py_or (get_key "research_cycle_id" result) j.research_cycle_id;
      lease_owner = none;
      lease_expires_at = none;
      heartbeat_at = none;
      last_error = reason;
    }

abbrev pub crashed_job : Env → Job → String → Job
crashed_job env j error = record j {
  status = failed;
  completed_at = some env.now;
  updated_at = env.now;
  failed_reason = text error;
  result = obj (field "status" (text "error") (field "reason" (text error) end));
  lease_owner = none;
  lease_expires_at = none;
  heartbeat_at = none;
  last_error = text error;
}

abbrev pub finished_message : Status → String
finished_message completed = "Scheduler job finished with status COMPLETED."
finished_message failed = "Scheduler job finished with status FAILED."
finished_message blocked = "Scheduler job finished with status BLOCKED."
finished_message cancelled = "Scheduler job finished with status CANCELLED."
finished_message queued = "Scheduler job finished with status QUEUED."
finished_message running = "Scheduler job finished with status RUNNING."

abbrev pub finish_outcome : Env → Job → Outcome → Store → Job × Store
finish_outcome env j (returned v) s =
    let job = finished_job env j (redact env.secrets v) in
    (
      job,
      event env j.job_id (job_finished job.status) (finished_message job.status)
          (obj (
            field "job_type" (text (job_type_text j.job_type))
              (field "research_cycle_id" job.research_cycle_id end)))
          (save job s),
    )
finish_outcome env j (raised error) s = (
  crashed_job env j error,
  event env j.job_id job_failed "Scheduler job failed and recorded a non-secret reason."
      (single "reason" (text error)) (save (crashed_job env j error) s),
)

-- `_finish_running_job`
unfoldable pub finish_running_job : Env → Job → Store → Job × Store
unfolding execute event
finish_running_job env j s = finish_outcome env j (execute env j) s

abbrev pub started_job : Env → Job → Job
started_job env j = record j {
  status = running;
  started_at = some env.now;
  updated_at = env.now;
  lease_owner = none;
  lease_expires_at = none;
  heartbeat_at = none;
}

abbrev pub run_row : Env → ℕ → Option Job → Store → Response × Store
run_row env id none s = (not_found id, s)
run_row env id (some j) s =
    if is_queued j.status
    then (let (job, s') = finish_running_job env (started_job env j) (
          event env id job_started "Scheduler job started synchronously by operator." (obj end)
            (save (started_job env j) s)) in
        (done job, s'))
    else (
      only_queued_jobs_can_run j,
      event env id job_run_blocked "Only queued scheduler jobs can be run."
          (single "status" (text (status_text j.status))) s,
    )

unfoldable pub run_job : Env → ℕ → Store → Response × Store
unfolding event
run_job env id s = run_row env id (get id s) s

unfoldable pub run_each : Env → List Job → Store → List Response × Store
run_each env [] s = ([], s)
run_each env (j ∷ js) s =
    let (r, s') = run_job env j.job_id s in let (rs, s'') = run_each env js s' in (r ∷ rs, s'')

unfoldable pub run_pending : Env → Option ℤ → Store → List Response × Store
unfolding run_each
run_pending env max_jobs s =
    run_each env (list_pending (bounded 1 10 (int_or max_jobs (pos 3))) env.now s) s
