-- ===== src/Scheduler/Tests.antt =====
-- Runs of the scheduler of services/quant-engine/app/services/scheduler.py.
use simple_scanner.Common.{
  All, ◌≢◌, ℕ, ◌≤◌, ◌≡◌, refl, true, false, String, none, some, List, [], ◌∷◌, length, is_some,
}
use simple_scanner.Common.Int.{pos, negsuc}
use simple_scanner.Common.Texts.{sorted_set}
use simple_scanner.Scheduler.Value.{
  Value, null, bool, num, text, arr, obj, nil, cons, end, field, truthy, contains, redact,
  refresh_data_requested, py_or, get_field, get_key, is_secret_key,
}
use simple_scanner.Scheduler.Job.{
  is_queued, Job, JobType, Store, Status, queued, completed, failed, data_quality_report,
  fmp_eod_refresh, find_job_type, parse_job_type,
}
use simple_scanner.Scheduler.Repository.{
  find, lease, heartbeat, release, list_pending, pending_before, list_stale_running, get,
  append_event, save, lease_next, insert_row, lease_each, order_by, put, stale_before, update,
}
use simple_scanner.Scheduler.Service.{
  not_found, Env, CreateRequest, Outcome, returned, raised, cancel, create_job, event,
}
use simple_scanner.Scheduler.Execution.{
  run_pending, finish_running_job, execute, failed_reason, final_status, item_texts, run_each,
  run_job,
}
use simple_scanner.Scheduler.Worker.{
  recover_stale_leases, run_worker_once, work_job, leased_event, recover_each, recover_job,
  work_each,
}
use simple_scanner.Scheduler.Commands.{
  Command, create_cmd, cancel_cmd, run_pending_cmd, recover_cmd, worker_cmd, run_all, empty, handle,
}
use simple_scanner.Scheduler.Soundness.{AllSound, run_all-empty-Sound}
use simple_scanner.Scheduler.Transitions.{is_closed_row, IsClosed, run_job-rows}
use simple_scanner.Scheduler.Passes.{run_worker_once-IsClosed}
use simple_scanner.Scheduler.Leases.{lease-exclusive}

abbrev work : JobType → Value → Outcome
work fmp_eod_refresh p = raised "timeout"
work t p = returned (obj (field "status" (text "ok") end))

abbrev at : ℕ → Env
at t = record {
  now = t;
  key_present = true;
  secrets = "k-1" ∷ [];
  stable_id = λ ty n. n;
  str = λ v. "";
  perform = work;
}

abbrev ask : String → CreateRequest
ask name = record {
  job_type = name;
  priority = none;
  scheduled_for = none;
  payload = obj (field "refresh_data" (bool true) (field "note" (text "k-1") end));
  created_by = none;
}

abbrev requests : List (Env × Command)
requests =
    (at 1, create_cmd (ask "data_quality_report"))
    ∷ (at 2, create_cmd (ask "fmp_eod_refresh"))
    ∷ (at 3, create_cmd (ask "no_such_type"))
    ∷ (at 4, worker_cmd (some (pos 1)) "worker" none true)
    ∷ (at 5, run_pending_cmd none)
    ∷ (at 6, cancel_cmd 2)
    ∷ (at 7, recover_cmd (some (negsuc 3)))
    ∷ []

-- The statuses of the rows.
abbrev statuses : List Job → List Status
statuses [] = []
statuses (j ∷ js) = j.status ∷ statuses js

statuses_after : statuses (run_all requests empty).jobs ≡ completed ∷ failed ∷ []
unfolding run_all handle list_pending lease heartbeat refresh_data_requested find_job_type
    parse_job_type find pending_before py_or get_field get_key is_secret_key contains redact truthy
    list_stale_running get append_event save lease_next insert_row lease_each order_by put
    stale_before update recover_stale_leases cancel run_pending run_worker_once create_job work_job
    finish_running_job event execute failed_reason final_status item_texts leased_event recover_each
    recover_job run_each run_job work_each sorted_set
statuses_after = refl

run_all-empty-Sound_example : AllSound (run_all requests empty)
run_all-empty-Sound_example =
    run_all-empty-Sound requests (tt, (tt, (tt, (refl, (tt, (tt, (tt, tt)))))))

abbrev two_jobs : Store
two_jobs =
    run_all
      ((at 1, create_cmd (ask "data_quality_report"))
        ∷ (at 2, create_cmd (ask "fmp_eod_refresh"))
        ∷ [])
      empty

leases : is_some (lease 1 "a" (some (pos 60)) 9 two_jobs).0 ≡ true
unfolding lease run_all create_job append_event save
leases = refl

lease-exclusive_example :
    let s' = (lease 1 "a" (some (pos 60)) 9 two_jobs).1 in
    (lease 1 "a" none 20 s' ≡ (none, s'))
    × (lease 1 "b" none 20 s' ≡ (none, s'))
    × (heartbeat 1 "b" none 20 s' ≡ (none, s'))
    × (release 1 "b" queued null 20 s' ≡ (none, s'))
lease-exclusive_example =
    lease-exclusive 1 "a" "b" (some (pos 60)) none 9 20 queued null two_jobs leases refl

abbrev first_job : Job
first_job = record {
  job_id = 1;
  job_type = data_quality_report;
  status = queued;
  priority = pos 100;
  scheduled_for = some 5;
  started_at = none;
  completed_at = none;
  failed_reason = null;
  payload = obj end;
  result = obj end;
  warnings = [];
  research_cycle_id = null;
  created_by = none;
  lease_owner = none;
  lease_expires_at = none;
  heartbeat_at = none;
  attempt_count = 0;
  max_attempts = 1;
  timeout_seconds = 900;
  last_error = null;
  created_at = 1;
  updated_at = 1;
}

abbrev one_job : Store
one_job = record { jobs = first_job ∷ []; events = [] }

found : find 1 one_job.jobs ≡ some first_job
unfolding find
found = refl

abbrev given : Value
given = obj (
    field "API_KEY" (text "visible") (
      field "list" (arr (cons (text "k-1") (cons (num (pos 0)) nil)))
        (field "refresh_data" (bool true) end)))

asked : refresh_data_requested (redact ("k-1" ∷ []) given) ≡ true
unfolding refresh_data_requested redact truthy is_secret_key contains
asked = refl

run_job-rows_example :
    (find 1 one_job.jobs ≡ none → run_job (at 9) 1 one_job ≡ (not_found 1, one_job))
    × ((j : Job)
        → find 1 one_job.jobs ≡ some j
        → is_queued j.status ≡ false
        → (run_job (at 9) 1 one_job).1.jobs ≡ one_job.jobs)
    × ((j : Job)
        → find 1 one_job.jobs ≡ some j
        → is_queued j.status ≡ true
        → (is_closed_row (find 1 (run_job (at 9) 1 one_job).1.jobs) ≡ true)
          × ((other : ℕ)
              → other ≢ 1
              → find other (run_job (at 9) 1 one_job).1.jobs ≡ find other one_job.jobs))
run_job-rows_example = run_job-rows (at 9) 1 one_job

run_worker_once-IsClosed_example :
    All IsClosed (run_worker_once (at 9) (some (pos 50)) "w" none true two_jobs).0
    × (length (run_worker_once (at 9) (some (pos 50)) "w" none true two_jobs).0 ≤ 10)
run_worker_once-IsClosed_example =
    run_worker_once-IsClosed (at 9) (some (pos 50)) "w" none true two_jobs
