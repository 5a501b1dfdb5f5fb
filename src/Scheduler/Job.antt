-- ===== src/Scheduler/Job.antt =====
-- The rows of the tables scheduler_jobs and scheduler_job_events. A job's id is only compared, and is
-- a number here. A timestamp is a number of microseconds; texts of one ISO form in UTC are ordered as
-- the instants that they stand for.
use simple_scanner.Common.{
  ℕ, String, Bool, true, false, Option, none, some, List, [], ◌∷◌, str_eq, if◌then◌else◌,
}
use simple_scanner.Common.Int.{ℤ}
use simple_scanner.Scheduler.Value.{Value}

-- `SCHEDULER_JOB_TYPES`
pub data JobType : Type 0 where
  research_cycle_dry_run research_cycle_run data_quality_report export_research_cycle : JobType
  export_operations_status rebuild_features rebuild_candidates rebuild_labels run_replay : JobType
  fmp_capability_check fmp_quote_snapshot fmp_eod_refresh fmp_intraday_refresh : JobType
  fmp_incremental_intraday_refresh fmp_seed_ingestion data_freshness_check : JobType

abbrev pub job_type_text : JobType → String
job_type_text research_cycle_dry_run = "research_cycle_dry_run"
job_type_text research_cycle_run = "research_cycle_run"
job_type_text data_quality_report = "data_quality_report"
job_type_text export_research_cycle = "export_research_cycle"
job_type_text export_operations_status = "export_operations_status"
job_type_text rebuild_features = "rebuild_features"
job_type_text rebuild_candidates = "rebuild_candidates"
job_type_text rebuild_labels = "rebuild_labels"
job_type_text run_replay = "run_replay"
job_type_text fmp_capability_check = "fmp_capability_check"
job_type_text fmp_quote_snapshot = "fmp_quote_snapshot"
job_type_text fmp_eod_refresh = "fmp_eod_refresh"
job_type_text fmp_intraday_refresh = "fmp_intraday_refresh"
job_type_text fmp_incremental_intraday_refresh = "fmp_incremental_intraday_refresh"
job_type_text fmp_seed_ingestion = "fmp_seed_ingestion"
job_type_text data_freshness_check = "data_freshness_check"

abbrev pub job_types : List JobType
job_types =
    research_cycle_dry_run ∷ research_cycle_run ∷ data_quality_report ∷ export_research_cycle
    ∷ export_operations_status ∷ rebuild_features ∷ rebuild_candidates ∷ rebuild_labels ∷ run_replay
    ∷ fmp_capability_check ∷ fmp_quote_snapshot ∷ fmp_eod_refresh ∷ fmp_intraday_refresh
    ∷ fmp_incremental_intraday_refresh ∷ fmp_seed_ingestion ∷ data_freshness_check ∷ []

unfoldable pub find_job_type : List JobType → String → Option JobType
find_job_type [] s = none
find_job_type (t ∷ ts) s = if str_eq (job_type_text t) s then some t else find_job_type ts s

-- `job_type not in SCHEDULER_JOB_TYPES` is the result `none`.
unfoldable pub parse_job_type : String → Option JobType
unfolding find_job_type
parse_job_type s = find_job_type job_types s

pub data Status : Type 0 where
  queued running completed failed cancelled blocked : Status

abbrev pub status_text : Status → String
status_text queued = "QUEUED"
status_text running = "RUNNING"
status_text completed = "COMPLETED"
status_text failed = "FAILED"
status_text cancelled = "CANCELLED"
status_text blocked = "BLOCKED"

-- `job.get("status") == "QUEUED"`, and so on
abbrev pub is_queued : Status → Bool
is_queued queued = true
is_queued s = false

abbrev pub is_running : Status → Bool
is_running running = true
is_running s = false

-- `SCHEDULER_TERMINAL_STATUSES`
abbrev pub is_terminal : Status → Bool
is_terminal queued = false
is_terminal running = false
is_terminal s = true

pub record Job : Type 0 where
  pub job_id : ℕ
  pub job_type : JobType
  pub status : Status
  pub priority : ℤ
  pub scheduled_for : Option ℕ
  pub started_at : Option ℕ
  pub completed_at : Option ℕ
  pub failed_reason : Value
  pub payload : Value
  pub result : Value
  pub warnings : List String
  pub research_cycle_id : Value
  pub created_by : Option String
  pub lease_owner : Option String
  pub lease_expires_at : Option ℕ
  pub heartbeat_at : Option ℕ
  pub attempt_count : ℕ
  pub max_attempts : ℕ
  pub timeout_seconds : ℕ
  pub last_error : Value
  pub created_at : ℕ
  pub updated_at : ℕ

pub data EventType : Type 0 where
  job_created job_cancel_blocked job_cancelled job_run_blocked job_started job_leased : EventType
  job_heartbeat job_released job_stale_recovered job_failed : EventType
  job_finished : Status → EventType

pub record Event : Type 0 where
  pub job_id : ℕ
  pub event_type : EventType
  pub message : String
  pub metadata : Value
  pub created_at : ℕ

-- The two tables.
pub record Store : Type 0 where
  pub jobs : List Job
  pub events : List Event
