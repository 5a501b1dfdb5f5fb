-- ===== src/Drift/Model.antt =====
-- The audits, window results, replay runs and settings that services/quant-engine/app/models/calibration_drift.py
-- reads. A value that `float()` refuses counts as missing; a missing list counts as empty.
use simple_scanner.Common.{ℕ, String, Bool, Option, List}
use simple_scanner.Common.Int.{ℤ}

pub record Bin (F : Type 0) : Type 0 where
  pub bin_key : String
  pub observed_average_r : Option F
  pub sample_size : Option ℤ

pub record Audit (F : Type 0) : Type 0 where
  pub calibration_audit_id : Option String
  pub created_at : Option String
  pub rank_correlation_score : Option F
  pub monotonicity_pass : Bool
  pub score_bins : List (Bin F)
  pub grade_bins : List (Bin F)
  pub action_bins : List (Bin F)
  pub take_minus_watch_average_r : Option F
  pub calibration_warnings : List String
  pub warnings : List String

pub record WindowResult (F : Type 0) : Type 0 where
  pub window_result_id : Option String
  pub window_index : Option ℤ
  pub created_at : Option String
  pub average_r : Option F
  pub profit_factor : Option F
  pub max_drawdown_r : Option F
  pub total_trades : Option ℤ
  pub candidates_taken : Option ℤ
  pub warnings : List String
  pub stale_status : Option String

pub record ReplayRun : Type 0 where
  pub replay_run_id : Option String
  pub warnings : List String
  pub stale_status : Option String

pub record DriftConfig (F : Type 0) : Type 0 where
  pub minimum_recent_high_grade_samples : Option ℤ
  pub minimum_high_grade_samples : Option ℤ
  pub rank_correlation_drop_threshold : Option F

-- The metrics of one window, its flags and what they amount to.
pub record RowMetrics (F : Type 0) : Type 0 where
  pub rank_correlation_score : F
  pub monotonicity_pass : Bool
  pub high_grade_average_r : F
  pub high_grade_sample_size : ℤ
  pub take_average_r : F
  pub watch_average_r : F
  pub take_minus_watch_average_r : F
  pub warning_count : ℕ
  pub replay_average_r : F
  pub replay_profit_factor : F
  pub replay_max_drawdown_r : F
  pub replay_total_trades : ℤ

pub data Severity : Type 0 where
  info watch review blocking : Severity

pub record WindowMetrics (F : Type 0) : Type 0 where
  pub window_index : ℤ
  pub window_result_id : Option String
  pub calibration_audit_id : Option String
  pub created_at : Option String
  pub metrics : RowMetrics F
  pub flags : List String
  pub severity : Severity

pub record BinDrift (F : Type 0) : Type 0 where
  pub bin_key : String
  pub start_average_r : F
  pub latest_average_r : F
  pub average_r_delta : F
  pub start_sample_size : ℤ
  pub latest_sample_size : ℤ

pub record Stability (F : Type 0) : Type 0 where
  pub rank_correlation_series : List F
  pub rank_correlation_average : F
  pub rank_correlation_latest : F
  pub high_grade_average_r_series : List F
  pub high_grade_latest : F
  pub take_minus_watch_series : List F
  pub take_minus_watch_latest : F
  pub monotonicity_pass_rate : F

pub record DriftReport (F : Type 0) : Type 0 where
  pub model_version : String
  pub calibration_audit_ids : List String
  pub window_result_ids : List String
  pub replay_run_ids : List String
  pub window_metrics : List (WindowMetrics F)
  pub score_bin_drift : Option (List (BinDrift F))
  pub grade_bin_drift : Option (List (BinDrift F))
  pub action_bin_drift : Option (List (BinDrift F))
  pub stability_metrics : Stability F
  pub drift_flags : List String
  pub severity : Severity
  pub window_count : ℕ
  pub calibration_audit_count : ℕ
  pub drift_flag_count : ℕ
