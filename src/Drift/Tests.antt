-- ===== src/Drift/Tests.antt =====
-- Runs of the drift reports of services/quant-engine/app/models/calibration_drift.py.
use simple_scanner.Common.{ℕ, String, true, Option, none, some, List, [], ◌∷◌, ◌≡◌, refl}
use simple_scanner.Common.Int.{pos}
use simple_scanner.Common.Sorting.{sort_by, insert_sorted}
use simple_scanner.Replay.Tests.{fl, st}
use simple_scanner.Drift.Model.{watch, Bin, Audit, WindowResult, ReplayRun, DriftConfig}
use simple_scanner.Drift.Engine.{
  severity_of, any_stale, window_metrics, drift_flags, run, rows_of, window_row, empty_audit,
}
use simple_scanner.Drift.Stale.{is_blocking, run-is_blocking}

abbrev bin : String → Bin ℕ
bin k = record { bin_key = k; observed_average_r = some 2000; sample_size = some (pos 8) }

abbrev audit : String → Audit ℕ
audit id = record {
  calibration_audit_id = some id;
  created_at = some id;
  rank_correlation_score = some 500;
  monotonicity_pass = true;
  score_bins = [];
  grade_bins = bin "A" ∷ [];
  action_bins = bin "TAKE" ∷ bin "WATCH" ∷ [];
  take_minus_watch_average_r = some 100;
  calibration_warnings = [];
  warnings = [];
}

abbrev window : String → Option String → WindowResult ℕ
window id status = record {
  window_result_id = some id;
  window_index = none;
  created_at = none;
  average_r = some 1000;
  profit_factor = none;
  max_drawdown_r = none;
  total_trades = some (pos 4);
  candidates_taken = none;
  warnings = [];
  stale_status = status;
}

abbrev stale_run : ReplayRun
stale_run = record {
  replay_run_id = some "r";
  warnings = "replay_source_stale" ∷ [];
  stale_status = none;
}

abbrev cfg : DriftConfig ℕ
cfg = record {
  minimum_recent_high_grade_samples = none;
  minimum_high_grade_samples = none;
  rank_correlation_drop_threshold = none;
}

abbrev audits : List (Audit ℕ)
audits = audit "b" ∷ audit "a" ∷ []

abbrev windows : List (WindowResult ℕ)
windows = window "w" (some "clean") ∷ window "v" (some "stale") ∷ window "u" none ∷ []

-- Without audits and windows, a stale replay run does not make a report blocking.
no_windows : (run fl "m" [] [] (stale_run ∷ []) cfg st).severity ≡ watch
unfolding run window_metrics rows_of drift_flags severity_of
no_windows = refl

sorted_ids : (run fl "m" audits windows [] cfg st).calibration_audit_ids ≡ "a" ∷ "b" ∷ []
unfolding run
sorted_ids = refl

rows_there :
    (run fl "m" audits windows [] cfg st).window_metrics
    ≡ window_row fl cfg 0 (audit "a") (window "w" (some "clean"))
      ∷ window_row fl cfg 1 (audit "b") (window "v" (some "stale"))
      ∷ window_row fl cfg 2 empty_audit (window "u" none)
      ∷ []
unfolding run window_metrics rows_of sort_by insert_sorted
rows_there = refl

run-is_blocking_example : is_blocking (run fl "m" audits windows [] cfg st).severity ≡ true
unfolding any_stale
run-is_blocking_example =
    run-is_blocking fl "m" audits windows [] cfg st
      (window_row fl cfg 0 (audit "a") (window "w" (some "clean")))
      (window_row fl cfg 1 (audit "b") (window "v" (some "stale"))
        ∷ window_row fl cfg 2 empty_audit (window "u" none)
        ∷ [])
      rows_there
