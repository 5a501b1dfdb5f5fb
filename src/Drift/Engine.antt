-- ===== src/Drift/Engine.antt =====
-- CalibrationDriftEngine of services/quant-engine/app/models/calibration_drift.py. The id of a report, its
-- time and its fixed texts are left out.
use mathlib.Core.List.{map}
use simple_scanner.Common.{
  ℕ, ◌+◌, String, Bool, true, false, not, ◌&&◌, ◌||◌, Option, none, some, List, [], ◌∷◌, ◌++◌, ltb,
  if◌then◌else◌, length, keep_if, str_eq,
}
use simple_scanner.Common.Int.{ℤ, pos, ltb_ℤ, int_or}
use simple_scanner.Common.Texts.{
  sorted_set, member, is_within, is_filled, text_or, text_of, filled_texts, chosen,
}
use simple_scanner.Common.Floats.{Floats, zero_float, is_zero, float_or}
use simple_scanner.Common.Sorting.{sort_by}
use simple_scanner.Replay.Selection.{text_less}
use simple_scanner.Replay.Metrics.{Statistics, rate, mean_or_zero}
use simple_scanner.Drift.Model.{
  Bin, Audit, WindowResult, ReplayRun, DriftConfig, RowMetrics, Severity, info, watch, review,
  blocking, WindowMetrics, BinDrift, Stability, DriftReport,
}

-- `status not in {None, "", "clean"} or any("stale" in item ...)`
abbrev pub is_stale_status : Option String → Bool
is_stale_status none = false
is_stale_status (some s) = is_filled s && not (str_eq s "clean")

unfoldable pub any_stale : List String → Bool
any_stale [] = false
any_stale (w ∷ ws) = is_within "stale" w || any_stale ws

abbrev pub is_stale : Option String → List String → Bool
is_stale status warnings = is_stale_status status || any_stale warnings

-- Whether any of some texts is among others.
unfoldable pub holds_any : List String → List String → Bool
unfolding member
holds_any [] flags = false
holds_any (f ∷ fs) flags = member f flags || holds_any fs flags

-- `_severity`
unfoldable pub severity_of : List String → Severity
unfolding member holds_any
severity_of flags =
    if holds_any ("stale_window_contamination" ∷ "stale_replay_source_contamination" ∷ []) flags
    then blocking
    else if member "high_grade_expectancy_turns_negative" flags
        && member "take_underperforms_watch_recently" flags
    then blocking
    else if member "high_grade_expectancy_negative" flags && member "take_underperforms_watch" flags
    then review
    else if holds_any
        ("rank_correlation_deteriorating" ∷ "monotonicity_failed_in_recent_window"
          ∷ "high_grade_expectancy_turns_negative" ∷ "take_underperforms_watch_recently"
          ∷ "calibration_warning_spike" ∷ [])
        flags
    then review
    else elim flags [ [] ↦ info | f ∷ fs ↦ watch ]

-- `int(a or b or default)`
abbrev pub int_or_int : Option ℤ → Option ℤ → ℤ → ℤ
int_or_int a b d = int_or a (int_or b d)

-- The audit and the window result of one index; the one that is missing is an empty dictionary.
pub data Row (F : Type 0) : Type 0 where
  both : Audit F → WindowResult F → Row F
  audit_only : Audit F → Row F
  window_only : WindowResult F → Row F

module _ {F : Type 0} where
  -- `{bin_key: row}.get(key)`: of rows with one key, the last counts.
  unfoldable pub bin_at : String → List (Bin F) → Option (Bin F)
  bin_at key [] = none
  bin_at key (b ∷ bs) =
      let here = if str_eq b.bin_key key then some b else none in
      elim (bin_at key bs) [ none ↦ here | some later ↦ some later ]

  abbrev pub sample_size_of : Option (Bin F) → ℤ
  sample_size_of none = pos 0
  sample_size_of (some b) = int_or b.sample_size (pos 0)

  abbrev pub average_in : Option (Bin F) → Option F
  average_in none = none
  average_in (some b) = b.observed_average_r

  abbrev pub bin_keys : List (Bin F) → List String
  bin_keys bins = map (λ b. b.bin_key) bins

  -- `calibration_warnings or warnings`
  abbrev pub audit_warnings : Audit F → List String
  audit_warnings a = elim a.calibration_warnings [ [] ↦ a.warnings | w ∷ ws ↦ w ∷ ws ]

  unfoldable pub rows_of : List (Audit F) → List (WindowResult F) → List (Row F)
  rows_of [] [] = []
  rows_of [] (w ∷ ws) = window_only w ∷ rows_of [] ws
  rows_of (a ∷ rest) [] = audit_only a ∷ rows_of rest []
  rows_of (a ∷ rest) (w ∷ ws) = both a w ∷ rows_of rest ws

  abbrev pub empty_audit : Audit F
  empty_audit = record {
    calibration_audit_id = none;
    created_at = none;
    rank_correlation_score = none;
    monotonicity_pass = false;
    score_bins = [];
    grade_bins = [];
    action_bins = [];
    take_minus_watch_average_r = none;
    calibration_warnings = [];
    warnings = [];
  }

  abbrev pub empty_window : WindowResult F
  empty_window = record {
    window_result_id = none;
    window_index = none;
    created_at = none;
    average_r = none;
    profit_factor = none;
    max_drawdown_r = none;
    total_trades = none;
    candidates_taken = none;
    warnings = [];
    stale_status = none;
  }

  abbrev pub audit_in : Row F → Audit F
  audit_in (both a w) = a
  audit_in (audit_only a) = a
  audit_in (window_only w) = empty_audit

  abbrev pub window_in : Row F → WindowResult F
  window_in (both a w) = w
  window_in (audit_only a) = empty_window
  window_in (window_only w) = w

module _ {F : Type 0} (fl : Floats F) where
  -- `_float`
  abbrev pub float_of : Option F → F
  float_of none = zero_float fl
  float_of (some v) = v

  abbrev pub row_metrics : Audit F → WindowResult F → RowMetrics F
  row_metrics a w = record {
    rank_correlation_score = float_of a.rank_correlation_score;
    monotonicity_pass = a.monotonicity_pass;
    high_grade_average_r = float_of (average_in (bin_at "A" a.grade_bins));
    high_grade_sample_size = sample_size_of (bin_at "A" a.grade_bins);
    take_average_r = float_of (average_in (bin_at "TAKE" a.action_bins));
    watch_average_r = float_of (average_in (bin_at "WATCH" a.action_bins));
    take_minus_watch_average_r = float_of a.take_minus_watch_average_r;
    warning_count = length (audit_warnings a);
    replay_average_r = float_of w.average_r;
    replay_profit_factor = float_of w.profit_factor;
    replay_max_drawdown_r = float_of w.max_drawdown_r;
    replay_total_trades = int_or_int w.total_trades w.candidates_taken (pos 0);
  }

  -- The flags of `_window_flags` with their conditions
  abbrev pub window_conditions :
      RowMetrics F → WindowResult F → DriftConfig F → List (Bool × String)
  window_conditions m w cfg =
      (not m.monotonicity_pass, "monotonicity_failed")
      ∷ (fl.less m.high_grade_average_r (zero_float fl), "high_grade_expectancy_negative")
      ∷ (
        fl.at_most m.take_minus_watch_average_r (zero_float fl)
            && (not (is_zero fl m.take_average_r) || not (is_zero fl m.watch_average_r)),
        "take_underperforms_watch",
      )
      ∷ (
        ltb_ℤ m.high_grade_sample_size (
            int_or_int cfg.minimum_recent_high_grade_samples cfg.minimum_high_grade_samples
              (pos 5)),
        "too_few_recent_high_grade_samples",
      )
      ∷ (is_stale w.stale_status w.warnings, "stale_window_contamination")
      ∷ []

  -- `_window_flags`
  unfoldable pub window_flags : RowMetrics F → WindowResult F → DriftConfig F → List String
  unfolding any_stale is_within sorted_set
  window_flags m w cfg = sorted_set (chosen (window_conditions m w cfg))

  abbrev pub window_row : DriftConfig F → ℕ → Audit F → WindowResult F → WindowMetrics F
  window_row cfg index a w =
      let m = row_metrics a w in
      let flags = window_flags m w cfg in
      record {
        window_index = int_or w.window_index (pos (index + 1));
        window_result_id = w.window_result_id;
        calibration_audit_id = a.calibration_audit_id;
        created_at = text_or a.created_at w.created_at;
        metrics = m;
        flags = flags;
        severity = severity_of flags;
      }

  abbrev pub window_rows : DriftConfig F → ℕ → List (Row F) → List (WindowMetrics F)
  window_rows cfg index [] = []
  window_rows cfg index (r ∷ rs) =
      window_row cfg index (audit_in r) (window_in r) ∷ window_rows cfg (index + 1) rs

  -- `_window_metrics`
  unfoldable pub window_metrics :
      List (Audit F) → List (WindowResult F) → DriftConfig F → List (WindowMetrics F)
  unfolding window_flags severity_of rows_of bin_at
  window_metrics audits windows cfg = window_rows cfg 0 (rows_of audits windows)

  -- The last of a first row and more, and the rows before it.
  abbrev pub last_row : WindowMetrics F → List (WindowMetrics F) → WindowMetrics F
  last_row w [] = w
  last_row w (v ∷ vs) = last_row v vs

  abbrev pub counts_before : WindowMetrics F → List (WindowMetrics F) → List ℕ
  counts_before w [] = []
  counts_before w (v ∷ vs) = w.metrics.warning_count ∷ counts_before v vs

  -- `counts and count > max(counts)`
  abbrev pub above_all : ℕ → List ℕ → Bool
  above_all n [] = true
  above_all n (m ∷ ms) = ltb m n && above_all n ms

  abbrev pub is_spike : ℕ → List ℕ → Bool
  is_spike n [] = false
  is_spike n (m ∷ ms) = above_all n (m ∷ ms)

  unfoldable pub any_stale_row : List (WindowMetrics F) → Bool
  unfolding member
  any_stale_row [] = false
  any_stale_row (w ∷ ws) = member "stale_window_contamination" w.flags || any_stale_row ws

  unfoldable pub any_stale_run : List ReplayRun → Bool
  unfolding any_stale
  any_stale_run [] = false
  any_stale_run (r ∷ rs) = is_stale r.stale_status r.warnings || any_stale_run rs

  -- The flags of `_drift_flags` with their conditions; `w` is the first window.
  abbrev pub drift_conditions :
      WindowMetrics F
      → List (WindowMetrics F)
      → List ReplayRun
      → DriftConfig F
      → List (Bool × String)
  drift_conditions w ws runs cfg =
      let first = w.metrics in
      let recent = (last_row w ws).metrics in
      let drop = float_or fl cfg.rank_correlation_drop_threshold (fl.number 10 100) in
      (ltb (length (w ∷ ws)) 2, "insufficient_history_for_drift")
      ∷ (
        fl.less recent.rank_correlation_score (fl.sub first.rank_correlation_score drop),
        "rank_correlation_deteriorating",
      )
      ∷ (not recent.monotonicity_pass, "monotonicity_failed_in_recent_window")
      ∷ (
        fl.less recent.high_grade_average_r (zero_float fl),
        "high_grade_expectancy_turns_negative",
      )
      ∷ (
        fl.at_most recent.take_minus_watch_average_r (zero_float fl),
        "take_underperforms_watch_recently",
      )
      ∷ (is_spike recent.warning_count (counts_before w ws), "calibration_warning_spike")
      ∷ (any_stale_row (w ∷ ws), "stale_window_contamination")
      ∷ (any_stale_run runs, "stale_replay_source_contamination")
      ∷ (member "too_few_recent_high_grade_samples" (last_row w ws).flags, "too_few_recent_samples")
      ∷ []

  -- `_drift_flags`
  unfoldable pub drift_flags : List (WindowMetrics F) → List ReplayRun → DriftConfig F → List String
  unfolding any_stale_row any_stale_run member sorted_set
  drift_flags [] runs cfg = "no_calibration_windows_available" ∷ []
  drift_flags (w ∷ ws) runs cfg = sorted_set (chosen (drift_conditions w ws runs cfg))

  -- `_bin_drift`, of the bins of the first and of the last audit
  abbrev pub bin_drift_row : List (Bin F) → List (Bin F) → String → BinDrift F
  bin_drift_row first latest key =
      let start_avg = float_of (average_in (bin_at key first)) in
      let latest_avg = float_of (average_in (bin_at key latest)) in
      record {
        bin_key = key;
        start_average_r = start_avg;
        latest_average_r = latest_avg;
        average_r_delta = fl.sub latest_avg start_avg;
        start_sample_size = sample_size_of (bin_at key first);
        latest_sample_size = sample_size_of (bin_at key latest);
      }

  abbrev pub last_audit : Audit F → List (Audit F) → Audit F
  last_audit a [] = a
  last_audit a (b ∷ bs) = last_audit b bs

  -- No audits is the status `no_audits`.
  unfoldable pub bin_drift : (Audit F → List (Bin F)) → List (Audit F) → Option (List (BinDrift F))
  unfolding sorted_set bin_at
  bin_drift bins [] = none
  bin_drift bins (a ∷ rest) =
      let first = bins a in
      let latest = bins (last_audit a rest) in
      some (map (bin_drift_row first latest) (sorted_set (bin_keys first ++ bin_keys latest)))

  abbrev pub last_or_zero : List F → F
  last_or_zero [] = zero_float fl
  last_or_zero (v ∷ []) = v
  last_or_zero (v ∷ w ∷ vs) = last_or_zero (w ∷ vs)

  -- `_stability_metrics`
  unfoldable pub stability_metrics : Statistics F → List (WindowMetrics F) → Stability F
  stability_metrics st ws =
      let ranks = map (λ (w : WindowMetrics F). w.metrics.rank_correlation_score) ws in
      let high_grade = map (λ (w : WindowMetrics F). w.metrics.high_grade_average_r) ws in
      let take_watch = map (λ (w : WindowMetrics F). w.metrics.take_minus_watch_average_r) ws in
      record {
        rank_correlation_series = ranks;
        rank_correlation_average = mean_or_zero fl st ranks;
        rank_correlation_latest = last_or_zero ranks;
        high_grade_average_r_series = high_grade;
        high_grade_latest = last_or_zero high_grade;
        take_minus_watch_series = take_watch;
        take_minus_watch_latest = last_or_zero take_watch;
        monotonicity_pass_rate =
            rate fl (length (keep_if (λ w. w.metrics.monotonicity_pass) ws)) (length ws);
      }

  -- The orders in which `run` reads the audits and the windows.
  abbrev pub audit_before : Audit F → Audit F → Bool
  audit_before a b = text_less (text_of a.created_at) (text_of b.created_at)

  abbrev pub window_before : WindowResult F → WindowResult F → Bool
  window_before a b = ltb_ℤ (int_or a.window_index (pos 0)) (int_or b.window_index (pos 0))

  -- The ids that are not empty.
  abbrev pub ids_of : List (Option String) → List String
  ids_of ids = filled_texts (map text_of ids)

  abbrev pub report_of :
      String
      → List (Audit F)
      → List (WindowResult F)
      → List ReplayRun
      → DriftConfig F
      → Statistics F
      → DriftReport F
  report_of version audits windows runs cfg st =
      let rows = window_metrics audits windows cfg in
      let flags = drift_flags rows runs cfg in
      record {
        model_version = version;
        calibration_audit_ids = ids_of (map (λ (a : Audit F). a.calibration_audit_id) audits);
        window_result_ids = ids_of (map (λ (w : WindowResult F). w.window_result_id) windows);
        replay_run_ids = ids_of (map (λ (r : ReplayRun). r.replay_run_id) runs);
        window_metrics = rows;
        score_bin_drift = bin_drift (λ a. a.score_bins) audits;
        grade_bin_drift = bin_drift (λ a. a.grade_bins) audits;
        action_bin_drift = bin_drift (λ a. a.action_bins) audits;
        stability_metrics = stability_metrics st rows;
        drift_flags = flags;
        severity = severity_of flags;
        window_count = length rows;
        calibration_audit_count = length audits;
        drift_flag_count = length flags;
      }

  -- `run`
  unfoldable pub run :
      String
      → List (Audit F)
      → List (WindowResult F)
      → List ReplayRun
      → DriftConfig F
      → Statistics F
      → DriftReport F
  unfolding sort_by
  run version audits windows runs cfg st =
      report_of version (sort_by audit_before audits) (sort_by window_before windows) runs cfg st
