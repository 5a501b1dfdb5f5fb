-- ===== src/Drift/Stale.antt =====
-- When a drift report is blocking: services/quant-engine/app/models/calibration_drift.py.
use simple_scanner.Common.{
  ℕ, ◌+◌, String, Bool, true, false, ◌&&◌, ◌||◌, ◌≡◌, refl, sym, ◌∙◌, ap, inl, inr, List, [], ◌∷◌,
  if◌then◌else◌, Bool-cases, str_eq,
}
use simple_scanner.Common.Texts.{member, sorted_set, member-sorted_set, chosen}
use simple_scanner.Common.Floats.{Floats, zero_float}
use simple_scanner.Drift.Model.{
  Severity, blocking, Audit, WindowResult, ReplayRun, DriftConfig, RowMetrics, WindowMetrics,
}
use simple_scanner.Drift.Engine.{
  any_stale, holds_any, severity_of, window_flags, is_stale, window_metrics, window_rows, rows_of,
  drift_conditions, drift_flags, any_stale_row, any_stale_run, last_row, row_metrics,
  window_conditions, empty_audit, empty_window, audit_before, window_before, run,
}
use simple_scanner.Common.Sorting.{sort_by, any_if, any_if-sort_by}
use simple_scanner.Replay.Metrics.{Statistics}
use simple_scanner.Drift.Severity.{severity_of_lem, severity_by}

abbrev pub is_blocking : Severity → Bool
is_blocking blocking = true
is_blocking s = false

-- The conditions that stand with a flag.
abbrev asks_for : String → List (Bool × String) → Bool
asks_for f [] = false
asks_for f ((b, g) ∷ rest) = let later = asks_for f rest in if str_eq g f then b || later else later

member-chosen : (f : String) (ps : List (Bool × String)) → member f (chosen ps) ≡ asks_for f ps
unfolding member
member-chosen f [] = refl
member-chosen f ((true, g) ∷ rest) = elim (Bool-cases (str_eq g f)) [
  | inl e ↦ simp e refl
  | inr e ↦ simp e (member-chosen f rest)
]
member-chosen f ((false, g) ∷ rest) = elim (Bool-cases (str_eq g f)) [
  | inl e ↦ simp e (member-chosen f rest)
  | inr e ↦ simp e (member-chosen f rest)
]

is_blocking-by : (a b c d e : Bool) → is_blocking (severity_by a b c d e) ≡ (a || b)
is_blocking-by true b c d e = refl
is_blocking-by false true c d e = refl
is_blocking-by false false true d e = refl
is_blocking-by false false false true e = refl
is_blocking-by false false false false true = refl
is_blocking-by false false false false false = refl

blocking-chosen :
    (ps : List (Bool × String))
    → is_blocking (severity_of (sorted_set (chosen ps))) ≡ (
        (asks_for "stale_window_contamination" ps
          || (asks_for "stale_replay_source_contamination" ps || false))
        || (asks_for "high_grade_expectancy_turns_negative" ps
            && asks_for "take_underperforms_watch_recently" ps))
unfolding holds_any
blocking-chosen ps =
    rw (severity_of_lem, is_blocking-by) (simp (member-sorted_set, member-chosen) refl)

without_false :
    (a b c d : Bool)
    → (((a || false) || ((b || false) || false)) || ((c || false) && (d || false)))
      ≡ (a || (b || (c && d)))
without_false true b c d = refl
without_false false true c d = refl
without_false false false true true = refl
without_false false false true false = refl
without_false false false false d = refl

module _ {F : Type 0} (fl : Floats F) where
  drift_flags-is_blocking :
      (w : WindowMetrics F) (ws : List (WindowMetrics F)) (runs : List ReplayRun)
      (cfg : DriftConfig F)
      → let recent = (last_row fl w ws).metrics in
        is_blocking (severity_of (drift_flags fl (w ∷ ws) runs cfg)) ≡ (
          any_stale_row fl (w ∷ ws)
          || (any_stale_run fl runs
              || (fl.less recent.high_grade_average_r (zero_float fl)
                  && fl.at_most recent.take_minus_watch_average_r (zero_float fl))))
  unfolding drift_flags
  drift_flags-is_blocking w ws runs cfg =
      blocking-chosen (drift_conditions fl w ws runs cfg) ∙ without_false _ _ _ _

  -- Whether any window of some results is stale.
  abbrev pub any_stale_window : List (WindowResult F) → Bool
  any_stale_window ws = any_if (λ (w : WindowResult F). is_stale w.stale_status w.warnings) ws

  or_false : (a : Bool) → (a || false) ≡ a
  or_false true = refl
  or_false false = refl

  window_flags-is_stale :
      (m : RowMetrics F) (w : WindowResult F) (cfg : DriftConfig F)
      → member "stale_window_contamination" (window_flags fl m w cfg)
        ≡ is_stale w.stale_status w.warnings
  unfolding window_flags
  window_flags-is_stale m w cfg =
      member-sorted_set "stale_window_contamination" (chosen (window_conditions fl m w cfg))
      ∙ member-chosen "stale_window_contamination" (window_conditions fl m w cfg)
      ∙ or_false (is_stale w.stale_status w.warnings)

  any_stale_row-window_rows :
      (cfg : DriftConfig F) (n : ℕ) (audits : List (Audit F)) (ws : List (WindowResult F))
      → any_stale_row fl (window_rows fl cfg n (rows_of audits ws)) ≡ any_stale_window ws
  unfolding any_stale_row rows_of any_stale
  any_stale_row-window_rows cfg n [] [] = refl
  any_stale_row-window_rows cfg n [] (w ∷ ws) =
      rw
        (
          window_flags-is_stale (row_metrics fl empty_audit w) w cfg,
          any_stale_row-window_rows cfg (n + 1) [] ws,
        )
        refl
  any_stale_row-window_rows cfg n (a ∷ rest) [] =
      rw
        (
          window_flags-is_stale (row_metrics fl a empty_window) empty_window cfg,
          any_stale_row-window_rows cfg (n + 1) rest [],
        )
        refl
  any_stale_row-window_rows cfg n (a ∷ rest) (w ∷ ws) =
      rw
        (
          window_flags-is_stale (row_metrics fl a w) w cfg,
          any_stale_row-window_rows cfg (n + 1) rest ws,
        )
        refl

  -- A report with a window is blocking exactly if a window result among those given is stale, a replay run
  -- is, or the last window has a negative expectancy of its high grades and no advantage of TAKE over
  -- WATCH.
  pub run-is_blocking :
      (version : String) (audits : List (Audit F)) (windows : List (WindowResult F))
      (runs : List ReplayRun) (cfg : DriftConfig F) (st : Statistics F) (w : WindowMetrics F)
      (ws : List (WindowMetrics F))
      → let report = run fl version audits windows runs cfg st in
        let recent = (last_row fl w ws).metrics in
        report.window_metrics ≡ w ∷ ws
        → is_blocking report.severity ≡ (
            any_stale_window windows
            || (any_stale_run fl runs
                || (fl.less recent.high_grade_average_r (zero_float fl)
                    && fl.at_most recent.take_minus_watch_average_r (zero_float fl))))
  unfolding run window_metrics
  run-is_blocking version audits windows runs cfg st w ws e =
      let rows =
        window_metrics fl (sort_by (audit_before fl) audits) (sort_by (window_before fl) windows)
          cfg in
      let stale : any_stale_row fl rows ≡ any_stale_window windows =
        any_stale_row-window_rows cfg 0 (sort_by (audit_before fl) audits)
          (sort_by (window_before fl) windows)
        ∙ any_if-sort_by (λ (w : WindowResult F). is_stale w.stale_status w.warnings)
            (window_before fl) windows in
      let there : any_stale_row fl (w ∷ ws) ≡ any_stale_window windows =
        sym (ap (any_stale_row fl) e) ∙ stale in
      ap (λ rows. is_blocking (severity_of (drift_flags fl rows runs cfg))) e
      ∙ drift_flags-is_blocking w ws runs cfg
      ∙ ap
          (λ b.
            b
            || (any_stale_run fl runs
                || (fl.less (last_row fl w ws).metrics.high_grade_average_r (zero_float fl)
                    && fl.at_most (last_row fl w ws).metrics.take_minus_watch_average_r
                        (zero_float fl))))
          there
