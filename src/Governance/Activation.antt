-- ===== src/Governance/Activation.antt =====
-- ModelActivationService of services/quant-engine/app/services/workflows.py.
use text.Mathlib.Text.{starts_with}
use simple_scanner.Common.{
  ℕ, ◌+◌, String, Bool, true, false, not, ◌&&◌, ◌||◌, Option, none, some, List, [], ◌∷◌, ◌++◌,
  if◌then◌else◌, or_else, str_eq, length,
}
use simple_scanner.Common.Int.{ℤ, pos, ltb_ℤ}
use simple_scanner.Common.Texts.{sorted_set, is_filled, text_or, text_of}
use simple_scanner.Governance.Model.{
  FloatOps, Criteria, CalibrationStatus, not_required, failed, passed, Calibration, ModelRun,
  GradeBin, ValidationReport, CalibrationAudit, Activation, ResearchStore,
}
use simple_scanner.Governance.Tables.{
  latest_validation, get_audit, latest_audit, get_run, activate_row,
}
use simple_scanner.Governance.Gates.{replay_aware_purpose, is_accepted}

abbrev pub replay_aware_model_type : String
replay_aware_model_type = "replay_aware_baseline"

abbrev pub replay_aware_validation_mode : String
replay_aware_validation_mode = "replay_aware_walk_forward"

-- `sum(...)` of the samples in the grades that start with A
unfoldable pub high_grade_samples : List GradeBin → ℕ
high_grade_samples [] = 0
high_grade_samples (b ∷ bs) =
    (if starts_with b.bin_key "A" then b.sample_size else 0) + high_grade_samples bs

-- `a if a is not None else b`
abbrev pub given_or : {A : Type 0} → Option A → Option A → Option A
given_or none b = b
given_or (some a) b = some a

-- `minimum is not None and value < minimum`
abbrev pub falls_short : Option ℤ → ℕ → Bool
falls_short none n = false
falls_short (some m) n = ltb_ℤ (pos n) m

abbrev pub exceeds : Option ℤ → ℕ → Bool
exceeds none n = false
exceeds (some m) n = ltb_ℤ m (pos n)

-- `[reason] if test else []`
abbrev pub reason_if : Bool → String → List String
reason_if test reason = if test then reason ∷ [] else []

-- `a or b` of lists
abbrev pub list_or : List String → List String → List String
list_or [] b = b
list_or (a ∷ as_) b = a ∷ as_

module _ {F : Type 0} (ops : FloatOps F) where
  abbrev pub rank_short : Option F → F → Bool
  rank_short none rank = false
  rank_short (some m) rank = ops.below rank m

  -- The reasons to reject an audit, under the arguments and the model's criteria.
  unfoldable pub audit_reasons : Criteria F → Criteria F → CalibrationAudit F → List String
  unfolding high_grade_samples
  audit_reasons args criteria a =
      let rank = or_else a.rank_correlation_score ops.zero_float in
      let warnings = list_or a.calibration_warnings a.warnings in
      a.rejection_reasons
      ++ reason_if
          ((args.require_monotonic_score_bins || criteria.require_monotonic_score_bins)
            && not a.monotonicity_pass)
          "score_bins_not_monotonic"
      ++ reason_if
          ((args.require_take_outperforms_watch || criteria.require_take_outperforms_watch)
            && ops.at_most (or_else a.take_minus_watch_average_r ops.zero_float) ops.zero_float)
          "take_does_not_outperform_watch"
      ++ reason_if
          (falls_short
            (given_or args.minimum_high_grade_samples criteria.minimum_high_grade_samples)
            (high_grade_samples a.grade_bins))
          "minimum_high_grade_samples_not_met"
      ++ reason_if
          (rank_short
            (given_or args.minimum_rank_correlation_score criteria.minimum_rank_correlation_score)
            rank)
          "rank_correlation_below_threshold"
      ++ reason_if
          (exceeds
            (given_or args.max_allowed_calibration_warnings
              criteria.max_allowed_calibration_warnings)
            (length warnings))
          "too_many_calibration_warnings"

  abbrev pub audit_status : List String → CalibrationStatus
  audit_status [] = passed
  audit_status (r ∷ rs) = failed

  abbrev pub audited : Bool → CalibrationAudit F → List String → Calibration F
  audited required a reasons = record {
    required = required;
    status = audit_status reasons;
    reason = none;
    calibration_audit_id = some a.calibration_audit_id;
    monotonicity_pass = some a.monotonicity_pass;
    rank_correlation_score = some (or_else a.rank_correlation_score ops.zero_float);
    calibration_warnings = list_or a.calibration_warnings a.warnings;
    rejection_reasons = sorted_set reasons;
  }

-- `purpose`, by the mode of validation
abbrev pub purpose_of : String → String
purpose_of mode =
    if str_eq mode replay_aware_validation_mode
    then replay_aware_purpose
    else if str_eq mode "candidate_market_replay"
    then "replay_validation"
    else "validation"

abbrev pub is_failed : CalibrationStatus → Bool
is_failed failed = true
is_failed c = false

module _ {F : Type 0} where
  abbrev pub refused :
      String → String → Option String → Option String → Option (Calibration F) → Activation F
  refused version reason mode report calibration = record {
    is_activated = false;
    reason = some reason;
    model_version = version;
    validation_mode = mode;
    report_id = report;
    calibration = calibration;
  }

  -- The model with the marks of its activation.
  abbrev pub approved_model : String → Calibration F → ModelRun F → ModelRun F
  approved_model mode c m = record m {
    active = true;
    activation_decision = "accepted";
    activation_validation_mode = some mode;
    calibration = some c;
    calibration_required = c.required;
  }

  -- `model_runs.get(version) or ModelEngine().load(version)`; `artifact` reads the model's file, or
  -- gives the untrained baseline where there is none.
  abbrev pub loaded_model : (String → ModelRun F) → String → ResearchStore F → ModelRun F
  loaded_model artifact version s = or_else (get_run version s) (artifact version)

  abbrev pub without_audit : Bool → Option String → Calibration F
  without_audit true id = record {
    required = true;
    status = failed;
    reason = some "calibration_audit_required";
    calibration_audit_id = id;
    monotonicity_pass = none;
    rank_correlation_score = none;
    calibration_warnings = [];
    rejection_reasons = [];
  }
  without_audit false id = record {
    required = false;
    status = not_required;
    reason = none;
    calibration_audit_id = none;
    monotonicity_pass = none;
    rank_correlation_score = none;
    calibration_warnings = [];
    rejection_reasons = [];
  }

  -- `audits.get(audit_id) if audit_id else audits.latest(model_version)`
  abbrev pub chosen_audit : Option String → String → ResearchStore F → Option (CalibrationAudit F)
  chosen_audit id version s =
      if is_filled (text_of id) then get_audit (text_of id) s else latest_audit version s

module _ {F : Type 0} (ops : FloatOps F) where
  abbrev pub judged :
      Bool → Option String → Criteria F → Criteria F → Option (CalibrationAudit F) → Calibration F
  judged required id args criteria none = without_audit required id
  judged required id args criteria (some a) =
      audited ops required a (audit_reasons ops args criteria a)

  -- `_calibration_gate`
  unfoldable pub calibration_gate : Criteria F → ModelRun F → ResearchStore F → Calibration F
  unfolding audit_reasons
  calibration_gate args m s =
      let criteria = m.activation_criteria in
      let required = args.calibration_audit_required || criteria.calibration_audit_required in
      let id = text_or args.calibration_audit_id criteria.calibration_audit_id in
      judged required id args criteria (chosen_audit id m.model_version s)

  abbrev pub activate_calibrated :
      ℕ
      → String
      → String
      → ModelRun F
      → ValidationReport
      → Calibration F
      → ResearchStore F
      → Activation F × ResearchStore F
  activate_calibrated now version mode m report c s =
      if is_failed c.status
      then (
        refused version "calibration_gate_failed" (some mode) (some report.report_id) (some c),
        s,
      )
      else (
        record {
          is_activated = true;
          reason = none;
          model_version = version;
          validation_mode = some mode;
          report_id = some report.report_id;
          calibration = some c;
        },
        record (activate_row now (approved_model mode c m) (some report.report_id) s) {
          active_model_file = some (approved_model mode c m);
        },
      )

  abbrev pub activate_reported :
      ℕ
      → Criteria F
      → String
      → String
      → ModelRun F
      → Option ValidationReport
      → ResearchStore F
      → Activation F × ResearchStore F
  activate_reported now args version mode m none s =
      (refused version "accepted_validation_report_required" (some mode) none none, s)
  activate_reported now args version mode m (some r) s =
      if is_accepted (some r)
      then activate_calibrated now version mode m r (calibration_gate args m s) s
      else (refused version "validation_gate_failed" (some mode) (some r.report_id) none, s)

  abbrev pub activate_loaded :
      ℕ
      → Criteria F
      → String
      → String
      → ModelRun F
      → ResearchStore F
      → Activation F × ResearchStore F
  activate_loaded now args version mode m s =
      if str_eq m.model_version "untrained-baseline"
      then (refused version "model_not_found" none none none, s)
      else if str_eq m.model_type replay_aware_model_type
          && not (str_eq mode replay_aware_validation_mode)
      then (refused version "replay_aware_validation_required" (some mode) none none, s)
      else activate_reported now args version mode m
          (latest_validation version (some (purpose_of mode)) s) s

  -- `activate`
  unfoldable pub activate_model :
      ℕ
      → (String → ModelRun F)
      → Criteria F
      → String
      → String
      → ResearchStore F
      → Activation F × ResearchStore F
  unfolding calibration_gate
  activate_model now artifact args version mode s =
      activate_loaded now args version mode (loaded_model artifact version s) s
