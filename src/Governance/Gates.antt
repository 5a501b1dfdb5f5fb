-- ===== src/Governance/Gates.antt =====
-- `_gate_results`, `_readiness` and `_recommended_action` of ChampionChallengerComparisonService in
-- services/quant-engine/app/services/research.py.
use simple_scanner.Common.{
  ℕ, zero, suc, String, Bool, true, false, not, ◌&&◌, ◌||◌, Option, none, some, List, [], ◌∷◌, leb,
  if◌then◌else◌, is_some, keep_if, length, or_else, str_eq,
}
use simple_scanner.Common.Texts.{member, filled_texts, is_filled}
use simple_scanner.Governance.Model.{
  Readiness, info, pass, review, block, blocking, Action, keep_champion, block_all_changes,
  reject_challenger, review_challenger, approve_challenger_for_activation, ModelRun,
  ValidationReport, CalibrationAudit, DriftReport, ReviewReport, GateResults, ResearchStore,
}
use simple_scanner.Governance.Tables.{
  first, latest_validation, all_validations, get_audit, latest_audit, list_drifts, list_reviews,
  get_run,
}

-- `comparison_context`, the two summaries that `compare` is given, and the purpose of the reports of a
-- replay-aware model.
pub record Context : Type 0 where
  pub validation_report_ids : List String
  pub calibration_audit_ids : List String
  pub drift_report_ids : List String
  pub model_review_report_ids : List String
  pub dirty_window_count : Option ℕ
  pub invalid_price_or_volume_count : Option ℕ

abbrev pub replay_aware_purpose : String
replay_aware_purpose = "replay_aware_validation"

-- `BLOCKING_READINESS`
abbrev pub is_blocking : Readiness → Bool
is_blocking block = true
is_blocking blocking = true
is_blocking r = false

-- `readiness_status == "BLOCK"`
abbrev pub is_block : Readiness → Bool
is_block block = true
is_block r = false

-- `bool(count)`
abbrev pub is_counted : Option ℕ → Bool
is_counted none = false
is_counted (some zero) = false
is_counted (some (suc n)) = true

-- `a or b`
abbrev pub first_report :
    Option ValidationReport → Option ValidationReport → Option ValidationReport
first_report none b = b
first_report (some a) b = some a

abbrev pub is_accepted : Option ValidationReport → Bool
is_accepted none = false
is_accepted (some r) = str_eq (or_else r.activation_decision "") "accepted"

module _ {F : Type 0} where
  abbrev pub gate_validation : Context → String → ResearchStore F → Option ValidationReport
  gate_validation c version s = elim (filled_texts c.validation_report_ids) [
    | [] ↦
        first_report (latest_validation version (some replay_aware_purpose) s)
          (latest_validation version none s)
    | id ∷ ids ↦ first (keep_if (λ r. member r.report_id (id ∷ ids)) (all_validations s))
  ]

  abbrev pub gate_audit : Context → String → ResearchStore F → Option (CalibrationAudit F)
  gate_audit c version s = elim (filled_texts c.calibration_audit_ids) [
    | [] ↦ latest_audit version s
    | id ∷ ids ↦ get_audit id s
  ]

  abbrev pub gate_drift : Context → String → ResearchStore F → Option DriftReport
  gate_drift c version s = elim (filled_texts c.drift_report_ids) [
    | [] ↦ first (list_drifts version 1 s)
    | id ∷ ids ↦
        first (keep_if (λ r. member r.drift_report_id (id ∷ ids)) (list_drifts version 100 s))
  ]

  abbrev pub gate_review : Context → String → ResearchStore F → Option ReviewReport
  gate_review c version s = elim (filled_texts c.model_review_report_ids) [
    | [] ↦ first (list_reviews version 1 s)
    | id ∷ ids ↦
        first (keep_if (λ r. member r.review_report_id (id ∷ ids)) (list_reviews version 100 s))
  ]

  abbrev pub audit_passes : Option (CalibrationAudit F) → Bool
  audit_passes none = true
  audit_passes (some a) = elim a.rejection_reasons [ [] ↦ true | r ∷ rs ↦ false ]

abbrev pub drift_passes : Option DriftReport → Bool
drift_passes none = true
drift_passes (some r) = not (is_blocking (or_else r.severity info))

abbrev pub review_passes : Option ReviewReport → Bool
review_passes none = true
review_passes (some r) = not (is_blocking (or_else r.readiness_status review))

abbrev pub absent_gates : GateResults
absent_gates = record {
  challenger_present = false;
  validation_pass = false;
  calibration_pass = false;
  drift_pass = false;
  model_review_pass = false;
  stale_window_pass = false;
  data_quality_pass = false;
  validation_report_id = none;
  calibration_audit_id = none;
  drift_report_id = none;
  model_review_report_id = none;
  all_passed = false;
}

-- `record.get(key) if record else None`
abbrev pub id_of : {A : Type 0} → (A → String) → Option A → Option String
id_of key none = none
id_of key (some a) = some (key a)

module _ {F : Type 0} where
  abbrev pub gates_of :
      Context
      → Option (ModelRun F)
      → Option ValidationReport
      → Option (CalibrationAudit F)
      → Option DriftReport
      → Option ReviewReport
      → GateResults
  gates_of c model validation audit drift report =
      let present = is_some model in
      let validated = is_accepted validation in
      let calibrated = audit_passes audit in
      let undrifted = drift_passes drift in
      let reviewed = review_passes report in
      let fresh = not (is_counted c.dirty_window_count) in
      let clean = not (is_counted c.invalid_price_or_volume_count) in
      record {
        challenger_present = present;
        validation_pass = validated;
        calibration_pass = calibrated;
        drift_pass = undrifted;
        model_review_pass = reviewed;
        stale_window_pass = fresh;
        data_quality_pass = clean;
        validation_report_id = id_of (λ r. r.report_id) validation;
        calibration_audit_id = id_of (λ a. a.calibration_audit_id) audit;
        drift_report_id = id_of (λ r. r.drift_report_id) drift;
        model_review_report_id = id_of (λ r. r.review_report_id) report;
        all_passed = present && validated && calibrated && undrifted && reviewed && fresh && clean;
      }

  abbrev pub gates_for : String → Context → ResearchStore F → GateResults
  gates_for version c s =
      gates_of c (get_run version s) (gate_validation c version s) (gate_audit c version s)
        (gate_drift c version s) (gate_review c version s)

  -- `_gate_results`
  unfoldable pub gate_results : Option String → Context → ResearchStore F → GateResults
  gate_results none c s = absent_gates
  gate_results (some version) c s =
      if is_filled version then gates_for version c s else absent_gates

  -- `_readiness`
  unfoldable pub readiness : Option (ModelRun F) → GateResults → Readiness
  readiness none g = review
  readiness (some m) g =
      if not g.challenger_present || not g.validation_pass
      then block
      else if not g.calibration_pass || not g.drift_pass || not g.model_review_pass
      then block
      else if not g.stale_window_pass || not g.data_quality_pass
      then review
      else pass

  -- `_recommended_action`
  unfoldable pub recommended_action :
      Option (ModelRun F)
      → Option (ModelRun F)
      → GateResults
      → List String
      → List String
      → Readiness
      → Action
  recommended_action champion none g better worse r =
      if is_some champion then keep_champion else block_all_changes
  recommended_action champion (some m) g better worse r =
      if is_block r
      then reject_challenger
      else if not g.all_passed
      then review_challenger
      else if not (is_some champion)
      then approve_challenger_for_activation
      else if leb 1 (length worse) && leb (length better) (length worse)
      then keep_champion
      else approve_challenger_for_activation
