-- ===== src/Governance/Model.antt =====
-- The rows that the governance of models reads and writes: services/quant-engine/app/services/research.py
-- and the model tables of services/quant-engine/app/db/repositories.py. `F` stands for `float`.
use simple_scanner.Common.{ℕ, String, Bool, Option, List}
use simple_scanner.Common.Int.{ℤ}

-- What the code does with a `float`; `diff a b` is `round(a - b, 6)`.
pub record FloatOps (F : Type 0) : Type 0 where
  pub zero_float : F
  pub diff : F → F → F
  pub below : F → F → Bool
  pub at_most : F → F → Bool

-- A value of a dictionary of metrics: only an `int` or a `float` is read.
pub data Metric (F : Type 0) : Type 0 where
  number : F → Metric F
  other : Metric F

-- `readiness_status`, and the `severity` of a drift report
pub data Readiness : Type 0 where
  info pass watch review block blocking : Readiness

pub data Action : Type 0 where
  keep_champion block_all_changes reject_challenger review_challenger : Action
  approve_challenger_for_activation : Action

pub data ProposalStatus : Type 0 where
  rejected proposed review_required approved_for_activation activated : ProposalStatus

pub data ProposalType : Type 0 where
  challenger_model keep_champion_type : ProposalType

-- The optional requirements of `_calibration_gate`: its arguments, and the model's `activation_criteria`.
pub record Criteria (F : Type 0) : Type 0 where
  pub calibration_audit_required : Bool
  pub calibration_audit_id : Option String
  pub require_monotonic_score_bins : Bool
  pub require_take_outperforms_watch : Bool
  pub minimum_high_grade_samples : Option ℤ
  pub minimum_rank_correlation_score : Option F
  pub max_allowed_calibration_warnings : Option ℤ

pub data CalibrationStatus : Type 0 where
  not_required failed passed : CalibrationStatus

-- What `_calibration_gate` returns; a key that is missing is `none`.
pub record Calibration (F : Type 0) : Type 0 where
  pub required : Bool
  pub status : CalibrationStatus
  pub reason : Option String
  pub calibration_audit_id : Option String
  pub monotonicity_pass : Option Bool
  pub rank_correlation_score : Option F
  pub calibration_warnings : List String
  pub rejection_reasons : List String

-- A row of model_runs, by its payload.
pub record ModelRun (F : Type 0) : Type 0 where
  pub model_version : String
  pub model_type : String
  pub active : Bool
  pub activation_decision : String
  pub activation_validation_mode : Option String
  pub calibration : Option (Calibration F)
  pub calibration_required : Bool
  pub metrics : List (String × Metric F)
  pub validation_metrics : List (String × Metric F)
  pub activation_criteria : Criteria F

pub record GradeBin : Type 0 where
  pub bin_key : String
  pub sample_size : ℕ

pub record ValidationReport : Type 0 where
  pub report_id : String
  pub model_version : String
  pub purpose : String
  pub activation_decision : Option String
  pub created_at : ℕ

pub record CalibrationAudit (F : Type 0) : Type 0 where
  pub calibration_audit_id : String
  pub model_version : String
  pub rejection_reasons : List String
  pub calibration_warnings : List String
  pub warnings : List String
  pub monotonicity_pass : Bool
  pub rank_correlation_score : Option F
  pub take_minus_watch_average_r : Option F
  pub grade_bins : List GradeBin
  pub created_at : ℕ

pub record DriftReport : Type 0 where
  pub drift_report_id : String
  pub model_version : String
  pub severity : Option Readiness
  pub created_at : ℕ

pub record ReviewReport : Type 0 where
  pub review_report_id : String
  pub model_version : String
  pub readiness_status : Option Readiness
  pub created_at : ℕ

-- `gate_results`; where the challenger is not named, the code leaves out all but two keys, and a key
-- that is left out is read as false or as `None`.
pub record GateResults : Type 0 where
  pub challenger_present : Bool
  pub validation_pass : Bool
  pub calibration_pass : Bool
  pub drift_pass : Bool
  pub model_review_pass : Bool
  pub stale_window_pass : Bool
  pub data_quality_pass : Bool
  pub validation_report_id : Option String
  pub calibration_audit_id : Option String
  pub drift_report_id : Option String
  pub model_review_report_id : Option String
  pub all_passed : Bool

pub record Comparison (F : Type 0) : Type 0 where
  pub comparison_id : Option String
  pub champion_model_version : Option String
  pub challenger_model_version : Option String
  pub champion_metrics : List (String × F)
  pub challenger_metrics : List (String × F)
  pub delta_metrics : List (String × F)
  pub challenger_better_flags : List String
  pub challenger_worse_flags : List String
  pub gate_results : GateResults
  pub recommended_action : Option Action
  pub readiness_status : Option Readiness
  pub warnings : List String
  pub created_at : ℕ

-- What `ModelActivationService.activate` returns, its keys that later code reads.
pub record Activation (F : Type 0) : Type 0 where
  pub is_activated : Bool
  pub reason : Option String
  pub model_version : String
  pub validation_mode : Option String
  pub report_id : Option String
  pub calibration : Option (Calibration F)

pub record Proposal (F : Type 0) : Type 0 where
  pub proposal_id : String
  pub research_cycle_id : Option String
  pub proposal_type : ProposalType
  pub status : ProposalStatus
  pub champion_model_version : Option String
  pub challenger_model_version : Option String
  pub recommended_action : Action
  pub readiness_status : Readiness
  pub validation_report_ids : List String
  pub calibration_audit_ids : List String
  pub drift_report_ids : List String
  pub model_review_report_ids : List String
  pub comparison_ids : List String
  pub champion_metrics : List (String × F)
  pub challenger_metrics : List (String × F)
  pub delta_metrics : List (String × F)
  pub pass_fail_gates : GateResults
  pub rejection_reasons : List String
  pub approval_required : Bool
  pub approved_by : Option String
  pub approved_at : Option ℕ
  pub activation_model_version : Option String
  pub activation_id : Option String
  pub activation : Option (Activation F)
  pub created_at : ℕ
  pub updated_at : ℕ

pub data DecisionType : Type 0 where
  proposal_created proposal_approved proposal_rejected : DecisionType
  model_activation_requested model_activation_blocked model_activated : DecisionType

pub data DecisionStatus : Type 0 where
  decision_recorded decision_approved decision_rejected : DecisionStatus
  decision_requested decision_blocked decision_activated : DecisionStatus

pub data EvidenceRef (F : Type 0) : Type 0 where
  comparison_ref report_ref : Option String → EvidenceRef F
  proposal_ref activation_ref : String → EvidenceRef F
  activation_result_ref : Activation F → EvidenceRef F

-- A row of model_decision_ledger.
pub record Decision (F : Type 0) : Type 0 where
  pub decision_type : DecisionType
  pub research_cycle_id : Option String
  pub proposal_id : String
  pub model_version : Option String
  pub previous_model_version : Option String
  pub decision_status : DecisionStatus
  pub reason_codes : List String
  pub evidence_refs : List (EvidenceRef F)
  pub actor : Option String
  pub approval_required : Bool
  pub created_at : ℕ

-- A row of active_models; its key is the type of the model and the scope.
pub record ActiveModel (F : Type 0) : Type 0 where
  pub model_type : String
  pub strategy_scope : String
  pub payload : ModelRun F
  pub activated_at : ℕ
  pub validation_report_id : Option String

-- The tables, and the artifact active_model.json.
pub record ResearchStore (F : Type 0) : Type 0 where
  pub model_runs : List (ModelRun F)
  pub active_models : List (ActiveModel F)
  pub validation_reports : List ValidationReport
  pub calibration_audits : List (CalibrationAudit F)
  pub drift_reports : List DriftReport
  pub review_reports : List ReviewReport
  pub comparisons : List (Comparison F)
  pub proposals : List (Proposal F)
  pub ledger : List (Decision F)
  pub active_model_file : Option (ModelRun F)
