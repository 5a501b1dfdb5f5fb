-- ===== src/Governance/Tests.antt =====
-- Runs of the governance of models of services/quant-engine/app/services/research.py.
use simple_scanner.Common.{
  ℕ, String, true, false, none, some, List, [], ◌∷◌, ◌≡◌, refl, ltb, leb, All, str_eq,
}
use simple_scanner.Governance.Model.{
  FloatOps, number, other, Criteria, ModelRun, ValidationReport, Proposal, ProposalStatus,
  activated, ResearchStore, Comparison,
}
use simple_scanner.Governance.Tables.{
  activate_row, get_active, insert_newer, newest_first, find_by, upsert, latest_validation,
  latest_audit, list_drifts, list_reviews, get_run, get_proposal, save_proposal, append_decision,
}
use simple_scanner.Governance.Gates.{Context, readiness, gate_results, recommended_action}
use simple_scanner.Governance.Compare.{compare, comparison_of}
use simple_scanner.Governance.Activation.{activate_model, calibration_gate}
use simple_scanner.Governance.Proposals.{
  ResearchEnv, first_status, record_decision, create_from_comparison, approve, reject,
}
use simple_scanner.Governance.ProposalActivation.{activate_proposal}
use simple_scanner.Governance.Requests.{
  ResearchCommand, create_proposal_cmd, approve_cmd, reject_cmd, activate_cmd, run_research,
  handle_research,
}
use simple_scanner.Governance.Authority.{IsGuarded, IsAuthorized, activate_proposal-IsGuarded}
use simple_scanner.Governance.Active.{activate_row-exclusive, activate_row-other_type}
use simple_scanner.Governance.Rejection.{rejected_in, run_research-rejected}

-- Numbers in the place of `float`; below zero there is nothing.
abbrev ops : FloatOps ℕ
ops = record { zero_float = 0; diff = λ a b. a; below = ltb; at_most = leb }

abbrev no_criteria : Criteria ℕ
no_criteria = record {
  calibration_audit_required = false;
  calibration_audit_id = none;
  require_monotonic_score_bins = false;
  require_take_outperforms_watch = false;
  minimum_high_grade_samples = none;
  minimum_rank_correlation_score = none;
  max_allowed_calibration_warnings = none;
}

abbrev run_of : String → String → ModelRun ℕ
run_of version kind = record {
  model_version = version;
  model_type = kind;
  active = false;
  activation_decision = "rejected";
  activation_validation_mode = none;
  calibration = none;
  calibration_required = false;
  metrics = ("average_r", number 3) ∷ ("note", other) ∷ [];
  validation_metrics = ("trades", number 9) ∷ [];
  activation_criteria = no_criteria;
}

abbrev report_of : String → String → ValidationReport
report_of version decision = record {
  report_id = "r-1";
  model_version = version;
  purpose = "replay_aware_validation";
  activation_decision = some decision;
  created_at = 5;
}

abbrev tables : ResearchStore ℕ
tables = record {
  model_runs =
      run_of "m1" "statistical_evidence_baseline" ∷ run_of "m2" "replay_aware_baseline" ∷ [];
  active_models = [];
  validation_reports = report_of "m2" "accepted" ∷ [];
  calibration_audits = [];
  drift_reports = [];
  review_reports = [];
  comparisons = [];
  proposals = [];
  ledger = [];
  active_model_file = none;
}

abbrev env : ResearchEnv ℕ
env = record {
  now = 9;
  hashed_proposal_id = λ c cycle. "p-1";
  hashed_activation_id = λ p v. "a-1";
  artifact = λ v. run_of "untrained-baseline" "statistical_evidence_baseline";
}

abbrev context : Context
context = record {
  validation_report_ids = [];
  calibration_audit_ids = [];
  drift_report_ids = [];
  model_review_report_ids = [];
  dirty_window_count = some 0;
  invalid_price_or_volume_count = none;
}

abbrev found : Comparison ℕ
found = (compare ops 7 "c-1" none (some "m2") context tables).0

abbrev proposing : List (ResearchEnv ℕ × ResearchCommand ℕ)
proposing = (env, create_proposal_cmd found none) ∷ []

abbrev activating : List (ResearchEnv ℕ × ResearchCommand ℕ)
activating =
    (env, create_proposal_cmd found none)
    ∷ (env, approve_cmd "p-1" none)
    ∷ (env, activate_cmd "p-1" none true none false)
    ∷ []

abbrev rejecting : List (ResearchEnv ℕ × ResearchCommand ℕ)
rejecting = (env, approve_cmd "p-1" none) ∷ (env, activate_cmd "p-1" none true none false) ∷ []

abbrev statuses : List (Proposal ℕ) → List ProposalStatus
statuses [] = []
statuses (p ∷ ps) = p.status ∷ statuses ps

run_activates : statuses (run_research ops activating tables).proposals ≡ activated ∷ []
unfolding run_research handle_research insert_newer newest_first find_by upsert latest_validation
    latest_audit list_drifts list_reviews get_run get_proposal get_active activate_row save_proposal
    append_decision readiness gate_results recommended_action compare comparison_of activate_model
    calibration_gate first_status record_decision create_from_comparison approve reject
    activate_proposal
run_activates = refl

abbrev rejected_tables : ResearchStore ℕ
rejected_tables =
    run_research ops ((env, create_proposal_cmd found none) ∷ (env, reject_cmd "p-1" none []) ∷ [])
      tables

is_rejected_there : rejected_in "p-1" rejected_tables.proposals ≡ true
unfolding run_research handle_research insert_newer newest_first find_by upsert latest_validation
    latest_audit list_drifts list_reviews get_run get_proposal get_active activate_row save_proposal
    append_decision readiness gate_results recommended_action compare comparison_of activate_model
    calibration_gate first_status record_decision create_from_comparison approve reject
    activate_proposal
is_rejected_there = refl

run_research-rejected_example :
    rejected_in "p-1" (run_research ops rejecting rejected_tables).proposals ≡ true
run_research-rejected_example =
    run_research-rejected ops rejecting "p-1" rejected_tables (tt, (tt, tt)) is_rejected_there

abbrev approved_tables : ResearchStore ℕ
approved_tables =
    run_research ops ((env, create_proposal_cmd found none) ∷ (env, approve_cmd "p-1" none) ∷ [])
      tables

activate_proposal-IsGuarded_example :
    IsGuarded
      (IsAuthorized ops "p-1" true none false approved_tables)
      approved_tables
      (activate_proposal ops env "p-1" none true none false approved_tables)
activate_proposal-IsGuarded_example =
    activate_proposal-IsGuarded ops env "p-1" none true none false approved_tables

activate_row-exclusive_example :
    let s' = activate_row 9 (run_of "m2" "replay_aware_baseline") none tables in
    All (λ row. row.active ≡ str_eq row.model_version "m2") s'.model_runs
    × (get_active "replay_aware_baseline" s'
        ≡ some (record (run_of "m2" "replay_aware_baseline") { active = true }))
activate_row-exclusive_example =
    activate_row-exclusive 9 (run_of "m2" "replay_aware_baseline") none tables

-- The older baseline is active, and a replay-aware model is activated.
abbrev baseline_active : ResearchStore ℕ
baseline_active = activate_row 3 (run_of "m1" "statistical_evidence_baseline") none tables

baseline_is_active :
    get_active "statistical_evidence_baseline" baseline_active
    ≡ some (record (run_of "m1" "statistical_evidence_baseline") { active = true })
unfolding get_active activate_row upsert
baseline_is_active = refl

activate_row-other_type_example :
    let s' = activate_row 9 (run_of "m2" "replay_aware_baseline") none baseline_active in
    (get_active "statistical_evidence_baseline" s'
      ≡ some (record (run_of "m1" "statistical_evidence_baseline") { active = true }))
    × All (λ row. str_eq row.model_version "m1" ≡ true → row.active ≡ false) s'.model_runs
activate_row-other_type_example =
    activate_row-other_type 9 (run_of "m2" "replay_aware_baseline")
      (record (run_of "m1" "statistical_evidence_baseline") { active = true }) none
      "statistical_evidence_baseline" baseline_active baseline_is_active refl refl
