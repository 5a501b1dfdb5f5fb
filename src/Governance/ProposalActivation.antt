-- ===== src/Governance/ProposalActivation.antt =====
-- `activate` of ModelProposalService in services/quant-engine/app/services/research.py.
use simple_scanner.Common.{
  String, Bool, false, not, Option, none, some, List, [], ◌∷◌, if◌then◌else◌, or_else, str_eq,
}
use simple_scanner.Common.Texts.{text_or, text_of}
use simple_scanner.Governance.Model.{
  FloatOps, Criteria, activated, Proposal, model_activation_requested, model_activation_blocked,
  model_activated, decision_requested, decision_blocked, decision_activated, EvidenceRef,
  report_ref, proposal_ref, activation_ref, activation_result_ref, ModelRun, Activation,
  ResearchStore,
}
use simple_scanner.Governance.Tables.{get_proposal, save_proposal, get_active, get_run}
use simple_scanner.Governance.Gates.{is_blocking}
use simple_scanner.Governance.Activation.{
  activate_model, replay_aware_model_type, replay_aware_validation_mode,
}
use simple_scanner.Governance.Proposals.{
  Reply, ResearchEnv, accepted_with, is_against, is_approved, is_rejected, record_decision,
  refused_with, unknown_proposal,
}

module _ {F : Type 0} where
  -- `_activation_blocked`
  abbrev pub activation_refs : Option (Activation F) → List (EvidenceRef F)
  activation_refs none = []
  activation_refs (some a) = activation_result_ref a ∷ []

  abbrev pub activation_blocked :
      ResearchEnv F
      → Proposal F
      → String
      → Option String
      → Option (Activation F)
      → ResearchStore F
      → Reply F × ResearchStore F
  activation_blocked env p reason actor a s = (
    refused_with reason p.proposal_id a,
    record_decision env model_activation_blocked p decision_blocked actor (reason ∷ [])
        (activation_refs a) none s,
  )

  -- The model that is active when an activation is asked for.
  abbrev pub active_run : ResearchStore F → Option (ModelRun F)
  active_run s = elim (get_active replay_aware_model_type s) [
    | none ↦ get_active "statistical_evidence_baseline" s
    | some m ↦ some m
  ]

  abbrev pub version_of : Option (ModelRun F) → Option String
  version_of none = none
  version_of (some m) = some m.model_version

  abbrev pub activated_proposal : ResearchEnv F → String → Activation F → Proposal F → Proposal F
  activated_proposal env version a p = record p {
    status = activated;
    activation_model_version = some version;
    activation_id = some (env.hashed_activation_id p.proposal_id version);
    activation = some a;
    updated_at = env.now;
  }

  abbrev pub finish_activation :
      ResearchEnv F
      → Proposal F
      → String
      → Option String
      → Option String
      → Activation F
      → ResearchStore F
      → Reply F × ResearchStore F
  finish_activation env p version actor previous a s =
      if a.is_activated
      then (
        accepted_with (activated_proposal env version a p),
        record_decision env model_activated (activated_proposal env version a p) decision_activated
            actor ("explicit_manual_activation_confirmed" ∷ [])
            (activation_ref (env.hashed_activation_id p.proposal_id version)
              ∷ report_ref a.report_id
              ∷ [])
            previous (save_proposal (activated_proposal env version a p) s),
      )
      else activation_blocked env p (or_else (text_or a.reason none) "activation_gate_failed") actor
          (some a) s

  -- `validation_mode or (... if model_type == ... else "label_derived")`
  abbrev pub selected_mode : Option String → ModelRun F → String
  selected_mode mode m = or_else (text_or mode none) (
      if str_eq m.model_type replay_aware_model_type
      then replay_aware_validation_mode
      else "label_derived")

  -- The arguments that the proposal service leaves at their defaults.
  abbrev pub plain_criteria : Bool → Criteria F
  plain_criteria required = record {
    calibration_audit_required = required;
    calibration_audit_id = none;
    require_monotonic_score_bins = false;
    require_take_outperforms_watch = false;
    minimum_high_grade_samples = none;
    minimum_rank_correlation_score = none;
    max_allowed_calibration_warnings = none;
  }

module _ {F : Type 0} (ops : FloatOps F) where
  abbrev pub activate_challenger :
      ResearchEnv F
      → Proposal F
      → String
      → Option String
      → Option String
      → Bool
      → Option String
      → Option (ModelRun F)
      → ResearchStore F
      → Reply F × ResearchStore F
  activate_challenger env p version actor mode required previous none s =
      activation_blocked env p "challenger_model_not_found" actor none s
  activate_challenger env p version actor mode required previous (some m) s =
      let (a, s') =
        activate_model ops env.now env.artifact (plain_criteria required) version
          (selected_mode mode m) s in
      finish_activation env p version actor previous a s'

  -- The guards of `activate`, once the request is in the ledger.
  abbrev pub activate_guarded :
      ResearchEnv F
      → Proposal F
      → Option String
      → Bool
      → Option String
      → Bool
      → Option String
      → ResearchStore F
      → Reply F × ResearchStore F
  activate_guarded env p actor confirm mode required previous s =
      if not confirm
      then activation_blocked env p "manual_confirmation_required" actor none s
      else if is_rejected p.status
      then activation_blocked env p "proposal_rejected" actor none s
      else if is_against p.recommended_action
      then activation_blocked env p "proposal_not_recommended_for_activation" actor none s
      else if not (is_approved p.status)
      then activation_blocked env p "proposal_not_approved_for_activation" actor none s
      else if is_blocking p.readiness_status
      then activation_blocked env p "readiness_block" actor none s
      else activate_challenger env p (text_of p.challenger_model_version) actor mode required
          previous (get_run (text_of p.challenger_model_version) s) s

  abbrev pub activate_proposal_row :
      ResearchEnv F
      → String
      → Option String
      → Bool
      → Option String
      → Bool
      → Option (Proposal F)
      → ResearchStore F
      → Reply F × ResearchStore F
  activate_proposal_row env id actor confirm mode required none s = (unknown_proposal id, s)
  activate_proposal_row env id actor confirm mode required (some p) s =
      let previous = version_of (active_run s) in
      activate_guarded env p actor confirm mode required previous (
        record_decision env model_activation_requested p decision_requested actor
          ("explicit_proposal_activation" ∷ []) (proposal_ref id ∷ []) previous s)

  -- `activate` of a proposal
  unfoldable pub activate_proposal :
      ResearchEnv F
      → String
      → Option String
      → Bool
      → Option String
      → Bool
      → ResearchStore F
      → Reply F × ResearchStore F
  unfolding record_decision
  activate_proposal env id actor confirm mode required s =
      activate_proposal_row env id actor confirm mode required (get_proposal id s) s
