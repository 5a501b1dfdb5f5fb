-- ===== src/Governance/Proposals.antt =====
-- ModelProposalService of services/quant-engine/app/services/research.py. The readings of the clock in
-- one call are one reading. The evidence summary of a proposal, which is only carried, is left out.
use simple_scanner.Common.{
  ℕ, String, Bool, true, false, ◌||◌, Option, none, some, List, [], ◌∷◌, ◌++◌, if◌then◌else◌,
  or_else,
}
use simple_scanner.Common.Texts.{sorted_set, is_filled, text_or, text_of}
use simple_scanner.Governance.Model.{
  Readiness, review, Action, keep_champion, block_all_changes, reject_challenger, review_challenger,
  approve_challenger_for_activation, ProposalStatus, rejected, proposed, review_required,
  approved_for_activation, challenger_model, keep_champion_type, Comparison, Proposal, DecisionType,
  proposal_created, proposal_approved, proposal_rejected, DecisionStatus, decision_recorded,
  decision_approved, decision_rejected, decision_blocked, EvidenceRef, comparison_ref, Decision,
  ModelRun, Activation, ResearchStore,
}
use simple_scanner.Governance.Tables.{get_proposal, save_proposal, append_decision}
use simple_scanner.Governance.Gates.{is_blocking}

-- What the service reads from outside: the clock, the hashes that give an id to a proposal and to an
-- activation, and the files of the models.
pub record ResearchEnv (F : Type 0) : Type 0 where
  pub now : ℕ
  pub hashed_proposal_id : Comparison F → Option String → String
  pub hashed_activation_id : String → String → String
  pub artifact : String → ModelRun F

pub data Reply (F : Type 0) : Type 0 where
  unknown_proposal : String → Reply F
  refused_with : String → String → Option (Activation F) → Reply F
  accepted_with : Proposal F → Reply F

-- `NON_ACTIVATION_RECOMMENDATIONS`
abbrev pub is_against : Action → Bool
is_against keep_champion = true
is_against reject_challenger = true
is_against block_all_changes = true
is_against a = false

abbrev pub is_rejected : ProposalStatus → Bool
is_rejected rejected = true
is_rejected s = false

abbrev pub is_approved : ProposalStatus → Bool
is_approved approved_for_activation = true
is_approved s = false

abbrev pub action_text : Action → String
action_text keep_champion = "KEEP_CHAMPION"
action_text block_all_changes = "BLOCK_ALL_CHANGES"
action_text reject_challenger = "REJECT_CHALLENGER"
action_text review_challenger = "REVIEW_CHALLENGER"
action_text approve_challenger_for_activation = "APPROVE_CHALLENGER_FOR_ACTIVATION"

-- The status and the reasons with which a proposal starts.
abbrev pub is_reject_action : Action → Bool
is_reject_action reject_challenger = true
is_reject_action a = false

abbrev pub is_approve_action : Action → Bool
is_approve_action approve_challenger_for_activation = true
is_approve_action a = false

unfoldable pub first_status : Readiness → Action → ProposalStatus
first_status r a =
    if is_blocking r || is_reject_action a
    then rejected
    else if is_approve_action a
    then proposed
    else review_required

abbrev pub first_reasons : ProposalStatus → List String
first_reasons rejected = "comparison_gates_failed" ∷ []
first_reasons s = []

-- `reason_codes or ["manual_rejection"]`
abbrev pub reasons_or : List String → List String
reasons_or [] = "manual_rejection" ∷ []
reasons_or (r ∷ rs) = r ∷ rs

-- `[id] if id else []`
abbrev pub list_of : Option String → List String
list_of id = if is_filled (text_of id) then text_of id ∷ [] else []

module _ {F : Type 0} where
  -- `_ledger`
  abbrev pub decision_of :
      ResearchEnv F
      → DecisionType
      → Proposal F
      → DecisionStatus
      → Option String
      → List String
      → List (EvidenceRef F)
      → Option String
      → Decision F
  decision_of env kind p status actor reasons refs previous = record {
    decision_type = kind;
    research_cycle_id = p.research_cycle_id;
    proposal_id = p.proposal_id;
    model_version = text_or p.challenger_model_version p.activation_model_version;
    previous_model_version = text_or previous p.champion_model_version;
    decision_status = status;
    reason_codes = reasons;
    evidence_refs = refs;
    actor = actor;
    approval_required = p.approval_required;
    created_at = env.now;
  }

  unfoldable pub record_decision :
      ResearchEnv F
      → DecisionType
      → Proposal F
      → DecisionStatus
      → Option String
      → List String
      → List (EvidenceRef F)
      → Option String
      → ResearchStore F
      → ResearchStore F
  record_decision env kind p status actor reasons refs previous s =
      append_decision (decision_of env kind p status actor reasons refs previous) s

  abbrev pub new_proposal : ResearchEnv F → Comparison F → Option String → Proposal F
  new_proposal env c cycle =
      let r = or_else c.readiness_status review in
      let action = or_else c.recommended_action review_challenger in
      let status = first_status r action in
      record {
        proposal_id = env.hashed_proposal_id c cycle;
        research_cycle_id = cycle;
        proposal_type =
            (if is_filled (text_of c.challenger_model_version)
              then challenger_model
              else keep_champion_type);
        status = status;
        champion_model_version = c.champion_model_version;
        challenger_model_version = c.challenger_model_version;
        recommended_action = action;
        readiness_status = r;
        validation_report_ids = list_of c.gate_results.validation_report_id;
        calibration_audit_ids = list_of c.gate_results.calibration_audit_id;
        drift_report_ids = list_of c.gate_results.drift_report_id;
        model_review_report_ids = list_of c.gate_results.model_review_report_id;
        comparison_ids = list_of c.comparison_id;
        champion_metrics = c.champion_metrics;
        challenger_metrics = c.challenger_metrics;
        delta_metrics = c.delta_metrics;
        pass_fail_gates = c.gate_results;
        rejection_reasons = first_reasons status;
        approval_required = true;
        approved_by = none;
        approved_at = none;
        activation_model_version = none;
        activation_id = none;
        activation = none;
        created_at = env.now;
        updated_at = env.now;
      }

  unfoldable pub create_from_comparison :
      ResearchEnv F → Comparison F → Option String → ResearchStore F → Reply F × ResearchStore F
  unfolding record_decision first_status
  create_from_comparison env c cycle s =
      let p = new_proposal env c cycle in
      (
        accepted_with p,
        record_decision env proposal_created p decision_recorded none
            (action_text p.recommended_action ∷ []) (comparison_ref c.comparison_id ∷ []) none
            (save_proposal p s),
      )

  -- `_blocked`
  abbrev pub blocked_reply :
      ResearchEnv F
      → Proposal F
      → String
      → DecisionType
      → ResearchStore F
      → Reply F × ResearchStore F
  blocked_reply env p reason kind s = (
    refused_with reason p.proposal_id none,
    record_decision env kind p decision_blocked none (reason ∷ []) [] none s,
  )

  abbrev pub approved_proposal : ResearchEnv F → Option String → Proposal F → Proposal F
  approved_proposal env actor p = record p {
    status = approved_for_activation;
    approved_by = some (or_else (text_or actor none) "manual");
    approved_at = some env.now;
    updated_at = env.now;
  }

  abbrev pub approve_row :
      ResearchEnv F
      → String
      → Option String
      → Option (Proposal F)
      → ResearchStore F
      → Reply F × ResearchStore F
  approve_row env id actor none s = (unknown_proposal id, s)
  approve_row env id actor (some p) s =
      if is_rejected p.status
      then blocked_reply env p "proposal_rejected" proposal_approved s
      else if is_against p.recommended_action
      then blocked_reply env p "proposal_not_recommended_for_activation" proposal_approved s
      else if is_blocking p.readiness_status
      then blocked_reply env p "readiness_block" proposal_approved s
      else (
        accepted_with (approved_proposal env actor p),
        record_decision env proposal_approved (approved_proposal env actor p) decision_approved
            actor ("manual_approval_required" ∷ []) [] none
            (save_proposal (approved_proposal env actor p) s),
      )

  unfoldable pub approve :
      ResearchEnv F → String → Option String → ResearchStore F → Reply F × ResearchStore F
  unfolding record_decision
  approve env id actor s = approve_row env id actor (get_proposal id s) s

  abbrev pub rejected_proposal : ResearchEnv F → List String → Proposal F → Proposal F
  rejected_proposal env reasons p = record p {
    status = rejected;
    rejection_reasons = sorted_set (p.rejection_reasons ++ reasons);
    updated_at = env.now;
  }

  abbrev pub reject_row :
      ResearchEnv F
      → String
      → Option String
      → List String
      → Option (Proposal F)
      → ResearchStore F
      → Reply F × ResearchStore F
  reject_row env id actor reasons none s = (unknown_proposal id, s)
  reject_row env id actor reasons (some p) s = (
    accepted_with (rejected_proposal env reasons p),
    record_decision env proposal_rejected (rejected_proposal env reasons p) decision_rejected actor
        reasons [] none (save_proposal (rejected_proposal env reasons p) s),
  )

  unfoldable pub reject :
      ResearchEnv F
      → String
      → Option String
      → List String
      → ResearchStore F
      → Reply F × ResearchStore F
  unfolding record_decision
  reject env id actor reasons s = reject_row env id actor (reasons_or reasons) (get_proposal id s) s
