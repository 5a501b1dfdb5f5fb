-- ===== src/Governance/Authority.antt =====
-- A model is activated only by a confirmed request on an approved proposal, with an accepted report.
use simple_scanner.Common.{
  ℕ, String, Bool, true, false, not, ◌&&◌, Option, none, some, List, [], ◌∷◌, ◌≡◌, refl, inl, inr,
  Bool-cases, Option-cases, str_eq,
}
use simple_scanner.Common.Texts.{text_of}
use simple_scanner.Governance.Model.{
  FloatOps, Criteria, ModelRun, ValidationReport, Proposal, Activation, Decision, ResearchStore,
  model_activation_requested, decision_requested, proposal_ref,
}
use simple_scanner.Governance.Tables.{
  latest_validation, get_proposal, get_run, append_decision, get_audit, latest_audit,
}
use simple_scanner.Governance.Gates.{is_accepted, is_blocking}
use simple_scanner.Governance.Activation.{
  activate_model, activate_loaded, activate_reported, calibration_gate, is_failed, purpose_of,
  replay_aware_model_type, replay_aware_validation_mode,
}
use simple_scanner.Governance.Proposals.{
  ResearchEnv, Reply, accepted_with, is_against, is_approved, is_rejected, record_decision,
}
use simple_scanner.Governance.ProposalActivation.{
  activate_proposal, activate_proposal_row, activate_guarded, version_of, active_run,
  activate_challenger, finish_activation, selected_mode, plain_criteria,
}

module _ {F : Type 0} where
  -- The tables and the file that say which model is active are as they were.
  pub record SameModels (s s' : ResearchStore F) : Type 0 where
    pub runs : s'.model_runs ≡ s.model_runs
    pub active : s'.active_models ≡ s.active_models
    pub file : s'.active_model_file ≡ s.active_model_file

  -- The newest report for the model and the mode accepts it, and the gate of calibration holds.
  pub record IsCleared (ops : FloatOps F) (args : Criteria F) (m : ModelRun F)
      (version mode : String) (s : ResearchStore F) : Type 0 where
    pub report : ValidationReport
    pub is_latest : latest_validation version (some (purpose_of mode)) s ≡ some report
    pub accepts : is_accepted (some report) ≡ true
    pub calibrated : is_failed (calibration_gate ops args m s).status ≡ false

  abbrev pub is_accepted_reply : Reply F → Bool
  is_accepted_reply (accepted_with p) = true
  is_accepted_reply r = false

-- An activation that is refused changes nothing, and one that is not was cleared.
abbrev IsGated :
    {F : Type 0}
    → FloatOps F
    → Criteria F
    → ModelRun F
    → String
    → String
    → ResearchStore F
    → Activation F × ResearchStore F
    → Type 0
IsGated ops args m version mode s out =
    (out.0.is_activated ≡ true → IsCleared ops args m version mode s)
    × (out.0.is_activated ≡ false → out.1 ≡ s)

module _ {F : Type 0} (ops : FloatOps F) where
  activate_reported-IsGated :
      (now : ℕ) (args : Criteria F) (version mode : String) (m : ModelRun F)
      (o : Option ValidationReport) (s : ResearchStore F)
      → latest_validation version (some (purpose_of mode)) s ≡ o
      → IsGated ops args m version mode s (activate_reported ops now args version mode m o s)
  activate_reported-IsGated now args version mode m none s e = ((λ h. cc), λ h. refl)
  activate_reported-IsGated now args version mode m (some r) s e =
      elim (Bool-cases (is_accepted (some r))) [
        | inr refuses ↦ rw refuses ((λ h. cc), λ h. refl)
        | inl accepts ↦ elim (Bool-cases (is_failed (calibration_gate ops args m s).status)) [
          | inl bad ↦ rw (accepts, bad) ((λ h. cc), λ h. refl)
          | inr good ↦
              rw (accepts, good)
                (
                  (λ h. record { report = r; is_latest = e; accepts = accepts; calibrated = good }),
                  λ h. cc,
                )
        ]
      ]

  activate_loaded-IsGated :
      (now : ℕ) (args : Criteria F) (version mode : String) (m : ModelRun F) (s : ResearchStore F)
      → IsGated ops args m version mode s (activate_loaded ops now args version mode m s)
  activate_loaded-IsGated now args version mode m s =
      elim (Bool-cases (str_eq m.model_version "untrained-baseline")) [
        | inl untrained ↦ rw untrained ((λ h. cc), λ h. refl)
        | inr trained ↦
            elim (Bool-cases (
              str_eq m.model_type replay_aware_model_type
              && not (str_eq mode replay_aware_validation_mode))) [
                | inl wrong ↦ rw (trained, wrong) ((λ h. cc), λ h. refl)
                | inr right ↦
                    rw (trained, right)
                      (activate_reported-IsGated now args version mode m
                        (latest_validation version (some (purpose_of mode)) s) s refl)
              ]
      ]

-- The conditions under which a proposal's challenger is activated.
pub record IsAuthorized {F : Type 0} (ops : FloatOps F) (id : String) (confirm : Bool)
    (mode : Option String) (required : Bool) (s : ResearchStore F) : Type 0 where
  pub proposal : Proposal F
  pub found : get_proposal id s ≡ some proposal
  pub confirmed : confirm ≡ true
  pub approved : is_approved proposal.status ≡ true
  pub recommended : is_against proposal.recommended_action ≡ false
  pub ready : is_blocking proposal.readiness_status ≡ false
  pub model : ModelRun F
  pub stored : get_run (text_of proposal.challenger_model_version) s ≡ some model
  pub cleared :
      IsCleared ops
        (plain_criteria required)
        model
        (text_of proposal.challenger_model_version)
        (selected_mode mode model)
        s

-- A reply that accepts comes from a call that meets `P`, and any other leaves the models and the
-- proposals as they were.
abbrev pub IsGuarded : {F : Type 0} → Type 0 → ResearchStore F → Reply F × ResearchStore F → Type 0
IsGuarded P s out =
    (is_accepted_reply out.0 ≡ true → P)
    × (is_accepted_reply out.0 ≡ false → SameModels s out.1 × (out.1.proposals ≡ s.proposals))

same_models :
    {F : Type 0} (s : ResearchStore F) (ds : List (Decision F))
    → SameModels s (record s { ledger = ds })
same_models s ds = record { runs = refl; active = refl; file = refl }

module _ {F : Type 0} (ops : FloatOps F) where
  finish_activation-IsGuarded :
      (P : Type 0) (env : ResearchEnv F) (p : Proposal F) (version : String)
      (actor previous : Option String) (a : Activation F) (s s' : ResearchStore F)
      → (a.is_activated ≡ true → P)
      → (a.is_activated ≡ false → s' ≡ s)
      → IsGuarded P s (finish_activation env p version actor previous a s')
  unfolding record_decision append_decision
  finish_activation-IsGuarded P env p version actor previous a s s' h k =
      elim (Bool-cases a.is_activated) [
        | inl done ↦ rw done ((λ e. h done), λ e. cc)
        | inr refused ↦ rw refused ((λ e. cc), λ e. rw (k refused) (same_models s _, refl))
      ]

  activate_challenger-IsGuarded :
      (env : ResearchEnv F) (p : Proposal F) (version : String) (actor mode : Option String)
      (required : Bool) (previous : Option String) (o : Option (ModelRun F)) (s : ResearchStore F)
      → get_run version s ≡ o
      → IsGuarded
          ((m : ModelRun F) × (get_run version s ≡ some m)
            × IsCleared ops (plain_criteria required) m version (selected_mode mode m) s)
          s
          (activate_challenger ops env p version actor mode required previous o s)
  unfolding activate_model record_decision append_decision
  activate_challenger-IsGuarded env p version actor mode required previous none s e =
      ((λ h. cc), λ h. (same_models s _, refl))
  activate_challenger-IsGuarded env p version actor mode required previous (some m) s e =
      let gated =
        activate_loaded-IsGated ops env.now (plain_criteria required) version (selected_mode mode m)
          m s in
      rw e (
        finish_activation-IsGuarded _ env p version actor previous
          (activate_loaded ops env.now (plain_criteria required) version (selected_mode mode m) m
            s).0
          s
          (activate_loaded ops env.now (plain_criteria required) version (selected_mode mode m) m
            s).1
          (λ h. (m, refl, gated.0 h)) gated.1)

  activate_guarded-IsGuarded :
      (env : ResearchEnv F) (id : String) (p : Proposal F) (actor : Option String) (confirm : Bool)
      (mode : Option String) (required : Bool) (previous : Option String) (s : ResearchStore F)
      → get_proposal id s ≡ some p
      → IsGuarded
          (IsAuthorized ops id confirm mode required s)
          s
          (activate_guarded ops env p actor confirm mode required previous s)
  unfolding record_decision append_decision
  activate_guarded-IsGuarded env id p actor confirm mode required previous s e =
      elim (Bool-cases confirm) [
        | inr c ↦ rw c ((λ h. cc), λ h. (same_models s _, refl))
        | inl c ↦ elim (Bool-cases (is_rejected p.status)) [
          | inl r ↦ rw (c, r) ((λ h. cc), λ h. (same_models s _, refl))
          | inr r ↦ elim (Bool-cases (is_against p.recommended_action)) [
            | inl a ↦ rw (c, r, a) ((λ h. cc), λ h. (same_models s _, refl))
            | inr a ↦ elim (Bool-cases (is_approved p.status)) [
              | inr v ↦ rw (c, r, a, v) ((λ h. cc), λ h. (same_models s _, refl))
              | inl v ↦ elim (Bool-cases (is_blocking p.readiness_status)) [
                | inl b ↦ rw (c, r, a, v, b) ((λ h. cc), λ h. (same_models s _, refl))
                | inr b ↦
                    rw (c, r, a, v, b)
                      (let version = text_of p.challenger_model_version in
                        let done =
                          activate_challenger-IsGuarded env p version actor mode required previous
                            (get_run version s) s refl in
                        (
                          (λ h.
                              let (m, there, cleared) = done.0 h in
                              record {
                                proposal = p;
                                found = e;
                                confirmed = refl;
                                approved = v;
                                recommended = a;
                                ready = b;
                                model = m;
                                stored = there;
                                cleared = cleared;
                              }),
                          done.1,
                        ))
              ]
            ]
          ]
        ]
      ]

  -- The ledger is no part of what the conditions read.
  IsAuthorized-ledger :
      (id : String) (confirm : Bool) (mode : Option String) (required : Bool) (s : ResearchStore F)
      (ds : List (Decision F))
      → IsAuthorized ops id confirm mode required (record s { ledger = ds })
      → IsAuthorized ops id confirm mode required s
  unfolding get_proposal get_run latest_validation calibration_gate get_audit latest_audit
  IsAuthorized-ledger id confirm mode required s ds h = record {
    proposal = h.proposal;
    found = h.found;
    confirmed = h.confirmed;
    approved = h.approved;
    recommended = h.recommended;
    ready = h.ready;
    model = h.model;
    stored = h.stored;
    cleared = record {
      report = h.cleared.report;
      is_latest = h.cleared.is_latest;
      accepts = h.cleared.accepts;
      calibrated = h.cleared.calibrated;
    };
  }

  activate_logged :
      (env : ResearchEnv F) (id : String) (p : Proposal F) (actor : Option String) (confirm : Bool)
      (mode : Option String) (required : Bool) (s : ResearchStore F)
      → get_proposal id s ≡ some p
      → IsGuarded
          (IsAuthorized ops id confirm mode required s)
          s
          (activate_proposal_row ops env id actor confirm mode required (some p) s)
  unfolding record_decision append_decision get_proposal
  activate_logged env id p actor confirm mode required s e =
      let previous = version_of (active_run s) in
      let logged =
        record_decision env model_activation_requested p decision_requested actor
          ("explicit_proposal_activation" ∷ []) (proposal_ref id ∷ []) previous s in
      let done =
        activate_guarded-IsGuarded env id p actor confirm mode required previous logged e in
      (
        (λ h. IsAuthorized-ledger id confirm mode required s _ (done.0 h)),
        λ h. (
          record {
            runs = (done.1 h).0.runs;
            active = (done.1 h).0.active;
            file = (done.1 h).0.file;
          },
          (done.1 h).1,
        ),
      )

  -- `activate` accepts a proposal only if the request is confirmed, the proposal is approved, is not
  -- recommended against and its readiness does not block, its challenger is stored, the newest report
  -- for the challenger and the mode of validation accepts it, and the gate of calibration does not
  -- fail. In every other case the runs, the active models, the artifact and the proposals stay as
  -- they were.
  pub activate_proposal-IsGuarded :
      (env : ResearchEnv F) (id : String) (actor : Option String) (confirm : Bool)
      (mode : Option String) (required : Bool) (s : ResearchStore F)
      → IsGuarded
          (IsAuthorized ops id confirm mode required s)
          s
          (activate_proposal ops env id actor confirm mode required s)
  unfolding activate_proposal
  activate_proposal-IsGuarded env id actor confirm mode required s =
      elim (Option-cases (get_proposal id s)) [
        | inl none_there ↦
            rw (none_there, activate_proposal_row) ((λ h. cc), λ h. (same_models s s.ledger, refl))
        | inr (p, e) ↦
            rw (e, activate_proposal_row) (activate_logged env id p actor confirm mode required s e)
      ]
