-- ===== src/Governance/History.antt =====
-- Every request keeps the proposals and the ledger in accord, and only adds to the ledger.
use simple_scanner.Common.{
  ℕ, String, not, ◌&&◌, Option, none, some, ◌≡◌, refl, inl, inr, Bool-cases, str_eq,
}
use simple_scanner.Governance.Model.{
  FloatOps, ModelRun, Activation, ResearchStore, Criteria, ValidationReport,
}
use simple_scanner.Governance.Tables.{activate_row, latest_validation}
use simple_scanner.Governance.Gates.{is_accepted}
use simple_scanner.Governance.Activation.{
  activate_model, activate_loaded, activate_reported, loaded_model, calibration_gate, is_failed,
  purpose_of, replay_aware_model_type, replay_aware_validation_mode,
}

abbrev SameHistory : {F : Type 0} → ResearchStore F → ResearchStore F → Type 0
SameHistory s s' = (s'.ledger ≡ s.ledger) × (s'.proposals ≡ s.proposals)

module _ {F : Type 0} (ops : FloatOps F) where
  activate_reported-history :
      (now : ℕ) (args : Criteria F) (version mode : String) (m : ModelRun F)
      (o : Option ValidationReport) (s : ResearchStore F)
      → SameHistory s (activate_reported ops now args version mode m o s).1
  unfolding activate_row
  activate_reported-history now args version mode m none s = (refl, refl)
  activate_reported-history now args version mode m (some r) s =
      elim (Bool-cases (is_accepted (some r))) [
        | inr refuses ↦ rw refuses (refl, refl)
        | inl accepts ↦ elim (Bool-cases (is_failed (calibration_gate ops args m s).status)) [
          | inl bad ↦ rw (accepts, bad) (refl, refl)
          | inr good ↦ rw (accepts, good) (refl, refl)
        ]
      ]

  pub activate_model-history :
      (now : ℕ) (artifact : String → ModelRun F) (args : Criteria F) (version mode : String)
      (s : ResearchStore F)
      → SameHistory s (activate_model ops now artifact args version mode s).1
  unfolding activate_model
  activate_model-history now artifact args version mode s =
      let m = loaded_model artifact version s in
      elim (Bool-cases (str_eq m.model_version "untrained-baseline")) [
        | inl untrained ↦ rw (untrained, activate_loaded) (refl, refl)
        | inr trained ↦
            elim (Bool-cases (
              str_eq m.model_type replay_aware_model_type
              && not (str_eq mode replay_aware_validation_mode))) [
                | inl wrong ↦ rw (trained, wrong) (refl, refl)
                | inr right ↦
                    rw (trained, right)
                      (activate_reported-history now args version mode m
                        (latest_validation version (some (purpose_of mode)) s) s)
              ]
      ]
