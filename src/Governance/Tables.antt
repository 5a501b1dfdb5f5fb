-- ===== src/Governance/Tables.antt =====
-- The queries and upserts of services/quant-engine/app/db/repositories.py that the governance of models
-- uses. A query `ORDER BY created_at DESC` gives rows of one time in the order of the table.
use simple_scanner.Common.{
  ℕ, String, Bool, true, false, ◌&&◌, Option, none, some, List, [], ◌∷◌, ◌++◌, ltb, if◌then◌else◌,
  take, keep_if, map, str_eq, or_else,
}
use simple_scanner.Governance.Model.{
  ModelRun, ValidationReport, CalibrationAudit, DriftReport, ReviewReport, Comparison, Proposal,
  Decision, ActiveModel, ResearchStore,
}

module _ {A : Type 0} where
  -- `rows[0] if rows else None`
  abbrev pub first : List A → Option A
  first [] = none
  first (a ∷ rows) = some a

  unfoldable pub insert_newer : (A → ℕ) → A → List A → List A
  insert_newer time a [] = a ∷ []
  insert_newer time a (b ∷ bs) =
      if ltb (time a) (time b) then b ∷ insert_newer time a bs else a ∷ b ∷ bs

  -- `ORDER BY created_at DESC`
  unfoldable pub newest_first : (A → ℕ) → List A → List A
  unfolding insert_newer
  newest_first time [] = []
  newest_first time (a ∷ rows) = insert_newer time a (newest_first time rows)

  -- `WHERE key = ?` on a primary key
  unfoldable pub find_by : (A → String) → String → List A → Option A
  find_by key id [] = none
  find_by key id (a ∷ rows) = if str_eq (key a) id then some a else find_by key id rows

  -- `INSERT ... ON CONFLICT(key) DO UPDATE`, of the payload that is read back
  unfoldable pub upsert : (A → A → Bool) → A → List A → List A
  upsert same a [] = a ∷ []
  upsert same a (b ∷ bs) = if same b a then a ∷ bs else b ∷ upsert same a bs

-- `ValidationReportRepository.latest` and `list_all`
abbrev pub of_model_and_purpose : String → Option String → ValidationReport → Bool
of_model_and_purpose version none r = str_eq r.model_version version
of_model_and_purpose version (some purpose) r =
    str_eq r.model_version version && str_eq r.purpose purpose

module _ {F : Type 0} where
  unfoldable pub latest_validation :
      String → Option String → ResearchStore F → Option ValidationReport
  unfolding newest_first
  latest_validation version purpose s = first (
      newest_first (λ r. r.created_at)
        (keep_if (of_model_and_purpose version purpose) s.validation_reports))

  unfoldable pub all_validations : ResearchStore F → List ValidationReport
  unfolding newest_first
  all_validations s = newest_first (λ r. r.created_at) s.validation_reports

  unfoldable pub get_audit : String → ResearchStore F → Option (CalibrationAudit F)
  unfolding find_by
  get_audit id s = find_by (λ a. a.calibration_audit_id) id s.calibration_audits

  unfoldable pub latest_audit : String → ResearchStore F → Option (CalibrationAudit F)
  unfolding newest_first
  latest_audit version s = first (
      newest_first (λ a. a.created_at)
        (keep_if (λ a. str_eq a.model_version version) s.calibration_audits))

  unfoldable pub list_drifts : String → ℕ → ResearchStore F → List DriftReport
  unfolding newest_first
  list_drifts version limit s = take limit (
      newest_first (λ r. r.created_at)
        (keep_if (λ r. str_eq r.model_version version) s.drift_reports))

  unfoldable pub list_reviews : String → ℕ → ResearchStore F → List ReviewReport
  unfolding newest_first
  list_reviews version limit s = take limit (
      newest_first (λ r. r.created_at)
        (keep_if (λ r. str_eq r.model_version version) s.review_reports))

  unfoldable pub get_run : String → ResearchStore F → Option (ModelRun F)
  unfolding find_by
  get_run version s = find_by (λ m. m.model_version) version s.model_runs

  unfoldable pub get_proposal : String → ResearchStore F → Option (Proposal F)
  unfolding find_by
  get_proposal id s = find_by (λ p. p.proposal_id) id s.proposals

  abbrev pub same_proposal : Proposal F → Proposal F → Bool
  same_proposal a b = str_eq a.proposal_id b.proposal_id

  unfoldable pub save_proposal : Proposal F → ResearchStore F → ResearchStore F
  unfolding upsert
  save_proposal p s = record s { proposals = upsert same_proposal p s.proposals }

  abbrev pub same_comparison : Comparison F → Comparison F → Bool
  same_comparison a b = str_eq (or_else a.comparison_id "") (or_else b.comparison_id "")

  unfoldable pub save_comparison : Comparison F → ResearchStore F → ResearchStore F
  unfolding upsert
  save_comparison c s = record s { comparisons = upsert same_comparison c s.comparisons }

  unfoldable pub append_decision : Decision F → ResearchStore F → ResearchStore F
  append_decision d s = record s { ledger = s.ledger ++ d ∷ [] }

  abbrev pub same_slot : ActiveModel F → ActiveModel F → Bool
  same_slot a b = str_eq a.model_type b.model_type && str_eq a.strategy_scope b.strategy_scope

  -- The loop of `ActiveModelRepository.activate` over model_runs: the row of the version gets the
  -- payload, and every other row is no longer active.
  abbrev pub marked_run : ModelRun F → ModelRun F → ModelRun F
  marked_run payload row =
      if str_eq row.model_version payload.model_version
      then payload
      else record row { active = false }

  -- `ActiveModelRepository.activate`, for a time and a report
  unfoldable pub activate_row : ℕ → ModelRun F → Option String → ResearchStore F → ResearchStore F
  unfolding upsert
  activate_row now model report s =
      let payload = record model { active = true } in
      record s {
        active_models =
            upsert same_slot
              (record {
                model_type = model.model_type;
                strategy_scope = "default";
                payload = payload;
                activated_at = now;
                validation_report_id = report;
              })
              s.active_models;
        model_runs = map (marked_run payload) s.model_runs;
      }

  abbrev pub in_slot : String → ActiveModel F → Bool
  in_slot model_type a = str_eq a.model_type model_type && str_eq a.strategy_scope "default"

  -- `get_active` in the default scope
  unfoldable pub get_active : String → ResearchStore F → Option (ModelRun F)
  get_active model_type s = elim (first (keep_if (in_slot model_type) s.active_models)) [
    | none ↦ none
    | some a ↦ some a.payload
  ]
