-- ===== src/Governance/Evidence.antt =====
-- What the gates of a comparison decide: the readiness, and the proposals that come from it.
use simple_scanner.Common.{
  ℕ, String, Bool, true, false, not, ◌&&◌, ◌||◌, Option, none, some, List, ◌≡◌, ◌↔◌, inl, inr,
  arith, Bool-cases, if◌then◌else◌, is_some,
}
use simple_scanner.Common.Texts.{is_filled}
use simple_scanner.Governance.Model.{
  ModelRun, GateResults, Readiness, pass, review, block, ResearchStore, ValidationReport,
  CalibrationAudit, DriftReport, ReviewReport,
}
use simple_scanner.Governance.Tables.{get_run}
use simple_scanner.Governance.Gates.{
  Context, gates_of, gate_results, readiness, recommended_action, is_block, gate_validation,
  is_accepted, gate_audit, gate_drift, gate_review, audit_passes, drift_passes, review_passes,
  is_counted,
}
use simple_scanner.Governance.Compare.{named_run}
use simple_scanner.Governance.Proposals.{is_approve_action}

gates_bits :
    (a b c d e f : Bool)
    → ((if not a
          then block
          else if not b || not c || not d
          then block
          else if not e || not f
          then review
          else pass)
        ≡ pass)
      ↔ ((a && b && c && d && e && f) ≡ true)
gates_bits a b c d e f = ground arith

module _ {F : Type 0} where
  gates_of-pass :
      (c : Context) (o : Option (ModelRun F)) (v : Option ValidationReport)
      (a : Option (CalibrationAudit F)) (d : Option DriftReport) (r : Option ReviewReport)
      → (readiness o (gates_of c o v a d r) ≡ pass) ↔ ((gates_of c o v a d r).all_passed ≡ true)
  unfolding readiness
  gates_of-pass c none v a d r = ground arith
  gates_of-pass c (some m) v a d r =
      gates_bits (is_accepted v) (audit_passes a) (drift_passes d) (review_passes r)
        (not (is_counted c.dirty_window_count)) (not (is_counted c.invalid_price_or_volume_count))

  -- `_readiness` says PASS of a challenger exactly when `all_passed` holds of its gates.
  gate_results-pass :
      (version : Option String) (c : Context) (s : ResearchStore F)
      → (readiness (named_run version s) (gate_results version c s) ≡ pass)
        ↔ ((gate_results version c s).all_passed ≡ true)
  unfolding gate_results readiness
  gate_results-pass none c s = ground arith
  gate_results-pass (some v) c s = elim (Bool-cases (is_filled v)) [
    | inl e ↦ rw e (
        gates_of-pass c (get_run v s) (gate_validation c v s) (gate_audit c v s) (gate_drift c v s)
          (gate_review c v s))
    | inr e ↦ rw e (ground arith)
  ]

  recommended_action-approve :
      (champion challenger : Option (ModelRun F)) (g : GateResults) (better worse : List String)
      (r : Readiness)
      → is_approve_action (recommended_action champion challenger g better worse r) ≡ true
      → (is_block r ≡ false) × (g.all_passed ≡ true)
  unfolding recommended_action
  recommended_action-approve champion none g better worse r h = ground arith
  recommended_action-approve champion (some m) g better worse r h = ground arith

-- A count that is missing or zero.
abbrev pub IsNone : Option ℕ → Type 0
IsNone none = Unit
IsNone (some n) = n ≡ 0

module _ {F : Type 0} where
  -- What the tables and the context hold for each gate to pass: the model is stored, its validation is
  -- accepted, its audit has no reasons of rejection, neither its drift nor its review blocks, and no
  -- dirty window and no invalid price or volume is counted.
  pub record IsClean (c : Context) (version : String) (s : ResearchStore F) : Type 0 where
    pub stored : is_some (get_run version s) ≡ true
    pub accepted : is_accepted (gate_validation c version s) ≡ true
    pub audited : audit_passes (gate_audit c version s) ≡ true
    pub undrifted : drift_passes (gate_drift c version s) ≡ true
    pub reviewed : review_passes (gate_review c version s) ≡ true
    pub no_dirty_window : IsNone c.dirty_window_count
    pub no_invalid_price : IsNone c.invalid_price_or_volume_count

  -- The version of the challenger is given, and its evidence is clean.
  abbrev pub IsCleanFor : Context → Option String → ResearchStore F → Type 0
  IsCleanFor c none s = ⊥
  IsCleanFor c (some version) s = (is_filled version ≡ true) × IsClean c version s
