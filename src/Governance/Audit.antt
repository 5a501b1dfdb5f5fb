-- ===== src/Governance/Audit.antt =====
-- What holds of every proposal after any requests: approval and activation are never against the
-- evidence, and both stand in the ledger.
use simple_scanner.Common.{
  String, Bool, true, false, ◌&&◌, ◌||◌, Option, some, List, [], ◌∷◌, ◌++◌, ◌≡◌, refl, inl, inr,
  arith, Bool-cases, str_eq, All, subst,
}
use simple_scanner.Common.Texts.{str_eq_self}
use simple_scanner.Governance.Model.{
  Proposal, ProposalStatus, activated, Decision, DecisionType, DecisionStatus, EvidenceRef,
  proposal_approved, model_activated, decision_approved, decision_activated, ResearchStore,
}
use simple_scanner.Governance.Tables.{
  find_by, upsert, save_proposal, append_decision, same_proposal,
}
use simple_scanner.Governance.Gates.{is_blocking}
use simple_scanner.Governance.Proposals.{
  ResearchEnv, is_against, is_approved, decision_of, record_decision,
}

abbrev pub is_activated_status : ProposalStatus → Bool
is_activated_status activated = true
is_activated_status s = false

-- Approved, or activated after that.
abbrev pub is_open : ProposalStatus → Bool
is_open s = is_approved s || is_activated_status s

-- The kinds and statuses with which a decision is made; a refusal has the kind of what was asked for, and
-- the status `decision_blocked`.
abbrev pub is_approval : DecisionType → DecisionStatus → Bool
is_approval proposal_approved decision_approved = true
is_approval t st = false

abbrev pub is_activation : DecisionType → DecisionStatus → Bool
is_activation model_activated decision_activated = true
is_activation t st = false

module _ {F : Type 0} where
  -- The ledger has a decision of the kind and status on the proposal.
  abbrev pub has_decision :
      (DecisionType → DecisionStatus → Bool) → String → List (Decision F) → Bool
  has_decision kind id [] = false
  has_decision kind id (d ∷ ds) =
      (kind d.decision_type d.decision_status && str_eq d.proposal_id id) || has_decision kind id ds

  pub record IsGoverned (ledger : List (Decision F)) (p : Proposal F) : Type 0 where
    pub recommended : is_open p.status ≡ true → is_against p.recommended_action ≡ false
    pub ready : is_open p.status ≡ true → is_blocking p.readiness_status ≡ false
    pub approval : is_open p.status ≡ true → has_decision is_approval p.proposal_id ledger ≡ true
    pub activation :
        is_activated_status p.status ≡ true → has_decision is_activation p.proposal_id ledger ≡ true

  abbrev pub AllGoverned : ResearchStore F → Type 0
  AllGoverned s = All (IsGoverned s.ledger) s.proposals

  has_decision-later :
      (kind : DecisionType → DecisionStatus → Bool) (id : String) (ds : List (Decision F))
      (d : Decision F)
      → has_decision kind id ds ≡ true
      → has_decision kind id (ds ++ d ∷ []) ≡ true
  has_decision-later kind id [] d h = cc
  has_decision-later kind id (e ∷ ds) d h = ground (arith, has_decision-later kind id ds d)

  has_decision-last :
      (kind : DecisionType → DecisionStatus → Bool) (id : String) (ds : List (Decision F))
      (d : Decision F)
      → kind d.decision_type d.decision_status ≡ true
      → str_eq d.proposal_id id ≡ true
      → has_decision kind id (ds ++ d ∷ []) ≡ true
  has_decision-last kind id [] d h k = rw (h, k) refl
  has_decision-last kind id (e ∷ ds) d h k = ground (arith, has_decision-last kind id ds d h k)

  pub IsGoverned-later :
      (ds : List (Decision F)) (d : Decision F) (p : Proposal F)
      → IsGoverned ds p
      → IsGoverned (ds ++ d ∷ []) p
  IsGoverned-later ds d p h = record {
    recommended = h.recommended;
    ready = h.ready;
    approval = λ e. has_decision-later is_approval p.proposal_id ds d (h.approval e);
    activation = λ e. has_decision-later is_activation p.proposal_id ds d (h.activation e);
  }

  pub AllGoverned-later :
      (ds : List (Decision F)) (d : Decision F) (ps : List (Proposal F))
      → All (IsGoverned ds) ps
      → All (IsGoverned (ds ++ d ∷ [])) ps
  AllGoverned-later ds d [] h = tt
  AllGoverned-later ds d (p ∷ ps) h = (IsGoverned-later ds d p h.0, AllGoverned-later ds d ps h.1)

  All-upsert :
      (P : Proposal F → Type 0) (same : Proposal F → Proposal F → Bool) (p : Proposal F)
      (ps : List (Proposal F))
      → P p
      → All P ps
      → All P (upsert same p ps)
  unfolding upsert
  All-upsert P same p [] h hs = (h, tt)
  All-upsert P same p (q ∷ qs) h hs = elim (Bool-cases (same q p)) [
    | inl e ↦ rw e (h, hs.1)
    | inr e ↦ rw e (hs.0, All-upsert P same p qs h hs.1)
  ]

  pub All-find_by :
      (P : Proposal F → Type 0) (id : String) (ps : List (Proposal F)) {p : Proposal F}
      → All P ps
      → find_by (λ q. q.proposal_id) id ps ≡ some p
      → P p
  unfolding find_by
  All-find_by P id [] h e = cc
  All-find_by P id (q ∷ qs) {p} h e = elim (Bool-cases (str_eq q.proposal_id id)) [
    | inl same ↦ subst P (let found : q ≡ p = ground (arith, same, e) in found) h.0
    | inr other ↦ All-find_by P id qs h.1 (rw other at e)
  ]

  -- A decision alone, and a decision on a proposal that is saved with it.
  pub logged-Governed :
      (env : ResearchEnv F) (kind : DecisionType) (p : Proposal F) (status : DecisionStatus)
      (actor : Option String) (reasons : List String) (refs : List (EvidenceRef F))
      (previous : Option String) (s : ResearchStore F)
      → AllGoverned s
      → AllGoverned (record_decision env kind p status actor reasons refs previous s)
  unfolding record_decision append_decision
  logged-Governed env kind p status actor reasons refs previous s h =
      AllGoverned-later s.ledger _ s.proposals h

  pub saved-Governed :
      (env : ResearchEnv F) (kind : DecisionType) (p : Proposal F) (status : DecisionStatus)
      (actor : Option String) (reasons : List String) (refs : List (EvidenceRef F))
      (previous : Option String) (s : ResearchStore F)
      → (is_open p.status ≡ true → is_against p.recommended_action ≡ false)
      → (is_open p.status ≡ true → is_blocking p.readiness_status ≡ false)
      → (is_open p.status ≡ true
          → is_approval kind status ≡ false
          → has_decision is_approval p.proposal_id s.ledger ≡ true)
      → (is_activated_status p.status ≡ true → is_activation kind status ≡ true)
      → AllGoverned s
      → AllGoverned
          (record_decision env kind p status actor reasons refs previous (save_proposal p s))
  unfolding record_decision append_decision save_proposal
  saved-Governed env kind p status actor reasons refs previous s a b c d h =
      let decision = decision_of env kind p status actor reasons refs previous in
      All-upsert (IsGoverned (s.ledger ++ decision ∷ [])) same_proposal p s.proposals
        (record {
          recommended = a;
          ready = b;
          approval = λ e. elim (Bool-cases (is_approval kind status)) [
            | inl k ↦
                has_decision-last is_approval p.proposal_id s.ledger decision k
                  (str_eq_self p.proposal_id)
            | inr k ↦ has_decision-later is_approval p.proposal_id s.ledger decision (c e k)
          ];
          activation = λ e.
              has_decision-last is_activation p.proposal_id s.ledger decision (d e)
                (str_eq_self p.proposal_id);
        })
        (AllGoverned-later s.ledger decision s.proposals h)
