-- ===== src/Governance/Rejection.antt =====
-- A rejected proposal stays rejected.
use simple_scanner.Common.{
  String, Bool, true, false, Option, none, some, List, [], ◌∷◌, ◌≡◌, refl, inl, inr, arith,
  Bool-cases, str_eq, eq_iff, subst, sym, ◌∙◌,
}
use simple_scanner.Common.Texts.{text_of}
use simple_scanner.Governance.Model.{FloatOps, ModelRun, Proposal, ResearchStore}
use simple_scanner.Governance.Tables.{
  find_by, upsert, same_proposal, get_proposal, save_proposal, append_decision, get_run,
  save_comparison,
}
use simple_scanner.Governance.Gates.{is_blocking}
use simple_scanner.Governance.Compare.{compare}
use simple_scanner.Governance.Activation.{activate_model}
use simple_scanner.Governance.Proposals.{
  ResearchEnv, is_rejected, is_approved, is_against, approve, approve_row, approved_proposal,
  reject, reject_row, rejected_proposal, reasons_or, create_from_comparison, new_proposal,
  record_decision,
}
use simple_scanner.Governance.ProposalActivation.{
  activate_proposal, activate_proposal_row, activate_guarded, activate_challenger,
  activated_proposal, selected_mode, plain_criteria, version_of, active_run,
}
use simple_scanner.Governance.Requests.{
  ResearchCommand, compare_cmd, create_proposal_cmd, approve_cmd, reject_cmd, activate_cmd,
  handle_research, run_research,
}
use simple_scanner.Governance.History.{activate_model-history}

module _ {F : Type 0} where
  abbrev pub is_rejected_row : Option (Proposal F) → Bool
  is_rejected_row none = false
  is_rejected_row (some p) = is_rejected p.status

  -- The proposal of the id is there and is rejected.
  abbrev pub rejected_in : String → List (Proposal F) → Bool
  rejected_in id ps = is_rejected_row (find_by (λ p. p.proposal_id) id ps)

  rejected_in-upsert :
      (id : String) (p : Proposal F) (ps : List (Proposal F))
      → (str_eq p.proposal_id id ≡ true → is_rejected p.status ≡ true)
      → rejected_in id ps ≡ true
      → rejected_in id (upsert same_proposal p ps) ≡ true
  unfolding find_by upsert
  rejected_in-upsert id p [] h k = cc
  rejected_in-upsert id p (q ∷ qs) h k = elim (Bool-cases (str_eq q.proposal_id p.proposal_id)) [
    | inl same ↦ elim (Bool-cases (str_eq p.proposal_id id)) [
      | inl here ↦ simp (same, here) (h here)
      | inr away ↦
          let moved : str_eq q.proposal_id id ≡ false =
            subst (λ t. str_eq t id ≡ false) (sym ((eq_iff q.proposal_id p.proposal_id).0 same))
              away in
          simp (same, away) (simp moved at k)
    ]
    | inr other ↦ elim (Bool-cases (str_eq q.proposal_id id)) [
      | inl here ↦ simp (other, here) (simp here at k)
      | inr away ↦ simp (other, away) (rejected_in-upsert id p qs h (simp away at k))
    ]
  ]

  find_by-key :
      (id : String) (ps : List (Proposal F)) {p : Proposal F}
      → find_by (λ q. q.proposal_id) id ps ≡ some p
      → p.proposal_id ≡ id
  unfolding find_by
  find_by-key id [] e = cc
  find_by-key id (q ∷ qs) {p} e = elim (Bool-cases (str_eq q.proposal_id id)) [
    | inl same ↦
        let found : q ≡ p = ground (arith, same, e) in
        subst (λ r. r.proposal_id ≡ id) found ((eq_iff q.proposal_id id).0 same)
    | inr other ↦ find_by-key id qs (rw other at e)
  ]

  -- A proposal that was found under the id of a rejected one is that one.
  found_rejected :
      (id asked : String) (ps : List (Proposal F)) {p : Proposal F}
      → find_by (λ q. q.proposal_id) asked ps ≡ some p
      → rejected_in id ps ≡ true
      → str_eq p.proposal_id id ≡ true
      → is_rejected p.status ≡ true
  found_rejected id asked ps {p} e h k =
      let same : asked ≡ id = sym (find_by-key asked ps e) ∙ (eq_iff p.proposal_id id).0 k in
      let there : is_rejected_row (find_by (λ q. q.proposal_id) asked ps) ≡ true =
        subst (λ t. rejected_in t ps ≡ true) (sym same) h in
      subst (λ o. is_rejected_row o ≡ true) e there

  approve_row-rejected :
      (env : ResearchEnv F) (id asked : String) (actor : Option String) (o : Option (Proposal F))
      (s : ResearchStore F)
      → get_proposal asked s ≡ o
      → rejected_in id s.proposals ≡ true
      → rejected_in id (approve_row env asked actor o s).1.proposals ≡ true
  unfolding get_proposal save_proposal record_decision append_decision
  approve_row-rejected env id asked actor none s e h = h
  approve_row-rejected env id asked actor (some p) s e h =
      elim (Bool-cases (is_rejected p.status)) [
        | inl r ↦ simp r h
        | inr r ↦ elim (Bool-cases (is_against p.recommended_action)) [
          | inl a ↦ simp (r, a) h
          | inr a ↦ elim (Bool-cases (is_blocking p.readiness_status)) [
            | inl b ↦ simp (r, a, b) h
            | inr b ↦
                simp (r, a, b)
                  (rejected_in-upsert id (approved_proposal env actor p) s.proposals
                    (λ k. cc (sym r ∙ found_rejected id asked s.proposals e h k)) h)
          ]
        ]
      ]

  reject_row-rejected :
      (env : ResearchEnv F) (id asked : String) (actor : Option String) (reasons : List String)
      (o : Option (Proposal F)) (s : ResearchStore F)
      → rejected_in id s.proposals ≡ true
      → rejected_in id (reject_row env asked actor reasons o s).1.proposals ≡ true
  unfolding save_proposal record_decision append_decision
  reject_row-rejected env id asked actor reasons none s h = h
  reject_row-rejected env id asked actor reasons (some p) s h =
      rejected_in-upsert id (rejected_proposal env reasons p) s.proposals (λ k. refl) h

  -- No proposal is created under the id.
  abbrev pub Spares : String → ResearchEnv F → ResearchCommand F → Type 0
  Spares id env (create_proposal_cmd c cycle) = str_eq (env.hashed_proposal_id c cycle) id ≡ false
  Spares id env c = Unit

  abbrev pub AllSpare : String → List (ResearchEnv F × ResearchCommand F) → Type 0
  AllSpare id [] = Unit
  AllSpare id ((env, c) ∷ rest) = Spares id env c × AllSpare id rest

module _ {F : Type 0} (ops : FloatOps F) where
  activate_challenger-rejected :
      (env : ResearchEnv F) (id : String) (p : Proposal F) (version : String)
      (actor mode : Option String) (required : Bool) (previous : Option String)
      (o : Option (ModelRun F)) (s : ResearchStore F)
      → (str_eq p.proposal_id id ≡ false)
      → rejected_in id s.proposals ≡ true
      → rejected_in id
          (activate_challenger ops env p version actor mode required previous o s).1.proposals
        ≡ true
  unfolding save_proposal record_decision append_decision
  activate_challenger-rejected env id p version actor mode required previous none s n h = h
  activate_challenger-rejected env id p version actor mode required previous (some m) s n h =
      let run =
        activate_model ops env.now env.artifact (plain_criteria required) version
          (selected_mode mode m) s in
      let same =
        activate_model-history ops env.now env.artifact (plain_criteria required) version
          (selected_mode mode m) s in
      let h' : rejected_in id run.1.proposals ≡ true =
        subst (λ ps. rejected_in id ps ≡ true) (sym same.1) h in
      elim (Bool-cases run.0.is_activated) [
        | inl done ↦ simp done (
            rejected_in-upsert id (activated_proposal env version run.0 p) run.1.proposals
              (λ k. cc (sym n ∙ k)) h')
        | inr refused ↦ simp refused h'
      ]

  activate_guarded-rejected :
      (env : ResearchEnv F) (id : String) (p : Proposal F) (actor : Option String) (confirm : Bool)
      (mode : Option String) (required : Bool) (previous : Option String) (s : ResearchStore F)
      → (is_rejected p.status ≡ false → str_eq p.proposal_id id ≡ false)
      → rejected_in id s.proposals ≡ true
      → rejected_in id
          (activate_guarded ops env p actor confirm mode required previous s).1.proposals
        ≡ true
  unfolding record_decision append_decision
  activate_guarded-rejected env id p actor confirm mode required previous s n h =
      elim (Bool-cases confirm) [
        | inr c ↦ simp c h
        | inl c ↦ elim (Bool-cases (is_rejected p.status)) [
          | inl r ↦ simp (c, r) h
          | inr r ↦ elim (Bool-cases (is_against p.recommended_action)) [
            | inl a ↦ simp (c, r, a) h
            | inr a ↦ elim (Bool-cases (is_approved p.status)) [
              | inr v ↦ simp (c, r, a, v) h
              | inl v ↦ elim (Bool-cases (is_blocking p.readiness_status)) [
                | inl b ↦ simp (c, r, a, v, b) h
                | inr b ↦
                    simp (c, r, a, v, b)
                      (activate_challenger-rejected env id p (text_of p.challenger_model_version)
                        actor mode required previous
                        (get_run (text_of p.challenger_model_version) s) s (n r) h)
              ]
            ]
          ]
        ]
      ]

  activate_proposal_row-rejected :
      (env : ResearchEnv F) (id asked : String) (actor : Option String) (confirm : Bool)
      (mode : Option String) (required : Bool) (o : Option (Proposal F)) (s : ResearchStore F)
      → get_proposal asked s ≡ o
      → rejected_in id s.proposals ≡ true
      → rejected_in id
          (activate_proposal_row ops env asked actor confirm mode required o s).1.proposals
        ≡ true
  unfolding get_proposal record_decision append_decision
  activate_proposal_row-rejected env id asked actor confirm mode required none s e h = h
  activate_proposal_row-rejected env id asked actor confirm mode required (some p) s e h =
      activate_guarded-rejected env id p actor confirm mode required (version_of (active_run s)) _
        (λ r. elim (Bool-cases (str_eq p.proposal_id id)) [
          | inl k ↦ cc (sym r ∙ found_rejected id asked s.proposals e h k)
          | inr k ↦ k
        ])
        h

  handle_research-rejected :
      (env : ResearchEnv F) (c : ResearchCommand F) (id : String) (s : ResearchStore F)
      → Spares id env c
      → rejected_in id s.proposals ≡ true
      → rejected_in id (handle_research ops env c s).proposals ≡ true
  unfolding handle_research compare save_comparison approve reject activate_proposal
      create_from_comparison record_decision append_decision save_proposal
  handle_research-rejected env (compare_cmd i champion challenger c) id s f h = h
  handle_research-rejected env (create_proposal_cmd c cycle) id s f h =
      rejected_in-upsert id (new_proposal env c cycle) s.proposals (λ k. cc (sym f ∙ k)) h
  handle_research-rejected env (approve_cmd i actor) id s f h =
      approve_row-rejected env id i actor (get_proposal i s) s refl h
  handle_research-rejected env (reject_cmd i actor reasons) id s f h =
      reject_row-rejected env id i actor (reasons_or reasons) (get_proposal i s) s h
  handle_research-rejected env (activate_cmd i actor confirm mode required) id s f h =
      activate_proposal_row-rejected env id i actor confirm mode required (get_proposal i s) s refl
        h

  -- Whatever is asked for afterwards, on this or on other proposals, a rejected proposal stays
  -- rejected, as long as no proposal is created under its id.
  pub run_research-rejected :
      (requests : List (ResearchEnv F × ResearchCommand F)) (id : String) (s : ResearchStore F)
      → AllSpare id requests
      → rejected_in id s.proposals ≡ true
      → rejected_in id (run_research ops requests s).proposals ≡ true
  unfolding run_research
  run_research-rejected [] id s f h = h
  run_research-rejected ((env, c) ∷ rest) id s f h =
      run_research-rejected rest id (handle_research ops env c s) f.1
        (handle_research-rejected env c id s f.0 h)
