-- ===== src/Governance/Requests.antt =====
-- The requests that change the tables of the governance of models.
use simple_scanner.Common.{Bool, String, Option, List, [], ◌∷◌}
use simple_scanner.Governance.Model.{FloatOps, Comparison, ResearchStore}
use simple_scanner.Governance.Gates.{Context}
use simple_scanner.Governance.Compare.{compare}
use simple_scanner.Governance.Proposals.{ResearchEnv, create_from_comparison, approve, reject}
use simple_scanner.Governance.ProposalActivation.{activate_proposal}

-- One call of a service; a comparison carries the id that its repository hashes for it.
pub data ResearchCommand (F : Type 0) : Type 0 where
  compare_cmd : String → Option String → Option String → Context → ResearchCommand F
  create_proposal_cmd : Comparison F → Option String → ResearchCommand F
  approve_cmd : String → Option String → ResearchCommand F
  reject_cmd : String → Option String → List String → ResearchCommand F
  activate_cmd : String → Option String → Bool → Option String → Bool → ResearchCommand F

module _ {F : Type 0} (ops : FloatOps F) where
  unfoldable pub handle_research :
      ResearchEnv F → ResearchCommand F → ResearchStore F → ResearchStore F
  handle_research env (compare_cmd id champion challenger c) s =
      (compare ops env.now id champion challenger c s).1
  handle_research env (create_proposal_cmd c cycle) s = (create_from_comparison env c cycle s).1
  handle_research env (approve_cmd id actor) s = (approve env id actor s).1
  handle_research env (reject_cmd id actor reasons) s = (reject env id actor reasons s).1
  handle_research env (activate_cmd id actor confirm mode required) s =
      (activate_proposal ops env id actor confirm mode required s).1

  unfoldable pub run_research :
      List (ResearchEnv F × ResearchCommand F) → ResearchStore F → ResearchStore F
  unfolding handle_research
  run_research [] s = s
  run_research ((env, c) ∷ rest) s = run_research rest (handle_research env c s)
