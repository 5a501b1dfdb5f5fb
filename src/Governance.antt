-- ===== src/Governance.antt =====
-- The governance of models: comparison of champion and challenger, proposals and activation, in
-- services/quant-engine/app/services/research.py and services/quant-engine/app/services/workflows.py,
-- over the repositories of services/quant-engine/app/db/repositories.py.
mod Model
mod Tables
mod Gates
mod Compare
mod Activation
mod Proposals
mod ProposalActivation
mod Requests
pub mod Authority
pub mod Audit
pub mod History
pub mod Evidence
pub mod Active
pub mod Rejection
mod Tests
pub use Model.*
pub use Tables.*
pub use Gates.*
pub use Compare.*
pub use Activation.*
pub use Proposals.*
pub use ProposalActivation.*
pub use Requests.*
