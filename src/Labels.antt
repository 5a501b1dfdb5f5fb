-- ===== src/Labels.antt =====
-- The labels that say how a candidate would have ended: services/quant-engine/app/labels/engine.py.
mod Market
mod Engine
mod Rows
pub mod Touch
pub mod Spacing
pub mod Holding
mod Tests
pub use Market.*
pub use Engine.*
pub use Rows.*
