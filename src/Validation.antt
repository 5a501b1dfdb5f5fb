-- ===== src/Validation.antt =====
-- The walk-forward splits of services/quant-engine/app/validation/engine.py.
mod Splits
pub mod Walk
pub mod Decision
pub mod Tested
pub mod Accepted
mod Tests
pub use Splits.*
