-- ===== src/Drift.antt =====
-- The drift of a model's calibration: services/quant-engine/app/models/calibration_drift.py.
pub mod Model
pub mod Engine
pub mod Severity
pub mod Stale
mod Tests
