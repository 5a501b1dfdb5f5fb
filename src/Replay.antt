-- ===== src/Replay.antt =====
-- The replay of candidates over bars: services/quant-engine/app/backtesting/replay.py.
pub mod Model
pub mod Config
pub mod Prices
pub mod Simulation
pub mod Portfolio
pub mod Selection
pub mod Engine
pub mod Walk
pub mod Outcomes
pub mod Holding
pub mod Ledger
pub mod Metrics
pub mod Tests
