-- ===== src/Backtest.antt =====
-- The backtest from labels of services/quant-engine/app/backtesting/engine.py.
pub mod Model
pub mod Engine
pub mod Spacing
pub mod Drawdown
pub mod Tests
