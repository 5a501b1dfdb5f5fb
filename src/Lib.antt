-- ===== src/Lib.antt =====
-- Models of the quant engine of simple-scanner (services/quant-engine/app), a scanner that researches
-- trading signals: it replays candidates over windows of time, compares models on what the replays
-- show, activates a model by hand, and prepares all of it in bounded jobs.
--
-- Parts and files:
--   * Governance: services/research.py (ChampionChallengerComparisonService, ModelProposalService),
--     services/workflows.py (ModelActivationService), and the tables of models, reports, comparisons,
--     proposals, decisions and active models of db/repositories.py. Model holds the rows, Tables the
--     queries and upserts, Gates `_gate_results`, `_readiness` and `_recommended_action`, Compare
--     `compare` and `_model_metrics`, Activation `activate` and `_calibration_gate`, Proposals and
--     ProposalActivation the life of a proposal, Requests the calls that change the tables. Authority,
--     Audit, History, Rejection, Evidence and Active hold the proofs.
--   * Scheduler: services/scheduler.py over SchedulerJobRepository of db/repositories.py. Value holds
--     JSON with `_redact` and `_refresh_data_requested`, Job the rows, Repository the methods of the
--     repository, Service `create_job` and `cancel`, Execution `_execute`, `_finish_running_job`,
--     `run_job` and `run_pending`, Worker `recover_stale_leases` and `run_worker_once`, Commands the
--     calls that change the tables. Soundness, Leases, Pending, Redaction, Transitions and Passes hold
--     the proofs.
--   * Windowing: orchestration/windowing.py. Clock holds the arithmetic of `datetime`, Defs the daily,
--     rolling and anchored windows, Generation the listed windows and the dispatch
--     `generate_replay_windows`. Tiling, Rolling, Anchored and Custom hold the proofs.
--   * Labels: labels/engine.py. Market holds the bars, settings and rows, Engine `_entry_price`,
--     `_stop_price`, `_targets`, the walk over the future bars and `_label_candidate`, Rows the loops of
--     `build_label_rows`. Touch, Holding and Spacing hold the proofs.
--   * Replay: backtesting/replay.py. Model holds the settings, candidates and trades, Prices the prices of a
--     trade, Config `from_payload` and `to_dict` with data/symbols.py, Simulation `_simulate_candidate` and `_skip`, Portfolio the open trades and
--     `_preflight_skip`, Selection the filters, the order and the grouping, Engine `replay` and
--     `_with_metadata`, Metrics `metrics` with its series and breakdowns. Ledger holds the replay that
--     decides from the trades so far, with its Books, Refinement and Limits; Walk, Outcomes, Holding,
--     Config/RoundTrip, Engine/Each, Metrics/Counts and Metrics/Series hold proofs.
--   * Drift: models/calibration_drift.py. Model holds the audits, windows and reports, Engine
--     CalibrationDriftEngine, Severity and Stale the proofs.
--   * Backtest: backtesting/engine.py. Model holds the labels, trades and summaries and the calendar that
--     `replace(year=1900)` reads, Engine `simulate_labels`, `summarize_trades` and `breakdown_trades`,
--     Spacing and Drawdown the proofs.
--   * Validation: validation/engine.py. Splits holds `walk_forward_windows` and the split warnings of
--     `leakage_warnings`, Decision `validate_trades`, `activation_decision` and `_profit_concentration`.
--     Walk, Tested and Accepted hold the proofs.
--   * Common: the Boolean tests, integers, floats, lists, dictionaries, sorts and texts that the parts
--     share.
--
-- How the parts meet: a job of the scheduler calls the other services through `Env.perform`, so what
-- a job does is any function; a comparison feeds `create_from_comparison`, whose proposal is approved,
-- rejected or activated; an activation writes model_runs and active_models. A validation reads the trades
-- of a backtest over the splits of `walk_forward_windows`.
--
-- State is passed explicitly: a request takes the tables and returns a reply and the new tables. Each
-- method of a repository holds the lock of its store from its read to its commit, so a method is one
-- step; the requests of one service are one after another, in any order. The readings of the clock in
-- one call are one reading, and a time is a number of microseconds.
--
-- Bounds: in Windowing, Validation and Backtest an addition or subtraction of a `datetime` that leaves its
-- range is the error `overflow`, as Python raises it. In Replay, Labels and Scheduler the sum of a time
-- and a holding time, a cooldown or a lease has no bound, so their theorems speak of the code only where
-- such a sum stays in the range; elsewhere Python raises. The bounds of a replay are timezone-aware. The
-- `while` loops of the windows and splits take as fuel one or two more than the microseconds left, and
-- each pass moves by a day at least where the step is one, so the fuel is enough: the theorems on them
-- state that the call returns. Integers of Python do not wrap. A `float` is a value of an abstract type
-- with the operations that the code uses on it; the labels take the candidate engine as a parameter.
--
-- Not modelled: the work of the job handlers and the HTTP routes, the provider of market data, the
-- engines of features and candidates, `chronological_split`, the warnings of `leakage_warnings` on
-- features and labels, the calibration audit and the model's scores, the research cycle
-- service, exports, the hashes that make ids, the JSON of the columns, the guard on test fixtures, and
-- the listings by filter and page, which only read.
pub mod Backtest
pub mod Common
pub mod Drift
pub mod Governance
pub mod Labels
pub mod Replay
pub mod Scheduler
pub mod Validation
pub mod Windowing
