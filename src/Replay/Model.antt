-- ===== src/Replay/Model.antt =====
-- The settings, candidates, features, bars, trades and decisions of
-- services/quant-engine/app/backtesting/replay.py. `F` stands for `float`, and a time is a number of
-- microseconds from the first instant of `datetime`. A candidate has its symbol, setup, side and time.
use simple_scanner.Common.{
  ℕ, suc, ◌+◌, ◌-◌, ◌*◌, String, Bool, true, false, Option, none, some, List, str_eq, if◌then◌else◌,
}
use simple_scanner.Common.Int.{ℤ, pos, negsuc, ◌+ℤ◌}
use Prim.Native.Char.{code}

-- `ReplaySkipReason`
pub data SkipReason : Type 0 where
  missing_entry_bar outside_session invalid_risk_plan insufficient_reward_risk : SkipReason
  overlapping_trade portfolio_trade_limit cooldown_active insufficient_context : SkipReason
  regime_filter_block duplicate_candidate no_future_bars data_quality_block : SkipReason

-- `exit_reason`
pub data ExitReason : Type 0 where
  end_of_data stop target_2 session_exit time_exit : ExitReason

pub data TradeStatus : Type 0 where
  taken skipped : TradeStatus

-- `_concurrency_bucket`
pub data Bucket : Type 0 where
  solo pair cluster crowded : Bucket

-- The settings, with bounds of the type `D`.
pub record Settings (D F : Type 0) : Type 0 where
  pub replay_purpose : String
  pub simulation_type : String
  pub symbols : List String
  pub intervals : List String
  pub start : Option D
  pub end : Option D
  pub session : String
  pub candidate_setup_types : List String
  pub sides : List String
  pub max_hold_minutes : ℤ
  pub entry_mode : String
  pub stop_mode : String
  pub target_mode : String
  pub target_1_r : F
  pub target_2_r : F
  pub target_3_r : F
  pub partial_exit_mode : String
  pub same_bar_stop_target_policy : String
  pub intrabar_path_policy : String
  pub slippage_bps : F
  pub spread_bps : F
  pub commission_per_share : F
  pub minimum_reward_risk : F
  pub minimum_confidence : Option F
  pub allow_overlapping_trades : Bool
  pub enforce_portfolio_constraints : Bool
  pub enforce_symbol_overlap : Bool
  pub max_open_trades_per_symbol : ℤ
  pub max_open_trades_portfolio : ℤ
  pub cooldown_bars_after_loss : ℤ
  pub cooldown_bars_after_trade : ℤ
  pub one_trade_per_setup_per_symbol_until_exit : Bool
  pub no_trade_on_insufficient_context : Bool
  pub market_regime_filter : List String
  pub time_bucket_filter : List String
  pub close_at_session_end : Bool
  pub feature_warmup_bars : ℤ
  pub allow_stale : Bool
  pub counterfactual_include_invalid_candidates : Bool
  pub counterfactual_result_label : String

-- The settings of a replay, whose bounds are timezone-aware; with a naive one the first candidate that is
-- compared with it raises `TypeError`.
abbrev pub ReplayConfig : Type 0 → Type 0
ReplayConfig F = Settings ℕ F

pub record Bar (F : Type 0) : Type 0 where
  pub symbol : String
  pub interval : String
  pub timestamp_utc : ℕ
  pub timestamp_et : ℕ
  pub open_price : F
  pub high : F
  pub low : F
  pub close : F

-- A candidate's keys, `invalidation_context` and `entry_context` among them.
pub record Candidate (F : Type 0) : Type 0 where
  pub candidate_id : Option String
  pub symbol : String
  pub interval : Option String
  pub side : String
  pub setup_type : String
  pub timestamp : ℕ
  pub confidence_score : Option F
  pub signal_score : Option F
  pub expected_r : Option F
  pub stop_price : Option F
  pub target_1 : Option F
  pub target_2 : Option F
  pub target_3 : Option F
  pub market_regime : Option String
  pub time_bucket : Option String
  pub opening_range_low : Option F
  pub premarket_low : Option F
  pub previous_day_low : Option F
  pub opening_range_high : Option F
  pub premarket_high : Option F
  pub previous_day_high : Option F
  pub vwap : Option F
  pub atr_14 : Option F
  pub reason_codes : List String
  pub warning_codes : List String

pub record Feature (F : Type 0) : Type 0 where
  pub symbol : String
  pub interval : Option String
  pub timestamp : ℕ
  pub data_quality_flags : List String
  pub atr_14 : Option F
  pub atr_14_proxy : Option F
  pub market_regime : Option String
  pub time_bucket : Option String

-- The metadata of `_simulate_candidate` and of `_skip`.
pub data BaseMetadata : Type 0 where
  of_trade : (entry_mode stop_mode target_mode intrabar_path_policy : String) → Bool → BaseMetadata
  of_skip : (reason_codes warning_codes : List String) → BaseMetadata

-- What `_with_metadata` adds.
pub record ReplayMetadata : Type 0 where
  pub replay_purpose : String
  pub simulation_type : String
  pub candidate_quality_mode : Bool
  pub candidate_quality_label : Option String
  pub counterfactual_observed : Bool
  pub portfolio_blocked_in_execution_replay : Option Bool
  pub portfolio_constraints_enabled : Bool
  pub symbol_overlap_enabled : Bool
  pub concurrent_candidate_count_at_signal : ℕ
  pub overlap_density : ℕ
  pub overlap_group_id : Option String
  pub concurrency_bucket : Bucket

pub record SimulatedTrade (F : Type 0) : Type 0 where
  pub trade_id : String
  pub replay_run_id : String
  pub candidate_id : String
  pub symbol : String
  pub interval : String
  pub side : String
  pub setup_type : String
  pub signal_timestamp_utc : ℕ
  pub entry_timestamp_utc : Option ℕ
  pub exit_timestamp_utc : Option ℕ
  pub entry_price : Option F
  pub stop_price : Option F
  pub target_1 : Option F
  pub target_2 : Option F
  pub target_3 : Option F
  pub exit_price : Option F
  pub exit_reason : Option ExitReason
  pub realized_r : F
  pub mfe_r : F
  pub mae_r : F
  pub bars_held : ℕ
  pub minutes_held : F
  pub same_bar_ambiguous : Bool
  pub ambiguity_policy : Option String
  pub slippage_bps : F
  pub spread_bps : F
  pub commission : F
  pub market_regime : String
  pub time_bucket : String
  pub signal_score : Option F
  pub expected_r : Option F
  pub status : TradeStatus
  pub skip_reason : Option SkipReason
  pub base_metadata : BaseMetadata
  pub metadata : Option ReplayMetadata

pub record ReplayDecision : Type 0 where
  pub candidate_id : String
  pub status : TradeStatus
  pub skip_reason : Option SkipReason
  pub trade_id : Option String

-- The zone of New York, and the hashes that make the ids.
pub record Env (F : Type 0) : Type 0 where
  pub minute_of_day_et : ℕ → ℕ
  pub candidate_hash : Candidate F → String
  pub trade_hash : String → String → ℕ → String
  pub skip_hash : String → String → ℕ → String
  pub overlap_hash : String → String → ℕ → List String → String

abbrev pub is_taken : TradeStatus → Bool
is_taken taken = true
is_taken skipped = false

abbrev pub is_long : String → Bool
is_long side = str_eq side "LONG"

-- `str(text or default)`
abbrev pub filled_or : Option String → String → String
filled_or none d = d
filled_or (some s) d = if str_eq s "" then d else s

-- `_interval_minutes`: digits before "min", as the schemas allow; any other text counts as 1.
digits_of : ℕ → String → ℕ
digits_of n String.[] = 1
digits_of n (String.◌∷◌ c s) =
    if str_eq (String.◌∷◌ c s) "min" then n else digits_of (n * 10 + (code c - 48)) s

unfoldable pub interval_minutes : String → ℕ
unfolding digits_of
interval_minutes interval = digits_of 0 interval

-- `t + timedelta(minutes=m)`, where the sum stays in the range of `datetime`
abbrev pub times_ℤ : ℕ → ℤ → ℤ
times_ℤ k (pos n) = pos (k * n)
times_ℤ k (negsuc n) = negsuc (k * suc n - 1)

unfoldable pub plus_minutes : ℕ → ℤ → ℤ
plus_minutes t m = pos t +ℤ times_ℤ 60_000_000 m

abbrev pub counterfactual_purpose : String
counterfactual_purpose = "model_training_counterfactual"

module _ {F : Type 0} where
  abbrev pub interval_of : Candidate F → String
  interval_of c = filled_or c.interval "1min"

  abbrev pub is_counterfactual : ReplayConfig F → Bool
  is_counterfactual cfg = str_eq cfg.replay_purpose counterfactual_purpose

  -- The id of a candidate: its own, or a hash.
  unfoldable pub candidate_id_of : Env F → Candidate F → String
  candidate_id_of env c = filled_or c.candidate_id (env.candidate_hash c)
