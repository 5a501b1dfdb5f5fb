-- ===== src/Replay/Metrics/Summary.antt =====
-- The dictionary that `metrics` of services/quant-engine/app/backtesting/replay.py returns.
use mathlib.Core.List.{map}
use simple_scanner.Common.{
  ℕ, ◌-◌, String, Bool, true, false, not, ◌||◌, Option, none, some, List, [], ◌∷◌, max, ltb, ◌==◌,
  if◌then◌else◌, length, keep_if, str_eq,
}
use simple_scanner.Common.Floats.{Floats, zero_float, equal_float, sum_float, least?, least_of}
use simple_scanner.Common.Dict.{text_key}
use simple_scanner.Replay.Model.{
  ExitReason, Bucket, ReplayConfig, SimulatedTrade, ReplayMetadata, is_taken, is_counterfactual,
}
use simple_scanner.Replay.Engine.{concurrency_bucket}
use simple_scanner.Replay.Metrics.{
  Statistics, Breakdown, reason_or, is_invalid, counter, max_consecutive, equity_from,
  drawdown_series, positive_of, negative_of, rate, profit_factor, mean_or_zero, median_or_zero,
  returns_of, breakdown, daily_r,
}

pub record ReplayMetrics (F : Type 0) : Type 0 where
  pub candidate_quality_mode : Bool
  pub total_candidates : ℕ
  pub valid_candidates : ℕ
  pub invalid_skipped_candidates : ℕ
  pub candidates_taken : ℕ
  pub candidates_skipped : ℕ
  pub skip_rate : F
  pub skip_breakdown : List (String × ℕ)
  pub long_trades : ℕ
  pub short_trades : ℕ
  pub winners : ℕ
  pub losers : ℕ
  pub breakeven : ℕ
  pub win_rate : F
  pub loss_rate : F
  pub average_r : F
  pub median_r : F
  pub total_r : F
  pub gross_profit_r : F
  pub gross_loss_r : F
  pub profit_factor : F
  pub max_drawdown_r : F
  pub max_consecutive_wins : ℕ
  pub max_consecutive_losses : ℕ
  pub average_mfe_r : F
  pub average_mae_r : F
  pub median_mfe_r : F
  pub median_mae_r : F
  pub target_1_hit_rate : F
  pub target_2_hit_rate : F
  pub target_3_hit_rate : F
  pub stop_hit_rate : F
  pub time_exit_rate : F
  pub session_exit_rate : F
  pub same_bar_ambiguity_count : ℕ
  pub average_time_in_trade_minutes : F
  pub median_time_in_trade_minutes : F
  pub per_symbol_metrics : List (String × Breakdown F)
  pub per_setup_metrics : List (String × Breakdown F)
  pub per_regime_metrics : List (String × Breakdown F)
  pub per_time_bucket_metrics : List (String × Breakdown F)
  pub per_side_metrics : List (String × Breakdown F)
  pub daily_r_series : List (ℕ × F)
  pub trade_r_series : List F
  pub drawdown_series : List F
  pub max_concurrent_candidates : ℕ
  pub average_concurrent_candidates : F
  pub concurrency_bucket_counts : List (String × ℕ)
  pub max_overlap_density : ℕ
  pub average_overlap_density : F
  pub overlapped_candidate_count : ℕ
  pub is_portfolio_pnl : Bool
  pub data_quality_summary : List (String × ℕ)

abbrev pub is_exit : ExitReason → Option ExitReason → Bool
is_exit r none = false
is_exit ExitReason.stop (some ExitReason.stop) = true
is_exit ExitReason.time_exit (some ExitReason.time_exit) = true
is_exit ExitReason.session_exit (some ExitReason.session_exit) = true
is_exit r (some s) = false

abbrev pub greatest_count : ℕ → List ℕ → ℕ
greatest_count m [] = m
greatest_count m (n ∷ ns) = greatest_count (max m n) ns

abbrev pub bucket_text : Bucket → String
bucket_text Bucket.solo = "solo"
bucket_text Bucket.pair = "pair"
bucket_text Bucket.cluster = "cluster"
bucket_text Bucket.crowded = "crowded"

-- `int(metadata.get("concurrent_candidate_count_at_signal") or 1)`
abbrev pub concurrent_in : Option ReplayMetadata → ℕ
concurrent_in none = 1
concurrent_in (some m) =
    if m.concurrent_candidate_count_at_signal == 0
    then 1
    else m.concurrent_candidate_count_at_signal

module _ {F : Type 0} where
  abbrev pub taken_of : List (SimulatedTrade F) → List (SimulatedTrade F)
  taken_of ts = keep_if (λ t. is_taken t.status) ts

  abbrev pub skipped_of : List (SimulatedTrade F) → List (SimulatedTrade F)
  skipped_of ts = keep_if (λ t. not (is_taken t.status)) ts

  abbrev pub count_if : (SimulatedTrade F → Bool) → List (SimulatedTrade F) → ℕ
  count_if p ts = length (keep_if p ts)

  abbrev pub concurrency_of : List (SimulatedTrade F) → List ℕ
  concurrency_of ts = map (λ t. concurrent_in t.metadata) ts

module _ {F : Type 0} (fl : Floats F) (st : Statistics F) where
  abbrev pub count_float : ℕ → F
  count_float n = fl.number n 1

  unfoldable pub metrics : ReplayConfig F → List (SimulatedTrade F) → ReplayMetrics F
  unfolding profit_factor max_consecutive drawdown_series equity_from breakdown daily_r counter
      concurrency_bucket least_of
  metrics cfg trades =
      let taken = taken_of trades in
      let skipped = skipped_of trades in
      let returns = returns_of taken in
      let n = length taken in
      let zero = zero_float fl in
      let drawdowns = drawdown_series fl (equity_from fl zero returns) in
      let concurrency = concurrency_of trades in
      let overlaps = map (λ (c : ℕ). c - 1) concurrency in
      record {
        candidate_quality_mode = is_counterfactual cfg;
        total_candidates = length trades;
        valid_candidates =
            count_if (λ t. is_taken t.status || not (is_invalid t.skip_reason)) trades;
        invalid_skipped_candidates = count_if (λ t. is_invalid t.skip_reason) skipped;
        candidates_taken = n;
        candidates_skipped = length skipped;
        skip_rate = rate fl (length skipped) (length trades);
        skip_breakdown =
            counter (map (λ (t : SimulatedTrade F). reason_or "unknown" t.skip_reason) skipped);
        long_trades = count_if (λ t. str_eq t.side "LONG") taken;
        short_trades = count_if (λ t. str_eq t.side "SHORT") taken;
        winners = count_if (λ t. fl.less zero t.realized_r) taken;
        losers = count_if (λ t. fl.less t.realized_r zero) taken;
        breakeven = count_if (λ t. equal_float fl t.realized_r zero) taken;
        win_rate = rate fl (count_if (λ t. fl.less zero t.realized_r) taken) n;
        loss_rate = rate fl (count_if (λ t. fl.less t.realized_r zero) taken) n;
        average_r = mean_or_zero fl st returns;
        median_r = median_or_zero fl st returns;
        total_r = sum_float fl returns;
        gross_profit_r = sum_float fl (positive_of fl returns);
        gross_loss_r = sum_float fl (negative_of fl returns);
        profit_factor = profit_factor fl st returns;
        max_drawdown_r = elim (least? fl drawdowns) [ none ↦ zero | some d ↦ d ];
        max_consecutive_wins = max_consecutive fl true taken;
        max_consecutive_losses = max_consecutive fl false taken;
        average_mfe_r = mean_or_zero fl st (map (λ (t : SimulatedTrade F). t.mfe_r) taken);
        average_mae_r = mean_or_zero fl st (map (λ (t : SimulatedTrade F). t.mae_r) taken);
        median_mfe_r = median_or_zero fl st (map (λ (t : SimulatedTrade F). t.mfe_r) taken);
        median_mae_r = median_or_zero fl st (map (λ (t : SimulatedTrade F). t.mae_r) taken);
        target_1_hit_rate = rate fl (count_if (λ t. fl.at_most cfg.target_1_r t.mfe_r) taken) n;
        target_2_hit_rate = rate fl (count_if (λ t. fl.at_most cfg.target_2_r t.mfe_r) taken) n;
        target_3_hit_rate = rate fl (count_if (λ t. fl.at_most cfg.target_3_r t.mfe_r) taken) n;
        stop_hit_rate = rate fl (count_if (λ t. is_exit ExitReason.stop t.exit_reason) taken) n;
        time_exit_rate =
            rate fl (count_if (λ t. is_exit ExitReason.time_exit t.exit_reason) taken) n;
        session_exit_rate =
            rate fl (count_if (λ t. is_exit ExitReason.session_exit t.exit_reason) taken) n;
        same_bar_ambiguity_count = count_if (λ t. t.same_bar_ambiguous) taken;
        average_time_in_trade_minutes =
            mean_or_zero fl st (map (λ (t : SimulatedTrade F). t.minutes_held) taken);
        median_time_in_trade_minutes =
            median_or_zero fl st (map (λ (t : SimulatedTrade F). t.minutes_held) taken);
        per_symbol_metrics = breakdown fl st (λ t. t.symbol) taken;
        per_setup_metrics = breakdown fl st (λ t. t.setup_type) taken;
        per_regime_metrics = breakdown fl st (λ t. t.market_regime) taken;
        per_time_bucket_metrics = breakdown fl st (λ t. t.time_bucket) taken;
        per_side_metrics = breakdown fl st (λ t. t.side) taken;
        daily_r_series = daily_r fl taken;
        trade_r_series = returns;
        drawdown_series = drawdowns;
        max_concurrent_candidates = greatest_count 0 concurrency;
        average_concurrent_candidates = mean_or_zero fl st (map count_float concurrency);
        concurrency_bucket_counts =
            counter (map (λ (c : ℕ). bucket_text (concurrency_bucket c)) concurrency);
        max_overlap_density = greatest_count 0 overlaps;
        average_overlap_density = mean_or_zero fl st (map count_float overlaps);
        overlapped_candidate_count = length (keep_if (λ c. ltb 0 c) overlaps);
        is_portfolio_pnl = not (is_counterfactual cfg);
        data_quality_summary =
            counter (map (λ (t : SimulatedTrade F). reason_or "none" t.skip_reason) skipped);
      }
