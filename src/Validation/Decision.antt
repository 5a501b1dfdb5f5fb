-- ===== src/Validation/Decision.antt =====
-- `validate_trades`, `activation_decision` and `_profit_concentration` of
-- services/quant-engine/app/validation/engine.py. The id of a window is its number.
use simple_scanner.Common.{
  ℕ, ◌+◌, String, Bool, true, false, ◌&&◌, Option, none, some, List, [], ◌∷◌, ◌++◌, ltb, leb,
  if◌then◌else◌, keep_if, map,
}
use simple_scanner.Common.Texts.{chosen}
use simple_scanner.Common.Dict.{text_key, get_or, put}
use simple_scanner.Common.Floats.{
  Floats, zero_float, float_or, max_float, sum_float, greatest?, greatest_of,
}
use simple_scanner.Replay.Metrics.{Statistics}
use simple_scanner.Backtest.Model.{SimulatedTrade, Summary}
use simple_scanner.Backtest.Engine.{summarize_trades, breakdown_trades}
use simple_scanner.Validation.Splits.{ValidationSplit}

pub record ActivationCriteria (F : Type 0) : Type 0 where
  pub minimum_trades : ℕ
  pub minimum_average_r : F
  pub minimum_profit_factor : F
  pub maximum_drawdown_r : F
  pub maximum_symbol_profit_share : F
  pub maximum_setup_profit_share : F

pub record Decision : Type 0 where
  pub accepted : Bool
  pub rejection_reasons : List String

pub record WalkForwardWindow (F : Type 0) : Type 0 where
  pub window_index : ℕ
  pub split : ValidationSplit
  pub metrics : Summary F
  pub accepted : Bool
  pub rejection_reasons : List String

pub record ValidationReport (F : Type 0) : Type 0 where
  pub summary : Summary F
  pub windows : List (WalkForwardWindow F)
  pub per_symbol : List (String × Summary F)
  pub per_setup : List (String × Summary F)
  pub per_regime : List (String × Summary F)
  pub per_time_bucket : List (String × Summary F)
  pub leakage_warnings : List String
  pub accepted : Bool
  pub rejection_reasons : List String

abbrev pub is_given : List String → Bool
is_given [] = false
is_given (w ∷ ws) = true

module _ {F : Type 0} where
  abbrev pub is_tested : ValidationSplit → SimulatedTrade F → Bool
  is_tested split t =
      leb split.test_start t.entry_timestamp_utc && leb t.entry_timestamp_utc split.test_end

  abbrev pub test_trades_of : List (SimulatedTrade F) → ValidationSplit → List (SimulatedTrade F)
  test_trades_of trades split = keep_if (λ (t : SimulatedTrade F). is_tested split t) trades

  -- The trades of all test windows, one window after another
  unfoldable pub all_test_trades :
      List (SimulatedTrade F) → List ValidationSplit → List (SimulatedTrade F)
  all_test_trades trades [] = []
  all_test_trades trades (w ∷ ws) = test_trades_of trades w ++ all_test_trades trades ws

module _ {F : Type 0} (fl : Floats F) where
  abbrev pub gain_of : SimulatedTrade F → F
  gain_of t = max_float fl t.realized_r (zero_float fl)

  abbrev pub buckets_onto :
      (SimulatedTrade F → String) → List (String × F) → List (SimulatedTrade F) → List (String × F)
  buckets_onto field buckets [] = buckets
  buckets_onto field buckets (t ∷ ts) =
      buckets_onto field
        (put (field t) (fl.add (get_or (field t) (zero_float fl) buckets) (gain_of t)) buckets) ts

  abbrev pub share_of : Option F → F → F
  share_of none gross = zero_float fl
  share_of (some most) gross = fl.div most gross

  -- `_profit_concentration`
  unfoldable pub profit_concentration : List (SimulatedTrade F) → (SimulatedTrade F → String) → F
  unfolding get_or put greatest_of
  profit_concentration ts field =
      let gross = sum_float fl (map gain_of ts) in
      if fl.at_most gross (zero_float fl)
      then zero_float fl
      else share_of (greatest? fl (map (λ (b : String × F). b.1) (buckets_onto field [] ts))) gross

  abbrev pub rejections :
      ActivationCriteria F
      → Summary F
      → List String
      → List (SimulatedTrade F)
      → List (Bool × String)
  rejections c m leaks ts =
      (ltb m.total_trades c.minimum_trades, "minimum_trades_not_met")
      ∷ (
        fl.at_most (float_or fl (some m.average_r) (zero_float fl)) c.minimum_average_r,
        "average_r_not_positive",
      )
      ∷ (
        fl.at_most (float_or fl (some m.profit_factor) (zero_float fl)) c.minimum_profit_factor,
        "profit_factor_below_threshold",
      )
      ∷ (
        fl.less (float_or fl (some m.max_drawdown_r) (zero_float fl)) c.maximum_drawdown_r,
        "max_drawdown_too_large",
      )
      ∷ (is_given leaks, "critical_leakage_warnings_present")
      ∷ (
        fl.less c.maximum_symbol_profit_share (profit_concentration ts (λ t. t.symbol)),
        "single_symbol_profit_concentration_too_high",
      )
      ∷ (
        fl.less c.maximum_setup_profit_share (profit_concentration ts (λ t. t.setup_type)),
        "single_setup_profit_concentration_too_high",
      )
      ∷ []

  abbrev pub decided : List String → Decision
  decided [] = record { accepted = true; rejection_reasons = [] }
  decided (r ∷ rs) = record { accepted = false; rejection_reasons = r ∷ rs }

  unfoldable pub activation_decision :
      ActivationCriteria F → Summary F → List String → List (SimulatedTrade F) → Decision
  unfolding profit_concentration
  activation_decision c m leaks ts = decided (chosen (rejections c m leaks ts))

module _ {F : Type 0} (fl : Floats F) (st : Statistics F) (c : ActivationCriteria F) where
  abbrev pub window_of :
      List (SimulatedTrade F) → List String → ℕ → ValidationSplit → WalkForwardWindow F
  window_of trades leaks index split =
      let tested = test_trades_of trades split in
      let metrics = summarize_trades fl st tested 0 in
      let decision = activation_decision fl c metrics leaks tested in
      record {
        window_index = index;
        split = split;
        metrics = metrics;
        accepted = decision.accepted;
        rejection_reasons = decision.rejection_reasons;
      }

  unfoldable pub windows_from :
      List (SimulatedTrade F) → List String → ℕ → List ValidationSplit → List (WalkForwardWindow F)
  unfolding summarize_trades activation_decision
  windows_from trades leaks index [] = []
  windows_from trades leaks index (w ∷ ws) =
      window_of trades leaks index w ∷ windows_from trades leaks (index + 1) ws

  unfoldable pub validate_trades :
      List (SimulatedTrade F) → List ValidationSplit → List String → ValidationReport F
  unfolding windows_from summarize_trades activation_decision all_test_trades breakdown_trades
  validate_trades trades splits leaks =
      let tested = all_test_trades trades splits in
      let summary = summarize_trades fl st tested 0 in
      let final = activation_decision fl c summary leaks tested in
      record {
        summary = summary;
        windows = windows_from trades leaks 1 splits;
        per_symbol = breakdown_trades fl st (λ t. t.symbol) tested;
        per_setup = breakdown_trades fl st (λ t. t.setup_type) tested;
        per_regime = breakdown_trades fl st (λ t. t.market_regime) tested;
        per_time_bucket = breakdown_trades fl st (λ t. t.time_bucket) tested;
        leakage_warnings = leaks;
        accepted = final.accepted;
        rejection_reasons = final.rejection_reasons;
      }
