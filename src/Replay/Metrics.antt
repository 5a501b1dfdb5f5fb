-- ===== src/Replay/Metrics.antt =====
-- `metrics` of services/quant-engine/app/backtesting/replay.py, and the series and breakdowns in it. The
-- parts that copy the settings or the run's id are left out.
pub mod Summary
pub mod Counts
pub mod Series
use mathlib.Core.List.{map}
use simple_scanner.Common.{
  ℕ, ◌+◌, ◌-◌, ◌/◌, String, Bool, true, false, not, ◌&&◌, ◌||◌, Option, none, some, List, [], ◌∷◌,
  max, ltb, ◌==◌, if◌then◌else◌, length, keep_if, str_eq,
}
use simple_scanner.Common.Floats.{
  Floats, zero_float, max_float, min_float, is_zero, sum_float, least?, least_of, equal_float,
}
use simple_scanner.Common.Dict.{Key, get_or, put, group_by, text_key, number_key}
use simple_scanner.Common.Sorting.{sort_by}
use simple_scanner.Replay.Model.{
  SkipReason, ExitReason, TradeStatus, Bucket, ReplayConfig, SimulatedTrade, ReplayMetadata,
  is_taken, is_long, is_counterfactual,
}

-- `ReplaySkipReason` as text
unfoldable pub reason_text : SkipReason → String
reason_text SkipReason.missing_entry_bar = "missing_entry_bar"
reason_text SkipReason.outside_session = "outside_session"
reason_text SkipReason.invalid_risk_plan = "invalid_risk_plan"
reason_text SkipReason.insufficient_reward_risk = "insufficient_reward_risk"
reason_text SkipReason.overlapping_trade = "overlapping_trade"
reason_text SkipReason.portfolio_trade_limit = "portfolio_trade_limit"
reason_text SkipReason.cooldown_active = "cooldown_active"
reason_text SkipReason.insufficient_context = "insufficient_context"
reason_text SkipReason.regime_filter_block = "regime_filter_block"
reason_text SkipReason.duplicate_candidate = "duplicate_candidate"
reason_text SkipReason.no_future_bars = "no_future_bars"
reason_text SkipReason.data_quality_block = "data_quality_block"

-- `trade.skip_reason or default`
abbrev pub reason_or : String → Option SkipReason → String
reason_or d none = d
reason_or d (some r) = reason_text r

-- The reasons that make a candidate invalid, and not only blocked.
abbrev pub is_invalid_reason : SkipReason → Bool
is_invalid_reason SkipReason.invalid_risk_plan = true
is_invalid_reason SkipReason.insufficient_reward_risk = true
is_invalid_reason SkipReason.insufficient_context = true
is_invalid_reason SkipReason.data_quality_block = true
is_invalid_reason SkipReason.outside_session = true
is_invalid_reason SkipReason.missing_entry_bar = true
is_invalid_reason SkipReason.no_future_bars = true
is_invalid_reason r = false

abbrev pub is_invalid : Option SkipReason → Bool
is_invalid none = false
is_invalid (some r) = is_invalid_reason r

module _ {K : Type 0} ⦃key : Key K⦄ where
  abbrev pub count_onto : List (K × ℕ) → List K → List (K × ℕ)
  count_onto counts [] = counts
  count_onto counts (k ∷ ks) = count_onto (put k (get_or k 0 counts + 1) counts) ks

  -- `Counter(keys)`
  unfoldable pub counter : List K → List (K × ℕ)
  unfolding get_or put
  counter ks = count_onto [] ks

-- `mean` and `median` of `statistics`, for lists that are not empty, and the float for infinity
pub record Statistics (F : Type 0) : Type 0 where
  pub mean : List F → F
  pub median : List F → F
  pub infinity : F

-- One group of `_breakdown`
pub record Breakdown (F : Type 0) : Type 0 where
  pub total_trades : ℕ
  pub average_r : F
  pub median_r : F
  pub win_rate : F
  pub total_r : F
  pub profit_factor : F

-- The longest run of marks: `_max_consecutive`
unfoldable pub consecutive_onto : ℕ → ℕ → List Bool → ℕ
consecutive_onto best current [] = best
consecutive_onto best current (b ∷ bs) =
    let current' = if b then current + 1 else 0 in consecutive_onto (max best current') current' bs

abbrev pub named : String → String
named s = if str_eq s "" then "unknown" else s

abbrev pub day_of : ℕ → ℕ
day_of t = t / 86_400_000_000

abbrev pub returns_of : {F : Type 0} → List (SimulatedTrade F) → List F
returns_of ts = map (λ t. t.realized_r) ts

module _ {F : Type 0} (fl : Floats F) where
  -- The trades that count for a run
  abbrev pub marks_of : Bool → List (SimulatedTrade F) → List Bool
  marks_of positive trades =
      map
        (λ (t : SimulatedTrade F).
          if positive
          then fl.less (zero_float fl) t.realized_r
          else fl.less t.realized_r (zero_float fl))
        trades

  unfoldable pub max_consecutive : Bool → List (SimulatedTrade F) → ℕ
  unfolding consecutive_onto
  max_consecutive positive trades = consecutive_onto 0 0 (marks_of positive trades)

  -- The equity after each trade
  unfoldable pub equity_from : F → List F → List F
  equity_from running [] = []
  equity_from running (r ∷ rs) = fl.add running r ∷ equity_from (fl.add running r) rs

  -- `_drawdown_series`
  unfoldable pub drawdown_from : F → List F → List F
  drawdown_from peak [] = []
  drawdown_from peak (v ∷ vs) =
      fl.sub v (max_float fl peak v) ∷ drawdown_from (max_float fl peak v) vs

  unfoldable pub drawdown_series : List F → List F
  unfolding drawdown_from
  drawdown_series equity = drawdown_from (zero_float fl) equity

  abbrev pub positive_of : List F → List F
  positive_of rs = keep_if (λ r. fl.less (zero_float fl) r) rs

  abbrev pub negative_of : List F → List F
  negative_of rs = keep_if (λ r. fl.less r (zero_float fl)) rs

  abbrev pub absolute : F → F
  absolute v = if fl.less v (zero_float fl) then fl.negate v else v

  -- `x / y` of counts, and 0.0 of nothing
  abbrev pub rate : ℕ → ℕ → F
  rate n d = if d == 0 then zero_float fl else fl.number n d

  module _ (st : Statistics F) where
    -- `_profit_factor`
    unfoldable pub profit_factor : List F → F
    profit_factor rs =
        let gains = sum_float fl (positive_of rs) in
        let losses = absolute (sum_float fl (negative_of rs)) in
        if is_zero fl losses
        then (if fl.less (zero_float fl) gains then st.infinity else zero_float fl)
        else fl.div gains losses

    abbrev pub mean_or_zero : List F → F
    mean_or_zero [] = zero_float fl
    mean_or_zero (r ∷ rs) = st.mean (r ∷ rs)

    abbrev pub median_or_zero : List F → F
    median_or_zero [] = zero_float fl
    median_or_zero (r ∷ rs) = st.median (r ∷ rs)

    abbrev pub breakdown_row : List (SimulatedTrade F) → Breakdown F
    breakdown_row rows =
        let rs = returns_of rows in
        record {
          total_trades = length rows;
          average_r = mean_or_zero rs;
          median_r = median_or_zero rs;
          win_rate = rate (length (positive_of rs)) (length rows);
          total_r = sum_float fl rs;
          profit_factor = profit_factor rs;
        }

    -- `_breakdown` by a text of each trade; an empty text counts as "unknown".
    unfoldable pub breakdown :
        (SimulatedTrade F → String) → List (SimulatedTrade F) → List (String × Breakdown F)
    unfolding group_by profit_factor
    breakdown of ts =
        map (λ (group : String × List (SimulatedTrade F)). (group.0, breakdown_row group.1))
          (group_by (λ t. named (of t)) ts)

  -- `_daily_r`: the results by the day of the exit, in the order of the days
  abbrev pub add_daily : Option ℕ → F → List (ℕ × F) → List (ℕ × F)
  add_daily none r days = days
  add_daily (some e) r days =
      put ⦃key = number_key⦄ (day_of e)
        (fl.add (get_or ⦃key = number_key⦄ (day_of e) (zero_float fl) days) r) days

  abbrev pub daily_onto : List (ℕ × F) → List (SimulatedTrade F) → List (ℕ × F)
  daily_onto days [] = days
  daily_onto days (t ∷ ts) = daily_onto (add_daily t.exit_timestamp_utc t.realized_r days) ts

  unfoldable pub daily_r : List (SimulatedTrade F) → List (ℕ × F)
  unfolding get_or put sort_by
  daily_r ts = sort_by (λ (a b : ℕ × F). ltb a.0 b.0) (daily_onto [] ts)
