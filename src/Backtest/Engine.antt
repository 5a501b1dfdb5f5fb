-- ===== src/Backtest/Engine.antt =====
-- `simulate_labels` and `summarize_trades` of services/quant-engine/app/backtesting/engine.py. The hash
-- that makes an id is a parameter.
use mathlib.Core.List.{map}
use simple_scanner.Common.{
  ℕ, ◌+◌, String, Bool, true, false, ◌||◌, Option, none, some, List, [], ◌∷◌, ltb, leb, ◌==◌,
  if◌then◌else◌, length, keep_if,
}
use simple_scanner.Common.Dict.{text_key, get_or, put, group_by}
use simple_scanner.Common.Floats.{Floats, zero_float, max_float, min_float, sum_float}
use simple_scanner.Common.Sorting.{sort_by}
use simple_scanner.Windowing.{Result, ok, ◌>>=◌, plus, minutes}
use simple_scanner.Labels.{Side, long, short, Outcome, win, loss, neutral}
use simple_scanner.Replay.Selection.{text_less}
use simple_scanner.Replay.Metrics.{
  Statistics, rate, mean_or_zero, median_or_zero, profit_factor, equity_from,
}
use simple_scanner.Backtest.Model.{
  Label, SimulatedTrade, Summary, replace_1900, day_of_year, in_1900,
}

-- `a or b or default` of durations, where zero counts as missing
abbrev pub duration_or : Option ℕ → ℕ → ℕ
duration_or none d = d
duration_or (some n) d = if n == 0 then d else n

abbrev pub text_default : Option String → String → String
text_default none d = d
text_default (some s) d = s

abbrev pub exit_reason_of : Outcome → String
exit_reason_of win = "target"
exit_reason_of loss = "stop"
exit_reason_of neutral = "time_exit"

abbrev pub is_side : Side → Side → Bool
is_side long long = true
is_side short short = true
is_side s t = false

abbrev pub is_win : Outcome → Bool
is_win win = true
is_win o = false

abbrev pub is_loss_outcome : Outcome → Bool
is_loss_outcome loss = true
is_loss_outcome o = false

module _ {F : Type 0} where
  abbrev pub duration : ℕ → Label F → ℕ
  duration max_hold l = duration_or l.time_to_target (duration_or l.time_to_stop max_hold)

  abbrev pub exit_of : ℕ → Label F → Result ℕ
  exit_of max_hold l = elim l.exit_timestamp_utc [
    | none ↦ plus l.timestamp (minutes (duration max_hold l))
    | some t ↦ ok t
  ]

  -- `label.timestamp <= open_until.get(...)`; the default is computed at every label.
  abbrev pub is_blocked : Bool → List (String × ℕ) → Label F → Result Bool
  is_blocked false open_until l = ok false
  is_blocked true open_until l = do
    first ← replace_1900 l.timestamp
    ok (leb l.timestamp (get_or l.symbol first open_until))

  abbrev pub label_before : Label F → Label F → Bool
  label_before a b = ltb a.timestamp b.timestamp

module _ {F : Type 0} (fl : Floats F) (hash : Label F → String) where
  abbrev pub exit_price : Label F → F
  exit_price l = elim l.side [
    | long ↦ fl.add l.entry_price (fl.mul l.realized_r (fl.sub l.entry_price l.stop_price))
    | short ↦ fl.sub l.entry_price (fl.mul l.realized_r (fl.sub l.stop_price l.entry_price))
  ]

  abbrev pub trade_of : ℕ → Label F → ℕ → SimulatedTrade F
  trade_of max_hold l exit = record {
    trade_id = hash l;
    symbol = l.symbol;
    interval = text_default l.interval "1min";
    side = l.side;
    setup_type = l.setup_type;
    entry_timestamp_utc = l.timestamp;
    exit_timestamp_utc = exit;
    entry_price = l.entry_price;
    exit_price = exit_price l;
    stop_price = l.stop_price;
    target_1 = l.target_1;
    target_2 = l.target_2;
    target_3 = l.target_3;
    realized_r = l.realized_r;
    max_favorable_excursion = l.max_favorable_excursion;
    max_adverse_excursion = l.max_adverse_excursion;
    outcome = l.outcome;
    market_regime = l.market_regime;
    time_bucket = text_default l.time_bucket "unknown";
    exit_reason = exit_reason_of l.outcome;
    duration_bars = duration max_hold l;
  }

  -- The loop, with `open_until` as a dictionary
  unfoldable pub simulate_from :
      Bool → ℕ → List (String × ℕ) → List (Label F) → Result (List (SimulatedTrade F))
  unfolding get_or put day_of_year in_1900
  simulate_from one max_hold open_until [] = ok []
  simulate_from one max_hold open_until (l ∷ ls) = do
    blocked ← is_blocked one open_until l
    elim blocked [
      | true ↦ simulate_from one max_hold open_until ls
      | false ↦ do
        exit ← exit_of max_hold l
        rest ← simulate_from one max_hold (put l.symbol exit open_until) ls
        ok (trade_of max_hold l exit ∷ rest)
    ]

  unfoldable pub simulate_labels : List (Label F) → Bool → ℕ → Result (List (SimulatedTrade F))
  unfolding simulate_from sort_by
  simulate_labels labels one max_hold = simulate_from one max_hold [] (sort_by label_before labels)

module _ {F : Type 0} (fl : Floats F) where
  abbrev pub drawdown_onto : F → F → List F → F
  drawdown_onto peak worst [] = worst
  drawdown_onto peak worst (v ∷ vs) =
      let peak' = max_float fl peak v in
      drawdown_onto peak' (min_float fl worst (fl.sub v peak')) vs

  -- `_max_drawdown`
  unfoldable pub max_drawdown : List F → F
  max_drawdown equity = drawdown_onto (zero_float fl) (zero_float fl) equity

  -- `list(accumulate(returns))`
  unfoldable pub accumulate : List F → List F
  unfolding equity_from
  accumulate [] = []
  accumulate (r ∷ rs) = r ∷ equity_from fl r rs

  abbrev pub is_winner : SimulatedTrade F → Bool
  is_winner t = is_win t.outcome || fl.less (zero_float fl) t.realized_r

  abbrev pub is_loser : SimulatedTrade F → Bool
  is_loser t = is_loss_outcome t.outcome || fl.less t.realized_r (zero_float fl)

  abbrev pub on_side : Side → List (SimulatedTrade F) → List (SimulatedTrade F)
  on_side side ts = keep_if (λ (t : SimulatedTrade F). is_side t.side side) ts

  -- The part of some trades that pass a test, and 0.0 of none
  abbrev pub part_of : (SimulatedTrade F → Bool) → List (SimulatedTrade F) → F
  part_of test ts = rate fl (length (keep_if test ts)) (length ts)

  -- `_precision_by_side`, for one side
  abbrev pub precision_of : Side → List (SimulatedTrade F) → F
  precision_of side ts =
      part_of (λ (t : SimulatedTrade F). fl.less (zero_float fl) t.realized_r) (on_side side ts)

  unfoldable pub summarize_trades : Statistics F → List (SimulatedTrade F) → ℕ → Summary F
  unfolding max_drawdown accumulate profit_factor
  summarize_trades st ts no_trades =
      let rs = map (λ (t : SimulatedTrade F). t.realized_r) ts in
      let equity = accumulate rs in
      record {
        total_trades = length ts;
        long_trades = length (on_side long ts);
        short_trades = length (on_side short ts);
        win_rate = part_of is_winner ts;
        precision_long = precision_of long ts;
        precision_short = precision_of short ts;
        average_r = mean_or_zero fl st rs;
        median_r = median_or_zero fl st rs;
        profit_factor = profit_factor fl st rs;
        gross_r = sum_float fl rs;
        max_drawdown_r = max_drawdown equity;
        average_mfe =
            mean_or_zero fl st (map (λ (t : SimulatedTrade F). t.max_favorable_excursion) ts);
        average_mae =
            mean_or_zero fl st (map (λ (t : SimulatedTrade F). t.max_adverse_excursion) ts);
        target_1_hit_rate = part_of (λ t. fl.at_most (fl.number 1 1) t.realized_r) ts;
        target_2_hit_rate = part_of (λ t. fl.at_most (fl.number 3 2) t.realized_r) ts;
        target_3_hit_rate = part_of (λ t. fl.at_most (fl.number 5 2) t.realized_r) ts;
        stop_hit_rate = part_of is_loser ts;
        average_time_in_trade =
            mean_or_zero fl st (map (λ (t : SimulatedTrade F). fl.number t.duration_bars 1) ts);
        no_trade_suppression_rate = rate fl no_trades (length ts + no_trades);
        equity_curve_r = equity;
      }

  -- `breakdown_trades`: the groups in the order of their names
  unfoldable pub breakdown_trades :
      Statistics F
      → (SimulatedTrade F → String)
      → List (SimulatedTrade F)
      → List (String × Summary F)
  unfolding summarize_trades group_by sort_by
  breakdown_trades st of ts =
      map (λ (g : String × List (SimulatedTrade F)). (g.0, summarize_trades st g.1 0))
        (sort_by (λ (a b : String × List (SimulatedTrade F)). text_less a.0 b.0) (group_by of ts))

module _ {F : Type 0} (fl : Floats F) (hash : Label F → String) (st : Statistics F) where
  -- `summarize_labels` and `breakdown`, with the defaults of `simulate_labels`
  unfoldable pub summarize_labels : List (Label F) → Result (Summary F)
  unfolding simulate_labels summarize_trades
  summarize_labels labels = do
    trades ← simulate_labels fl hash labels true 60
    ok (summarize_trades fl st trades 0)

  unfoldable pub breakdown_labels :
      List (Label F) → (SimulatedTrade F → String) → Result (List (String × Summary F))
  unfolding simulate_labels breakdown_trades
  breakdown_labels labels field = do
    trades ← simulate_labels fl hash labels true 60
    ok (breakdown_trades fl st field trades)
