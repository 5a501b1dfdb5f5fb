-- ===== src/Validation/Tests.antt =====
-- Runs of the splits of services/quant-engine/app/validation/engine.py.
use simple_scanner.Common.Dict.{text_key}
use simple_scanner.Replay.Tests.{fl, st}
use simple_scanner.Backtest.Model.{SimulatedTrade}
use simple_scanner.Backtest.Engine.{trade_of, summarize_trades}
use simple_scanner.Backtest.Tests.{label, hash}
use simple_scanner.Validation.Decision.{ActivationCriteria, all_test_trades, validate_trades}
use simple_scanner.Validation.Tested.{validate_trades-total}
use simple_scanner.Validation.Accepted.{
  IsAcceptable, AreWindows, entered_in_each, validate_trades-accepted,
}
use simple_scanner.Common.{ℕ, ◌≤◌, ◌↔◌, true, length, ◌<◌, ◌≡◌, refl, List, [], ◌∷◌, arith, All}
use simple_scanner.Windowing.{days, err, out_of_fuel, Returns}
use simple_scanner.Validation.Splits.{
  WalkForwardSettings, ValidationSplit, walk_loop, walk_forward_windows, split_warnings,
  leakage_warnings,
}
use simple_scanner.Validation.Walk.{
  Walks, walk_forward_windows-Walks, walk_forward_windows-warnings, walk_loop-stuck,
}

abbrev settings : WalkForwardSettings
settings = record {
  train_window_days = 20;
  validation_window_days = 5;
  test_window_days = 5;
  step_days = 5;
  embargo_minutes = 0;
}

abbrev starts : List ValidationSplit → List ℕ
starts [] = []
starts (w ∷ ws) = w.train_start ∷ starts ws

three_splits :
    Returns
      (walk_forward_windows (days 100) (days 141) settings)
      (λ ws. starts ws ≡ (days 100 ∷ days 105 ∷ days 110 ∷ []))
unfolding walk_forward_windows
three_splits = refl

walk_forward_windows-Walks_example :
    Returns
      (walk_forward_windows (days 100) (days 141) settings)
      (Walks settings (days 141) (days 100))
walk_forward_windows-Walks_example =
    walk_forward_windows-Walks (days 100) (days 141) settings (omega arith) (omega arith)
      (omega arith)

walk_forward_windows-warnings_example :
    Returns (walk_forward_windows (days 100) (days 141) settings) (λ ws.
      (0 < settings.embargo_minutes → leakage_warnings ws ≡ [])
      × (settings.embargo_minutes ≡ 0
          → All
              (λ w.
                split_warnings w
                ≡ "train_validation_overlap_or_embargo_violation"
                  ∷ "validation_test_overlap_or_embargo_violation" ∷ [])
              ws))
walk_forward_windows-warnings_example =
    walk_forward_windows-warnings (days 100) (days 141) settings (omega arith) (omega arith)
      (omega arith)

walk_loop-stuck_example :
    walk_loop 1_000 (record settings { step_days = 0 }) (days 100) (days 141) (days 100) 1
    ≡ err out_of_fuel
walk_loop-stuck_example =
    walk_loop-stuck 1_000 (record settings { step_days = 0 }) (days 100) (days 141) 1 refl
      (omega arith) (omega arith)

abbrev criteria : ActivationCriteria ℕ
criteria = record {
  minimum_trades = 2;
  minimum_average_r = 0;
  minimum_profit_factor = 1_100;
  maximum_drawdown_r = 0;
  maximum_symbol_profit_share = 1_000;
  maximum_setup_profit_share = 1_000;
}

-- A trade that enters where the test of the first split ends and, with a step of five days, the test of
-- the second one starts.
abbrev trades : List (SimulatedTrade ℕ)
trades = trade_of fl hash 60 (label "A" (days 130)) (days 130) ∷ []

-- With the default step, which is as long as the test window, that trade is counted twice.
counted_twice :
    Returns
      (walk_forward_windows (days 100) (days 141) settings)
      (λ ws. (validate_trades fl st criteria trades ws []).summary.total_trades ≡ 2)
unfolding walk_forward_windows validate_trades all_test_trades summarize_trades
counted_twice = refl

abbrev longer_step : WalkForwardSettings
longer_step = record settings { step_days = 6 }

validate_trades-total_example :
    Returns
      (walk_forward_windows (days 100) (days 141) longer_step)
      (λ ws. (validate_trades fl st criteria trades ws []).summary.total_trades ≤ length trades)
validate_trades-total_example =
    validate_trades-total fl st criteria (days 100) (days 141) longer_step trades [] (omega arith)
      (omega arith) (omega arith)

abbrev one_split : ValidationSplit
one_split = record {
  train_start = days 100;
  train_end = days 120;
  validation_start = days 120;
  validation_end = days 125;
  test_start = days 125;
  test_end = days 130;
  embargo_minutes = 0;
}

validate_trades-accepted_example :
    let report = validate_trades fl st criteria trades (one_split ∷ []) ("leak" ∷ []) in
    let tested = entered_in_each (one_split ∷ []) trades in
    (report.summary ≡ summarize_trades fl st tested 0)
    × ((report.accepted ≡ true) ↔ IsAcceptable fl criteria report.summary ("leak" ∷ []) tested)
    × ((report.accepted ≡ true) ↔ (report.rejection_reasons ≡ []))
    × AreWindows fl criteria st trades ("leak" ∷ []) 1 (one_split ∷ []) report.windows
validate_trades-accepted_example =
    validate_trades-accepted fl criteria st trades (one_split ∷ []) ("leak" ∷ [])
