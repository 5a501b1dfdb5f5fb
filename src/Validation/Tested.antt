-- ===== src/Validation/Tested.antt =====
-- Which trades a validation counts: `validate_trades` of
-- services/quant-engine/app/validation/engine.py.
use simple_scanner.Common.{
  ℕ, ◌+◌, ◌≤◌, ◌<◌, ◌≡◌, String, List, [], ◌∷◌, ◌++◌, arith, leb, length, keep_if,
  length-keep_if-le, subst,
}
use simple_scanner.Common.Floats.{Floats}
use simple_scanner.Windowing.{days, minutes, max_time, Returns, Returns-map}
use simple_scanner.Replay.Metrics.{Statistics}
use simple_scanner.Backtest.Model.{SimulatedTrade}
use simple_scanner.Backtest.Engine.{summarize_trades}
use simple_scanner.Validation.Splits.{WalkForwardSettings, ValidationSplit, walk_forward_windows}
use simple_scanner.Validation.Walk.{span, Walks, walk_forward_windows-Walks}
use simple_scanner.Validation.Decision.{
  ActivationCriteria, test_trades_of, all_test_trades, validate_trades,
}

length-append : {A : Type 0} (xs ys : List A) → length (xs ++ ys) ≡ length xs + length ys
length-append [] ys = omega arith
length-append (x ∷ xs) ys = omega (arith, length-append xs ys)

-- How far into a split its test starts.
abbrev test_offset : WalkForwardSettings → ℕ
test_offset s =
    days s.train_window_days
    + minutes s.embargo_minutes
    + days s.validation_window_days
    + minutes s.embargo_minutes

module _ {F : Type 0} where
  -- The trades from a time on.
  abbrev from_time : ℕ → List (SimulatedTrade F) → List (SimulatedTrade F)
  from_time n trades = keep_if (λ (t : SimulatedTrade F). leb n t.entry_timestamp_utc) trades

  -- The trades of one test and those from a later time on are together among those from its start on.
  length-test_trades_of :
      (w : ValidationSplit) (n : ℕ)
      → w.test_end < n
      → w.test_start ≤ n
      → (trades : List (SimulatedTrade F))
      → length (test_trades_of trades w) + length (from_time n trades)
        ≤ length (from_time w.test_start trades)
  length-test_trades_of w n h k [] = omega arith
  length-test_trades_of w n h k (t ∷ ts) = ground (arith, length-test_trades_of w n h k ts)

  length-all_test_trades :
      (s : WalkForwardSettings) (end a : ℕ) (trades : List (SimulatedTrade F))
      (ws : List ValidationSplit)
      → s.test_window_days < s.step_days
      → Walks s end a ws
      → length (all_test_trades trades ws) ≤ length (from_time (a + test_offset s) trades)
  unfolding all_test_trades
  length-all_test_trades s end a trades [] q h = omega arith
  length-all_test_trades s end a trades (w ∷ ws) q h =
      let later = length-all_test_trades s end (a + days s.step_days) trades ws q h.2 in
      let starts : w.test_start ≡ a + test_offset s =
        omega (arith, h.1.trained, h.1.first_gap, h.1.validated, h.1.second_gap) in
      let ends : w.test_end < a + days s.step_days + test_offset s =
        omega (arith, h.1.tested, starts, q) in
      let here =
        length-test_trades_of w (a + days s.step_days + test_offset s) ends (omega (arith, starts))
          trades in
      subst
        (λ n.
          length (test_trades_of trades w ++ all_test_trades trades ws)
          ≤ length (from_time n trades))
        starts
        (omega
          (arith, length-append (test_trades_of trades w) (all_test_trades trades ws), here, later))

module _ {F : Type 0} (fl : Floats F) (st : Statistics F) (c : ActivationCriteria F) where
  -- Where the arithmetic stays in the range of datetime and the step is longer than the test window,
  -- walk_forward_windows returns, and a validation over its splits counts no trade twice: the trades of
  -- its summary are at most those given.
  pub validate_trades-total :
      (start end : ℕ) (s : WalkForwardSettings) (trades : List (SimulatedTrade F))
      (leaks : List String)
      → s.test_window_days < s.step_days
      → start ≤ end
      → end + days s.step_days + span s ≤ max_time
      → Returns
          (walk_forward_windows start end s)
          (λ ws. (validate_trades fl st c trades ws leaks).summary.total_trades ≤ length trades)
  unfolding validate_trades summarize_trades
  validate_trades-total start end s trades leaks q o m =
      Returns-map (Walks s end start) _ (walk_forward_windows start end s)
        (λ ws h. omega (
          arith,
          length-all_test_trades s end start trades ws q h,
          length-keep_if-le
              (λ (t : SimulatedTrade F). leb (start + test_offset s) t.entry_timestamp_utc) trades,
        ))
        (walk_forward_windows-Walks start end s (omega (arith, q)) o m)
