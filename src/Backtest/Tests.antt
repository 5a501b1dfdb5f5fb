-- ===== src/Backtest/Tests.antt =====
-- Runs of the backtest of services/quant-engine/app/backtesting/engine.py, on numbers in the place of
-- `float`.
use simple_scanner.Common.{ℕ, ◌+◌, ◌*◌, map, String, true, none, some, List, [], ◌∷◌, ◌≡◌, refl}
use simple_scanner.Windowing.{Result, ok, err, value_error, Returns}
use simple_scanner.Labels.{long, win}
use simple_scanner.Replay.Tests.{fl, st}
use simple_scanner.Backtest.Model.{Label, SimulatedTrade, day_of_year, is_leap_day, in_1900}
use simple_scanner.Backtest.Engine.{simulate_from, simulate_labels, summarize_labels}
use simple_scanner.Backtest.Spacing.{IsSpaced, simulate_labels-IsSpaced, simulate_labels-raises}

-- 2024-02-29 is day 738,944 after 0001-01-01.
abbrev leap_day : ℕ
leap_day = 86_400_000_000 * 738_944

abbrev pub label : String → ℕ → Label ℕ
label symbol t = record {
  symbol = symbol;
  interval = none;
  timestamp = t;
  side = long;
  entry_price = 100;
  stop_price = 90;
  target_1 = 110;
  target_2 = 115;
  target_3 = 125;
  max_favorable_excursion = 0;
  max_adverse_excursion = 0;
  time_to_target = some 5;
  time_to_stop = none;
  exit_timestamp_utc = none;
  realized_r = 1000;
  outcome = win;
  setup_type = "breakout";
  market_regime = "trend";
  time_bucket = none;
}

abbrev minute : ℕ → ℕ
minute n = leap_day + 86_400_000_000 + 60_000_000 * n

abbrev labels : List (Label ℕ)
labels =
    label "A" (minute 6) ∷ label "A" (minute 0) ∷ label "A" (minute 5) ∷ label "B" (minute 5) ∷ []

abbrev pub hash : Label ℕ → String
hash l = l.symbol

leap_day_there : is_leap_day leap_day ≡ true
unfolding day_of_year
leap_day_there = refl

-- 2024-03-01 in 1900 is 1900-03-01, day 693,654.
march_in_1900 : in_1900 (minute 0) ≡ 86_400_000_000 * 693_654
unfolding in_1900 day_of_year
march_in_1900 = refl

abbrev entries : Result (List (SimulatedTrade ℕ)) → List ℕ
entries (ok ts) = map (λ (t : SimulatedTrade ℕ). t.entry_timestamp_utc) ts
entries (err e) = []

-- The second label of A stands at the exit of the first one.
three_trades :
    entries (simulate_labels fl hash labels true 60) ≡ minute 0 ∷ minute 5 ∷ minute 6 ∷ []
unfolding simulate_labels simulate_from
three_trades = refl

simulate_labels-IsSpaced_example : Returns (simulate_labels fl hash labels true 60) (IsSpaced [])
unfolding day_of_year
simulate_labels-IsSpaced_example = simulate_labels-IsSpaced fl hash labels 60 refl refl

simulate_labels-raises_example :
    simulate_labels fl hash (label "A" (minute 0) ∷ label "A" leap_day ∷ []) true 60
    ≡ err value_error
unfolding day_of_year
simulate_labels-raises_example =
    simulate_labels-raises fl hash (label "A" (minute 0) ∷ label "A" leap_day ∷ []) 60 refl refl

-- A summary of labels raises as their simulation does.
leap_summary : summarize_labels fl hash st (label "A" leap_day ∷ []) ≡ err value_error
unfolding summarize_labels simulate_labels simulate_from day_of_year
leap_summary = refl
