-- ===== src/Labels/Tests.antt =====
-- Runs of the labels of services/quant-engine/app/labels/engine.py, on numbers in the place of `float`.
use simple_scanner.Common.{
  ℕ, ◌+◌, ◌-◌, ◌*◌, ◌/◌, false, none, some, List, [], ◌∷◌, ◌≡◌, refl, ltb, leb,
}
use simple_scanner.Labels.Market.{
  PriceOps, long, Outcome, loss, other_policy, Bar, LabelSettings, Candidate, Feature, LabelRow,
}
use simple_scanner.Labels.Engine.{
  Plan, walk, first_track, label_candidate, plan_of, stop_price, entry_price, future_window,
  index_of, least, greatest,
}
use simple_scanner.Labels.Rows.{
  Group, build_label_rows, label_groups, label_features, first_label, set_block, blocked_until,
}
use simple_scanner.Labels.Touch.{first_touch, result_of, walk-first_touch}
use simple_scanner.Labels.Spacing.{IsSpaced, build_label_rows-IsSpaced}
use simple_scanner.Labels.Holding.{IsHeld, label_candidate-IsHeld}

abbrev ops : PriceOps ℕ
ops = record {
  add = λ a b. a + b;
  sub = λ a b. a - b;
  mul = λ a b. a * b;
  div = λ a b. a / b;
  less = ltb;
  at_most = leb;
  zero_price = 0;
  one_price = 1;
  minus_one = 0;
  two_price = 2;
  two_and_half = 3;
  ten_thousand = 10_000;
  one_thousandth = 0;
  two_thousandths = 0;
}

abbrev settings : LabelSettings ℕ
settings = record {
  max_hold_minutes = 60;
  target_r = 2;
  atr_stop_multiplier = 1;
  slippage_bps = 0;
  spread_bps = 0;
  same_bar_stop_target_policy = other_policy;
  allow_overlapping_trades = false;
  minimum_bars_before_label = 0;
  recent_swing_lookback = 10;
}

abbrev bar : ℕ → ℕ → ℕ → ℕ → Bar ℕ
bar t low high close = record {
  timestamp_utc = 60_000_000 * t;
  open_price = 100;
  high = high;
  low = low;
  close = close;
}

abbrev bars : List (Bar ℕ)
bars = bar 1 90 105 100 ∷ bar 2 95 108 101 ∷ bar 3 94 121 119 ∷ bar 4 80 130 100 ∷ []

abbrev feature : Feature ℕ
feature = record {
  timestamp = 60_000_000;
  atr_14 = some 4;
  atr_14_proxy = none;
  vwap = none;
  opening_range_low = some 90;
  opening_range_high = none;
  market_regime = none;
}

abbrev candidate : Candidate
candidate = record { symbol = "AAPL"; interval = "1min"; side = long; setup_type = "breakout" }

abbrev group : Group ℕ
group = record { bars = bars; features = feature ∷ [] }

abbrev outcomes : List (LabelRow ℕ) → List Outcome
outcomes [] = []
outcomes (l ∷ ls) = l.found.outcome ∷ outcomes ls

-- The stop is 4 below the entry at 100, and the second bar after the candidate's touches it.
one_loss :
    outcomes (build_label_rows ops (λ f. candidate ∷ []) settings (group ∷ group ∷ [])) ≡ loss ∷ []
unfolding build_label_rows label_groups label_features first_label set_block blocked_until
    label_candidate walk plan_of stop_price entry_price future_window index_of least greatest
one_loss = refl

abbrev plan : Plan ℕ
plan = record {
  side = long;
  entry = 100;
  stop = 94;
  risk = 6;
  target_1 = 106;
  target_2 = 112;
  target_3 = 118;
}

walk-first_touch_example :
    let e = walk ops settings plan (bar 4 80 130 100) (first_track ops) 1 bars in
    (e.outcome ≡ first_touch ops plan bars)
    × (e.realized_r ≡ result_of ops settings plan (bar 4 80 130 100) (first_touch ops plan bars))
walk-first_touch_example =
    walk-first_touch ops settings plan (bar 4 80 130 100) (first_track ops) 1 bars

build_label_rows-IsSpaced_example :
    IsSpaced [] (build_label_rows ops (λ f. candidate ∷ []) settings (group ∷ group ∷ []))
build_label_rows-IsSpaced_example =
    build_label_rows-IsSpaced ops (λ f. candidate ∷ []) settings (group ∷ group ∷ []) refl

label_candidate-IsHeld_example :
    IsHeld 120_000_000
      (120_000_000 + 60_000_000 * 60)
      (label_candidate ops settings bars 0 60_000_000 feature candidate)
label_candidate-IsHeld_example =
    label_candidate-IsHeld ops settings bars 0 60_000_000 feature candidate (bar 2 95 108 101)
      (bar 3 94 121 119 ∷ bar 4 80 130 100 ∷ []) refl
