-- ===== src/Replay/Tests.antt =====
-- Runs of the replay of services/quant-engine/app/backtesting/replay.py, on numbers in the place of
-- `float`, where a literal n / d stands for n thousand / d.
use simple_scanner.Common.{
  ℕ, zero, suc, ap, ◌+◌, ◌-◌, ◌*◌, ◌/◌, String, true, false, Option, none, some, List, [], ◌∷◌, ◌≡◌,
  refl, ltb, leb, get_elem?, ◌⊎◌, All,
}
use mathlib.Core.List.{map, Perm}
use simple_scanner.Common.Int.{pos}
use simple_scanner.Common.Floats.{Floats}
use simple_scanner.Replay.Model.{
  SkipReason, Settings, ReplayConfig, Bar, Candidate, Feature, Env, SimulatedTrade, candidate_id_of,
}
use simple_scanner.Common.Sorting.{sort_by}
use simple_scanner.Replay.Config.{Moment, aware, naive, given, written, config_between}
use simple_scanner.Replay.Model.{Settings}
use simple_scanner.Common.Dict.{get?, group_by}
use simple_scanner.Common.{str_eq, if◌then◌else◌, Bool-cases, inl, inr}
use simple_scanner.Replay.Config.{
  TextOps, Payload, one_side, from_payload, to_payload, normalize_symbols,
}
use simple_scanner.Replay.Config.RoundTrip.{IsUsual, from_payload-to_payload}
use simple_scanner.Replay.Ledger.{ledger_loop}
use simple_scanner.Replay.Ledger.Refinement.{replay-refines}
use simple_scanner.Replay.Ledger.Limits.{
  KeepsEach, IsInPortfolio, IsInSymbol, IsAfterSetup, OnTaken, replay-IsInPortfolio,
  replay-IsInSymbol, replay-IsAfterSetup,
}
use simple_scanner.Replay.Holding.{IsHeldIn, replay-IsHeldIn}
use simple_scanner.Replay.Engine.Each.{replay-perm}
use simple_scanner.Replay.Walk.{EndsAt, EndsLast, walk-ends}
use simple_scanner.Replay.Metrics.{Statistics, drawdown_series, max_consecutive, marks_of}
use simple_scanner.Replay.Metrics.Summary.{metrics}
use simple_scanner.Replay.Metrics.Counts.{count_sum, breakdown_sum, metrics-counts}
use simple_scanner.Replay.Metrics.Series.{
  drop_from_peak, longest_run, get_elem?-drawdown_series, max_consecutive-longest_run,
}
use simple_scanner.Replay.Engine.{inputs_of, replay, loop, step, is_seen, with_metadata}
use simple_scanner.Replay.Prices.{
  Plan, stop_of, entry_price, time_exit_price, targets, reward_risk, session_exit,
}
use simple_scanner.Replay.Portfolio.{
  preflight_skip, candidate_skip, limit_skip, pruned, after_trade, opened,
}
use simple_scanner.Replay.Selection.{
  selected_candidates, filter_candidates, candidate_before, bars_by_key, bars_of, overlap_context,
  regime_of, bucket_of, feature_of,
}
use simple_scanner.Replay.Simulation.{simulate_candidate, skip, walk}

-- Prices are thousandths.
abbrev pub fl : Floats ℕ
fl = record {
  add = λ a b. a + b;
  sub = λ a b. a - b;
  mul = λ a b. a * b / 1000;
  div = λ a b. a * 1000 / b;
  negate = λ a. 1_000_000_000 - a;
  less = ltb;
  at_most = leb;
  number = λ n d. n * 1000 / d;
}

abbrev pub env : Env ℕ
env = record {
  minute_of_day_et = λ t. 600 + t / 60_000_000;
  candidate_hash = λ c. c.symbol;
  trade_hash = λ run id t. id;
  skip_hash = λ run id t. id;
  overlap_hash = λ symbol interval day ids. symbol;
}

abbrev minute : ℕ → ℕ
minute n = 60_000_000 * n

abbrev pub config : ReplayConfig ℕ
config = record {
  replay_purpose = "portfolio_execution";
  simulation_type = "candidate_market_replay";
  symbols = [];
  intervals = "1min" ∷ [];
  start = none;
  end = none;
  session = "rth";
  candidate_setup_types = [];
  sides = "LONG" ∷ "SHORT" ∷ [];
  max_hold_minutes = pos 2;
  entry_mode = "next_bar_open";
  stop_mode = "fixed_risk";
  target_mode = "candidate_targets";
  target_1_r = 1000;
  target_2_r = 1500;
  target_3_r = 2500;
  partial_exit_mode = "none";
  same_bar_stop_target_policy = "conservative_stop_first";
  intrabar_path_policy = "conservative";
  slippage_bps = 0;
  spread_bps = 0;
  commission_per_share = 0;
  minimum_reward_risk = 1000;
  minimum_confidence = none;
  allow_overlapping_trades = false;
  enforce_portfolio_constraints = true;
  enforce_symbol_overlap = true;
  max_open_trades_per_symbol = pos 1;
  max_open_trades_portfolio = pos 10;
  cooldown_bars_after_loss = pos 0;
  cooldown_bars_after_trade = pos 0;
  one_trade_per_setup_per_symbol_until_exit = true;
  no_trade_on_insufficient_context = true;
  market_regime_filter = [];
  time_bucket_filter = [];
  close_at_session_end = true;
  feature_warmup_bars = pos 1;
  allow_stale = false;
  counterfactual_include_invalid_candidates = false;
  counterfactual_result_label = "candidate_quality_evidence";
}

abbrev bar : ℕ → ℕ → ℕ → Bar ℕ
bar n low high = record {
  symbol = "AAPL";
  interval = "1min";
  timestamp_utc = minute n;
  timestamp_et = minute n;
  open_price = 100_000;
  high = high;
  low = low;
  close = 100_000;
}

abbrev pub bars : List (Bar ℕ)
bars =
    bar 3 99_900 100_200
    ∷ bar 1 99_900 100_100
    ∷ bar 2 99_800 100_100
    ∷ bar 4 99_900 100_900
    ∷ bar 5 99_900 100_100
    ∷ []

abbrev candidate : ℕ → String → Candidate ℕ
candidate n setup = record {
  candidate_id = some setup;
  symbol = "AAPL";
  interval = none;
  side = "LONG";
  setup_type = setup;
  timestamp = minute n;
  confidence_score = none;
  signal_score = none;
  expected_r = none;
  stop_price = none;
  target_1 = none;
  target_2 = none;
  target_3 = none;
  market_regime = none;
  time_bucket = none;
  opening_range_low = none;
  premarket_low = none;
  previous_day_low = none;
  opening_range_high = none;
  premarket_high = none;
  previous_day_high = none;
  vwap = none;
  atr_14 = none;
  reason_codes = [];
  warning_codes = [];
}

abbrev pub candidates : List (Candidate ℕ)
candidates =
    candidate 2 "gap" ∷ candidate 1 "breakout" ∷ candidate 4 "gap" ∷ candidate 1 "breakout" ∷ []

abbrev no_features : List (Feature ℕ)
no_features = []

abbrev verdicts : List (SimulatedTrade ℕ) → List (String × Option SkipReason)
verdicts ts = map (λ (t : SimulatedTrade ℕ). (t.setup_type, t.skip_reason)) ts

-- The breakout enters at minute 2 and leaves at its time limit in minute 4; it comes again as a
-- duplicate, the gap of minute 2 overlaps it, and the gap of minute 4 enters as it ends.
four_candidates :
    verdicts (replay fl env bars no_features candidates config "run")
    ≡ ("breakout", none)
      ∷ ("breakout", some SkipReason.duplicate_candidate)
      ∷ ("gap", some SkipReason.overlapping_trade)
      ∷ ("gap", none)
      ∷ []
unfolding replay loop step is_seen selected_candidates filter_candidates candidate_before sort_by
    bars_by_key group_by bars_of get? overlap_context preflight_skip candidate_skip limit_skip
    pruned after_trade opened simulate_candidate skip with_metadata regime_of bucket_of feature_of
    candidate_id_of stop_of entry_price time_exit_price targets reward_risk session_exit walk
four_candidates = refl

abbrev selected : List (Candidate ℕ)
selected = selected_candidates fl config candidates

replay-refines_example :
    replay fl env bars no_features candidates config "run"
    ≡ ledger_loop fl env (inputs_of fl env bars no_features selected config "run") [] [] selected
replay-refines_example = replay-refines fl env bars no_features candidates config "run"

replay-IsInPortfolio_example :
    KeepsEach (IsInPortfolio fl config) [] (replay fl env bars no_features candidates config "run")
replay-IsInPortfolio_example =
    replay-IsInPortfolio fl env bars no_features candidates config "run" refl refl

replay-IsInSymbol_example :
    KeepsEach (IsInSymbol fl config) [] (replay fl env bars no_features candidates config "run")
replay-IsInSymbol_example =
    replay-IsInSymbol fl env bars no_features candidates config "run" refl refl refl

replay-IsAfterSetup_example :
    KeepsEach IsAfterSetup [] (replay fl env bars no_features candidates config "run")
replay-IsAfterSetup_example =
    replay-IsAfterSetup fl env bars no_features candidates config "run" refl refl refl

replay-IsHeldIn_example :
    All
      (λ t. OnTaken t.status (IsHeldIn config t))
      (replay fl env bars no_features candidates config "run")
replay-IsHeldIn_example = replay-IsHeldIn fl env bars no_features candidates config "run"

replay-perm_example :
    Perm
      (map (λ t. t.candidate_id) (replay fl env bars no_features candidates config "run"))
      (map (candidate_id_of env) (filter_candidates config candidates))
replay-perm_example = replay-perm fl env bars no_features candidates config "run"

abbrev plan : Plan ℕ
plan = record {
  side = "LONG";
  entry = 100_000;
  stop_price = 99_500;
  risk = 500;
  target_1 = 100_500;
  target_2 = 100_750;
  target_3 = 101_250;
}

walk-ends_example :
    let e = walk fl env config plan (pos (minute 9)) (bar 5 99_900 100_100) 0 0 0 bars in
    ((n : ℕ) × EndsAt fl env config plan (pos (minute 9)) 0 bars e n)
    ⊎ EndsLast fl env config plan (pos (minute 9)) 0 (bar 5 99_900 100_100) bars e
walk-ends_example = walk-ends fl env config plan (pos (minute 9)) (bar 5 99_900 100_100) 0 0 0 bars

abbrev pub st : Statistics ℕ
st = record { mean = λ vs. 0; median = λ vs. 0; infinity = 1_000_000_000 }

abbrev trades : List (SimulatedTrade ℕ)
trades = replay fl env bars no_features candidates config "run"

metrics-counts_example :
    let m = metrics fl st config trades in
    (m.candidates_taken + m.candidates_skipped ≡ m.total_candidates)
    × (m.valid_candidates + m.invalid_skipped_candidates ≡ m.total_candidates)
    × (count_sum m.skip_breakdown ≡ m.candidates_skipped)
    × (breakdown_sum m.per_symbol_metrics ≡ m.candidates_taken)
    × (breakdown_sum m.per_setup_metrics ≡ m.candidates_taken)
    × (breakdown_sum m.per_regime_metrics ≡ m.candidates_taken)
    × (breakdown_sum m.per_time_bucket_metrics ≡ m.candidates_taken)
    × (breakdown_sum m.per_side_metrics ≡ m.candidates_taken)
metrics-counts_example = metrics-counts fl st config trades

get_elem?-drawdown_series_example :
    get_elem? (drawdown_series fl (1500 ∷ 500 ∷ 2000 ∷ [])) 1
    ≡ drop_from_peak fl 0 (1500 ∷ 500 ∷ 2000 ∷ []) 1
get_elem?-drawdown_series_example = get_elem?-drawdown_series fl (1500 ∷ 500 ∷ 2000 ∷ []) 1

max_consecutive-longest_run_example :
    max_consecutive fl true trades ≡ longest_run (marks_of fl true trades)
max_consecutive-longest_run_example = max_consecutive-longest_run fl true trades

-- A datetime as a text: a letter that says if it is aware, and as many letters as its number.
abbrev ones : ℕ → String
ones zero = ""
ones (suc n) = String.◌∷◌ "i" (ones n)

abbrev count_of : String → ℕ
count_of String.[] = 0
count_of (String.◌∷◌ c s) = suc (count_of s)

abbrev written_as : Moment → String
written_as (aware t) = String.◌∷◌ "a" (ones t)
written_as (naive t) = String.◌∷◌ "n" (ones t)

abbrev read_as : String → Option Moment
read_as String.[] = none
read_as (String.◌∷◌ c s) =
    if str_eq (String.◌∷◌ c "") "a" then some (aware (count_of s)) else some (naive (count_of s))

count_of-ones : (n : ℕ) → count_of (ones n) ≡ n
count_of-ones zero = refl
count_of-ones (suc n) = ap suc (count_of-ones n)

read_again_of : (m : Moment) → read_as (written_as m) ≡ some m
read_again_of (aware t) = ap (λ n. some (aware n)) (count_of-ones t)
read_again_of (naive t) = ap (λ n. some (naive n)) (count_of-ones t)

abbrev text_ops : TextOps
text_ops = record {
  upper = λ s. if str_eq s "aapl" then "AAPL" else s;
  strip = λ s. s;
  isoformat = written_as;
  fromisoformat = read_as;
}

-- `upper` knows one word.
upper_again_of : (s : String) → text_ops.upper (text_ops.upper s) ≡ text_ops.upper s
upper_again_of s = elim (Bool-cases (str_eq s "aapl")) [
  | inl e ↦ simp e refl
  | inr e ↦ simp (e, e) refl
]

text_ops-IsUsual : IsUsual text_ops
text_ops-IsUsual = record {
  upper_again = upper_again_of;
  clean_again = upper_again_of;
  upper_long = refl;
  upper_short = refl;
  upper_both = refl;
  clean_aapl = refl;
  read_again = read_again_of;
}

abbrev payload : Payload ℕ
payload = record {
  replay_purpose = none;
  purpose = none;
  simulation_type = some "model_training_counterfactual";
  symbols = "aapl" ∷ "APPL" ∷ "MSFT" ∷ [];
  intervals = [];
  start = some (given (naive 3));
  end = some (written (written_as (naive 5)));
  session = none;
  candidate_setup_types = [];
  sides = some (one_side "BOTH");
  max_hold_minutes = some (pos 0);
  entry_mode = none;
  stop_mode = none;
  target_mode = none;
  target_1_r = none;
  target_2_r = none;
  target_3_r = none;
  partial_exit_mode = none;
  same_bar_stop_target_policy = none;
  intrabar_path_policy = none;
  slippage_bps = none;
  spread_bps = none;
  commission_per_share = none;
  minimum_reward_risk = some 0;
  minimum_confidence = none;
  allow_overlapping_trades = none;
  enforce_portfolio_constraints = none;
  enforce_symbol_overlap = none;
  max_open_trades_per_symbol = none;
  max_open_trades_portfolio = none;
  cooldown_bars_after_loss = none;
  cooldown_bars_after_trade = none;
  one_trade_per_setup_per_symbol_until_exit = none;
  no_trade_on_insufficient_context = none;
  market_regime_filter = [];
  time_bucket_filter = [];
  close_at_session_end = none;
  feature_warmup_bars = none;
  allow_stale = none;
  counterfactual_include_invalid_candidates = none;
  counterfactual_result_label = none;
}

abbrev asked : Settings Moment ℕ
asked = config_between fl text_ops payload (some (naive 3)) (some (aware 5))

read_payload : from_payload fl text_ops payload ≡ some asked
unfolding from_payload
read_payload = refl

-- A reward to risk of 0 that is asked for is read as 1.
zero_reward_risk : asked.minimum_reward_risk ≡ 1000
zero_reward_risk = refl

read_symbols : asked.symbols ≡ "AAPL" ∷ "MSFT" ∷ []
unfolding normalize_symbols
read_symbols = refl

-- A naive start comes back as an aware one.
from_payload-to_payload_example :
    from_payload fl text_ops (to_payload text_ops asked)
    ≡ some (record asked { start = some (aware 3); end = some (aware 5) })
from_payload-to_payload_example =
    from_payload-to_payload fl text_ops text_ops-IsUsual payload asked read_payload
