-- ===== src/Replay/Engine.antt =====
-- `replay` and `_with_metadata` of services/quant-engine/app/backtesting/replay.py.
pub mod Each
use simple_scanner.Common.{
  ℕ, String, Bool, true, false, ◌&&◌, Option, none, some, List, [], ◌∷◌, if◌then◌else◌, leb, ◌==◌,
  str_eq,
}
use simple_scanner.Common.Floats.{Floats}
use simple_scanner.Common.Dict.{get?, text_key}
use simple_scanner.Replay.Model.{
  SkipReason, TradeStatus, Bucket, ReplayConfig, Bar, Candidate, Feature, Env, SimulatedTrade,
  ReplayMetadata, ReplayDecision, is_taken, is_counterfactual, interval_of, candidate_id_of,
}
use simple_scanner.Replay.Simulation.{simulate_candidate, skip, when}
use simple_scanner.Replay.Portfolio.{Book, empty_book, preflight_skip, after_trade}
use simple_scanner.Replay.Selection.{
  bars_by_key, bars_of, feature_of, regime_of, bucket_of, selected_candidates, Overlap,
  overlap_context,
}

-- `_concurrency_bucket`
unfoldable pub concurrency_bucket : ℕ → Bucket
concurrency_bucket count =
    if leb count 1
    then Bucket.solo
    else if count == 2
    then Bucket.pair
    else if leb count 4
    then Bucket.cluster
    else Bucket.crowded

-- `int(count or 1)`
abbrev pub count_of : Option Overlap → ℕ
count_of none = 1
count_of (some o) =
    if o.concurrent_candidate_count_at_signal == 0
    then 1
    else o.concurrent_candidate_count_at_signal

abbrev pub density_of : Option Overlap → ℕ
density_of none = 0
density_of (some o) = o.overlap_density

abbrev pub group_of : Option Overlap → Option String
group_of none = none
group_of (some o) = o.overlap_group_id

-- The reasons for which the portfolio, and not the candidate, blocks a trade.
abbrev pub is_portfolio_block : SkipReason → Bool
is_portfolio_block SkipReason.overlapping_trade = true
is_portfolio_block SkipReason.portfolio_trade_limit = true
is_portfolio_block SkipReason.cooldown_active = true
is_portfolio_block r = false

-- The key by which a candidate that comes again is known.
pub record SeenKey : Type 0 where
  pub symbol : String
  pub interval : String
  pub timestamp : ℕ
  pub side : String
  pub setup_type : String

abbrev pub same_key : SeenKey → SeenKey → Bool
same_key a b =
    str_eq a.symbol b.symbol
    && str_eq a.interval b.interval
    && (a.timestamp == b.timestamp)
    && str_eq a.side b.side
    && str_eq a.setup_type b.setup_type

unfoldable pub is_seen : SeenKey → List SeenKey → Bool
is_seen k [] = false
is_seen k (j ∷ js) = let rest = is_seen k js in if same_key j k then true else rest

module _ {F : Type 0} where
  abbrev pub key_of : Candidate F → SeenKey
  key_of c = record {
    symbol = c.symbol;
    interval = interval_of c;
    timestamp = c.timestamp;
    side = c.side;
    setup_type = c.setup_type;
  }

  -- `_with_metadata`
  unfoldable pub with_metadata :
      ReplayConfig F → Option Overlap → Option Bool → SimulatedTrade F → SimulatedTrade F
  unfolding concurrency_bucket
  with_metadata cfg overlap blocked t = record t {
    metadata = some (record {
      replay_purpose = cfg.replay_purpose;
      simulation_type = cfg.simulation_type;
      candidate_quality_mode = is_counterfactual cfg;
      candidate_quality_label = when (is_counterfactual cfg) cfg.counterfactual_result_label;
      counterfactual_observed = is_counterfactual cfg && is_taken t.status;
      portfolio_blocked_in_execution_replay = blocked;
      portfolio_constraints_enabled = cfg.enforce_portfolio_constraints;
      symbol_overlap_enabled = cfg.enforce_symbol_overlap;
      concurrent_candidate_count_at_signal = count_of overlap;
      overlap_density = density_of overlap;
      overlap_group_id = group_of overlap;
      concurrency_bucket = concurrency_bucket (count_of overlap);
    });
  }

  -- The decision on a candidate says what its trade says.
  abbrev pub decision_of : SimulatedTrade F → ReplayDecision
  decision_of t = elim t.status [
    | TradeStatus.taken ↦ record {
      candidate_id = t.candidate_id;
      status = TradeStatus.taken;
      skip_reason = none;
      trade_id = some t.trade_id;
    }
    | TradeStatus.skipped ↦ record {
      candidate_id = t.candidate_id;
      status = TradeStatus.skipped;
      skip_reason = t.skip_reason;
      trade_id = none;
    }
  ]

-- What the loop reads and does not change.
pub record Inputs (F : Type 0) : Type 0 where
  pub run_id : String
  pub bars : List ((String × String) × List (Bar F))
  pub features : List (Feature F)
  pub overlaps : List (String × Overlap)
  pub config : ReplayConfig F

pub record LoopState : Type 0 where
  pub seen_keys : List SeenKey
  pub book : Book

abbrev pub first_state : LoopState
first_state = record { seen_keys = []; book = empty_book }

module _ {F : Type 0} (fl : Floats F) (env : Env F) (inp : Inputs F) where
  abbrev pub candidate_regime : Candidate F → String
  candidate_regime c = regime_of c (feature_of c inp.features)

  abbrev pub candidate_bucket : Candidate F → String
  candidate_bucket c = bucket_of c (feature_of c inp.features)

  abbrev pub candidate_overlap : Candidate F → Option Overlap
  candidate_overlap c = get? (candidate_id_of env c) inp.overlaps

  -- The trade of a candidate that is skipped, and of one that is simulated.
  abbrev pub skipped_trade : Candidate F → SkipReason → Option Bool → SimulatedTrade F
  skipped_trade c reason blocked =
      with_metadata inp.config (candidate_overlap c) blocked
        (skip fl env inp.run_id c reason (candidate_regime c) (candidate_bucket c))

  abbrev pub simulated_trade : Candidate F → SimulatedTrade F
  simulated_trade c = with_metadata inp.config (candidate_overlap c) none (
      simulate_candidate fl env inp.run_id c (bars_of c inp.bars) (feature_of c inp.features)
        inp.config (candidate_regime c) (candidate_bucket c))

  -- One candidate of the loop, after the preflight.
  abbrev pub checked_step :
      Candidate F → List SeenKey → Option SkipReason × Book → SimulatedTrade F × LoopState
  checked_step c seen (some r, book) =
      (skipped_trade c r (some (is_portfolio_block r)), record { seen_keys = seen; book = book })
  checked_step c seen (none, book) = (
    simulated_trade c,
    record { seen_keys = seen; book = after_trade fl env inp.config c (simulated_trade c) book },
  )

  -- One candidate of the loop.
  unfoldable pub step : LoopState → Candidate F → SimulatedTrade F × LoopState
  step s c =
      if is_seen (key_of c) s.seen_keys
      then (skipped_trade c SkipReason.duplicate_candidate (some true), s)
      else checked_step c (key_of c ∷ s.seen_keys)
          (preflight_skip fl env c inp.config (candidate_regime c) (candidate_bucket c) s.book)

  unfoldable pub loop : LoopState → List (Candidate F) → List (SimulatedTrade F)
  loop s [] = []
  loop s (c ∷ cs) = (step s c).0 ∷ loop (step s c).1 cs

module _ {F : Type 0} (fl : Floats F) (env : Env F) where
  abbrev pub inputs_of :
      List (Bar F) → List (Feature F) → List (Candidate F) → ReplayConfig F → String → Inputs F
  inputs_of bars features selected cfg run_id = record {
    run_id = run_id;
    bars = bars_by_key bars;
    features = features;
    overlaps = overlap_context env cfg selected;
    config = cfg;
  }

  -- `replay`: the trades of the run, from which its decisions and metrics are read.
  unfoldable pub replay :
      List (Bar F)
      → List (Feature F)
      → List (Candidate F)
      → ReplayConfig F
      → String
      → List (SimulatedTrade F)
  replay bars features candidates cfg run_id =
      let selected = selected_candidates fl cfg candidates in
      loop fl env (inputs_of bars features selected cfg run_id) first_state selected
