-- ===== src/Replay/Config.antt =====
-- `ReplayConfig.from_payload` and `to_dict` of services/quant-engine/app/backtesting/replay.py, and
-- services/quant-engine/app/data/symbols.py. A payload has the types that the schemas give it. `upper` and
-- `strip` are those of `str`, `isoformat` and `fromisoformat` those of `datetime`.
pub mod RoundTrip
use mathlib.Core.List.{map}
use simple_scanner.Common.{
  ℕ, String, Bool, true, false, not, ◌&&◌, Option, none, some, List, [], ◌∷◌, if◌then◌else◌, str_eq,
}
use simple_scanner.Common.Int.{ℤ, pos, int_or}
use simple_scanner.Common.Texts.{member, is_filled, text_or}
use simple_scanner.Common.Floats.{Floats, zero_float, float_or}
use simple_scanner.Replay.Model.{Settings, filled_or, counterfactual_purpose, is_counterfactual}

-- A `datetime`: an aware one is its instant, a naive one has no timezone.
pub data Moment : Type 0 where
  aware naive : ℕ → Moment

-- `fromisoformat` raises on some texts, which is `none`.
pub record TextOps : Type 0 where
  pub upper : String → String
  pub strip : String → String
  pub isoformat : Moment → String
  pub fromisoformat : String → Option Moment

-- `start` and `end` are a datetime or its text.
pub data Date : Type 0 where
  given : Moment → Date
  written : String → Date

-- `sides` is one text or a list of texts.
pub data Sides : Type 0 where
  one_side : String → Sides
  listed : List String → Sides

-- The keys of a payload, each of which may be missing. A key that is null counts as missing, and a
-- Boolean is not null.
pub record Payload (F : Type 0) : Type 0 where
  pub replay_purpose : Option String
  pub purpose : Option String
  pub simulation_type : Option String
  pub symbols : List String
  pub intervals : List String
  pub start : Option Date
  pub end : Option Date
  pub session : Option String
  pub candidate_setup_types : List String
  pub sides : Option Sides
  pub max_hold_minutes : Option ℤ
  pub entry_mode : Option String
  pub stop_mode : Option String
  pub target_mode : Option String
  pub target_1_r : Option F
  pub target_2_r : Option F
  pub target_3_r : Option F
  pub partial_exit_mode : Option String
  pub same_bar_stop_target_policy : Option String
  pub intrabar_path_policy : Option String
  pub slippage_bps : Option F
  pub spread_bps : Option F
  pub commission_per_share : Option F
  pub minimum_reward_risk : Option F
  pub minimum_confidence : Option F
  pub allow_overlapping_trades : Option Bool
  pub enforce_portfolio_constraints : Option Bool
  pub enforce_symbol_overlap : Option Bool
  pub max_open_trades_per_symbol : Option ℤ
  pub max_open_trades_portfolio : Option ℤ
  pub cooldown_bars_after_loss : Option ℤ
  pub cooldown_bars_after_trade : Option ℤ
  pub one_trade_per_setup_per_symbol_until_exit : Option Bool
  pub no_trade_on_insufficient_context : Option Bool
  pub market_regime_filter : List String
  pub time_bucket_filter : List String
  pub close_at_session_end : Option Bool
  pub feature_warmup_bars : Option ℤ
  pub allow_stale : Option Bool
  pub counterfactual_include_invalid_candidates : Option Bool
  pub counterfactual_result_label : Option String

-- `data.get(key, default)` of a Boolean
abbrev pub bool_or : Option Bool → Bool → Bool
bool_or none d = d
bool_or (some b) d = b

-- `texts or default`
abbrev pub list_or : List String → List String → List String
list_or [] d = d
list_or (s ∷ ss) d = s ∷ ss

abbrev pub both_sides : List String
both_sides = "LONG" ∷ "SHORT" ∷ []

module _ (ops : TextOps) where
  -- `normalize_symbol`
  unfoldable pub normalize_symbol : String → String
  normalize_symbol symbol =
      let cleaned = ops.upper (ops.strip symbol) in
      if str_eq cleaned "APPL" then "AAPL" else cleaned

  unfoldable pub normalize_onto : List String → List String → List String
  unfolding normalize_symbol member
  normalize_onto seen [] = []
  normalize_onto seen (raw ∷ raws) =
      let symbol = normalize_symbol raw in
      let kept = symbol ∷ normalize_onto (symbol ∷ seen) raws in
      let left = normalize_onto seen raws in
      if is_filled symbol && not (member symbol seen) then kept else left

  -- `normalize_symbols`
  unfoldable pub normalize_symbols : List String → List String
  unfolding normalize_onto
  normalize_symbols raws = normalize_onto [] raws

  -- The sides that a payload asks for; an empty text and an empty list count as none.
  abbrev pub side_of : String → List String
  side_of s =
      if is_filled s
      then (if str_eq (ops.upper s) "BOTH" then both_sides else ops.upper s ∷ [])
      else map ops.upper both_sides

  unfoldable pub sides_of : Option Sides → List String
  sides_of none = map ops.upper both_sides
  sides_of (some (one_side s)) = side_of s
  sides_of (some (listed ss)) = map ops.upper (list_or ss both_sides)

-- A step that needs what was read before.
infixl 5 ◌>>=◌
abbrev pub ◌>>=◌ : {A B : Type 0} → Option A → (A → Option B) → Option B
none >>= f = none
some a >>= f = f a

-- `value.astimezone(UTC) if value.tzinfo else value.replace(tzinfo=UTC)`
abbrev pub in_utc : Moment → Moment
in_utc (aware t) = aware t
in_utc (naive t) = aware t

abbrev pub in_utc? : Option Moment → Option Moment
in_utc? none = none
in_utc? (some m) = some (in_utc m)

-- `_parse_datetime` of a text, from what `fromisoformat` reads
abbrev pub parsed : Option Moment → Option (Option Moment)
parsed none = none
parsed (some m) = some (some (in_utc m))

module _ (ops : TextOps) where
  -- A text is read; a datetime is taken as it is.
  unfoldable pub read_date : Option Date → Option (Option Moment)
  read_date none = some none
  read_date (some (given m)) = some (some m)
  read_date (some (written s)) = parsed (ops.fromisoformat s)

  abbrev pub write_date : Option Moment → Option Date
  write_date none = none
  write_date (some m) = some (written (ops.isoformat m))

-- The purpose and the type of a replay, which set each other.
unfoldable pub purpose_asked : Option String → Option String → String
purpose_asked replay_purpose purpose =
    filled_or (text_or replay_purpose purpose) "portfolio_execution"

unfoldable pub simulation_type_of : Option String → String → String
simulation_type_of asked purpose = filled_or asked (
    if str_eq purpose counterfactual_purpose
    then "model_training_counterfactual"
    else "candidate_market_replay")

unfoldable pub purpose_of : String → String → String
purpose_of simulation_type purpose =
    if str_eq simulation_type "model_training_counterfactual"
    then counterfactual_purpose
    else purpose

module _ {F : Type 0} (fl : Floats F) (ops : TextOps) where
  abbrev pub config_of :
      Payload F → Option Moment → Option Moment → String → String → Settings Moment F
  config_of p start end purpose simulation_type =
      let counterfactual = str_eq purpose counterfactual_purpose in
      record {
        replay_purpose = purpose;
        simulation_type = simulation_type;
        symbols = normalize_symbols ops p.symbols;
        intervals = list_or p.intervals ("1min" ∷ []);
        start = start;
        end = end;
        session = filled_or p.session "rth";
        candidate_setup_types = p.candidate_setup_types;
        sides = sides_of ops p.sides;
        max_hold_minutes = int_or p.max_hold_minutes (pos 60);
        entry_mode = filled_or p.entry_mode "next_bar_open";
        stop_mode = filled_or p.stop_mode "candidate_context";
        target_mode = filled_or p.target_mode "candidate_targets";
        target_1_r = float_or fl p.target_1_r (fl.number 1 1);
        target_2_r = float_or fl p.target_2_r (fl.number 3 2);
        target_3_r = float_or fl p.target_3_r (fl.number 5 2);
        partial_exit_mode = filled_or p.partial_exit_mode "none";
        same_bar_stop_target_policy =
            filled_or p.same_bar_stop_target_policy "conservative_stop_first";
        intrabar_path_policy = filled_or p.intrabar_path_policy "conservative";
        slippage_bps = float_or fl p.slippage_bps (zero_float fl);
        spread_bps = float_or fl p.spread_bps (zero_float fl);
        commission_per_share = float_or fl p.commission_per_share (zero_float fl);
        minimum_reward_risk = float_or fl p.minimum_reward_risk (fl.number 1 1);
        minimum_confidence = p.minimum_confidence;
        allow_overlapping_trades = bool_or p.allow_overlapping_trades counterfactual;
        enforce_portfolio_constraints =
            bool_or p.enforce_portfolio_constraints (not counterfactual);
        enforce_symbol_overlap = bool_or p.enforce_symbol_overlap (not counterfactual);
        max_open_trades_per_symbol = int_or p.max_open_trades_per_symbol (pos 1);
        max_open_trades_portfolio = int_or p.max_open_trades_portfolio (pos 10);
        cooldown_bars_after_loss = int_or p.cooldown_bars_after_loss (pos 0);
        cooldown_bars_after_trade = int_or p.cooldown_bars_after_trade (pos 0);
        one_trade_per_setup_per_symbol_until_exit =
            bool_or p.one_trade_per_setup_per_symbol_until_exit true;
        no_trade_on_insufficient_context = bool_or p.no_trade_on_insufficient_context true;
        market_regime_filter = p.market_regime_filter;
        time_bucket_filter = p.time_bucket_filter;
        close_at_session_end = bool_or p.close_at_session_end true;
        feature_warmup_bars = int_or p.feature_warmup_bars (pos 1);
        allow_stale = bool_or p.allow_stale false;
        counterfactual_include_invalid_candidates =
            bool_or p.counterfactual_include_invalid_candidates false;
        counterfactual_result_label =
            filled_or p.counterfactual_result_label "candidate_quality_evidence";
      }

  abbrev pub config_asked :
      Payload F → Option Moment → Option Moment → String → String → Settings Moment F
  config_asked p start end purpose simulation_type =
      config_of p start end (purpose_of simulation_type purpose) simulation_type

  abbrev pub config_between : Payload F → Option Moment → Option Moment → Settings Moment F
  config_between p start end =
      let purpose = purpose_asked p.replay_purpose p.purpose in
      config_asked p start end purpose (simulation_type_of p.simulation_type purpose)

  -- `from_payload`; it raises, which is `none`, where a text of a bound is refused.
  unfoldable pub from_payload : Payload F → Option (Settings Moment F)
  unfolding read_date
  from_payload p = do
    start ← read_date ops p.start
    end ← read_date ops p.end
    some (config_between p start end)

module _ {F : Type 0} (ops : TextOps) where
  -- `to_dict`
  unfoldable pub to_payload : Settings Moment F → Payload F
  to_payload cfg = record {
    replay_purpose = some cfg.replay_purpose;
    purpose = none;
    simulation_type = some cfg.simulation_type;
    symbols = cfg.symbols;
    intervals = cfg.intervals;
    start = write_date ops cfg.start;
    end = write_date ops cfg.end;
    session = some cfg.session;
    candidate_setup_types = cfg.candidate_setup_types;
    sides = some (listed cfg.sides);
    max_hold_minutes = some cfg.max_hold_minutes;
    entry_mode = some cfg.entry_mode;
    stop_mode = some cfg.stop_mode;
    target_mode = some cfg.target_mode;
    target_1_r = some cfg.target_1_r;
    target_2_r = some cfg.target_2_r;
    target_3_r = some cfg.target_3_r;
    partial_exit_mode = some cfg.partial_exit_mode;
    same_bar_stop_target_policy = some cfg.same_bar_stop_target_policy;
    intrabar_path_policy = some cfg.intrabar_path_policy;
    slippage_bps = some cfg.slippage_bps;
    spread_bps = some cfg.spread_bps;
    commission_per_share = some cfg.commission_per_share;
    minimum_reward_risk = some cfg.minimum_reward_risk;
    minimum_confidence = cfg.minimum_confidence;
    allow_overlapping_trades = some cfg.allow_overlapping_trades;
    enforce_portfolio_constraints = some cfg.enforce_portfolio_constraints;
    enforce_symbol_overlap = some cfg.enforce_symbol_overlap;
    max_open_trades_per_symbol = some cfg.max_open_trades_per_symbol;
    max_open_trades_portfolio = some cfg.max_open_trades_portfolio;
    cooldown_bars_after_loss = some cfg.cooldown_bars_after_loss;
    cooldown_bars_after_trade = some cfg.cooldown_bars_after_trade;
    one_trade_per_setup_per_symbol_until_exit = some cfg.one_trade_per_setup_per_symbol_until_exit;
    no_trade_on_insufficient_context = some cfg.no_trade_on_insufficient_context;
    market_regime_filter = cfg.market_regime_filter;
    time_bucket_filter = cfg.time_bucket_filter;
    close_at_session_end = some cfg.close_at_session_end;
    feature_warmup_bars = some cfg.feature_warmup_bars;
    allow_stale = some cfg.allow_stale;
    counterfactual_include_invalid_candidates = some cfg.counterfactual_include_invalid_candidates;
    counterfactual_result_label = some cfg.counterfactual_result_label;
  }
