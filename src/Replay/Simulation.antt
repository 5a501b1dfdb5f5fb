-- ===== src/Replay/Simulation.antt =====
-- `_simulate_candidate` and `_skip` of services/quant-engine/app/backtesting/replay.py: one trade over the
-- bars of its symbol and interval, which are in the order of their times.
use simple_scanner.Common.{
  ℕ, suc, ◌+◌, ◌-◌, String, Bool, true, false, ◌&&◌, Option, none, some, List, [], ◌∷◌, ltb, ◌==◌,
  if◌then◌else◌, length, take, drop, keep_if, str_eq,
}
use simple_scanner.Common.Texts.{is_within}
use simple_scanner.Common.Int.{ℤ, pos, leb_ℤ}
use simple_scanner.Common.Floats.{Floats, zero_float, is_zero, max_float, min_float, filled_float}
use simple_scanner.Replay.Model.{
  SkipReason, ExitReason, TradeStatus, ReplayConfig, Bar, Candidate, Feature, Env, SimulatedTrade,
  BaseMetadata, is_long, interval_of, candidate_id_of, plus_minutes, filled_or,
}
use simple_scanner.Replay.Prices.{
  Plan, entry_price, time_exit_price, stop_of, plan_of, reward_risk, session_exit,
}

-- What the loop over the future bars finds.
pub record Exit (F : Type 0) : Type 0 where
  pub mfe : F
  pub mae : F
  pub exit_bar : Bar F
  pub exit_price : F
  pub exit_reason : ExitReason
  pub same_bar_ambiguous : Bool
  pub bars_held : ℕ

abbrev pub insufficient_flags : List String → ℕ
insufficient_flags flags = length (keep_if (is_within "insufficient") flags)

abbrev pub when {ℓ} : {A : Type ℓ} → Bool → A → Option A
when true a = some a
when false a = none

module _ {F : Type 0} where
  abbrev pub stop_first : ReplayConfig F → Bool
  stop_first cfg = str_eq cfg.same_bar_stop_target_policy "conservative_stop_first"

  abbrev pub lacks_context : ReplayConfig F → Option (Feature F) → Bool
  lacks_context cfg none = false
  lacks_context cfg (some f) =
      cfg.no_trade_on_insufficient_context && ltb 3 (insufficient_flags f.data_quality_flags)

  -- The index of the first bar at a time.
  unfoldable pub index_at : ℕ → List (Bar F) → Option ℕ
  index_at t [] = none
  index_at t (b ∷ bs) =
      let later = index_at t bs in
      if b.timestamp_utc == t then some 0 else elim later [ none ↦ none | some i ↦ some (suc i) ]

  -- The last instant of a trade that enters at a time.
  abbrev pub deadline : ReplayConfig F → ℕ → ℤ
  deadline cfg entry_time = plus_minutes entry_time cfg.max_hold_minutes

  abbrev pub future_bars : ReplayConfig F → ℕ → List (Bar F) → List (Bar F)
  future_bars cfg entry_time rest =
      keep_if (λ b. leb_ℤ (pos b.timestamp_utc) (deadline cfg entry_time)) rest

  abbrev pub last_bar : Bar F → List (Bar F) → Bar F
  last_bar b [] = b
  last_bar b (c ∷ cs) = last_bar c cs

module _ {F : Type 0} (fl : Floats F) (env : Env F) where
  -- Whether a bar touches the stop and the second target.
  abbrev pub stop_hit : Plan F → Bar F → Bool
  stop_hit p b =
      if is_long p.side then fl.at_most b.low p.stop_price else fl.at_most p.stop_price b.high

  abbrev pub target_hit : Plan F → Bar F → Bool
  target_hit p b =
      if is_long p.side then fl.at_most p.target_2 b.high else fl.at_most b.low p.target_2

  abbrev pub next_mfe : Plan F → F → Bar F → F
  next_mfe p mfe b = max_float fl mfe (
      if is_long p.side
      then fl.div (fl.sub b.high p.entry) p.risk
      else fl.div (fl.sub p.entry b.low) p.risk)

  abbrev pub next_mae : Plan F → F → Bar F → F
  next_mae p mae b = min_float fl mae (
      if is_long p.side
      then fl.div (fl.sub b.low p.entry) p.risk
      else fl.div (fl.sub p.entry b.high) p.risk)

  abbrev pub exit_at : F → F → Bar F → F → ExitReason → Bool → ℕ → Exit F
  exit_at mfe mae b price reason ambiguous held = record {
    mfe = mfe;
    mae = mae;
    exit_bar = b;
    exit_price = price;
    exit_reason = reason;
    same_bar_ambiguous = ambiguous;
    bars_held = held;
  }

  -- The loop over the future bars; `last` is `future[-1]`, and `held` counts the bars before.
  unfoldable pub walk : ReplayConfig F → Plan F → ℤ → Bar F → F → F → ℕ → List (Bar F) → Exit F
  walk cfg p limit last mfe mae held [] =
      exit_at mfe mae last (time_exit_price fl last.close p.side cfg) ExitReason.end_of_data false
        held
  walk cfg p limit last mfe mae held (b ∷ bs) =
      let mfe' = next_mfe p mfe b in
      let mae' = next_mae p mae b in
      let later = walk cfg p limit last mfe' mae' (held + 1) bs in
      let at_close = time_exit_price fl b.close p.side cfg in
      if stop_hit p b && target_hit p b
      then (if stop_first cfg
          then exit_at mfe' mae' b p.stop_price ExitReason.stop true (held + 1)
          else exit_at mfe' mae' b p.target_2 ExitReason.target_2 true (held + 1))
      else if stop_hit p b
      then exit_at mfe' mae' b p.stop_price ExitReason.stop false (held + 1)
      else if target_hit p b
      then exit_at mfe' mae' b p.target_2 ExitReason.target_2 false (held + 1)
      else if session_exit env b cfg
      then exit_at mfe' mae' b at_close ExitReason.session_exit false (held + 1)
      else if leb_ℤ limit (pos b.timestamp_utc)
      then exit_at mfe' mae' b at_close ExitReason.time_exit false (held + 1)
      else later

  abbrev pub commission : ReplayConfig F → F
  commission cfg = fl.mul cfg.commission_per_share (fl.number 2 1)

  abbrev pub realized_r : ReplayConfig F → Plan F → F → F
  realized_r cfg p exit_price =
      let gross =
        if is_long p.side
        then fl.div (fl.sub exit_price p.entry) p.risk
        else fl.div (fl.sub p.entry exit_price) p.risk in
      if is_zero fl (commission cfg) then gross else fl.sub gross (fl.div (commission cfg) p.risk)

  -- `(exit - entry).total_seconds() / 60.0`, at least zero
  abbrev pub minutes_held : ℕ → ℕ → F
  minutes_held from to =
      max_float fl (fl.div (fl.number (to - from) 1_000_000) (fl.number 60 1)) (zero_float fl)

  abbrev pub signal_score_of : Candidate F → Option F
  signal_score_of c = filled_float fl c.confidence_score c.signal_score

  -- `_skip`
  unfoldable pub skip : String → Candidate F → SkipReason → String → String → SimulatedTrade F
  skip run_id c reason regime bucket = record {
    trade_id = env.skip_hash run_id (candidate_id_of env c) c.timestamp;
    replay_run_id = run_id;
    candidate_id = candidate_id_of env c;
    symbol = c.symbol;
    interval = interval_of c;
    side = filled_or (some c.side) "UNKNOWN";
    setup_type = filled_or (some c.setup_type) "unknown";
    signal_timestamp_utc = c.timestamp;
    entry_timestamp_utc = none;
    exit_timestamp_utc = none;
    entry_price = none;
    stop_price = none;
    target_1 = none;
    target_2 = none;
    target_3 = none;
    exit_price = none;
    exit_reason = none;
    realized_r = zero_float fl;
    mfe_r = zero_float fl;
    mae_r = zero_float fl;
    bars_held = 0;
    minutes_held = zero_float fl;
    same_bar_ambiguous = false;
    ambiguity_policy = none;
    slippage_bps = zero_float fl;
    spread_bps = zero_float fl;
    commission = zero_float fl;
    market_regime = regime;
    time_bucket = bucket;
    signal_score = signal_score_of c;
    expected_r = c.expected_r;
    status = TradeStatus.skipped;
    skip_reason = some reason;
    base_metadata = BaseMetadata.of_skip c.reason_codes c.warning_codes;
    metadata = none;
  }

  abbrev pub taken_trade :
      String
      → Candidate F
      → ReplayConfig F
      → String
      → String
      → Plan F
      → ℕ
      → Exit F
      → SimulatedTrade F
  taken_trade run_id c cfg regime bucket p entry_time e = record {
    trade_id = env.trade_hash run_id (candidate_id_of env c) entry_time;
    replay_run_id = run_id;
    candidate_id = candidate_id_of env c;
    symbol = c.symbol;
    interval = interval_of c;
    side = c.side;
    setup_type = c.setup_type;
    signal_timestamp_utc = c.timestamp;
    entry_timestamp_utc = some entry_time;
    exit_timestamp_utc = some e.exit_bar.timestamp_utc;
    entry_price = some p.entry;
    stop_price = some p.stop_price;
    target_1 = some p.target_1;
    target_2 = some p.target_2;
    target_3 = some p.target_3;
    exit_price = some e.exit_price;
    exit_reason = some e.exit_reason;
    realized_r = realized_r cfg p e.exit_price;
    mfe_r = e.mfe;
    mae_r = e.mae;
    bars_held = e.bars_held;
    minutes_held = minutes_held entry_time e.exit_bar.timestamp_utc;
    same_bar_ambiguous = e.same_bar_ambiguous;
    ambiguity_policy = when e.same_bar_ambiguous cfg.same_bar_stop_target_policy;
    slippage_bps = cfg.slippage_bps;
    spread_bps = cfg.spread_bps;
    commission = commission cfg;
    market_regime = regime;
    time_bucket = bucket;
    signal_score = signal_score_of c;
    expected_r = c.expected_r;
    status = TradeStatus.taken;
    skip_reason = none;
    base_metadata =
        BaseMetadata.of_trade cfg.entry_mode cfg.stop_mode cfg.target_mode cfg.intrabar_path_policy
          e.same_bar_ambiguous;
    metadata = none;
  }

  -- With the plan made: the risk and the reward, then the walk over the future bars.
  unfoldable pub planned_trade :
      String
      → Candidate F
      → ReplayConfig F
      → String
      → String
      → ℕ
      → Bar F
      → List (Bar F)
      → Plan F
      → SimulatedTrade F
  unfolding walk skip
  planned_trade run_id c cfg regime bucket entry_time b future p =
      if fl.at_most p.risk (zero_float fl)
      then skip run_id c SkipReason.invalid_risk_plan regime bucket
      else if fl.less (reward_risk fl p.entry p.target_2 p.risk p.side) cfg.minimum_reward_risk
      then skip run_id c SkipReason.insufficient_reward_risk regime bucket
      else taken_trade run_id c cfg regime bucket p entry_time (
          walk cfg p (deadline cfg entry_time) (last_bar b future) (zero_float fl) (zero_float fl) 0
            (b ∷ future))

  -- With the stop looked for.
  abbrev pub stopped_trade :
      String
      → Candidate F
      → ReplayConfig F
      → String
      → String
      → ℕ
      → Bar F
      → List (Bar F)
      → F
      → Option F
      → SimulatedTrade F
  stopped_trade run_id c cfg regime bucket entry_time b future entry none =
      skip run_id c SkipReason.invalid_risk_plan regime bucket
  stopped_trade run_id c cfg regime bucket entry_time b future entry (some s) =
      planned_trade run_id c cfg regime bucket entry_time b future (plan_of fl c cfg entry s)

  -- With the bars of the trade found; `past` are the bars up to the entry's.
  abbrev pub entered_trade :
      String
      → Candidate F
      → Option (Feature F)
      → ReplayConfig F
      → String
      → String
      → Bar F
      → List (Bar F)
      → List (Bar F)
      → SimulatedTrade F
  entered_trade run_id c f cfg regime bucket entry_bar past [] =
      skip run_id c SkipReason.no_future_bars regime bucket
  entered_trade run_id c f cfg regime bucket entry_bar past (b ∷ future) =
      let entry = entry_price fl entry_bar.open_price c.side cfg in
      stopped_trade run_id c cfg regime bucket entry_bar.timestamp_utc b future entry
        (stop_of fl c f past entry c.side cfg)

  abbrev pub trade_from :
      String
      → Candidate F
      → Option (Feature F)
      → ReplayConfig F
      → String
      → String
      → List (Bar F)
      → List (Bar F)
      → SimulatedTrade F
  trade_from run_id c f cfg regime bucket past [] =
      skip run_id c SkipReason.missing_entry_bar regime bucket
  trade_from run_id c f cfg regime bucket past (b ∷ rest) =
      entered_trade run_id c f cfg regime bucket b past (future_bars cfg b.timestamp_utc (b ∷ rest))

  -- `_simulate_candidate`
  unfoldable pub simulate_candidate :
      String
      → Candidate F
      → List (Bar F)
      → Option (Feature F)
      → ReplayConfig F
      → String
      → String
      → SimulatedTrade F
  unfolding planned_trade index_at
  simulate_candidate run_id c bars f cfg regime bucket =
      if lacks_context cfg f
      then skip run_id c SkipReason.insufficient_context regime bucket
      else elim (index_at c.timestamp bars) [
        | none ↦ skip run_id c SkipReason.missing_entry_bar regime bucket
        | some index ↦
            trade_from run_id c f cfg regime bucket (take (index + 2) bars) (drop (index + 1) bars)
      ]
