-- ===== src/Replay/Prices.antt =====
-- The prices of a trade: `_entry_price`, `_time_exit_price`, `_stop_price`, `_targets` and `_reward_risk` of
-- services/quant-engine/app/backtesting/replay.py.
use simple_scanner.Common.{
  ◌-◌, String, Bool, false, not, ◌||◌, Option, none, some, List, [], ◌∷◌, leb, if◌then◌else◌,
  length, drop, str_eq, keep_if,
}
use simple_scanner.Common.Floats.{
  Floats, filled_float, float_or, max_float, greatest?, least?, greatest_of, least_of,
}
use simple_scanner.Replay.Model.{
  ReplayConfig, Bar, Candidate, Feature, Env, is_long, interval_minutes,
}

module _ {F : Type 0} where
  abbrev pub present : List (Option F) → List F
  present [] = []
  present (none ∷ os) = present os
  present (some v ∷ os) = v ∷ present os

  -- `bars[-10:]`
  abbrev pub last_ten : List (Bar F) → List (Bar F)
  last_ten bars = drop (length bars - 10) bars

  abbrev pub lows : List (Bar F) → List F
  lows [] = []
  lows (b ∷ bs) = b.low ∷ lows bs

  abbrev pub highs : List (Bar F) → List F
  highs [] = []
  highs (b ∷ bs) = b.high ∷ highs bs

  abbrev pub feature_atr : Option (Feature F) → Option F
  feature_atr none = none
  feature_atr (some f) = f.atr_14

  abbrev pub feature_proxy : Option (Feature F) → Option F
  feature_proxy none = none
  feature_proxy (some f) = f.atr_14_proxy

-- The prices of a trade, its risk and its targets.
pub record Plan (F : Type 0) : Type 0 where
  pub side : String
  pub entry : F
  pub stop_price : F
  pub risk : F
  pub target_1 : F
  pub target_2 : F
  pub target_3 : F

module _ {F : Type 0} (fl : Floats F) where
  abbrev pub one_way_cost : ReplayConfig F → F
  one_way_cost cfg =
      fl.div (fl.add cfg.slippage_bps (fl.div cfg.spread_bps (fl.number 2 1))) (fl.number 10_000 1)

  unfoldable pub entry_price : F → String → ReplayConfig F → F
  entry_price raw_open side cfg =
      if is_long side
      then fl.mul raw_open (fl.add (fl.number 1 1) (one_way_cost cfg))
      else fl.mul raw_open (fl.sub (fl.number 1 1) (one_way_cost cfg))

  unfoldable pub time_exit_price : F → String → ReplayConfig F → F
  time_exit_price raw_close side cfg =
      if is_long side
      then fl.mul raw_close (fl.sub (fl.number 1 1) (one_way_cost cfg))
      else fl.mul raw_close (fl.add (fl.number 1 1) (one_way_cost cfg))

  abbrev pub trade_atr : Candidate F → Option (Feature F) → F → F
  trade_atr c f entry =
      max_float fl
        (float_or fl (filled_float fl (feature_atr f) (filled_float fl (feature_proxy f) c.atr_14))
          (fl.mul entry (fl.number 2 1000)))
        (fl.mul entry (fl.number 1 1000))

  -- The levels that a stop may stand at; `past` are the bars up to the entry's.
  abbrev pub long_levels : Candidate F → F → F → List (Bar F) → List (Option F)
  long_levels c atr entry past =
      c.opening_range_low
      ∷ c.premarket_low
      ∷ c.previous_day_low
      ∷ c.vwap
      ∷ some (fl.sub entry atr)
      ∷ least? fl (lows (last_ten past))
      ∷ []

  abbrev pub short_levels : Candidate F → F → F → List (Bar F) → List (Option F)
  short_levels c atr entry past =
      c.opening_range_high
      ∷ c.premarket_high
      ∷ c.previous_day_high
      ∷ c.vwap
      ∷ some (fl.add entry atr)
      ∷ greatest? fl (highs (last_ten past))
      ∷ []

  abbrev pub context_stop : Candidate F → Option (Feature F) → List (Bar F) → F → String → Option F
  context_stop c f past entry side =
      if is_long side
      then greatest? fl (
          keep_if (λ v. fl.less v entry) (present (long_levels c (trade_atr c f entry) entry past)))
      else least? fl (
          keep_if (λ v. fl.less entry v)
            (present (short_levels c (trade_atr c f entry) entry past)))

  abbrev pub fixed_stop : F → String → F
  fixed_stop entry side =
      if is_long side
      then fl.sub entry (fl.mul entry (fl.number 5 1000))
      else fl.add entry (fl.mul entry (fl.number 5 1000))

  unfoldable pub stop_of :
      Candidate F → Option (Feature F) → List (Bar F) → F → String → ReplayConfig F → Option F
  unfolding greatest_of least_of
  stop_of c f past entry side cfg = elim c.stop_price [
    | some explicit ↦ some explicit
    | none ↦
        if str_eq cfg.stop_mode "fixed_risk"
        then some (fixed_stop entry side)
        else context_stop c f past entry side
  ]

  abbrev pub risk_of : String → F → F → F
  risk_of side entry stop = if is_long side then fl.sub entry stop else fl.sub stop entry

  abbrev pub target_at : String → F → F → F → F
  target_at side entry risk multiple =
      if is_long side
      then fl.add entry (fl.mul risk multiple)
      else fl.sub entry (fl.mul risk multiple)

  -- The three targets of the candidate, where all are given and asked for.
  abbrev pub explicit_targets : Candidate F → ReplayConfig F → Option (F × F × F)
  explicit_targets c cfg =
      if str_eq cfg.target_mode "candidate_targets"
      then elim c.target_1 [
        | none ↦ none
        | some one ↦ elim c.target_2 [
          | none ↦ none
          | some two ↦ elim c.target_3 [ none ↦ none | some three ↦ some (one, two, three) ]
        ]
      ]
      else none

  unfoldable pub targets : Candidate F → F → F → String → ReplayConfig F → F × F × F
  targets c entry risk side cfg = elim (explicit_targets c cfg) [
    | some explicit ↦ explicit
    | none ↦ (
      target_at side entry risk cfg.target_1_r,
      target_at side entry risk cfg.target_2_r,
      target_at side entry risk cfg.target_3_r,
    )
  ]

  unfoldable pub reward_risk : F → F → F → String → F
  reward_risk entry target risk side =
      if is_long side then fl.div (fl.sub target entry) risk else fl.div (fl.sub entry target) risk

  abbrev pub plan_of : Candidate F → ReplayConfig F → F → F → Plan F
  plan_of c cfg entry stop =
      let risk = risk_of c.side entry stop in
      let (one, two, three) = targets c entry risk c.side cfg in
      record {
        side = c.side;
        entry = entry;
        stop_price = stop;
        risk = risk;
        target_1 = one;
        target_2 = two;
        target_3 = three;
      }

module _ {F : Type 0} where
  -- `_session_exit`
  unfoldable pub session_exit : Env F → Bar F → ReplayConfig F → Bool
  session_exit env b cfg =
      if not cfg.close_at_session_end || not (str_eq cfg.session "rth")
      then false
      else leb (960 - interval_minutes b.interval) (env.minute_of_day_et b.timestamp_et)
