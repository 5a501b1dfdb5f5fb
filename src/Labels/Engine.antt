-- ===== src/Labels/Engine.antt =====
-- LabelingEngine of services/quant-engine/app/labels/engine.py. The bars of a group are in the order of
-- their times, and times with the holding time added stay in the range of `datetime`.
-- The recent swing has one bar at least; with none, `min()` raises in the code.
use simple_scanner.Common.{
  ℕ, suc, ◌+◌, ◌-◌, ◌*◌, Bool, true, false, ◌&&◌, ◌||◌, Option, none, some, List, [], ◌∷◌, leb,
  ◌==◌, if◌then◌else◌, or_else, drop, take, keep_if,
}
use simple_scanner.Labels.Market.{
  PriceOps, max_of, min_of, Side, long, short, Outcome, win, loss, neutral, Policy,
  conservative_stop_first, Bar, LabelSettings, Candidate, Feature, Exit, LabelRow,
}

abbrev pub is_conservative : Policy → Bool
is_conservative conservative_stop_first = true
is_conservative p = false

-- The prices of a trade: `entry`, `stop`, the risk and the three targets.
pub record Plan (F : Type 0) : Type 0 where
  pub side : Side
  pub entry : F
  pub stop : F
  pub risk : F
  pub target_1 : F
  pub target_2 : F
  pub target_3 : F

-- The running values of the loop.
pub record Track (F : Type 0) : Type 0 where
  pub mfe : F
  pub mae : F
  pub hit_1 : Bool
  pub hit_2 : Bool
  pub hit_3 : Bool

module _ {F : Type 0} where
  -- `_future_window`
  abbrev pub in_hold : ℕ → ℕ → Bar F → Bool
  in_hold start stop b = leb start b.timestamp_utc && leb b.timestamp_utc stop

  unfoldable pub future_window : ℕ → List (Bar F) → Bar F → List (Bar F)
  future_window max_hold_minutes rest entry_bar =
      keep_if
        (in_hold entry_bar.timestamp_utc (entry_bar.timestamp_utc + 60_000_000 * max_hold_minutes))
        rest

  -- `index_by_timestamp.get(timestamp)`: of bars with one time, the last counts.
  unfoldable pub index_of : ℕ → List (Bar F) → Option ℕ
  index_of t [] = none
  index_of t (b ∷ bs) = elim (index_of t bs) [
    | some i ↦ some (suc i)
    | none ↦ if b.timestamp_utc == t then some 0 else none
  ]

  abbrev pub last_bar : Bar F → List (Bar F) → Bar F
  last_bar b [] = b
  last_bar b (c ∷ cs) = last_bar c cs

  abbrev pub present : List (Option F) → List F
  present [] = []
  present (none ∷ os) = present os
  present (some v ∷ os) = v ∷ present os

module _ {F : Type 0} (ops : PriceOps F) where
  -- `_entry_price`
  unfoldable pub entry_price : LabelSettings F → F → Side → F
  entry_price s raw_open side =
      let cost =
        ops.div (ops.add s.slippage_bps (ops.div s.spread_bps ops.two_price)) ops.ten_thousand in
      elim side [
        | long ↦ ops.mul raw_open (ops.add ops.one_price cost)
        | short ↦ ops.mul raw_open (ops.sub ops.one_price cost)
      ]

  unfoldable pub least : F → List F → F
  least v [] = v
  least v (w ∷ ws) = least (min_of ops v w) ws

  unfoldable pub greatest : F → List F → F
  greatest v [] = v
  greatest v (w ∷ ws) = greatest (max_of ops v w) ws

  abbrev pub greatest_or : F → List F → F
  greatest_or d [] = d
  greatest_or d (v ∷ vs) = greatest v vs

  abbrev pub least_or : F → List F → F
  least_or d [] = d
  least_or d (v ∷ vs) = least v vs

  abbrev pub lows : List (Bar F) → List F
  lows [] = []
  lows (b ∷ bs) = b.low ∷ lows bs

  abbrev pub highs : List (Bar F) → List F
  highs [] = []
  highs (b ∷ bs) = b.high ∷ highs bs

  -- `value or other` of an optional number
  abbrev pub is_zero : F → Bool
  is_zero v = ops.at_most v ops.zero_price && ops.at_most ops.zero_price v

  abbrev pub number_or : Option F → F → F
  number_or none d = d
  number_or (some v) d = if is_zero v then d else v

  -- `_stop_price`; `past` are the bars of the recent swing, the candidate's among them.
  unfoldable pub stop_price : LabelSettings F → List (Bar F) → Feature F → F → Side → F
  unfolding least greatest
  stop_price s past f entry side =
      let atr =
        max_of ops
          (number_or f.atr_14 (number_or f.atr_14_proxy (ops.mul entry ops.two_thousandths)))
          (ops.mul entry ops.one_thousandth) in
      elim side [
        | long ↦ greatest_or (ops.sub entry atr) (
            keep_if (λ v. ops.less v entry)
              (least_or entry (lows past)
                ∷ present (
                    f.vwap
                    ∷ f.opening_range_low
                    ∷ some (ops.sub entry (ops.mul atr s.atr_stop_multiplier))
                    ∷ [])))
        | short ↦ least_or (ops.add entry atr) (
            keep_if (λ v. ops.less entry v)
              (greatest_or entry (highs past)
                ∷ present (
                    f.vwap
                    ∷ f.opening_range_high
                    ∷ some (ops.add entry (ops.mul atr s.atr_stop_multiplier))
                    ∷ [])))
      ]

  -- `_targets`, with the risk
  abbrev pub risk_of : Side → F → F → F
  risk_of long entry stop = ops.sub entry stop
  risk_of short entry stop = ops.sub stop entry

  abbrev pub target_at : Side → F → F → F → F
  target_at long entry risk multiple = ops.add entry (ops.mul risk multiple)
  target_at short entry risk multiple = ops.sub entry (ops.mul risk multiple)

  unfoldable pub plan_of : LabelSettings F → Side → F → F → Plan F
  plan_of s side entry stop =
      let risk = risk_of side entry stop in
      record {
        side = side;
        entry = entry;
        stop = stop;
        risk = risk;
        target_1 = target_at side entry risk ops.one_price;
        target_2 = target_at side entry risk s.target_r;
        target_3 = target_at side entry risk ops.two_and_half;
      }

  -- Whether a bar touches the stop, and a target.
  abbrev pub stop_hit_now : Plan F → Bar F → Bool
  stop_hit_now p b = elim p.side [
    | long ↦ ops.at_most b.low p.stop
    | short ↦ ops.at_most p.stop b.high
  ]

  abbrev pub target_hit_now : Plan F → F → Bar F → Bool
  target_hit_now p target b = elim p.side [
    | long ↦ ops.at_most target b.high
    | short ↦ ops.at_most b.low target
  ]

  abbrev pub gain_r : Plan F → F → F
  gain_r p price = elim p.side [
    | long ↦ ops.div (ops.sub price p.entry) p.risk
    | short ↦ ops.div (ops.sub p.entry price) p.risk
  ]

  abbrev pub best_price : Plan F → Bar F → F
  best_price p b = elim p.side [ long ↦ b.high | short ↦ b.low ]

  abbrev pub worst_price : Plan F → Bar F → F
  worst_price p b = elim p.side [ long ↦ b.low | short ↦ b.high ]

  abbrev pub tracked : Plan F → Track F → Bar F → Track F
  tracked p t b = record {
    mfe = max_of ops t.mfe (gain_r p (best_price p b));
    mae = min_of ops t.mae (gain_r p (worst_price p b));
    hit_1 = t.hit_1 || target_hit_now p p.target_1 b;
    hit_2 = t.hit_2 || target_hit_now p p.target_2 b;
    hit_3 = t.hit_3 || target_hit_now p p.target_3 b;
  }

  abbrev pub exit_with : Track F → Bool → Option ℕ → Option ℕ → F → Outcome → ℕ → Exit F
  exit_with t stopped to_target to_stop r outcome at_time = record {
    max_favorable_excursion = t.mfe;
    max_adverse_excursion = t.mae;
    hit_target_1 = t.hit_1;
    hit_target_2 = t.hit_2;
    hit_target_3 = t.hit_3;
    hit_stop = stopped;
    time_to_target = to_target;
    time_to_stop = to_stop;
    realized_r = r;
    outcome = outcome;
    exit_timestamp_utc = at_time;
  }

  -- The loop over the future bars; `last` is `future[-1]`.
  unfoldable pub walk : LabelSettings F → Plan F → Bar F → Track F → ℕ → List (Bar F) → Exit F
  walk s p last t offset [] =
      exit_with t false none none (gain_r p last.close) neutral last.timestamp_utc
  walk s p last t offset (b ∷ bs) =
      let t' = tracked p t b in
      let later = walk s p last t' (offset + 1) bs in
      let lost = exit_with t' true none (some offset) ops.minus_one loss b.timestamp_utc in
      if stop_hit_now p b
        && (target_hit_now p p.target_2 b || is_conservative s.same_bar_stop_target_policy)
      then lost
      else if target_hit_now p p.target_2 b
      then exit_with t' false (some offset) none s.target_r win b.timestamp_utc
      else if stop_hit_now p b
      then lost
      else later

  abbrev pub first_track : Track F
  first_track = record {
    mfe = ops.zero_price;
    mae = ops.zero_price;
    hit_1 = false;
    hit_2 = false;
    hit_3 = false;
  }

  abbrev pub label_row : Candidate → ℕ → Feature F → Plan F → Exit F → LabelRow F
  label_row c at_time f p e = record {
    symbol = c.symbol;
    interval = c.interval;
    timestamp_utc = at_time;
    side = c.side;
    setup_type = c.setup_type;
    entry_price = p.entry;
    stop_price = p.stop;
    target_1 = p.target_1;
    target_2 = p.target_2;
    target_3 = p.target_3;
    found = e;
    market_regime = or_else f.market_regime "mixed_uncertain";
  }

  abbrev pub label_planned :
      LabelSettings F → Candidate → ℕ → Feature F → Plan F → List (Bar F) → Option (LabelRow F)
  label_planned s c at_time f p [] = none
  label_planned s c at_time f p (b ∷ bs) =
      if ops.at_most p.risk ops.zero_price
      then none
      else some (label_row c at_time f p (walk s p (last_bar b bs) first_track 1 (b ∷ bs)))

  -- The bars of the recent swing up to the candidate's.
  abbrev pub recent_bars : ℕ → ℕ → List (Bar F) → List (Bar F)
  recent_bars lookback index bars =
      let from = suc index - lookback in take (suc index - from) (drop from bars)

  abbrev pub label_from :
      LabelSettings F
      → List (Bar F)
      → ℕ
      → ℕ
      → Feature F
      → Candidate
      → List (Bar F)
      → Option (LabelRow F)
  label_from s bars index at_time f c [] = none
  label_from s bars index at_time f c (entry_bar ∷ rest) =
      let entry = entry_price s entry_bar.open_price c.side in
      label_planned s c at_time f
        (plan_of s c.side entry
          (stop_price s (recent_bars s.recent_swing_lookback index bars) f entry c.side))
        (future_window s.max_hold_minutes (entry_bar ∷ rest) entry_bar)

  -- `_label_candidate`; `at_time` is the time of the candidate's bar, that of its feature.
  unfoldable pub label_candidate :
      LabelSettings F → List (Bar F) → ℕ → ℕ → Feature F → Candidate → Option (LabelRow F)
  unfolding walk plan_of stop_price entry_price future_window
  label_candidate s bars index at_time f c =
      label_from s bars index at_time f c (drop (suc index) bars)
