-- ===== src/Labels/Market.antt =====
-- The bars, candidates, settings and labels of services/quant-engine/app/labels/engine.py. `F` stands for
-- `float`, and a time is a number of microseconds.
use simple_scanner.Common.{ℕ, String, Bool, Option, if◌then◌else◌}

-- What the code does with a `float`, and the constants that it writes.
pub record PriceOps (F : Type 0) : Type 0 where
  pub add : F → F → F
  pub sub : F → F → F
  pub mul : F → F → F
  pub div : F → F → F
  pub less : F → F → Bool
  pub at_most : F → F → Bool
  pub zero_price : F
  pub one_price : F
  pub minus_one : F
  pub two_price : F
  pub two_and_half : F
  pub ten_thousand : F
  pub one_thousandth : F
  pub two_thousandths : F

module _ {F : Type 0} (ops : PriceOps F) where
  -- `max(a, b)` and `min(a, b)`
  abbrev pub max_of : F → F → F
  max_of a b = if ops.less a b then b else a

  abbrev pub min_of : F → F → F
  min_of a b = if ops.less b a then b else a

pub data Side : Type 0 where
  long short : Side

pub data Outcome : Type 0 where
  win loss neutral : Outcome

pub data Policy : Type 0 where
  conservative_stop_first other_policy : Policy

pub record Bar (F : Type 0) : Type 0 where
  pub timestamp_utc : ℕ
  pub open_price : F
  pub high : F
  pub low : F
  pub close : F

pub record LabelSettings (F : Type 0) : Type 0 where
  pub max_hold_minutes : ℕ
  pub target_r : F
  pub atr_stop_multiplier : F
  pub slippage_bps : F
  pub spread_bps : F
  pub same_bar_stop_target_policy : Policy
  pub allow_overlapping_trades : Bool
  pub minimum_bars_before_label : ℕ
  pub recent_swing_lookback : ℕ

pub record Candidate : Type 0 where
  pub symbol : String
  pub interval : String
  pub side : Side
  pub setup_type : String

-- A row of features, its keys that the engine reads.
pub record Feature (F : Type 0) : Type 0 where
  pub timestamp : ℕ
  pub atr_14 : Option F
  pub atr_14_proxy : Option F
  pub vwap : Option F
  pub opening_range_low : Option F
  pub opening_range_high : Option F
  pub market_regime : Option String

-- What the loop over the future bars finds.
pub record Exit (F : Type 0) : Type 0 where
  pub max_favorable_excursion : F
  pub max_adverse_excursion : F
  pub hit_target_1 : Bool
  pub hit_target_2 : Bool
  pub hit_target_3 : Bool
  pub hit_stop : Bool
  pub time_to_target : Option ℕ
  pub time_to_stop : Option ℕ
  pub realized_r : F
  pub outcome : Outcome
  pub exit_timestamp_utc : ℕ

-- The version and the warning codes of a label, which are only carried, are left out.
pub record LabelRow (F : Type 0) : Type 0 where
  pub symbol : String
  pub interval : String
  pub timestamp_utc : ℕ
  pub side : Side
  pub setup_type : String
  pub entry_price : F
  pub stop_price : F
  pub target_1 : F
  pub target_2 : F
  pub target_3 : F
  pub found : Exit F
  pub market_regime : String
