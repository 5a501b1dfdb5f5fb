-- ===== src/Backtest/Model.antt =====
-- The labels, trades and summary of services/quant-engine/app/backtesting/engine.py. A time is a number of
-- microseconds since `datetime.min`, and a duration a number of minutes.
use simple_scanner.Common.{
  ℕ, ◌+◌, ◌-◌, ◌*◌, ◌/◌, ◌%◌, String, Bool, Option, List, ltb, ◌==◌, if◌then◌else◌,
}
use simple_scanner.Windowing.{Result, ok, err, value_error, days}
use simple_scanner.Labels.{Side, Outcome}

-- An attribute that a label may lack is `none`.
pub record Label (F : Type 0) : Type 0 where
  pub symbol : String
  pub interval : Option String
  pub timestamp : ℕ
  pub side : Side
  pub entry_price : F
  pub stop_price : F
  pub target_1 : F
  pub target_2 : F
  pub target_3 : F
  pub max_favorable_excursion : F
  pub max_adverse_excursion : F
  pub time_to_target : Option ℕ
  pub time_to_stop : Option ℕ
  pub exit_timestamp_utc : Option ℕ
  pub realized_r : F
  pub outcome : Outcome
  pub setup_type : String
  pub market_regime : String
  pub time_bucket : Option String

pub record SimulatedTrade (F : Type 0) : Type 0 where
  pub trade_id : String
  pub symbol : String
  pub interval : String
  pub side : Side
  pub setup_type : String
  pub entry_timestamp_utc : ℕ
  pub exit_timestamp_utc : ℕ
  pub entry_price : F
  pub exit_price : F
  pub stop_price : F
  pub target_1 : F
  pub target_2 : F
  pub target_3 : F
  pub realized_r : F
  pub max_favorable_excursion : F
  pub max_adverse_excursion : F
  pub outcome : Outcome
  pub market_regime : String
  pub time_bucket : String
  pub exit_reason : String
  pub duration_bars : ℕ

pub record Summary (F : Type 0) : Type 0 where
  pub total_trades : ℕ
  pub long_trades : ℕ
  pub short_trades : ℕ
  pub win_rate : F
  pub precision_long : F
  pub precision_short : F
  pub average_r : F
  pub median_r : F
  pub profit_factor : F
  pub gross_r : F
  pub max_drawdown_r : F
  pub average_mfe : F
  pub average_mae : F
  pub target_1_hit_rate : F
  pub target_2_hit_rate : F
  pub target_3_hit_rate : F
  pub stop_hit_rate : F
  pub average_time_in_trade : F
  pub no_trade_suppression_rate : F
  pub equity_curve_r : List F

-- The calendar of `datetime`, in years that start in March: the day of the year, from 0 on, is 365 on
-- 29 February only.
abbrev day_number : ℕ → ℕ
day_number t = t / 86_400_000_000 + 306

abbrev day_of_era : ℕ → ℕ
day_of_era t = day_number t % 146_097

abbrev year_of_era : ℕ → ℕ
year_of_era t = let d = day_of_era t in (d - d / 1_460 + d / 36_524 - d / 146_096) / 365

abbrev days_before : ℕ → ℕ
days_before y = 365 * y + y / 4 - y / 100 + y / 400

unfoldable pub day_of_year : ℕ → ℕ
day_of_year t = day_of_era t - days_before (year_of_era t)

abbrev pub is_leap_day : ℕ → Bool
is_leap_day t = day_of_year t == 365

-- `t.replace(year=1900)`, which raises `ValueError` on 29 February, as 1900 has none.
unfoldable pub in_1900 : ℕ → ℕ
in_1900 t =
    let y = if ltb (day_of_year t) 306 then 1900 else 1899 in
    days (days_before y + day_of_year t - 306) + t % 86_400_000_000

abbrev pub replace_1900 : ℕ → Result ℕ
replace_1900 t = if is_leap_day t then err value_error else ok (in_1900 t)
