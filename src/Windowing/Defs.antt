-- ===== src/Windowing/Defs.antt =====
-- The generators of services/quant-engine/app/orchestration/windowing.py. A `while current < end`
-- loop takes fuel, and is given one more unit than the microseconds that are left.
use simple_scanner.Common.{
  ℕ, zero, suc, ◌+◌, ◌-◌, ◌%◌, String, true, false, Option, none, some, List, [], ◌∷◌, ltb, leb,
  if◌then◌else◌, min, max,
}
use simple_scanner.Common.Int.{ℤ, pos, int_or, at_least}
use simple_scanner.Windowing.Clock.{Result, ok, err, out_of_fuel, ◌>>=◌, days, minutes, plus, minus}

-- `window_mode`, once it is in lower case
pub data WindowMode : Type 0 where
  custom daily rolling anchored : WindowMode
  unsupported : String → WindowMode

pub data WindowWarning : Type 0 where
  insufficient_data_window short_replay_window : WindowWarning

pub record ReplayWindow : Type 0 where
  pub window_index : ℤ
  pub window_mode : WindowMode
  pub train_start : Option ℕ
  pub train_end : Option ℕ
  pub validation_start : Option ℕ
  pub validation_end : Option ℕ
  pub test_start : Option ℕ
  pub test_end : Option ℕ
  pub replay_start : ℕ
  pub replay_end : ℕ
  pub embargo_minutes : ℕ
  pub warnings : List WindowWarning

-- A row of `payload["windows"]`; its datetimes are parsed, a missing one is `none`.
pub record RawWindow : Type 0 where
  pub replay_start : Option ℕ
  pub start : Option ℕ
  pub replay_end : Option ℕ
  pub end : Option ℕ
  pub train_start : Option ℕ
  pub train_end : Option ℕ
  pub validation_start : Option ℕ
  pub validation_end : Option ℕ
  pub test_start : Option ℕ
  pub test_end : Option ℕ
  pub embargo_minutes : Option ℤ
  pub window_index : Option ℤ

pub record WindowPayload : Type 0 where
  pub window_mode : Option WindowMode
  pub mode : Option WindowMode
  pub start : Option ℕ
  pub end : Option ℕ
  pub embargo_minutes : Option ℤ
  pub window_size_days : Option ℤ
  pub step_days : Option ℤ
  pub train_size_days : Option ℤ
  pub training_window_days : Option ℤ
  pub validation_size_days : Option ℤ
  pub min_training_days : Option ℤ
  pub max_generated_windows : Option ℤ
  pub windows : List RawWindow
  pub custom_windows : List RawWindow

pub data Warning : Type 0 where
  start_and_end_required end_must_be_after_start : Warning
  unsupported_window_mode : WindowMode → Warning
  no_windows_generated window_count_exceeds_default_limit custom_windows_required : Warning
  start_or_end_missing embargo_overlap : ℕ → Warning

-- `_window_warnings`. `end - start` is a signed `timedelta`: for `end <= start` it is below 5 minutes.
unfoldable pub window_warnings : ℕ → ℕ → List WindowWarning
window_warnings start end =
    let short = if ltb (end - start) (minutes 5) then short_replay_window ∷ [] else [] in
    if leb end start then insufficient_data_window ∷ short else short

-- The body of the loop of `_daily_windows`.
unfoldable pub daily_window : ℕ → ℕ → ℕ → ℕ → ℕ → ℕ → ReplayWindow
daily_window start end embargo current next_day index =
    let replay_start = max current start in
    let replay_end = min next_day end in
    record {
      window_index = pos index;
      window_mode = daily;
      train_start = none;
      train_end = none;
      validation_start = some replay_start;
      validation_end = some replay_end;
      test_start = some replay_start;
      test_end = some replay_end;
      replay_start = replay_start;
      replay_end = replay_end;
      embargo_minutes = embargo;
      warnings = window_warnings replay_start replay_end;
    }

unfoldable pub daily_loop : ℕ → ℕ → ℕ → ℕ → ℕ → ℕ → Result (List ReplayWindow)
daily_loop zero start end embargo current index = err out_of_fuel
daily_loop (suc fuel) start end embargo current index = elim (ltb current end) [
  | false ↦ ok []
  | true ↦ do
    next_day ← plus current (days 1)
    rest ← daily_loop fuel start end embargo next_day (index + 1)
    ok (daily_window start end embargo current next_day index ∷ rest)
]

-- `datetime.combine(start.date(), time.min, tzinfo=UTC)`
unfoldable pub day_start : ℕ → ℕ
day_start t = t - t % days 1

unfoldable pub daily_windows : ℕ → ℕ → ℕ → Result (List ReplayWindow)
unfolding daily_loop day_start daily_window
daily_windows start end embargo =
    daily_loop (suc (end - day_start start)) start end embargo (day_start start) 1

-- The settings that `_rolling_windows` reads from the payload.
pub record RollingSettings : Type 0 where
  pub window_size_days : ℕ
  pub step_days : ℕ
  pub train_size_days : ℕ
  pub validation_size_days : ℕ

unfoldable pub rolling_settings : WindowPayload → RollingSettings
rolling_settings p =
    let size = at_least 1 (int_or p.window_size_days (pos 5)) in
    record {
      window_size_days = size;
      step_days = at_least 1 (int_or p.step_days (pos size));
      train_size_days =
          at_least 0 (int_or p.train_size_days (int_or p.training_window_days (pos size)));
      validation_size_days = at_least 0 (int_or p.validation_size_days (pos 0));
    }

-- `current - timedelta(...) if size else otherwise`
abbrev pub back : ℕ → ℕ → ℕ → Option ℕ → Result (Option ℕ)
back zero current delta otherwise = ok otherwise
back (suc n) current delta otherwise = do t ← minus current delta; ok (some t)

unfoldable pub rolling_window : RollingSettings → ℕ → ℕ → ℕ → ℕ → Result ReplayWindow
rolling_window s end embargo current index = do
  full ← plus current (days s.window_size_days)
  let replay_end = min full end
  train_start ← back s.train_size_days current (days s.train_size_days) none
  train_end ← back s.train_size_days current (minutes embargo) none
  validation_start ←
      back s.validation_size_days current (days s.validation_size_days) (some current)
  validation_end ← back s.validation_size_days current (minutes embargo) (some replay_end)
  ok (record {
    window_index = pos index;
    window_mode = rolling;
    train_start = train_start;
    train_end = train_end;
    validation_start = validation_start;
    validation_end = validation_end;
    test_start = some current;
    test_end = some replay_end;
    replay_start = current;
    replay_end = replay_end;
    embargo_minutes = embargo;
    warnings = window_warnings current replay_end;
  })

unfoldable pub rolling_loop : ℕ → RollingSettings → ℕ → ℕ → ℕ → ℕ → Result (List ReplayWindow)
rolling_loop zero s end embargo current index = err out_of_fuel
rolling_loop (suc fuel) s end embargo current index = elim (ltb current end) [
  | false ↦ ok []
  | true ↦ do
    window ← rolling_window s end embargo current index
    next ← plus current (days s.step_days)
    rest ← rolling_loop fuel s end embargo next (index + 1)
    ok (window ∷ rest)
]

unfoldable pub rolling_windows : ℕ → ℕ → WindowPayload → ℕ → Result (List ReplayWindow)
unfolding rolling_loop rolling_window rolling_settings
rolling_windows start end p embargo =
    rolling_loop (suc (end - start)) (rolling_settings p) end embargo start 1

-- The settings that `_anchored_windows` reads from the payload.
pub record AnchoredSettings : Type 0 where
  pub min_training_days : ℕ
  pub window_size_days : ℕ
  pub step_days : ℕ

unfoldable pub anchored_settings : WindowPayload → AnchoredSettings
anchored_settings p =
    let size = at_least 1 (int_or p.window_size_days (pos 5)) in
    record {
      min_training_days =
          at_least 1 (int_or p.min_training_days (int_or p.training_window_days (pos 5)));
      window_size_days = size;
      step_days = at_least 1 (int_or p.step_days (pos size));
    }

unfoldable pub anchored_window : AnchoredSettings → ℕ → ℕ → ℕ → ℕ → ℕ → Result ReplayWindow
anchored_window s start end embargo current index = do
  full ← plus current (days s.window_size_days)
  let replay_end = min full end
  train_end ← minus current (minutes embargo)
  ok (record {
    window_index = pos index;
    window_mode = anchored;
    train_start = some start;
    train_end = some train_end;
    validation_start = some train_end;
    validation_end = some current;
    test_start = some current;
    test_end = some replay_end;
    replay_start = current;
    replay_end = replay_end;
    embargo_minutes = embargo;
    warnings = window_warnings current replay_end;
  })

unfoldable pub anchored_loop : ℕ → AnchoredSettings → ℕ → ℕ → ℕ → ℕ → ℕ → Result (List ReplayWindow)
anchored_loop zero s start end embargo current index = err out_of_fuel
anchored_loop (suc fuel) s start end embargo current index = elim (ltb current end) [
  | false ↦ ok []
  | true ↦ do
    window ← anchored_window s start end embargo current index
    next ← plus current (days s.step_days)
    rest ← anchored_loop fuel s start end embargo next (index + 1)
    ok (window ∷ rest)
]

unfoldable pub anchored_windows : ℕ → ℕ → WindowPayload → ℕ → Result (List ReplayWindow)
unfolding anchored_loop anchored_window anchored_settings
anchored_windows start end p embargo = do
  trained ← plus start (days (anchored_settings p).min_training_days)
  first ← plus trained (minutes embargo)
  anchored_loop (suc (end - first)) (anchored_settings p) start end embargo first 1
