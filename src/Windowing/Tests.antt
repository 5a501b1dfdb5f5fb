-- ===== src/Windowing/Tests.antt =====
-- Runs of the windows of services/quant-engine/app/orchestration/windowing.py.
use simple_scanner.Common.{
  ℕ, ◌+◌, ◌≤◌, ◌<◌, ◌≡◌, refl, true, none, some, List, [], ◌∷◌, arith, length, All,
}
use simple_scanner.Common.Int.{pos}
use simple_scanner.Windowing.Clock.{ok, Returns, days, minutes}
use simple_scanner.Windowing.Defs.{
  ReplayWindow, RawWindow, WindowPayload, rolling, end_must_be_after_start, daily_windows,
  rolling_settings, rolling_windows, anchored_settings, anchored_windows,
}
use simple_scanner.Windowing.Generation.{raw_windows, custom_windows, generate_replay_windows}
use simple_scanner.Windowing.Tiling.{Tiles, daily_windows-Tiles}
use simple_scanner.Windowing.Rolling
use simple_scanner.Windowing.Rolling.{
  Rolls, covers, IsInverted, rolling_windows-Rolls, rolling_windows-covers,
  rolling_windows-IsInverted,
}
use simple_scanner.Windowing.Anchored
use simple_scanner.Windowing.Anchored.{Anchors, anchored_windows-Anchors}
use simple_scanner.Windowing.Custom.{left_out, overlapping, RowsGive, custom_windows-RowsGive}

abbrev raw : RawWindow
raw = record {
  replay_start = some (days 100);
  start = none;
  replay_end = some (days 105);
  end = none;
  train_start = some (days 80);
  train_end = some (days 100);
  validation_start = some (days 100);
  validation_end = some (days 101);
  test_start = none;
  test_end = none;
  embargo_minutes = none;
  window_index = none;
}

abbrev sample : WindowPayload
sample = record {
  window_mode = some rolling;
  mode = none;
  start = some (days 100);
  end = some (days 107);
  embargo_minutes = some (pos 30);
  window_size_days = some (pos 3);
  step_days = some (pos 2);
  train_size_days = some (pos 10);
  training_window_days = none;
  validation_size_days = some (pos 1);
  min_training_days = some (pos 4);
  max_generated_windows = none;
  windows = raw ∷ [];
  custom_windows = [];
}

abbrev starts : List ReplayWindow → List ℕ
starts [] = []
starts (w ∷ ws) = w.replay_start ∷ starts ws

rolling_starts :
    Returns
      (rolling_windows (days 100) (days 107) sample 30)
      (λ ws. starts ws ≡ (days 100 ∷ days 102 ∷ days 104 ∷ days 106 ∷ []))
unfolding rolling_windows
rolling_starts = refl

swapped :
    generate_replay_windows (record sample { end = some (days 99) })
    ≡ ok ([], end_must_be_after_start ∷ [])
unfolding generate_replay_windows
swapped = refl

daily_windows-Tiles_example :
    Returns
      (daily_windows (days 100 + minutes 90) (days 102 + 1) 0)
      (Tiles (days 100 + minutes 90) (days 102 + 1) 1)
daily_windows-Tiles_example =
    daily_windows-Tiles (days 100 + minutes 90) (days 102 + 1) 0 (omega arith) (omega arith)

sample-InRange : Rolling.InRange (rolling_settings sample) (days 100) (days 107) 30
unfolding rolling_settings
sample-InRange = record {
  room = omega arith;
  step_room = omega arith;
  train_room = omega arith;
  validation_room = omega arith;
  embargo_room = omega arith;
}

rolling_windows-Rolls_example :
    Returns
      (rolling_windows (days 100) (days 107) sample 30)
      (Rolls (rolling_settings sample) (days 107) 30 (days 100) 1)
rolling_windows-Rolls_example = rolling_windows-Rolls (days 100) (days 107) 30 sample sample-InRange

short_step : (rolling_settings sample).step_days ≤ (rolling_settings sample).window_size_days
unfolding rolling_settings
short_step = omega arith

rolling_windows-covers_example :
    Returns (rolling_windows (days 100) (days 107) sample 30) (λ ws. covers (days 103) ws ≡ true)
rolling_windows-covers_example =
    rolling_windows-covers (days 100) (days 107) 30 (days 103) sample sample-InRange short_step
      (omega arith) (omega arith)

-- An embargo of 11 days over a training range of 10.
long-InRange : Rolling.InRange (rolling_settings sample) (days 100) (days 107) 15_840
unfolding rolling_settings
long-InRange = record {
  room = omega arith;
  step_room = omega arith;
  train_room = omega arith;
  validation_room = omega arith;
  embargo_room = omega arith;
}

long_embargo : days (rolling_settings sample).train_size_days < minutes 15_840
unfolding rolling_settings
long_embargo = omega arith

trained : 0 < (rolling_settings sample).train_size_days
unfolding rolling_settings
trained = omega arith

rolling_windows-IsInverted_example :
    Returns
      (rolling_windows (days 100) (days 107) sample 15_840)
      (λ ws. (0 < length ws) × All IsInverted ws)
rolling_windows-IsInverted_example =
    rolling_windows-IsInverted (days 100) (days 107) 15_840 sample long-InRange (omega arith)
      trained long_embargo

anchored-InRange : Anchored.InRange (anchored_settings sample) (days 100) (days 107) 30
unfolding anchored_settings
anchored-InRange = record { room = omega arith; step_room = omega arith; first_room = omega arith }

anchored_windows-Anchors_example : Returns (anchored_windows (days 100) (days 107) sample 30) (
    Anchors
      (anchored_settings sample)
      (days 100)
      (days 107)
      30
      (days 100 + days (anchored_settings sample).min_training_days + minutes 30)
      1)
anchored_windows-Anchors_example =
    anchored_windows-Anchors (days 100) (days 107) 30 sample anchored-InRange

custom_windows-RowsGive_example :
    Returns
      (custom_windows sample 30)
      (λ out. RowsGive sample 30 1 (raw_windows sample) (out.0, left_out out.1, overlapping out.1))
custom_windows-RowsGive_example = custom_windows-RowsGive sample 30 (omega arith, tt)
