-- ===== src/Windowing/Generation.antt =====
-- The windows that the payload lists, and the dispatch on the mode, of
-- services/quant-engine/app/orchestration/windowing.py.
use simple_scanner.Common.{
  ℕ, zero, suc, ◌+◌, Bool, false, Option, none, some, List, [], ◌∷◌, ltb, leb, if◌then◌else◌,
  or_else, length, ◌++◌,
}
use simple_scanner.Common.Int.{ℤ, pos, int_or, at_least, ltb_ℤ}
use simple_scanner.Windowing.Clock.{Result, ok, ◌>>=◌, minutes, minus}
use simple_scanner.Windowing.Defs.{
  RawWindow, ReplayWindow, Warning, WindowMode, WindowPayload, anchored, anchored_windows, custom,
  custom_windows_required, daily, daily_windows, embargo_overlap, end_must_be_after_start,
  no_windows_generated, rolling, rolling_windows, start_and_end_required, start_or_end_missing,
  unsupported_window_mode, window_count_exceeds_default_limit, window_warnings,
}

-- `a or b` on optional datetimes, which are all truthy
abbrev pub first_of_dates : Option ℕ → Option ℕ → Option ℕ
first_of_dates none b = b
first_of_dates (some a) b = some a

-- `train_end > validation_start - timedelta(minutes=window_embargo)`, when all three are given
abbrev pub embargo_test : ℕ → Option ℕ → Option ℕ → Result Bool
embargo_test zero train_end validation_start = ok false
embargo_test (suc n) (some e) (some v) = do limit ← minus v (minutes (suc n)); ok (ltb limit e)
embargo_test (suc n) _ _ = ok false

unfoldable pub custom_window : RawWindow → ℕ → ℕ → ℕ → ℕ → ReplayWindow
custom_window row index embargo replay_start replay_end = record {
  window_index = int_or row.window_index (pos index);
  window_mode = custom;
  train_start = row.train_start;
  train_end = row.train_end;
  validation_start = row.validation_start;
  validation_end = row.validation_end;
  test_start = some (or_else row.test_start replay_start);
  test_end = some (or_else row.test_end replay_end);
  replay_start = replay_start;
  replay_end = replay_end;
  embargo_minutes = embargo;
  warnings = window_warnings replay_start replay_end;
}

-- `int(row["embargo_minutes"])` if it is given, even 0, and the payload's otherwise
abbrev pub row_embargo : Option ℤ → ℕ → ℕ
row_embargo none d = d
row_embargo (some e) d = at_least 0 e

-- One pass of the loop of `_custom_windows`: the windows and the warnings that it appends.
abbrev pub custom_step :
    RawWindow → ℕ → ℕ → Option ℕ → Option ℕ → Result (List ReplayWindow × List Warning)
custom_step row index embargo (some s) (some e) = do
  overlap ← embargo_test embargo row.train_end row.validation_start
  ok (
    custom_window row index embargo s e ∷ [],
    (if overlap then embargo_overlap index ∷ [] else []),
  )
custom_step row index embargo _ _ = ok ([], start_or_end_missing index ∷ [])

unfoldable pub custom_rows :
    WindowPayload → ℕ → List RawWindow → ℕ → Result (List ReplayWindow × List Warning)
custom_rows p embargo [] index = ok ([], [])
custom_rows p embargo (row ∷ rows) index = do
  here ←
      custom_step row index (row_embargo row.embargo_minutes embargo)
        (first_of_dates row.replay_start (first_of_dates row.start p.start))
        (first_of_dates row.replay_end (first_of_dates row.end p.end))
  rest ← custom_rows p embargo rows (index + 1)
  ok (here.0 ++ rest.0, here.1 ++ rest.1)

-- `payload.get("windows") or payload.get("custom_windows") or []`
abbrev pub raw_windows : WindowPayload → List RawWindow
raw_windows p = elim p.windows [ [] ↦ p.custom_windows | r ∷ rs ↦ r ∷ rs ]

abbrev pub required_warning : List RawWindow → List Warning
required_warning [] = custom_windows_required ∷ []
required_warning (r ∷ rs) = []

unfoldable pub custom_windows : WindowPayload → ℕ → Result (List ReplayWindow × List Warning)
unfolding custom_rows custom_window
custom_windows p embargo = do
  found ← custom_rows p embargo (raw_windows p) 1
  ok (found.0, found.1 ++ required_warning (raw_windows p))

-- The warnings that `generate_replay_windows` adds once the windows are there.
abbrev pub count_warnings : WindowPayload → List ReplayWindow → List Warning
count_warnings p ws =
    let over =
      if ltb_ℤ (int_or p.max_generated_windows (pos 250)) (pos (length ws))
      then window_count_exceeds_default_limit ∷ []
      else [] in
    elim ws [ [] ↦ no_windows_generated ∷ over | w ∷ rest ↦ over ]

abbrev pub with_warnings :
    WindowPayload → List ReplayWindow → Result (List ReplayWindow × List Warning)
with_warnings p ws = ok (ws, count_warnings p ws)

-- The dispatch on the mode, behind the guards on `start` and `end`.
unfoldable pub generate_between :
    WindowPayload → WindowMode → ℕ → ℕ → ℕ → Result (List ReplayWindow × List Warning)
generate_between p daily start end embargo = daily_windows start end embargo >>= with_warnings p
generate_between p rolling start end embargo =
    rolling_windows start end p embargo >>= with_warnings p
generate_between p anchored start end embargo =
    anchored_windows start end p embargo >>= with_warnings p
generate_between p mode start end embargo = ok ([], unsupported_window_mode mode ∷ [])

abbrev pub generate_mode :
    WindowPayload → WindowMode → Option ℕ → Option ℕ → ℕ → Result (List ReplayWindow × List Warning)
generate_mode p custom start end embargo = custom_windows p embargo
generate_mode p mode (some start) (some end) embargo =
    if leb end start
    then ok ([], end_must_be_after_start ∷ [])
    else generate_between p mode start end embargo
generate_mode p mode _ _ embargo = ok ([], start_and_end_required ∷ [])

unfoldable pub generate_replay_windows : WindowPayload → Result (List ReplayWindow × List Warning)
unfolding generate_between
generate_replay_windows p =
    generate_mode p (or_else p.window_mode (or_else p.mode custom)) p.start p.end
      (at_least 0 (int_or p.embargo_minutes (pos 0)))
