-- ===== src/Validation/Splits.antt =====
-- `walk_forward_windows`, and the warnings of `leakage_warnings` on splits, of
-- services/quant-engine/app/validation/engine.py. The `while True` loop takes fuel. The sizes are not
-- negative, and `datetime` arithmetic raises where it leaves its range.
use simple_scanner.Common.{
  ℕ, zero, suc, ◌+◌, ◌-◌, ◌*◌, String, true, false, List, [], ◌∷◌, ◌++◌, ltb, leb, if◌then◌else◌,
}
use simple_scanner.Common.Texts.{sorted_set}
use simple_scanner.Windowing.{Result, ok, err, out_of_fuel, ◌>>=◌, days, minutes, plus}

pub record WalkForwardSettings : Type 0 where
  pub train_window_days : ℕ
  pub validation_window_days : ℕ
  pub test_window_days : ℕ
  pub step_days : ℕ
  pub embargo_minutes : ℕ

pub record ValidationSplit : Type 0 where
  pub train_start : ℕ
  pub train_end : ℕ
  pub validation_start : ℕ
  pub validation_end : ℕ
  pub test_start : ℕ
  pub test_end : ℕ
  pub embargo_minutes : ℕ

-- The split that starts at `cursor`.
unfoldable pub split_at : WalkForwardSettings → ℕ → Result ValidationSplit
split_at s cursor = do
  train_end ← plus cursor (days s.train_window_days)
  validation_start ← plus train_end (minutes s.embargo_minutes)
  validation_end ← plus validation_start (days s.validation_window_days)
  test_start ← plus validation_end (minutes s.embargo_minutes)
  test_end ← plus test_start (days s.test_window_days)
  ok (record {
    train_start = cursor;
    train_end = train_end;
    validation_start = validation_start;
    validation_end = validation_end;
    test_start = test_start;
    test_end = test_end;
    embargo_minutes = s.embargo_minutes;
  })

unfoldable pub walk_loop : ℕ → WalkForwardSettings → ℕ → ℕ → ℕ → ℕ → Result (List ValidationSplit)
walk_loop zero s start end cursor index = err out_of_fuel
walk_loop (suc fuel) s start end cursor index = do
  split ← split_at s cursor
  elim (ltb end split.test_end) [
    | true ↦ ok []
    | false ↦ do
      next ← plus start (days (s.step_days * index))
      rest ← walk_loop fuel s start end next (index + 1)
      ok (split ∷ rest)
  ]

unfoldable pub walk_forward_windows : ℕ → ℕ → WalkForwardSettings → Result (List ValidationSplit)
unfolding walk_loop split_at
walk_forward_windows start end s = walk_loop (suc (suc (end - start))) s start end start 1

-- The part of `leakage_warnings` that reads the splits.
abbrev pub split_warnings : ValidationSplit → List String
split_warnings w =
    (if leb w.validation_start w.train_end
      then "train_validation_overlap_or_embargo_violation" ∷ []
      else [])
    ++ (if leb w.test_start w.validation_end
        then "validation_test_overlap_or_embargo_violation" ∷ []
        else [])

unfoldable pub all_split_warnings : List ValidationSplit → List String
all_split_warnings [] = []
all_split_warnings (w ∷ ws) = split_warnings w ++ all_split_warnings ws

unfoldable pub leakage_warnings : List ValidationSplit → List String
unfolding all_split_warnings
leakage_warnings ws = sorted_set (all_split_warnings ws)
