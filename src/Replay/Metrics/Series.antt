-- ===== src/Replay/Metrics/Series.antt =====
-- The drawdown and the longest runs of `metrics` against their descriptions:
-- services/quant-engine/app/backtesting/replay.py.
use simple_scanner.Common.{
  ℕ, zero, suc, ◌+◌, ◌≤◌, ◌≡◌, refl, ◌∙◌, Bool, true, false, Option, none, some, List, [], ◌∷◌, max,
  arith, if◌then◌else◌, take, get_elem?,
}
use simple_scanner.Common.Floats.{Floats, zero_float, max_float}
use simple_scanner.Replay.Metrics.{
  consecutive_onto, marks_of, max_consecutive, drawdown_from, drawdown_series,
}
use simple_scanner.Replay.Model.{SimulatedTrade}

-- The marks at the head of a list, and the longest run anywhere in it.
abbrev pub run_length : List Bool → ℕ
run_length [] = 0
run_length (b ∷ bs) = if b then run_length bs + 1 else 0

abbrev pub longest_run : List Bool → ℕ
longest_run [] = 0
longest_run (b ∷ bs) = max (run_length (b ∷ bs)) (longest_run bs)

run_length-le : (bs : List Bool) → run_length bs ≤ longest_run bs
run_length-le [] = omega arith
run_length-le (b ∷ bs) = omega arith

consecutive_onto-longest :
    (best current : ℕ) (bs : List Bool)
    → current ≤ best
    → consecutive_onto best current bs ≡ max best (max (current + run_length bs) (longest_run bs))
unfolding consecutive_onto
consecutive_onto-longest best current [] h = omega arith
consecutive_onto-longest best current (true ∷ bs) h =
    omega (arith, consecutive_onto-longest (max best (current + 1)) (current + 1) bs)
consecutive_onto-longest best current (false ∷ bs) h =
    consecutive_onto-longest (max best 0) 0 bs (omega arith) ∙ omega (arith, run_length-le bs)

consecutive_onto-longest_run : (bs : List Bool) → consecutive_onto 0 0 bs ≡ longest_run bs
consecutive_onto-longest_run [] = consecutive_onto-longest 0 0 [] (omega arith)
consecutive_onto-longest_run (b ∷ bs) = omega (arith, consecutive_onto-longest 0 0 (b ∷ bs))

module _ {F : Type 0} (fl : Floats F) where
  -- `_max_consecutive`, which counts up and resets, gives the length of the longest run of trades in a
  -- row that win, or that lose.
  pub max_consecutive-longest_run :
      (positive : Bool) (trades : List (SimulatedTrade F))
      → max_consecutive fl positive trades ≡ longest_run (marks_of fl positive trades)
  unfolding max_consecutive
  max_consecutive-longest_run positive trades =
      consecutive_onto-longest_run (marks_of fl positive trades)

  -- The highest of a first value and more, from the left.
  abbrev pub peak_of : F → List F → F
  peak_of peak [] = peak
  peak_of peak (v ∷ vs) = peak_of (max_float fl peak v) vs

  abbrev pub drop_from_peak : F → List F → ℕ → Option F
  drop_from_peak peak equity n = elim (get_elem? equity n) [
    | none ↦ none
    | some v ↦ some (fl.sub v (peak_of peak (take (suc n) equity)))
  ]

  get_elem?-drawdown_from :
      (peak : F) (equity : List F) (n : ℕ)
      → get_elem? (drawdown_from fl peak equity) n ≡ drop_from_peak peak equity n
  unfolding drawdown_from
  get_elem?-drawdown_from peak [] n = refl
  get_elem?-drawdown_from peak (v ∷ vs) zero = refl
  get_elem?-drawdown_from peak (v ∷ vs) (suc n) = get_elem?-drawdown_from (max_float fl peak v) vs n

  -- Each entry of the drawdown series is the equity there less the highest of zero and the equities up
  -- to there, and the series is as long as the equity.
  pub get_elem?-drawdown_series :
      (equity : List F) (n : ℕ)
      → get_elem? (drawdown_series fl equity) n ≡ drop_from_peak (zero_float fl) equity n
  unfolding drawdown_series
  get_elem?-drawdown_series equity n = get_elem?-drawdown_from (zero_float fl) equity n
