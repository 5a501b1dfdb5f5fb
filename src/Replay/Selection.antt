-- ===== src/Replay/Selection.antt =====
-- The candidates of a replay, their order, their bars and features, and the candidates at the same time:
-- services/quant-engine/app/backtesting/replay.py.
use mathlib.Core.List.{map}
use simple_scanner.Common.{
  ℕ, ◌+◌, ◌-◌, ◌/◌, String, Bool, true, false, not, ◌&&◌, ◌||◌, Option, none, some, List, [], ◌∷◌,
  ltb, ◌==◌, if◌then◌else◌, length, keep_if, str_eq,
}
use simple_scanner.Common.Int.{pos, leb_ℤ, max_ℤ}
use simple_scanner.Common.Floats.{Floats, zero_float, equal_float, filled_float, float_or}
use simple_scanner.Common.Texts.{member, text_or}
use simple_scanner.Common.Dict.{get?, put, group_by, text_key, texts_key}
use simple_scanner.Common.Sorting.{sort_by}
use simple_scanner.Replay.Model.{
  ReplayConfig, Bar, Candidate, Feature, Env, interval_of, candidate_id_of, filled_or,
  interval_minutes, times_ℤ,
}
use Prim.Native.Nat.{Ordering}
use Prim.Native.String.{compare}

-- `values and value not in values`
abbrev pub is_outside : List String → String → Bool
is_outside [] s = false
is_outside (t ∷ ts) s = not (member s (t ∷ ts))

abbrev pub before_start : Option ℕ → ℕ → Bool
before_start none t = false
before_start (some start) t = ltb t start

abbrev pub after_end : Option ℕ → ℕ → Bool
after_end none t = false
after_end (some end) t = ltb end t

-- `a < b` of texts
abbrev pub text_less : String → String → Bool
text_less a b = elim (compare a b) [ Ordering.lt ↦ true | _ ↦ false ]

module _ {F : Type 0} where
  -- `_filter_candidates`
  abbrev pub is_selected : ReplayConfig F → Candidate F → Bool
  is_selected cfg c = not (
      is_outside cfg.symbols c.symbol
      || is_outside cfg.intervals (interval_of c)
      || is_outside cfg.candidate_setup_types c.setup_type
      || is_outside cfg.sides c.side
      || before_start cfg.start c.timestamp
      || after_end cfg.end c.timestamp)

  unfoldable pub filter_candidates : ReplayConfig F → List (Candidate F) → List (Candidate F)
  unfolding member
  filter_candidates cfg cs = keep_if (is_selected cfg) cs

  -- `_bars_by_key`, and the bars of one key
  abbrev pub bar_before : Bar F → Bar F → Bool
  bar_before a b = ltb a.timestamp_utc b.timestamp_utc

  abbrev pub sorted_group : (String × String) × List (Bar F) → (String × String) × List (Bar F)
  sorted_group group = (group.0, sort_by bar_before group.1)

  unfoldable pub bars_by_key : List (Bar F) → List ((String × String) × List (Bar F))
  bars_by_key bars = map sorted_group (group_by (λ b. (b.symbol, b.interval)) bars)

  abbrev pub bars_or_none : Option (List (Bar F)) → List (Bar F)
  bars_or_none none = []
  bars_or_none (some bars) = bars

  unfoldable pub bars_of : Candidate F → List ((String × String) × List (Bar F)) → List (Bar F)
  bars_of c groups = bars_or_none (get? (c.symbol, interval_of c) groups)

  -- `features_by_key.get(...)`: of features with one key, the last counts.
  abbrev pub is_feature_of : Candidate F → Feature F → Bool
  is_feature_of c f =
      str_eq f.symbol c.symbol
      && str_eq (filled_or f.interval "1min") (interval_of c)
      && (f.timestamp == c.timestamp)

  unfoldable pub feature_of : Candidate F → List (Feature F) → Option (Feature F)
  feature_of c [] = none
  feature_of c (f ∷ fs) = elim (feature_of c fs) [
    | some later ↦ some later
    | none ↦ if is_feature_of c f then some f else none
  ]

  -- `_candidate_market_regime` and `_candidate_time_bucket`
  unfoldable pub regime_of : Candidate F → Option (Feature F) → String
  regime_of c none = filled_or c.market_regime "unknown"
  regime_of c (some f) = filled_or (text_or c.market_regime f.market_regime) "unknown"

  unfoldable pub bucket_of : Candidate F → Option (Feature F) → String
  bucket_of c none = filled_or c.time_bucket "unknown"
  bucket_of c (some f) = filled_or (text_or c.time_bucket f.time_bucket) "unknown"

module _ {F : Type 0} (fl : Floats F) where
  abbrev pub confidence_of : Candidate F → F
  confidence_of c = float_or fl (filled_float fl c.confidence_score c.signal_score) (zero_float fl)

  abbrev pub expected_of : Candidate F → F
  expected_of c = float_or fl c.expected_r (zero_float fl)

  -- `<` of the tuples of `_candidate_priority`: the first parts that differ decide.
  unfoldable pub candidate_before : Candidate F → Candidate F → Bool
  candidate_before a b =
      if not (a.timestamp == b.timestamp)
      then ltb a.timestamp b.timestamp
      else if not (equal_float fl (fl.negate (confidence_of a)) (fl.negate (confidence_of b)))
      then fl.less (fl.negate (confidence_of a)) (fl.negate (confidence_of b))
      else if not (equal_float fl (fl.negate (expected_of a)) (fl.negate (expected_of b)))
      then fl.less (fl.negate (expected_of a)) (fl.negate (expected_of b))
      else if not (str_eq a.symbol b.symbol)
      then text_less a.symbol b.symbol
      else text_less a.setup_type b.setup_type

  unfoldable pub selected_candidates : ReplayConfig F → List (Candidate F) → List (Candidate F)
  selected_candidates cfg cs = sort_by candidate_before (filter_candidates cfg cs)

abbrev pub distance : ℕ → ℕ → ℕ
distance a b = (a - b) + (b - a)

-- What `_candidate_overlap_context` says of one candidate.
pub record Overlap : Type 0 where
  pub concurrent_candidate_count_at_signal : ℕ
  pub overlap_density : ℕ
  pub overlap_group_id : Option String

module _ {F : Type 0} where
  abbrev pub is_concurrent : ReplayConfig F → String → Candidate F → Candidate F → Bool
  is_concurrent cfg interval c other =
      leb_ℤ (pos (distance other.timestamp c.timestamp))
        (times_ℤ 60_000_000 (max_ℤ cfg.max_hold_minutes (pos (interval_minutes interval))))

  abbrev pub overlap_of :
      Env F → ReplayConfig F → String → String → List (Candidate F) → Candidate F → Overlap
  overlap_of env cfg symbol interval rows c =
      let concurrent = keep_if (is_concurrent cfg interval c) rows in
      record {
        concurrent_candidate_count_at_signal = length concurrent;
        overlap_density = length concurrent - 1;
        overlap_group_id =
            if ltb 1 (length concurrent)
            then some (
                env.overlap_hash symbol interval (c.timestamp / 86_400_000_000)
                  (sort_by text_less (map (candidate_id_of env) concurrent)))
            else none;
      }

  abbrev pub overlaps_of_rows :
      Env F
      → ReplayConfig F
      → String
      → String
      → List (Candidate F)
      → List (Candidate F)
      → List (String × Overlap)
      → List (String × Overlap)
  overlaps_of_rows env cfg symbol interval rows [] context = context
  overlaps_of_rows env cfg symbol interval rows (c ∷ cs) context =
      overlaps_of_rows env cfg symbol interval rows cs
        (put (candidate_id_of env c) (overlap_of env cfg symbol interval rows c) context)

  abbrev pub overlaps_of_groups :
      Env F
      → ReplayConfig F
      → List ((String × String) × List (Candidate F))
      → List (String × Overlap)
      → List (String × Overlap)
  overlaps_of_groups env cfg [] context = context
  overlaps_of_groups env cfg (((symbol, interval), rows) ∷ groups) context =
      overlaps_of_groups env cfg groups (overlaps_of_rows env cfg symbol interval rows rows context)

  -- `_candidate_overlap_context`
  unfoldable pub overlap_context :
      Env F → ReplayConfig F → List (Candidate F) → List (String × Overlap)
  unfolding group_by put candidate_id_of sort_by interval_minutes
  overlap_context env cfg cs =
      overlaps_of_groups env cfg (group_by (λ c. (c.symbol, interval_of c)) cs) []
