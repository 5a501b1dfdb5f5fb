-- ===== src/Replay/Metrics/Counts.antt =====
-- The counts of `metrics` of services/quant-engine/app/backtesting/replay.py add up.
use mathlib.Core.List.{map}
use simple_scanner.Common.{
  ℕ, suc, ◌+◌, ◌≡◌, refl, ◌∙◌, ap, String, Bool, not, ◌||◌, List, [], ◌∷◌, ◌++◌, arith, length,
  keep_if,
}
use simple_scanner.Common.Floats.{Floats}
use simple_scanner.Common.Dict.{Key, get_or, put, group_by, append_at, group_onto, text_key}
use simple_scanner.Replay.Model.{ReplayConfig, SimulatedTrade, is_taken}
use simple_scanner.Replay.Metrics.{
  Statistics, Breakdown, is_invalid, count_onto, counter, breakdown, breakdown_row, named,
}
use simple_scanner.Replay.Metrics.Summary.{taken_of, skipped_of, metrics}

module _ {A : Type 0} where
  -- What two tests that exclude each other keep makes up the list.
  length-keep_if-both :
      (p : A → Bool) (xs : List A)
      → length (keep_if p xs) + length (keep_if (λ x. not (p x)) xs) ≡ length xs
  length-keep_if-both p [] = omega arith
  length-keep_if-both p (x ∷ xs) = ground (arith, length-keep_if-both p xs)

  length-keep_if-keep_if :
      (p q : A → Bool) (xs : List A)
      → length (keep_if (λ x. p x || not (q x)) xs)
          + length (keep_if q (keep_if (λ x. not (p x)) xs))
        ≡ length xs
  length-keep_if-keep_if p q [] = omega arith
  length-keep_if-keep_if p q (x ∷ xs) = ground (arith, length-keep_if-keep_if p q xs)

-- The sum of the counts of a `Counter`.
abbrev pub count_sum : {K : Type 0} → List (K × ℕ) → ℕ
count_sum [] = 0
count_sum ((k, n) ∷ rest) = n + count_sum rest

module _ {K : Type 0} ⦃key : Key K⦄ where
  count_sum-put :
      (k : K) (d : List (K × ℕ)) → count_sum (put k (get_or k 0 d + 1) d) ≡ count_sum d + 1
  unfolding get_or put
  count_sum-put k [] = omega arith
  count_sum-put k ((j, n) ∷ d) = ground (arith, count_sum-put k d)

  count_sum-count_onto :
      (d : List (K × ℕ)) (ks : List K) → count_sum (count_onto d ks) ≡ count_sum d + length ks
  count_sum-count_onto d [] = omega arith
  count_sum-count_onto d (k ∷ ks) =
      omega (arith, count_sum-count_onto (put k (get_or k 0 d + 1) d) ks, count_sum-put k d)

  count_sum-counter : (ks : List K) → count_sum (counter ks) ≡ length ks
  unfolding counter
  count_sum-counter ks = omega (arith, count_sum-count_onto [] ks)

length-map {ℓ κ} :
    {A : Type ℓ} {B : Type κ} (f : A → B) (xs : List A) → length (map f xs) ≡ length xs
length-map f [] = refl
length-map f (x ∷ xs) = ap suc (length-map f xs)

-- The sum of the sizes of groups.
abbrev group_sum : {K V : Type 0} → List (K × List V) → ℕ
group_sum [] = 0
group_sum ((k, vs) ∷ rest) = length vs + group_sum rest

length-append-one : {V : Type 0} (vs : List V) (v : V) → length (vs ++ v ∷ []) ≡ length vs + 1
length-append-one [] v = omega arith
length-append-one (w ∷ vs) v = omega (arith, length-append-one vs v)

module _ {K V : Type 0} ⦃key : Key K⦄ where
  group_sum-append_at :
      (k : K) (v : V) (d : List (K × List V)) → group_sum (append_at k v d) ≡ group_sum d + 1
  unfolding append_at
  group_sum-append_at k v [] = omega arith
  group_sum-append_at k v ((j, vs) ∷ d) =
      ground (arith, group_sum-append_at k v d, length-append-one vs v)

  group_sum-group_onto :
      (of : V → K) (d : List (K × List V)) (vs : List V)
      → group_sum (group_onto of d vs) ≡ group_sum d + length vs
  group_sum-group_onto of d [] = omega arith
  group_sum-group_onto of d (v ∷ vs) =
      omega
        (arith, group_sum-group_onto of (append_at (of v) v d) vs, group_sum-append_at (of v) v d)

-- The trades of all groups of a breakdown.
abbrev pub breakdown_sum : {F : Type 0} → List (String × Breakdown F) → ℕ
breakdown_sum [] = 0
breakdown_sum ((k, row) ∷ rest) = row.total_trades + breakdown_sum rest

module _ {F : Type 0} (fl : Floats F) (st : Statistics F) where
  breakdown_sum-rows :
      (groups : List (String × List (SimulatedTrade F)))
      → breakdown_sum
          (map (λ (g : String × List (SimulatedTrade F)). (g.0, breakdown_row fl st g.1)) groups)
        ≡ group_sum groups
  breakdown_sum-rows [] = refl
  breakdown_sum-rows ((k, rows) ∷ rest) = ap (λ n. length rows + n) (breakdown_sum-rows rest)

  breakdown_sum-breakdown :
      (of : SimulatedTrade F → String) (ts : List (SimulatedTrade F))
      → breakdown_sum (breakdown fl st of ts) ≡ length ts
  unfolding breakdown group_by
  breakdown_sum-breakdown of ts =
      breakdown_sum-rows (group_by (λ t. named (of t)) ts)
      ∙ group_sum-group_onto (λ t. named (of t)) [] ts
      ∙ omega arith

  -- The metrics count every trade once: those taken and those skipped make up the total, and so do the
  -- valid and the invalid ones; the reasons of the skips are counted as often as there are skips; and
  -- each of the five breakdowns holds as many trades as were taken.
  pub metrics-counts :
      (cfg : ReplayConfig F) (trades : List (SimulatedTrade F))
      → let m = metrics fl st cfg trades in
        (m.candidates_taken + m.candidates_skipped ≡ m.total_candidates)
        × (m.valid_candidates + m.invalid_skipped_candidates ≡ m.total_candidates)
        × (count_sum m.skip_breakdown ≡ m.candidates_skipped)
        × (breakdown_sum m.per_symbol_metrics ≡ m.candidates_taken)
        × (breakdown_sum m.per_setup_metrics ≡ m.candidates_taken)
        × (breakdown_sum m.per_regime_metrics ≡ m.candidates_taken)
        × (breakdown_sum m.per_time_bucket_metrics ≡ m.candidates_taken)
        × (breakdown_sum m.per_side_metrics ≡ m.candidates_taken)
  unfolding metrics
  metrics-counts cfg trades =
      let by = λ (of : SimulatedTrade F → String). breakdown_sum-breakdown of (taken_of trades) in
      (
        length-keep_if-both (λ t. is_taken t.status) trades,
        length-keep_if-keep_if (λ t. is_taken t.status) (λ t. is_invalid t.skip_reason) trades,
        count_sum-counter _ ∙ length-map _ (skipped_of trades),
        by (λ t. t.symbol),
        by (λ t. t.setup_type),
        by (λ t. t.market_regime),
        by (λ t. t.time_bucket),
        by (λ t. t.side),
      )
