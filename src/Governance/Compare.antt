-- ===== src/Governance/Compare.antt =====
-- `_model_metrics` and `compare` of ChampionChallengerComparisonService in
-- services/quant-engine/app/services/research.py. A dictionary is the list of its entries, each key once.
use Prim.Native.String.{◌++◌ as push_str}
use simple_scanner.Common.{
  ℕ, String, Bool, not, ◌&&◌, Option, none, some, List, [], ◌∷◌, ◌++◌, if◌then◌else◌, or_else,
  str_eq, is_some,
}
use simple_scanner.Common.Texts.{sorted_set, is_filled}
use simple_scanner.Governance.Model.{
  FloatOps, Metric, number, other, ModelRun, Comparison, ResearchStore,
}
use simple_scanner.Governance.Tables.{get_run, save_comparison}
use simple_scanner.Governance.Gates.{Context, gate_results, readiness, recommended_action}

module _ {F : Type 0} where
  -- `{key: value for ... if isinstance(value, (int, float))}`
  unfoldable pub numbers : List (String × Metric F) → List (String × F)
  numbers [] = []
  numbers ((k, number v) ∷ rest) = (k, v) ∷ numbers rest
  numbers ((k, other) ∷ rest) = numbers rest

  unfoldable pub prefixed : List (String × F) → List (String × F)
  prefixed [] = []
  prefixed ((k, v) ∷ rest) = (push_str "validation_" k, v) ∷ prefixed rest

  -- `metrics.get(key)`
  unfoldable pub get_metric : String → List (String × F) → Option F
  get_metric k [] = none
  get_metric k ((j, v) ∷ rest) = if str_eq j k then some v else get_metric k rest

  -- `metrics[key] = value`
  unfoldable pub set_metric : String → F → List (String × F) → List (String × F)
  set_metric k v [] = (k, v) ∷ []
  set_metric k v ((j, w) ∷ rest) =
      if str_eq j k then (k, v) ∷ rest else (j, w) ∷ set_metric k v rest

  -- `left | right`
  unfoldable pub merge_metrics : List (String × F) → List (String × F) → List (String × F)
  unfolding set_metric
  merge_metrics left [] = left
  merge_metrics left ((k, v) ∷ rest) = merge_metrics (set_metric k v left) rest

  unfoldable pub set_defaults : F → List String → List (String × F) → List (String × F)
  unfolding get_metric
  set_defaults v [] ms = ms
  set_defaults v (k ∷ ks) ms =
      set_defaults v ks (if is_some (get_metric k ms) then ms else ms ++ (k, v) ∷ [])

  unfoldable pub keys_of : List (String × F) → List String
  keys_of [] = []
  keys_of ((k, v) ∷ rest) = k ∷ keys_of rest

  -- `repos.model_runs.get(version) if version else None`
  abbrev pub named_run : Option String → ResearchStore F → Option (ModelRun F)
  named_run none s = none
  named_run (some v) s = if is_filled v then get_run v s else none

abbrev pub missing : Bool → String → List String
missing there text = if there then [] else text ∷ []

module _ {F : Type 0} (ops : FloatOps F) where
  -- `_model_metrics`
  unfoldable pub model_metrics : Option (ModelRun F) → List (String × F)
  unfolding merge_metrics numbers prefixed set_defaults
  model_metrics none = []
  model_metrics (some m) =
      set_defaults ops.zero_float
        ("average_r" ∷ "profit_factor" ∷ "max_drawdown_r" ∷ "observed_outcome_count"
          ∷ "total_trades" ∷ [])
        (merge_metrics (numbers m.metrics) (prefixed (numbers m.validation_metrics)))

  abbrev pub delta : List (String × F) → List (String × F) → String → F
  delta champion challenger k =
      ops.diff (or_else (get_metric k challenger) ops.zero_float)
        (or_else (get_metric k champion) ops.zero_float)

  unfoldable pub deltas : List (String × F) → List (String × F) → List String → List (String × F)
  unfolding get_metric
  deltas champion challenger [] = []
  deltas champion challenger (k ∷ ks) =
      (k, delta champion challenger k) ∷ deltas champion challenger ks

  -- `delta_metrics`
  unfoldable pub delta_metrics : List (String × F) → List (String × F) → List (String × F)
  unfolding deltas keys_of
  delta_metrics champion challenger =
      deltas champion challenger (sorted_set (keys_of champion ++ keys_of challenger))

  -- `[f"{key}{mark}" for key, value in delta_metrics.items() if test(value) and key != "max_drawdown_r"]`
  unfoldable pub flags : (F → Bool) → String → List (String × F) → List String
  flags test mark [] = []
  flags test mark ((k, v) ∷ rest) =
      let later = flags test mark rest in
      if test v && not (str_eq k "max_drawdown_r") then push_str k mark ∷ later else later

  abbrev pub drawdown_delta : List (String × F) → F
  drawdown_delta ds = or_else (get_metric "max_drawdown_r" ds) ops.zero_float

  unfoldable pub better_flags : List (String × F) → List String
  unfolding flags get_metric
  better_flags ds =
      flags (λ v. ops.below ops.zero_float v) "_improved" ds
      ++ (if ops.below (drawdown_delta ds) ops.zero_float then "max_drawdown_improved" ∷ [] else [])

  unfoldable pub worse_flags : List (String × F) → List String
  unfolding flags get_metric
  worse_flags ds =
      flags (λ v. ops.below v ops.zero_float) "_deteriorated" ds
      ++ (if ops.below (drawdown_delta ds) ops.zero_float
          then []
          else if ops.below ops.zero_float (drawdown_delta ds)
          then "max_drawdown_worse" ∷ []
          else [])

  -- The comparison that `compare` saves; `id` is the hash that its repository gives it.
  unfoldable pub comparison_of :
      ℕ → String → Option String → Option String → Context → ResearchStore F → Comparison F
  unfolding model_metrics delta_metrics better_flags worse_flags
  comparison_of now id champion_version challenger_version c s =
      let champion = named_run champion_version s in
      let challenger = named_run challenger_version s in
      let ds = delta_metrics (model_metrics champion) (model_metrics challenger) in
      let gates = gate_results challenger_version c s in
      let status = readiness challenger gates in
      record {
        comparison_id = some id;
        champion_model_version = champion_version;
        challenger_model_version = challenger_version;
        champion_metrics = model_metrics champion;
        challenger_metrics = model_metrics challenger;
        delta_metrics = ds;
        challenger_better_flags = sorted_set (better_flags ds);
        challenger_worse_flags = sorted_set (worse_flags ds);
        gate_results = gates;
        recommended_action = some (
            recommended_action champion challenger gates (better_flags ds) (worse_flags ds) status);
        readiness_status = some status;
        warnings =
            "Champion/challenger comparison is diagnostic only and does not activate models."
              ∷ missing (is_some champion) "champion_missing_minimum_gates_only"
            ++ missing (is_some challenger) "challenger_missing";
        created_at = now;
      }

  unfoldable pub compare :
      ℕ
      → String
      → Option String
      → Option String
      → Context
      → ResearchStore F
      → Comparison F × ResearchStore F
  unfolding comparison_of
  compare now id champion_version challenger_version c s =
      let saved = comparison_of now id champion_version challenger_version c s in
      (saved, save_comparison saved s)
