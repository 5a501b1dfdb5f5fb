-- ===== src/Replay/Engine/Each.antt =====
-- What `replay` of services/quant-engine/app/backtesting/replay.py gives for each candidate.
use mathlib.Core.List.{map, Perm}
use mathlib.Core.List.Perm
use simple_scanner.Common.{
  ◌≡◌, refl, inl, inr, String, Bool, Option, none, some, List, [], ◌∷◌, Bool-cases, All, subst, sym,
}
use simple_scanner.Common.Floats.{Floats}
use simple_scanner.Common.Sorting.{sort_by-perm}
use simple_scanner.Replay.Model.{
  SkipReason, ReplayConfig, Bar, Candidate, Feature, Env, SimulatedTrade, candidate_id_of,
}
use simple_scanner.Replay.Simulation.{skip}
use simple_scanner.Replay.Portfolio.{Book}
use simple_scanner.Replay.Outcomes.{simulate_candidate-cases}
use simple_scanner.Replay.Selection.{
  selected_candidates, filter_candidates, candidate_before, bars_of, feature_of,
}
use simple_scanner.Replay.Engine.{
  SeenKey, is_seen, key_of, Inputs, LoopState, first_state, skipped_trade, simulated_trade,
  with_metadata, checked_step, step, loop, inputs_of, replay, candidate_regime, candidate_bucket,
}

-- Each candidate has a trade in its place.
abbrev pub Each : {A B : Type 0} → (A → B → Type 0) → List A → List B → Type 0
Each R [] [] = Unit
Each R [] (b ∷ bs) = ⊥
Each R (a ∷ rest) [] = ⊥
Each R (a ∷ rest) (b ∷ bs) = R a b × Each R rest bs

module _ {A B : Type 0} (R : A → B → Type 0) where
  pub Each-All :
      (P : B → Type 0)
      → ((a : A) (b : B) → R a b → P b)
      → (xs : List A) (ys : List B) → Each R xs ys
      → All P ys
  Each-All P f [] [] h = tt
  Each-All P f [] (y ∷ ys) h = elim h [ ]
  Each-All P f (x ∷ xs) [] h = elim h [ ]
  Each-All P f (x ∷ xs) (y ∷ ys) h = (f x y h.0, Each-All P f xs ys h.1)

  Each-map :
      {C : Type 0} (f : A → C) (g : B → C)
      → ((a : A) (b : B) → R a b → g b ≡ f a)
      → (xs : List A) (ys : List B) → Each R xs ys
      → map g ys ≡ map f xs
  Each-map f g e [] [] h = refl
  Each-map f g e [] (y ∷ ys) h = elim h [ ]
  Each-map f g e (x ∷ xs) [] h = elim h [ ]
  Each-map f g e (x ∷ xs) (y ∷ ys) h = rw (e x y h.0, Each-map f g e xs ys h.1) refl

module _ {F : Type 0} (fl : Floats F) (env : Env F) where
  module _ (inp : Inputs F) (R : Candidate F → SimulatedTrade F → Type 0)
      (skips : (c : Candidate F) (r : SkipReason) (b : Option Bool)
        → R c (skipped_trade fl env inp c r b))
      (simulated : (c : Candidate F) → R c (simulated_trade fl env inp c)) where
    checked_step-Each :
        (c : Candidate F) (seen : List SeenKey) (o : Option SkipReason) (book : Book)
        → R c (checked_step fl env inp c seen (o, book)).0
    checked_step-Each c seen (some r) book = skips c r _
    checked_step-Each c seen none book = simulated c

    step-Each : (s : LoopState) (c : Candidate F) → R c (step fl env inp s c).0
    unfolding step
    step-Each s c = elim (Bool-cases (is_seen (key_of c) s.seen_keys)) [
      | inl again ↦ simp again (skips c _ _)
      | inr fresh ↦ simp fresh (checked_step-Each c (key_of c ∷ s.seen_keys) _ _)
    ]

    -- A rule for what holds of each trade and its candidate.
    pub loop-Each : (s : LoopState) (cs : List (Candidate F)) → Each R cs (loop fl env inp s cs)
    unfolding loop
    loop-Each s [] = tt
    loop-Each s (c ∷ cs) = (step-Each s c, loop-Each (step fl env inp s c).1 cs)

  simulated_trade-id :
      (inp : Inputs F) (c : Candidate F)
      → (simulated_trade fl env inp c).candidate_id ≡ candidate_id_of env c
  unfolding with_metadata skip
  simulated_trade-id inp c =
      simulate_candidate-cases fl env inp.run_id c inp.config (candidate_regime fl env inp c)
        (candidate_bucket fl env inp c) (λ t. t.candidate_id ≡ candidate_id_of env c) (λ r. refl)
        (bars_of c inp.bars) (feature_of c inp.features) (λ i eb b rest future p h k l. refl)

  -- The trades of `replay` are one for each candidate that passes the filters, as often as it does: their
  -- candidate ids, in the order of the run, are a rearrangement of the ids of those candidates.
  pub replay-perm :
      (bars : List (Bar F)) (features : List (Feature F)) (candidates : List (Candidate F))
      (cfg : ReplayConfig F) (run_id : String)
      → Perm
          (map (λ t. t.candidate_id) (replay fl env bars features candidates cfg run_id))
          (map (candidate_id_of env) (filter_candidates cfg candidates))
  unfolding replay skip with_metadata selected_candidates
  replay-perm bars features candidates cfg run_id =
      let selected = selected_candidates fl cfg candidates in
      let inp = inputs_of fl env bars features selected cfg run_id in
      let same =
        Each-map (λ c t. t.candidate_id ≡ candidate_id_of env c) (candidate_id_of env)
          (λ t. t.candidate_id) (λ c t e. e) selected (loop fl env inp first_state selected)
          (loop-Each inp (λ c t. t.candidate_id ≡ candidate_id_of env c) (λ c r b. refl)
            (simulated_trade-id inp) first_state selected) in
      subst (λ ids. Perm ids (map (candidate_id_of env) (filter_candidates cfg candidates)))
        (sym same)
        (Perm.map (candidate_id_of env)
          (sort_by-perm (candidate_before fl) (filter_candidates cfg candidates)))
