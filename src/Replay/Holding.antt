-- ===== src/Replay/Holding.antt =====
-- When a trade of `replay` enters and ends: services/quant-engine/app/backtesting/replay.py.
use mathlib.Core.List.{map}
use simple_scanner.Common.{
  ℕ, suc, ◌≤◌, ◌≡◌, refl, sym, ◌∙◌, ap, subst, inl, inr, String, Bool, true, false, Option, none,
  some, List, [], ◌∷◌, arith, leb, ◌==◌, ==_iff, Bool-cases, Option-cases, drop, keep_if, All,
  All-get_elem?,
}
use simple_scanner.Common.Int.{pos, ◌≤ℤ◌, leb_ℤ}
use simple_scanner.Common.Floats.{Floats, zero_float}
use simple_scanner.Common.Dict.{get?, text_key, texts_key, same_texts}
use simple_scanner.Common.Sorting.{Ascends, sort_by-Ascends, Ascends-All, Ascends-le}
use simple_scanner.Replay.Model.{
  ReplayConfig, Bar, Candidate, Feature, Env, SimulatedTrade, interval_of,
}
use simple_scanner.Replay.Prices.{Plan}
use simple_scanner.Replay.Simulation.{
  index_at, deadline, future_bars, last_bar, simulate_candidate, skip,
}
use simple_scanner.Replay.Walk.{walk-ends}
use simple_scanner.Replay.Outcomes.{walked, simulate_candidate-cases}
use simple_scanner.Replay.Ledger.Limits.{OnTaken}
use simple_scanner.Replay.Engine.{
  Inputs, first_state, loop, simulated_trade, with_metadata, candidate_regime, candidate_bucket,
  inputs_of, replay,
}
use simple_scanner.Replay.Engine.Each.{Each-All, loop-Each}
use simple_scanner.Replay.Selection.{
  feature_of, selected_candidates, sorted_group, bars_by_key, bars_of, bar_before,
}

leb→le : (a b : ℕ) → leb a b ≡ true → a ≤ b
leb→le a b h = ground arith

module _ {F : Type 0} where
  time_of : Bar F → ℕ
  time_of b = b.timestamp_utc

  -- The bars of a key are in the order of their times.
  AscendingGroups : List ((String × String) × List (Bar F)) → Type 0
  AscendingGroups groups = All (λ g. Ascends time_of 0 g.1) groups

  bars_of-Ascends :
      (c : Candidate F) (groups : List ((String × String) × List (Bar F)))
      → AscendingGroups groups
      → Ascends time_of 0 (bars_of c groups)
  unfolding bars_of get? AscendingGroups
  bars_of-Ascends c [] h = tt
  bars_of-Ascends c (((a, b), bs) ∷ gs) h =
      elim (Bool-cases (same_texts (a, b) (c.symbol, interval_of c))) [
        | inl here ↦ simp here h.0
        | inr later ↦ simp later (bars_of-Ascends c gs h.1)
      ]

  bar_before-time :
      (a b : Bar F)
      → (bar_before a b ≡ true → time_of a ≤ time_of b)
        × (bar_before a b ≡ false → time_of b ≤ time_of a)
  unfolding time_of
  bar_before-time a b = (λ h. ground arith, λ h. ground arith)

  sorted-Ascending :
      (groups : List ((String × String) × List (Bar F))) → AscendingGroups (map sorted_group groups)
  unfolding AscendingGroups
  sorted-Ascending [] = tt
  sorted-Ascending (g ∷ gs) = (
    sort_by-Ascends time_of bar_before (λ a b. (bar_before-time a b).0)
        (λ a b. (bar_before-time a b).1) g.1,
    sorted-Ascending gs,
  )

  -- The bars after the one at a time are not before that time.
  index_at-Ascends :
      (n t i : ℕ) (bars : List (Bar F))
      → Ascends time_of n bars
      → index_at t bars ≡ some i
      → Ascends time_of t (drop (suc i) bars)
  unfolding index_at time_of
  index_at-Ascends n t i [] h e = cc
  index_at-Ascends n t i (b ∷ bs) h e = elim (Bool-cases (b.timestamp_utc == t)) [
    | inl here ↦
        let first : some 0 ≡ some i = simp here at e in
        let at_t : b.timestamp_utc ≡ t = (==_iff b.timestamp_utc t).0 here in
        let zero_i : 0 ≡ i = cc in
        rw (← zero_i) (Ascends-le time_of t b.timestamp_utc bs (omega arith) h.1)
    | inr other ↦ elim (Option-cases (index_at t bs)) [
      | inl missing ↦ let no_index : none ≡ some i = simp (other, missing) at e in cc
      | inr (j, found) ↦
          let next : some (suc j) ≡ some i = simp (other, found) at e in
          let suc_j : suc j ≡ i = cc in
          rw (← suc_j) (index_at-Ascends b.timestamp_utc t j bs h.1 found)
    ]
  ]

  last_bar-All :
      (P : Bar F → Type 0) (b : Bar F) (bs : List (Bar F)) → All P (b ∷ bs) → P (last_bar b bs)
  last_bar-All P b [] h = h.0
  last_bar-All P b (c ∷ cs) h = last_bar-All P c cs h.1

  All-both :
      (P Q : Bar F → Type 0) (p : Bar F → Bool) (bs : List (Bar F))
      → ((b : Bar F) → p b ≡ true → Q b)
      → All P bs
      → All (λ b. P b × Q b) (keep_if p bs)
  All-both P Q p [] f h = tt
  All-both P Q p (b ∷ bs) f h = elim (Bool-cases (p b)) [
    | inl e ↦ rw e ((h.0, f b e), All-both P Q p bs f h.1)
    | inr e ↦ rw e (All-both P Q p bs f h.1)
  ]

-- A trade enters at its signal or later, and ends between its entry and the end of its holding time.
abbrev pub IsHeldIn : {F : Type 0} → ReplayConfig F → SimulatedTrade F → Type 0
IsHeldIn cfg t =
    (entry : ℕ) × (exit : ℕ) × (t.entry_timestamp_utc ≡ some entry)
    × (t.exit_timestamp_utc ≡ some exit)
    × (t.signal_timestamp_utc ≤ entry)
    × (entry ≤ exit)
    × (pos exit ≤ℤ deadline cfg entry)

module _ {F : Type 0} (fl : Floats F) (env : Env F) (run_id : String) (c : Candidate F)
    (cfg : ReplayConfig F) (regime bucket : String) where
  walked-All :
      (P : Bar F → Type 0) (p : Plan F) (n : ℕ) (b : Bar F) (future : List (Bar F))
      → All P (b ∷ future)
      → P (walked fl env run_id c cfg regime bucket p n b future).exit_bar
  walked-All P p n b future h =
      elim (walk-ends fl env cfg p (deadline cfg n) (last_bar b future) (zero_float fl)
        (zero_float fl) 0 (b ∷ future)) [
          | inl (k, ends) ↦ All-get_elem? P (b ∷ future) k _ h ends.the_bar
          | inr last ↦ subst P (sym last.the_bar) (last_bar-All P b future h)
        ]

  simulate_candidate-IsHeldIn :
      (bars : List (Bar F)) (f : Option (Feature F))
      → Ascends time_of 0 bars
      → let t = simulate_candidate fl env run_id c bars f cfg regime bucket in
        OnTaken t.status (IsHeldIn cfg t)
  unfolding skip time_of
  simulate_candidate-IsHeldIn bars f asc =
      simulate_candidate-cases fl env run_id c cfg regime bucket
        (λ t. OnTaken t.status (IsHeldIn cfg t)) (λ r. tt) bars f
        (λ i eb b rest future p h k l.
          let later = index_at-Ascends 0 c.timestamp i bars asc h in
          let after : Ascends time_of c.timestamp (eb ∷ rest) =
            subst (Ascends time_of c.timestamp)
              (ap (λ m. drop m bars) {x = suc i} (omega arith) ∙ k) later in
          let ordered = Ascends-All time_of eb.timestamp_utc (eb ∷ rest) (omega arith, after.1) in
          let within =
            All-both (λ x. eb.timestamp_utc ≤ x.timestamp_utc)
              (λ x. pos x.timestamp_utc ≤ℤ deadline cfg eb.timestamp_utc)
              (λ x. leb_ℤ (pos x.timestamp_utc) (deadline cfg eb.timestamp_utc)) (eb ∷ rest)
              (λ x e. leb→le _ _ e) ordered in
          let kept : All
              (λ x.
                (eb.timestamp_utc ≤ x.timestamp_utc)
                × (pos x.timestamp_utc ≤ℤ deadline cfg eb.timestamp_utc))
              (b ∷ future) =
            subst
              (All (λ x.
                (eb.timestamp_utc ≤ x.timestamp_utc)
                × (pos x.timestamp_utc ≤ℤ deadline cfg eb.timestamp_utc)))
              (ap (future_bars cfg eb.timestamp_utc) (sym k) ∙ l) within in
          let out =
            walked-All
              (λ x.
                (eb.timestamp_utc ≤ x.timestamp_utc)
                × (pos x.timestamp_utc ≤ℤ deadline cfg eb.timestamp_utc))
              p eb.timestamp_utc b future kept in
          (eb.timestamp_utc, _, refl, refl, after.0, out.0, out.1))

module _ {F : Type 0} (fl : Floats F) (env : Env F) where
  simulated_trade-IsHeldIn :
      (inp : Inputs F) (c : Candidate F)
      → AscendingGroups inp.bars
      → let t = simulated_trade fl env inp c in OnTaken t.status (IsHeldIn inp.config t)
  unfolding with_metadata
  simulated_trade-IsHeldIn inp c h =
      simulate_candidate-IsHeldIn fl env inp.run_id c inp.config (candidate_regime fl env inp c)
        (candidate_bucket fl env inp c) (bars_of c inp.bars) (feature_of c inp.features)
        (bars_of-Ascends c inp.bars h)

  -- Each trade that `replay` takes enters at the time of its signal or later, ends at its entry or later,
  -- and ends at the entry plus the holding time of the settings at the latest.
  pub replay-IsHeldIn :
      (bars : List (Bar F)) (features : List (Feature F)) (candidates : List (Candidate F))
      (cfg : ReplayConfig F) (run_id : String)
      → All
          (λ t. OnTaken t.status (IsHeldIn cfg t))
          (replay fl env bars features candidates cfg run_id)
  unfolding replay bars_by_key skip with_metadata
  replay-IsHeldIn bars features candidates cfg run_id =
      let selected = selected_candidates fl cfg candidates in
      let inp = inputs_of fl env bars features selected cfg run_id in
      Each-All (λ c t. OnTaken t.status (IsHeldIn cfg t)) (λ t. OnTaken t.status (IsHeldIn cfg t))
        (λ c t h. h) selected (loop fl env inp first_state selected)
        (loop-Each fl env inp (λ c t. OnTaken t.status (IsHeldIn cfg t)) (λ c r b. tt)
          (λ c. simulated_trade-IsHeldIn inp c (sorted-Ascending _)) first_state selected)
