-- ===== src/Replay/Outcomes.antt =====
-- How a simulated trade comes out: `_simulate_candidate` of
-- services/quant-engine/app/backtesting/replay.py.
use simple_scanner.Common.{
  ℕ, ◌+◌, ◌≡◌, refl, ◌⊎◌, inl, inr, String, Option, none, some, List, [], ◌∷◌, Bool-cases,
  Option-cases, List-cases, take, drop,
}
use simple_scanner.Common.Floats.{Floats, zero_float}
use simple_scanner.Replay.Model.{
  SkipReason, ReplayConfig, Bar, Candidate, Feature, Env, SimulatedTrade, TradeStatus, interval_of,
}
use simple_scanner.Replay.Prices.{Plan, stop_of, entry_price, plan_of, reward_risk}
use simple_scanner.Replay.Simulation.{
  Exit, lacks_context, index_at, deadline, future_bars, last_bar, walk, skip, taken_trade,
  planned_trade, entered_trade, trade_from, simulate_candidate,
}

-- What a trade that is taken has of its candidate.
pub record IsTakenOf {F : Type 0} (c : Candidate F) (t : SimulatedTrade F) (e : ℕ) : Type 0 where
  pub is_taken : t.status ≡ TradeStatus.taken
  pub exits : t.exit_timestamp_utc ≡ some e
  pub its_signal : t.signal_timestamp_utc ≡ c.timestamp
  pub its_symbol : t.symbol ≡ c.symbol
  pub its_setup : t.setup_type ≡ c.setup_type
  pub its_interval : t.interval ≡ interval_of c

abbrev pub IsSkipped : {F : Type 0} → SimulatedTrade F → Type 0
IsSkipped t = (t.status ≡ TradeStatus.skipped) × (t.exit_timestamp_utc ≡ none)

module _ {F : Type 0} (fl : Floats F) (env : Env F) (run_id : String) (c : Candidate F)
    (cfg : ReplayConfig F) (regime bucket : String) where
  abbrev pub walked : Plan F → ℕ → Bar F → List (Bar F) → Exit F
  walked p entry_time b future =
      walk fl env cfg p (deadline cfg entry_time) (last_bar b future) (zero_float fl)
        (zero_float fl) 0 (b ∷ future)

  -- A rule for what holds of a simulated trade: it holds of every skip, and of the trade that the walk
  -- over the future bars of the entry makes, from any plan.
  module _ (P : SimulatedTrade F → Type 0)
      (skips : (r : SkipReason) → P (skip fl env run_id c r regime bucket)) where
    planned_trade-cases :
        (n : ℕ) (b : Bar F) (future : List (Bar F)) (p : Plan F)
        → P (taken_trade fl env run_id c cfg regime bucket p n (walked p n b future))
        → P (planned_trade fl env run_id c cfg regime bucket n b future p)
    unfolding planned_trade
    planned_trade-cases n b future p taken = elim (Bool-cases (fl.at_most p.risk (zero_float fl))) [
      | inl bad ↦ simp bad (skips SkipReason.invalid_risk_plan)
      | inr good ↦
          elim (Bool-cases
            (fl.less (reward_risk fl p.entry p.target_2 p.risk p.side) cfg.minimum_reward_risk)) [
              | inl small ↦ simp (good, small) (skips SkipReason.insufficient_reward_risk)
              | inr enough ↦ simp (good, enough) taken
            ]
    ]

    entered_trade-cases :
        (f : Option (Feature F)) (eb b : Bar F) (past future : List (Bar F))
        → ((p : Plan F)
            → P (
                taken_trade fl env run_id c cfg regime bucket p eb.timestamp_utc
                  (walked p eb.timestamp_utc b future)))
        → P (entered_trade fl env run_id c f cfg regime bucket eb past (b ∷ future))
    entered_trade-cases f eb b past future taken =
        let entry = entry_price fl eb.open_price c.side cfg in
        elim (Option-cases (stop_of fl c f past entry c.side cfg)) [
          | inl missing ↦ simp missing (skips SkipReason.invalid_risk_plan)
          | inr (s, found) ↦
              let p = plan_of fl c cfg entry s in
              simp found (planned_trade-cases eb.timestamp_utc b future p (taken p))
        ]

    trade_from-cases :
        (f : Option (Feature F)) (past later : List (Bar F))
        → ((eb b : Bar F) (rest future : List (Bar F)) (p : Plan F)
            → later ≡ eb ∷ rest
            → future_bars cfg eb.timestamp_utc later ≡ b ∷ future
            → P (
                taken_trade fl env run_id c cfg regime bucket p eb.timestamp_utc
                  (walked p eb.timestamp_utc b future)))
        → P (trade_from fl env run_id c f cfg regime bucket past later)
    trade_from-cases f past [] taken = skips SkipReason.missing_entry_bar
    trade_from-cases f past (eb ∷ rest) taken =
        elim (List-cases (future_bars cfg eb.timestamp_utc (eb ∷ rest))) [
          | inl none_left ↦ rw none_left (skips SkipReason.no_future_bars)
          | inr (b, future, e) ↦
              rw e (entered_trade-cases f eb b past future (λ p. taken eb b rest future p refl e))
        ]

    pub simulate_candidate-cases :
        (bars : List (Bar F)) (f : Option (Feature F))
        → ((i : ℕ) (eb b : Bar F) (rest future : List (Bar F)) (p : Plan F)
            → index_at c.timestamp bars ≡ some i
            → drop (i + 1) bars ≡ eb ∷ rest
            → future_bars cfg eb.timestamp_utc (drop (i + 1) bars) ≡ b ∷ future
            → P (
                taken_trade fl env run_id c cfg regime bucket p eb.timestamp_utc
                  (walked p eb.timestamp_utc b future)))
        → P (simulate_candidate fl env run_id c bars f cfg regime bucket)
    unfolding simulate_candidate
    simulate_candidate-cases bars f taken = elim (Bool-cases (lacks_context cfg f)) [
      | inl short ↦ simp short (skips SkipReason.insufficient_context)
      | inr enough ↦ elim (Option-cases (index_at c.timestamp bars)) [
        | inl missing ↦ simp (enough, missing) (skips SkipReason.missing_entry_bar)
        | inr (i, found) ↦
            simp (enough, found)
              (trade_from-cases f (take (i + 2) bars) (drop (i + 1) bars)
                (λ eb b rest future p. taken i eb b rest future p found))
      ]
    ]

  -- A simulated trade is skipped and has no exit, or is taken and has the candidate's symbol and setup.
  pub simulate_candidate-outcome :
      (bars : List (Bar F)) (f : Option (Feature F))
      → let t = simulate_candidate fl env run_id c bars f cfg regime bucket in
        IsSkipped t ⊎ ((e : ℕ) × IsTakenOf c t e)
  unfolding skip
  simulate_candidate-outcome bars f =
      simulate_candidate-cases (λ t. IsSkipped t ⊎ ((e : ℕ) × IsTakenOf c t e))
        (λ r. inl (refl, refl)) bars f
        (λ i eb b rest future p h k l. inr (
          (walked p eb.timestamp_utc b future).exit_bar.timestamp_utc,
          record {
            is_taken = refl;
            exits = refl;
            its_signal = refl;
            its_symbol = refl;
            its_setup = refl;
            its_interval = refl;
          },
        ))
