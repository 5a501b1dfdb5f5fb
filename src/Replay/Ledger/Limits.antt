-- ===== src/Replay/Ledger/Limits.antt =====
-- The limits on open trades that `replay` of services/quant-engine/app/backtesting/replay.py keeps.
use simple_scanner.Common.{
  ℕ, ◌<◌, ◌≡◌, refl, subst, inl, inr, String, Bool, true, false, not, ◌&&◌, Option, none, some,
  List, [], ◌∷◌, arith, leb, if◌then◌else◌, Bool-cases,
}
use simple_scanner.Common.Int.{pos, leb_ℤ}
use simple_scanner.Common.Floats.{Floats}
use simple_scanner.Replay.Model.{
  SkipReason, ReplayConfig, Bar, Candidate, Feature, Env, SimulatedTrade, TradeStatus,
  is_counterfactual,
}
use simple_scanner.Replay.Portfolio.{candidate_skip, limit_reason}
use simple_scanner.Replay.Selection.{selected_candidates}
use simple_scanner.Replay.Engine.{
  SeenKey, is_seen, key_of, Inputs, candidate_regime, candidate_bucket, inputs_of, replay,
  is_portfolio_block,
}
use simple_scanner.Replay.Ledger.{
  visible, open_of_symbol, open_of_all, last_exit, last_cooldown, history_reason, ledger_reason,
  first_reason, decided_trade, ledger_trade, ledger_loop,
}
use simple_scanner.Replay.Ledger.Refinement.{
  simulated_trade-outcome, skipped_trade-IsSkipped, replay-refines,
}

-- Guards that one after another let pass.
four_guards :
    (a b c d : SkipReason) (p q r s : Bool)
    → (if p then some a else if q then some b else if r then some c else if s then some d else none)
      ≡ none
    → (p ≡ false) × (q ≡ false) × (r ≡ false) × (s ≡ false)
four_guards a b c d false false false false h = (refl, refl, refl, refl)
four_guards a b c d true q r s h = cc
four_guards a b c d false true r s h = cc
four_guards a b c d false false true s h = cc
four_guards a b c d false false false true h = cc

leb→lt : (a b : ℕ) → leb a b ≡ false → b < a
leb→lt a b h = ground arith

-- What is said of a trade only if it was taken.
abbrev pub OnTaken : TradeStatus → Type 0 → Type 0
OnTaken TradeStatus.taken P = P
OnTaken TradeStatus.skipped P = Unit

module _ {F : Type 0} where
  -- Each trade taken has it at its signal, against the trades before it.
  abbrev pub KeepsEach :
      (List (SimulatedTrade F) → ℕ → String → String → Type 0)
      → List (SimulatedTrade F)
      → List (SimulatedTrade F)
      → Type 0
  KeepsEach R before [] = Unit
  KeepsEach R before (t ∷ ts) =
      OnTaken t.status (R before t.signal_timestamp_utc t.symbol t.setup_type)
      × KeepsEach R (t ∷ before) ts

module _ {F : Type 0} (fl : Floats F) (cfg : ReplayConfig F) where
  -- Fewer trades than the limit of the portfolio are open, and the cooldown of the symbol is over.
  abbrev pub IsInPortfolio : List (SimulatedTrade F) → ℕ → String → String → Type 0
  IsInPortfolio before signal symbol setup =
      (leb_ℤ cfg.max_open_trades_portfolio (pos (open_of_all signal before)) ≡ false)
      × (last_cooldown fl cfg symbol before < signal)

  -- Fewer trades of the symbol than the limit are open.
  abbrev pub IsInSymbol : List (SimulatedTrade F) → ℕ → String → String → Type 0
  IsInSymbol before signal symbol setup =
      leb_ℤ cfg.max_open_trades_per_symbol (pos (open_of_symbol symbol signal before)) ≡ false

-- The last trade of the symbol and setup has ended.
abbrev pub IsAfterSetup : {F : Type 0} → List (SimulatedTrade F) → ℕ → String → String → Type 0
IsAfterSetup before signal symbol setup = last_exit symbol setup before < signal

module _ {F : Type 0} (fl : Floats F) (env : Env F) (inp : Inputs F) where
  first_reason-none : (o p : Option SkipReason) → first_reason o p ≡ none → p ≡ none
  first_reason-none none p h = h
  first_reason-none (some r) p h = cc

  -- A rule for what holds of a trade that is taken, by its signal, symbol and setup.
  module _ (Q : ℕ → String → String → Type 0) (c : Candidate F) where
    decided_trade-taken :
        (o : Option SkipReason)
        → (o ≡ none → Q c.timestamp c.symbol c.setup_type)
        → let t = decided_trade fl env inp c o in
          OnTaken t.status (Q t.signal_timestamp_utc t.symbol t.setup_type)
    decided_trade-taken (some r) q =
        rw (skipped_trade-IsSkipped fl env inp c r (some (is_portfolio_block r))) tt
    decided_trade-taken none q = elim (simulated_trade-outcome fl env inp c) [
      | inl skips ↦ rw skips.0 tt
      | inr (e, taken) ↦
          simp (taken.is_taken, taken.its_signal, taken.its_symbol, taken.its_setup) (q refl)
    ]

    ledger_trade-taken :
        (seen : List SeenKey) (before : List (SimulatedTrade F))
        → is_counterfactual inp.config ≡ false
        → (history_reason fl env inp c before ≡ none → Q c.timestamp c.symbol c.setup_type)
        → let t = ledger_trade fl env inp seen before c in
          OnTaken t.status (Q t.signal_timestamp_utc t.symbol t.setup_type)
    unfolding ledger_trade ledger_reason
    ledger_trade-taken seen before real q = elim (Bool-cases (is_seen (key_of c) seen)) [
      | inl again ↦
          simp again (
            rw (skipped_trade-IsSkipped fl env inp c SkipReason.duplicate_candidate (some true)) tt)
      | inr fresh ↦ simp fresh (
          decided_trade-taken (ledger_reason fl env inp before c) (λ e.
            let shown : visible inp.config before ≡ before = rw real refl in
            q (
              subst (λ b. history_reason fl env inp c b ≡ none) shown
                (first_reason-none
                  (candidate_skip fl env c inp.config (candidate_regime fl env inp c)
                    (candidate_bucket fl env inp c))
                  (history_reason fl env inp c (visible inp.config before)) e))))
    ]

  -- What the guards that let a candidate pass say.
  history_reason-none :
      (c : Candidate F) (before : List (SimulatedTrade F))
      → history_reason fl env inp c before ≡ none
      → (inp.config.enforce_portfolio_constraints
            && leb c.timestamp (last_cooldown fl inp.config c.symbol before)
          ≡ false)
        × (inp.config.enforce_symbol_overlap
              && not inp.config.allow_overlapping_trades
              && leb_ℤ inp.config.max_open_trades_per_symbol
                  (pos (open_of_symbol c.symbol c.timestamp before))
            ≡ false)
        × (inp.config.enforce_portfolio_constraints
              && leb_ℤ inp.config.max_open_trades_portfolio (pos (open_of_all c.timestamp before))
            ≡ false)
        × (inp.config.enforce_symbol_overlap
              && inp.config.one_trade_per_setup_per_symbol_until_exit
              && leb c.timestamp (last_exit c.symbol c.setup_type before)
            ≡ false)
  unfolding limit_reason
  history_reason-none c before h = four_guards _ _ _ _ _ _ _ _ h

  history_reason-portfolio :
      (c : Candidate F) (before : List (SimulatedTrade F))
      → inp.config.enforce_portfolio_constraints ≡ true
      → history_reason fl env inp c before ≡ none
      → IsInPortfolio fl inp.config before c.timestamp c.symbol c.setup_type
  history_reason-portfolio c before h k =
      let g = history_reason-none c before k in (simp h at g.2, leb→lt _ _ (simp h at g.0))

  history_reason-symbol :
      (c : Candidate F) (before : List (SimulatedTrade F))
      → inp.config.enforce_symbol_overlap ≡ true
      → inp.config.allow_overlapping_trades ≡ false
      → history_reason fl env inp c before ≡ none
      → IsInSymbol fl inp.config before c.timestamp c.symbol c.setup_type
  history_reason-symbol c before h l k =
      let g = history_reason-none c before k in simp (h, l) at g.1

  history_reason-setup :
      (c : Candidate F) (before : List (SimulatedTrade F))
      → inp.config.enforce_symbol_overlap ≡ true
      → inp.config.one_trade_per_setup_per_symbol_until_exit ≡ true
      → history_reason fl env inp c before ≡ none
      → IsAfterSetup before c.timestamp c.symbol c.setup_type
  history_reason-setup c before h l k =
      let g = history_reason-none c before k in leb→lt _ _ (simp (h, l) at g.3)

  ledger_loop-KeepsEach :
      (R : List (SimulatedTrade F) → ℕ → String → String → Type 0)
      → is_counterfactual inp.config ≡ false
      → ((c : Candidate F) (before : List (SimulatedTrade F))
          → history_reason fl env inp c before ≡ none
          → R before c.timestamp c.symbol c.setup_type)
      → (seen : List SeenKey) (before : List (SimulatedTrade F)) (cs : List (Candidate F))
      → KeepsEach R before (ledger_loop fl env inp seen before cs)
  unfolding ledger_loop
  ledger_loop-KeepsEach R real q seen before [] = tt
  ledger_loop-KeepsEach R real q seen before (c ∷ cs) = (
    ledger_trade-taken (R before) c seen before real (q c before),
    ledger_loop-KeepsEach R real q (key_of c ∷ seen)
        (ledger_trade fl env inp seen before c ∷ before) cs,
  )

module _ {F : Type 0} (fl : Floats F) (env : Env F) (bars : List (Bar F))
    (features : List (Feature F)) (candidates : List (Candidate F)) (cfg : ReplayConfig F)
    (run_id : String) (real : is_counterfactual cfg ≡ false) where
  abbrev inputs : Inputs F
  inputs = inputs_of fl env bars features (selected_candidates fl cfg candidates) cfg run_id

  replay-KeepsEach :
      (R : List (SimulatedTrade F) → ℕ → String → String → Type 0)
      → ((c : Candidate F) (before : List (SimulatedTrade F))
          → history_reason fl env inputs c before ≡ none
          → R before c.timestamp c.symbol c.setup_type)
      → KeepsEach R [] (replay fl env bars features candidates cfg run_id)
  replay-KeepsEach R q =
      rw (replay-refines fl env bars features candidates cfg run_id)
        (ledger_loop-KeepsEach fl env inputs R real q [] [] (selected_candidates fl cfg candidates))

  -- In a replay that is not counterfactual and enforces the constraints of the portfolio, whenever a
  -- trade is taken, fewer of the trades taken before it are open at its signal than the limit of the
  -- portfolio, and the latest cooldown that a trade of its symbol has set is over.
  pub replay-IsInPortfolio :
      cfg.enforce_portfolio_constraints ≡ true
      → KeepsEach (IsInPortfolio fl cfg) [] (replay fl env bars features candidates cfg run_id)
  replay-IsInPortfolio h =
      replay-KeepsEach (IsInPortfolio fl cfg)
        (λ c before. history_reason-portfolio fl env inputs c before h)

  -- In a replay that is not counterfactual, enforces the overlap of symbols and allows no overlapping
  -- trades, whenever a trade is taken, fewer of the trades of its symbol taken before it are open at its
  -- signal than the limit for a symbol.
  pub replay-IsInSymbol :
      cfg.enforce_symbol_overlap ≡ true
      → cfg.allow_overlapping_trades ≡ false
      → KeepsEach (IsInSymbol fl cfg) [] (replay fl env bars features candidates cfg run_id)
  replay-IsInSymbol h l =
      replay-KeepsEach (IsInSymbol fl cfg)
        (λ c before. history_reason-symbol fl env inputs c before h l)

  -- In a replay that is not counterfactual, enforces the overlap of symbols and takes one trade per
  -- setup and symbol until its exit, each trade taken has its signal after the exit of the last trade
  -- taken before it with its symbol and setup.
  pub replay-IsAfterSetup :
      cfg.enforce_symbol_overlap ≡ true
      → cfg.one_trade_per_setup_per_symbol_until_exit ≡ true
      → KeepsEach IsAfterSetup [] (replay fl env bars features candidates cfg run_id)
  replay-IsAfterSetup h l =
      replay-KeepsEach IsAfterSetup (λ c before. history_reason-setup fl env inputs c before h l)
