-- ===== src/Replay/Ledger.antt =====
-- A replay that keeps no dictionaries and decides from the trades so far: what `replay` of
-- services/quant-engine/app/backtesting/replay.py promises. `before` has the latest trade first.
pub mod Books
pub mod Refinement
pub mod Limits
use simple_scanner.Common.{
  ℕ, String, Bool, true, false, not, ◌&&◌, ◌||◌, Option, none, some, List, [], ◌∷◌, ltb, leb,
  if◌then◌else◌, length, keep_if, str_eq,
}
use simple_scanner.Common.Floats.{Floats, zero_float}
use simple_scanner.Replay.Model.{
  SkipReason, ReplayConfig, Candidate, Env, SimulatedTrade, is_taken, is_counterfactual,
}
use simple_scanner.Replay.Portfolio.{candidate_skip, limit_reason, cooldown_end, sets_cooldown}
use simple_scanner.Replay.Engine.{
  SeenKey, is_seen, key_of, Inputs, candidate_regime, candidate_bucket, skipped_trade,
  simulated_trade, is_portfolio_block,
}

abbrev pub ends_after : ℕ → Option ℕ → Bool
ends_after n none = false
ends_after n (some e) = ltb n e

abbrev pub exit_or : Option ℕ → ℕ → ℕ
exit_or none n = n
exit_or (some e) n = e

module _ {F : Type 0} where
  -- Whether a trade was taken and ends after a time.
  abbrev pub is_open_at : ℕ → SimulatedTrade F → Bool
  is_open_at n t = is_taken t.status && ends_after n t.exit_timestamp_utc

  -- How many trades are open at a time, of one symbol and of all.
  abbrev pub open_of_symbol : String → ℕ → List (SimulatedTrade F) → ℕ
  open_of_symbol symbol n before =
      length (keep_if (λ t. str_eq t.symbol symbol && is_open_at n t) before)

  abbrev pub open_of_all : ℕ → List (SimulatedTrade F) → ℕ
  open_of_all n before = length (keep_if (is_open_at n) before)

  -- The exit of the latest trade taken of a symbol and setup.
  abbrev pub last_exit : String → String → List (SimulatedTrade F) → ℕ
  last_exit symbol setup [] = 0
  last_exit symbol setup (t ∷ ts) =
      let rest = last_exit symbol setup ts in
      if is_taken t.status && (str_eq t.symbol symbol && str_eq t.setup_type setup)
      then exit_or t.exit_timestamp_utc rest
      else rest

module _ {F : Type 0} (fl : Floats F) where
  abbrev pub is_loss : SimulatedTrade F → Bool
  is_loss t = fl.less t.realized_r (zero_float fl)

  -- The end of the cooldown that the latest trade of a symbol to set one has set.
  abbrev pub last_cooldown : ReplayConfig F → String → List (SimulatedTrade F) → ℕ
  last_cooldown cfg symbol [] = 0
  last_cooldown cfg symbol (t ∷ ts) =
      let rest = last_cooldown cfg symbol ts in
      if is_taken t.status && (str_eq t.symbol symbol && sets_cooldown cfg (is_loss t))
      then cooldown_end cfg t.interval (exit_or t.exit_timestamp_utc rest) (is_loss t)
      else rest

abbrev pub first_reason : Option SkipReason → Option SkipReason → Option SkipReason
first_reason none later = later
first_reason (some r) later = some r

-- A counterfactual replay holds no trade against a later one.
abbrev pub visible :
    {F : Type 0} → ReplayConfig F → List (SimulatedTrade F) → List (SimulatedTrade F)
visible cfg before = if is_counterfactual cfg then [] else before

module _ {F : Type 0} (fl : Floats F) (env : Env F) (inp : Inputs F) where
  abbrev pub history_reason : Candidate F → List (SimulatedTrade F) → Option SkipReason
  history_reason c before =
      if inp.config.enforce_portfolio_constraints
        && leb c.timestamp (last_cooldown fl inp.config c.symbol before)
      then some SkipReason.cooldown_active
      else limit_reason c inp.config (open_of_symbol c.symbol c.timestamp before)
          (open_of_all c.timestamp before) (last_exit c.symbol c.setup_type before)

  -- Why a candidate that does not come again is skipped before its trade is simulated.
  unfoldable pub ledger_reason : List (SimulatedTrade F) → Candidate F → Option SkipReason
  ledger_reason before c =
      first_reason
        (candidate_skip fl env c inp.config (candidate_regime fl env inp c)
          (candidate_bucket fl env inp c))
        (history_reason c (visible inp.config before))

  abbrev pub decided_trade : Candidate F → Option SkipReason → SimulatedTrade F
  decided_trade c none = simulated_trade fl env inp c
  decided_trade c (some r) = skipped_trade fl env inp c r (some (is_portfolio_block r))

  -- A candidate's trade, from the keys of the candidates and the trades before it.
  unfoldable pub ledger_trade :
      List SeenKey → List (SimulatedTrade F) → Candidate F → SimulatedTrade F
  ledger_trade seen before c =
      if is_seen (key_of c) seen
      then skipped_trade fl env inp c SkipReason.duplicate_candidate (some true)
      else decided_trade c (ledger_reason before c)

  unfoldable pub ledger_loop :
      List SeenKey → List (SimulatedTrade F) → List (Candidate F) → List (SimulatedTrade F)
  ledger_loop seen before [] = []
  ledger_loop seen before (c ∷ cs) =
      let t = ledger_trade seen before c in t ∷ ledger_loop (key_of c ∷ seen) (t ∷ before) cs
