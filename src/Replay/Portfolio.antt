-- ===== src/Replay/Portfolio.antt =====
-- The open trades of a replay and `_preflight_skip`: services/quant-engine/app/backtesting/replay.py.
use simple_scanner.Common.{
  ℕ, String, Bool, false, not, ◌&&◌, ◌||◌, Option, none, some, List, [], ◌∷◌, ◌++◌, ltb, leb,
  if◌then◌else◌, length, keep_if, str_eq,
}
use simple_scanner.Common.Int.{ℤ, pos, leb_ℤ, ltb_ℤ, ◌+ℤ◌}
use simple_scanner.Common.Floats.{Floats, zero_float, filled_float}
use simple_scanner.Common.Dict.{get_or, put, text_key, texts_key, append_at}
use simple_scanner.Common.Texts.{member}
use simple_scanner.Replay.Model.{
  SkipReason, ReplayConfig, Candidate, Env, SimulatedTrade, is_taken, is_counterfactual,
  interval_of, interval_minutes, plus_minutes, times_ℤ,
}

-- The running dictionaries of `replay`; a time that is missing counts as `datetime.min`.
pub record Book : Type 0 where
  pub open_until_symbol : List (String × List ℕ)
  pub open_until_portfolio : List ℕ
  pub open_until_setup : List ((String × String) × ℕ)
  pub cooldown_until : List (String × ℕ)

abbrev pub empty_book : Book
empty_book = record {
  open_until_symbol = [];
  open_until_portfolio = [];
  open_until_setup = [];
  cooldown_until = [];
}

-- `[value for value in values if value > timestamp]`
abbrev pub active_at : ℕ → List ℕ → List ℕ
active_at t until = keep_if (λ u. ltb t u) until

abbrev pub no_times : List ℕ
no_times = []

-- The trades that have ended leave the lists.
unfoldable pub pruned : String → ℕ → Book → Book
unfolding put get_or
pruned symbol t book = record book {
  open_until_symbol =
      put symbol (active_at t (get_or symbol no_times book.open_until_symbol))
        book.open_until_symbol;
  open_until_portfolio = active_at t book.open_until_portfolio;
}

-- `RTH_START_MINUTE <= minute < RTH_END_MINUTE`
unfoldable pub is_rth : {F : Type 0} → Env F → ℕ → Bool
is_rth env t = leb 570 (env.minute_of_day_et t) && ltb (env.minute_of_day_et t) 960

abbrev pub whole : ℤ → ℕ
whole (pos n) = n
whole i = 0

-- A filter that is empty lets everything pass.
abbrev pub is_excluded : String → List String → Bool
is_excluded text [] = false
is_excluded text (s ∷ ss) = not (member text (s ∷ ss))

module _ {F : Type 0} (fl : Floats F) (env : Env F) where
  abbrev pub too_unsure : ReplayConfig F → Candidate F → Bool
  too_unsure cfg c = elim cfg.minimum_confidence [
    | none ↦ false
    | some minimum ↦ elim (filled_float fl c.confidence_score c.signal_score) [
      | none ↦ false
      | some confidence ↦ fl.less confidence minimum
    ]
  ]

  -- The guards that look at the candidate alone.
  unfoldable pub candidate_skip : Candidate F → ReplayConfig F → String → String → Option SkipReason
  unfolding is_rth member
  candidate_skip c cfg regime bucket =
      if not (str_eq c.side "LONG" || str_eq c.side "SHORT")
      then some SkipReason.data_quality_block
      else if str_eq cfg.session "rth" && not (is_rth env c.timestamp)
      then some SkipReason.outside_session
      else if is_excluded regime cfg.market_regime_filter
      then some SkipReason.regime_filter_block
      else if is_excluded bucket cfg.time_bucket_filter
      then some SkipReason.regime_filter_block
      else if too_unsure cfg c
      then some SkipReason.data_quality_block
      else none

module _ {F : Type 0} where
  abbrev pub in_cooldown : Candidate F → ReplayConfig F → Book → Bool
  in_cooldown c cfg book =
      cfg.enforce_portfolio_constraints && leb c.timestamp (get_or c.symbol 0 book.cooldown_until)

  -- The guards on the open trades: `in_symbol` of the symbol, `in_all` of all, and the last exit of the
  -- symbol and setup.
  unfoldable pub limit_reason : Candidate F → ReplayConfig F → ℕ → ℕ → ℕ → Option SkipReason
  limit_reason c cfg in_symbol in_all setup_exit =
      if cfg.enforce_symbol_overlap
        && not cfg.allow_overlapping_trades
        && leb_ℤ cfg.max_open_trades_per_symbol (pos in_symbol)
      then some SkipReason.overlapping_trade
      else if cfg.enforce_portfolio_constraints && leb_ℤ cfg.max_open_trades_portfolio (pos in_all)
      then some SkipReason.portfolio_trade_limit
      else if cfg.enforce_symbol_overlap
          && cfg.one_trade_per_setup_per_symbol_until_exit
          && leb c.timestamp setup_exit
      then some SkipReason.overlapping_trade
      else none

  -- They look at the book after the trades that have ended have left it.
  unfoldable pub limit_skip : Candidate F → ReplayConfig F → Book → Option SkipReason
  unfolding get_or limit_reason
  limit_skip c cfg book =
      limit_reason c cfg (length (get_or c.symbol no_times book.open_until_symbol))
        (length book.open_until_portfolio) (get_or (c.symbol, c.setup_type) 0 book.open_until_setup)

  -- `cooldown_until[symbol]` after a trade, if it is set.
  abbrev pub cooldown_bars : ReplayConfig F → Bool → ℤ
  cooldown_bars cfg lost =
      if lost then cfg.cooldown_bars_after_loss else cfg.cooldown_bars_after_trade

  unfoldable pub cooldown_end : ReplayConfig F → String → ℕ → Bool → ℕ
  unfolding interval_minutes plus_minutes ◌+ℤ◌
  cooldown_end cfg interval exit lost =
      whole (plus_minutes exit (times_ℤ (interval_minutes interval) (cooldown_bars cfg lost)))

  abbrev pub sets_cooldown : ReplayConfig F → Bool → Bool
  sets_cooldown cfg lost = ltb_ℤ (pos 0) (cooldown_bars cfg lost)

  unfoldable pub with_cooldown :
      ReplayConfig F → Candidate F → ℕ → Bool → List (String × ℕ) → List (String × ℕ)
  unfolding put cooldown_end
  with_cooldown cfg c exit lost until =
      if sets_cooldown cfg lost
      then put c.symbol (cooldown_end cfg (interval_of c) exit lost) until
      else until

  -- A trade that is taken is open until its exit.
  unfoldable pub opened : ReplayConfig F → Candidate F → ℕ → Bool → Book → Book
  unfolding put append_at with_cooldown
  opened cfg c exit lost book = record {
    open_until_symbol = append_at c.symbol exit book.open_until_symbol;
    open_until_portfolio = book.open_until_portfolio ++ exit ∷ [];
    open_until_setup = put (c.symbol, c.setup_type) exit book.open_until_setup;
    cooldown_until = with_cooldown cfg c exit lost book.cooldown_until;
  }

  abbrev pub opened_until : ReplayConfig F → Candidate F → Option ℕ → Bool → Book → Book
  opened_until cfg c none lost book = book
  opened_until cfg c (some exit) lost book = opened cfg c exit lost book

  -- The rest of `_preflight_skip`, after the guards on the candidate alone.
  abbrev pub preflight_book :
      Candidate F → ReplayConfig F → Book → Option SkipReason → Option SkipReason × Book
  preflight_book c cfg book (some reason) = (some reason, book)
  preflight_book c cfg book none =
      if in_cooldown c cfg book
      then (some SkipReason.cooldown_active, book)
      else (limit_skip c cfg (pruned c.symbol c.timestamp book), pruned c.symbol c.timestamp book)

module _ {F : Type 0} (fl : Floats F) (env : Env F) where
  -- `_preflight_skip`
  unfoldable pub preflight_skip :
      Candidate F → ReplayConfig F → String → String → Book → Option SkipReason × Book
  preflight_skip c cfg regime bucket book =
      preflight_book c cfg book (candidate_skip fl env c cfg regime bucket)

  -- What a trade leaves in the book: one that was taken, outside a counterfactual replay.
  unfoldable pub after_trade : ReplayConfig F → Candidate F → SimulatedTrade F → Book → Book
  after_trade cfg c t book =
      if is_taken t.status && not (is_counterfactual cfg)
      then opened_until cfg c t.exit_timestamp_utc (fl.less t.realized_r (zero_float fl)) book
      else book
