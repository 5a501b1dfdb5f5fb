-- ===== src/Validation/Accepted.antt =====
-- What a validation accepts: `validate_trades` of services/quant-engine/app/validation/engine.py.
use simple_scanner.Common.{
  ℕ, ◌+◌, ◌≤◌, ◌≡◌, ◌↔◌, refl, String, Bool, true, false, List, [], ◌∷◌, some, arith,
}
use simple_scanner.Common.{leb, ◌&&◌, ◌++◌, if◌then◌else◌, ap, subst, inl, inr, Bool-cases}
use simple_scanner.Common.Texts.{chosen}
use simple_scanner.Common.Floats.{Floats, zero_float, float_or}
use simple_scanner.Replay.Metrics.{Statistics}
use simple_scanner.Backtest.Model.{SimulatedTrade, Summary}
use simple_scanner.Backtest.Engine.{summarize_trades}
use simple_scanner.Validation.Splits.{ValidationSplit}
use simple_scanner.Validation.Decision.{
  ActivationCriteria, WalkForwardWindow, is_given, is_tested, window_of, test_trades_of,
  all_test_trades, profit_concentration, decided, activation_decision, windows_from,
  validate_trades,
}

module _ {F : Type 0} where
  -- The trades that enter at `a` or later and at `b` or earlier, in their order.
  abbrev pub entered_within : ℕ → ℕ → List (SimulatedTrade F) → List (SimulatedTrade F)
  entered_within a b [] = []
  entered_within a b (t ∷ ts) =
      let rest = entered_within a b ts in
      if leb a t.entry_timestamp_utc && leb t.entry_timestamp_utc b then t ∷ rest else rest

  -- The trades of each test window, one window after another.
  abbrev pub entered_in_each :
      List ValidationSplit → List (SimulatedTrade F) → List (SimulatedTrade F)
  entered_in_each [] ts = []
  entered_in_each (w ∷ ws) ts = entered_within w.test_start w.test_end ts ++ entered_in_each ws ts

  test_trades_of-entered :
      (w : ValidationSplit) (ts : List (SimulatedTrade F))
      → test_trades_of ts w ≡ entered_within w.test_start w.test_end ts
  test_trades_of-entered w [] = refl
  test_trades_of-entered w (t ∷ ts) = elim (Bool-cases (is_tested w t)) [
    | inl e ↦ rw e (ap (◌∷◌ t) (test_trades_of-entered w ts))
    | inr e ↦ rw e (test_trades_of-entered w ts)
  ]

  all_test_trades-entered :
      (ws : List ValidationSplit) (ts : List (SimulatedTrade F))
      → all_test_trades ts ws ≡ entered_in_each ws ts
  unfolding all_test_trades
  all_test_trades-entered [] ts = refl
  all_test_trades-entered (w ∷ ws) ts =
      λ i. test_trades_of-entered w ts i ++ all_test_trades-entered ws ts i

module _ {F : Type 0} (fl : Floats F) (c : ActivationCriteria F) where
  -- The criteria of an acceptance.
  pub record IsAcceptable (m : Summary F) (leaks : List String) (ts : List (SimulatedTrade F))
      : Type 0 where
    pub enough : c.minimum_trades ≤ m.total_trades
    pub gains :
        fl.at_most (float_or fl (some m.average_r) (zero_float fl)) c.minimum_average_r ≡ false
    pub factor :
        fl.at_most (float_or fl (some m.profit_factor) (zero_float fl)) c.minimum_profit_factor
        ≡ false
    pub drawdown :
        fl.less (float_or fl (some m.max_drawdown_r) (zero_float fl)) c.maximum_drawdown_r ≡ false
    pub no_leaks : leaks ≡ []
    pub symbols :
        fl.less c.maximum_symbol_profit_share (profit_concentration fl ts (λ t. t.symbol)) ≡ false
    pub setups :
        fl.less c.maximum_setup_profit_share (profit_concentration fl ts (λ t. t.setup_type))
        ≡ false

  decided-accepted :
      (a b d e g h i : Bool) (r1 r2 r3 r4 r5 r6 r7 : String)
      → let reasons =
          chosen ((a, r1) ∷ (b, r2) ∷ (d, r3) ∷ (e, r4) ∷ (g, r5) ∷ (h, r6) ∷ (i, r7) ∷ []) in
        ((decided fl reasons).accepted ≡ true) ↔ (
          (a ≡ false)
          × (b ≡ false)
          × (d ≡ false)
          × (e ≡ false)
          × (g ≡ false)
          × (h ≡ false)
          × (i ≡ false))
  decided-accepted true b d e g h i r1 r2 r3 r4 r5 r6 r7 = ground arith
  decided-accepted false true d e g h i r1 r2 r3 r4 r5 r6 r7 = ground arith
  decided-accepted false false true e g h i r1 r2 r3 r4 r5 r6 r7 = ground arith
  decided-accepted false false false true g h i r1 r2 r3 r4 r5 r6 r7 = ground arith
  decided-accepted false false false false true h i r1 r2 r3 r4 r5 r6 r7 = ground arith
  decided-accepted false false false false false h i r1 r2 r3 r4 r5 r6 r7 = ground arith

  none_given : (leaks : List String) → is_given leaks ≡ false → leaks ≡ []
  none_given [] e = refl
  none_given (w ∷ ws) e = cc

  activation_decision-accepted :
      (m : Summary F) (leaks : List String) (ts : List (SimulatedTrade F))
      → ((activation_decision fl c m leaks ts).accepted ≡ true) ↔ IsAcceptable m leaks ts
  unfolding activation_decision
  activation_decision-accepted m leaks ts =
      let both = decided-accepted _ _ _ _ _ _ _ _ _ _ _ _ _ _ in
      (
        λ e.
            let (few, gain, factor, drop, leak, symbol, setup) = both.0 e in
            record {
              enough = ground (arith, few);
              gains = gain;
              factor = factor;
              drawdown = drop;
              no_leaks = none_given leaks leak;
              symbols = symbol;
              setups = setup;
            },
        λ h. both.1 (
          ground (arith, h.enough),
          h.gains,
          h.factor,
          h.drawdown,
          rw h.no_leaks refl,
          h.symbols,
          h.setups,
        ),
      )

  module _ (st : Statistics F) where
    -- One window for each split, in their order and numbered from `n` on: its metrics are the summary of
    -- the trades that enter in its test, and it is accepted exactly if these meet the criteria, which is
    -- where it has no reason of rejection.
    abbrev pub AreWindows :
        List (SimulatedTrade F)
        → List String
        → ℕ
        → List ValidationSplit
        → List (WalkForwardWindow F)
        → Type 0
    AreWindows trades leaks n [] vs = vs ≡ []
    AreWindows trades leaks n (w ∷ ws) vs =
        let tested = entered_within w.test_start w.test_end trades in
        (v : WalkForwardWindow F) × (rest : List (WalkForwardWindow F)) × (vs ≡ v ∷ rest)
        × (v.window_index ≡ n)
        × (v.split ≡ w)
        × (v.metrics ≡ summarize_trades fl st tested 0)
        × ((v.accepted ≡ true) ↔ IsAcceptable v.metrics leaks tested)
        × ((v.accepted ≡ true) ↔ (v.rejection_reasons ≡ []))
        × AreWindows trades leaks (n + 1) ws rest

    decided-reasons :
        (rs : List String)
        → ((decided fl rs).accepted ≡ true) ↔ ((decided fl rs).rejection_reasons ≡ [])
    decided-reasons [] = ((λ e. refl), λ e. refl)
    decided-reasons (r ∷ rs) = ((λ e. cc), λ e. cc)

    activation_decision-reasons :
        (m : Summary F) (leaks : List String) (ts : List (SimulatedTrade F))
        → let d = activation_decision fl c m leaks ts in
          (d.accepted ≡ true) ↔ (d.rejection_reasons ≡ [])
    unfolding activation_decision
    activation_decision-reasons m leaks ts = decided-reasons _

    -- A decision on the trades found is one on those specified.
    decision-accepted :
        (leaks : List String) (found ts : List (SimulatedTrade F))
        → found ≡ ts
        → let m = summarize_trades fl st found 0 in
          ((activation_decision fl c m leaks found).accepted ≡ true) ↔ IsAcceptable m leaks ts
    decision-accepted leaks found ts e =
        subst
          (λ us.
            ((activation_decision fl c (summarize_trades fl st found 0) leaks found).accepted
              ≡ true)
            ↔ IsAcceptable (summarize_trades fl st found 0) leaks us)
          e (activation_decision-accepted (summarize_trades fl st found 0) leaks found)

    windows_from-AreWindows :
        (trades : List (SimulatedTrade F)) (leaks : List String) (n : ℕ) (ws : List ValidationSplit)
        → AreWindows trades leaks n ws (windows_from fl st c trades leaks n ws)
    unfolding windows_from
    windows_from-AreWindows trades leaks n [] = refl
    windows_from-AreWindows trades leaks n (w ∷ ws) =
        let tested = test_trades_of trades w in
        let same = test_trades_of-entered w trades in
        (
          window_of fl st c trades leaks n w,
          windows_from fl st c trades leaks (n + 1) ws,
          refl,
          refl,
          refl,
          ap (λ us. summarize_trades fl st us 0) same,
          decision-accepted leaks tested (entered_within w.test_start w.test_end trades) same,
          activation_decision-reasons (summarize_trades fl st tested 0) leaks tested,
          windows_from-AreWindows trades leaks (n + 1) ws,
        )

    -- The summary of a validation is that of the trades that enter in the test of each split, split after
    -- split; it is accepted exactly if these meet the criteria and there are no leakage warnings, which is
    -- where it has no reason of rejection. It has one window for each split, in their order and numbered
    -- from 1, with the summary of the trades that enter in its own test, accepted on the same terms.
    pub validate_trades-accepted :
        (trades : List (SimulatedTrade F)) (splits : List ValidationSplit) (leaks : List String)
        → let report = validate_trades fl st c trades splits leaks in
          let tested = entered_in_each splits trades in
          (report.summary ≡ summarize_trades fl st tested 0)
          × ((report.accepted ≡ true) ↔ IsAcceptable report.summary leaks tested)
          × ((report.accepted ≡ true) ↔ (report.rejection_reasons ≡ []))
          × AreWindows trades leaks 1 splits report.windows
    unfolding validate_trades
    validate_trades-accepted trades splits leaks =
        let found = all_test_trades trades splits in
        let same = all_test_trades-entered splits trades in
        (
          ap (λ us. summarize_trades fl st us 0) same,
          decision-accepted leaks found (entered_in_each splits trades) same,
          activation_decision-reasons (summarize_trades fl st found 0) leaks found,
          windows_from-AreWindows trades leaks 1 splits,
        )
