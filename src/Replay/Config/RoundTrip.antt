-- ===== src/Replay/Config/RoundTrip.antt =====
-- Settings that are stored and read again: `from_payload` and `to_dict` of
-- services/quant-engine/app/backtesting/replay.py.
use mathlib.Core.List.{map}
use simple_scanner.Common.{
  zero, suc, String, false, not, ◌&&◌, ◌≡◌, refl, ap, inl, inr, Option, none, some, List, [], ◌∷◌,
  Bool-cases, Option-cases, subst, sym, str_eq,
}
use simple_scanner.Common.Int.{ℤ, pos, negsuc, int_or}
use simple_scanner.Common.Texts.{member, is_filled, text_or}
use simple_scanner.Common.Floats.{Floats, zero_float, float_or, is_zero}
use simple_scanner.Replay.Model.{Settings, filled_or, counterfactual_purpose}
use simple_scanner.Replay.Config.{
  TextOps, Moment, in_utc?, parsed, read_date, write_date, config_between, Sides, one_side, listed,
  Payload, list_or, both_sides, normalize_symbol, normalize_onto, normalize_symbols, sides_of,
  purpose_asked, simulation_type_of, purpose_of, config_of, from_payload, to_payload,
}

-- What `str` and `datetime` do: upper case a second time, and of a text that is cleaned, changes nothing,
-- and what `isoformat` writes is read as it was.
pub record IsUsual (ops : TextOps) : Type 0 where
  pub upper_again : (s : String) → ops.upper (ops.upper s) ≡ ops.upper s
  pub clean_again :
      (s : String) → ops.upper (ops.strip (ops.upper (ops.strip s))) ≡ ops.upper (ops.strip s)
  pub upper_long : ops.upper "LONG" ≡ "LONG"
  pub upper_short : ops.upper "SHORT" ≡ "SHORT"
  pub upper_both : ops.upper "BOTH" ≡ "BOTH"
  pub clean_aapl : ops.upper (ops.strip "AAPL") ≡ "AAPL"
  pub read_again : (m : Moment) → ops.fromisoformat (ops.isoformat m) ≡ some m

-- A default that is taken, or not needed, is not taken again.
filled_or-default : (d : String) → filled_or (some d) d ≡ d
filled_or-default d = elim (Bool-cases (str_eq d "")) [ inl e ↦ simp e refl | inr e ↦ simp e refl ]

filled_or-again :
    (o : Option String) (d : String) → filled_or (some (filled_or o d)) d ≡ filled_or o d
filled_or-again none d = filled_or-default d
filled_or-again (some s) d = elim (Bool-cases (str_eq s "")) [
  | inl e ↦ simp e (filled_or-default d)
  | inr e ↦ simp (e, e) refl
]

int_or-default : (d : ℤ) → int_or (some d) d ≡ d
int_or-default (pos zero) = refl
int_or-default (pos (suc n)) = refl
int_or-default (negsuc n) = refl

int_or-again : (o : Option ℤ) (d : ℤ) → int_or (some (int_or o d)) d ≡ int_or o d
int_or-again none d = int_or-default d
int_or-again (some (pos zero)) d = int_or-default d
int_or-again (some (pos (suc n))) d = refl
int_or-again (some (negsuc n)) d = refl

float_or-default : {F : Type 0} (fl : Floats F) (d : F) → float_or fl (some d) d ≡ d
float_or-default fl d = elim (Bool-cases (is_zero fl d)) [
  | inl e ↦ simp e refl
  | inr e ↦ simp e refl
]

float_or-again :
    {F : Type 0} (fl : Floats F) (o : Option F) (d : F)
    → float_or fl (some (float_or fl o d)) d ≡ float_or fl o d
float_or-again fl none d = float_or-default fl d
float_or-again fl (some a) d = elim (Bool-cases (is_zero fl a)) [
  | inl e ↦ simp e (float_or-default fl d)
  | inr e ↦ simp (e, e) refl
]

list_or-again : (ss ds : List String) → list_or (list_or ss ds) ds ≡ list_or ss ds
list_or-again [] [] = refl
list_or-again [] (d ∷ ds) = refl
list_or-again (s ∷ ss) ds = refl

module _ (ops : TextOps) (usual : IsUsual ops) where
  normalize_symbol-again :
      (s : String) → normalize_symbol ops (normalize_symbol ops s) ≡ normalize_symbol ops s
  unfolding normalize_symbol
  normalize_symbol-again s = elim (Bool-cases (str_eq (ops.upper (ops.strip s)) "APPL")) [
    | inl typo ↦ simp (typo, usual.clean_aapl) refl
    | inr fine ↦ simp (fine, usual.clean_again s, fine) refl
  ]

  normalize_onto-again :
      (seen raws : List String)
      → normalize_onto ops seen (normalize_onto ops seen raws) ≡ normalize_onto ops seen raws
  unfolding normalize_onto
  normalize_onto-again seen [] = refl
  normalize_onto-again seen (raw ∷ raws) =
      let s = normalize_symbol ops raw in
      elim (Bool-cases (is_filled s && not (member s seen))) [
        | inl new ↦
            simp (new, normalize_symbol-again raw, new)
              (ap (◌∷◌ s) (normalize_onto-again (s ∷ seen) raws))
        | inr old ↦ simp old (normalize_onto-again seen raws)
      ]

  map-upper-again : (ss : List String) → map ops.upper (map ops.upper ss) ≡ map ops.upper ss
  map-upper-again [] = refl
  map-upper-again (s ∷ ss) = rw (usual.upper_again s, map-upper-again ss) refl

  sides_of-again :
      (o : Option Sides) → sides_of ops (some (listed (sides_of ops o))) ≡ sides_of ops o
  unfolding sides_of
  sides_of-again none = map-upper-again both_sides
  sides_of-again (some (listed [])) = map-upper-again both_sides
  sides_of-again (some (listed (s ∷ ss))) = map-upper-again (s ∷ ss)
  sides_of-again (some (one_side s)) = elim (Bool-cases (is_filled s)) [
    | inr empty ↦ simp empty (map-upper-again both_sides)
    | inl filled ↦ elim (Bool-cases (str_eq (ops.upper s) "BOTH")) [
      | inl both ↦ simp (filled, both) (rw (usual.upper_long, usual.upper_short) refl)
      | inr one ↦ simp (filled, one) (rw (usual.upper_again s) refl)
    ]
  ]

-- A text that is not empty.
abbrev IsFilled : String → Type 0
IsFilled s = str_eq s "" ≡ false

filled_or-IsFilled : (o : Option String) (d : String) → IsFilled d → IsFilled (filled_or o d)
filled_or-IsFilled none d h = h
filled_or-IsFilled (some s) d h = elim (Bool-cases (str_eq s "")) [
  | inl e ↦ simp e h
  | inr e ↦ simp (e, e) refl
]

purpose_of-IsFilled : (t p : String) → IsFilled p → IsFilled (purpose_of t p)
unfolding purpose_of
purpose_of-IsFilled t p h = elim (Bool-cases (str_eq t "model_training_counterfactual")) [
  | inl e ↦ simp e refl
  | inr e ↦ simp e h
]

simulation_type_of-IsFilled : (o : Option String) (p : String) → IsFilled (simulation_type_of o p)
unfolding simulation_type_of
simulation_type_of-IsFilled o p = elim (Bool-cases (str_eq p counterfactual_purpose)) [
  | inl e ↦ simp e (filled_or-IsFilled o "model_training_counterfactual" refl)
  | inr e ↦ simp e (filled_or-IsFilled o "candidate_market_replay" refl)
]

purpose_asked-IsFilled : (o q : Option String) → IsFilled (purpose_asked o q)
unfolding purpose_asked
purpose_asked-IsFilled o q = filled_or-IsFilled (text_or o q) "portfolio_execution" refl

purpose_of-again : (t p : String) → purpose_of t (purpose_of t p) ≡ purpose_of t p
unfolding purpose_of
purpose_of-again t p = elim (Bool-cases (str_eq t "model_training_counterfactual")) [
  | inl e ↦ simp e refl
  | inr e ↦ simp (e, e) refl
]

purpose_asked-of : (p : String) → IsFilled p → purpose_asked (some p) none ≡ p
unfolding purpose_asked
purpose_asked-of p h = simp (h, h) refl

simulation_type_of-of : (t p : String) → IsFilled t → simulation_type_of (some t) p ≡ t
unfolding simulation_type_of
simulation_type_of-of t p h = simp h refl

some_injective : {A : Type 0} {a b : A} → some a ≡ some b → a ≡ b
some_injective e = cc

module _ {F : Type 0} (fl : Floats F) (ops : TextOps) (usual : IsUsual ops) where
  -- Read again under the same purpose and type, the settings are the same.
  config_of-again :
      (p : Payload F) (m n start end : Option Moment) (a b : String)
      → config_of fl ops (to_payload ops (config_of fl ops p m n a b)) start end a b
        ≡ config_of fl ops p start end a b
  unfolding to_payload normalize_symbols
  config_of-again p m n start end a b = λ i. record (config_of fl ops p start end a b) {
    symbols = normalize_onto-again ops usual [] p.symbols i;
    intervals = list_or-again p.intervals ("1min" ∷ []) i;
    session = filled_or-again p.session "rth" i;
    sides = sides_of-again ops usual p.sides i;
    max_hold_minutes = int_or-again p.max_hold_minutes (pos 60) i;
    entry_mode = filled_or-again p.entry_mode "next_bar_open" i;
    stop_mode = filled_or-again p.stop_mode "candidate_context" i;
    target_mode = filled_or-again p.target_mode "candidate_targets" i;
    target_1_r = float_or-again fl p.target_1_r (fl.number 1 1) i;
    target_2_r = float_or-again fl p.target_2_r (fl.number 3 2) i;
    target_3_r = float_or-again fl p.target_3_r (fl.number 5 2) i;
    partial_exit_mode = filled_or-again p.partial_exit_mode "none" i;
    same_bar_stop_target_policy =
        filled_or-again p.same_bar_stop_target_policy "conservative_stop_first" i;
    intrabar_path_policy = filled_or-again p.intrabar_path_policy "conservative" i;
    slippage_bps = float_or-again fl p.slippage_bps (zero_float fl) i;
    spread_bps = float_or-again fl p.spread_bps (zero_float fl) i;
    commission_per_share = float_or-again fl p.commission_per_share (zero_float fl) i;
    minimum_reward_risk = float_or-again fl p.minimum_reward_risk (fl.number 1 1) i;
    max_open_trades_per_symbol = int_or-again p.max_open_trades_per_symbol (pos 1) i;
    max_open_trades_portfolio = int_or-again p.max_open_trades_portfolio (pos 10) i;
    cooldown_bars_after_loss = int_or-again p.cooldown_bars_after_loss (pos 0) i;
    cooldown_bars_after_trade = int_or-again p.cooldown_bars_after_trade (pos 0) i;
    feature_warmup_bars = int_or-again p.feature_warmup_bars (pos 1) i;
    counterfactual_result_label =
        filled_or-again p.counterfactual_result_label "candidate_quality_evidence" i;
  }

  config_between-again :
      (p : Payload F) (m n start end : Option Moment)
      → config_between fl ops (to_payload ops (config_between fl ops p m n)) start end
        ≡ config_between fl ops p start end
  unfolding to_payload
  config_between-again p m n start end =
      let asked = purpose_asked p.replay_purpose p.purpose in
      let t = simulation_type_of p.simulation_type asked in
      let a = purpose_of t asked in
      let a_filled : IsFilled a =
        purpose_of-IsFilled t asked (purpose_asked-IsFilled p.replay_purpose p.purpose) in
      let same_a = purpose_asked-of a a_filled in
      let same_t =
        simulation_type_of-of t a (simulation_type_of-IsFilled p.simulation_type asked) in
      rw (same_a, same_t, purpose_of-again t asked) (config_of-again p m n start end a t)

  read_date-write_date : (o : Option Moment) → read_date ops (write_date ops o) ≡ some (in_utc? o)
  unfolding read_date
  read_date-write_date none = refl
  read_date-write_date (some m) = ap parsed (usual.read_again m)

  -- What was read of a payload has the payload's settings between the bounds that were read.
  from_payload-bounds :
      (p : Payload F) (cfg : Settings Moment F)
      → from_payload fl ops p ≡ some cfg
      → cfg ≡ config_between fl ops p cfg.start cfg.end
  unfolding from_payload
  from_payload-bounds p cfg e = elim (Option-cases (read_date ops p.start)) [
    | inl bad ↦ cc (rw bad at e)
    | inr (m, good) ↦ elim (Option-cases (read_date ops p.end)) [
      | inl bad ↦ cc (rw (good, bad) at e)
      | inr (n, fine) ↦
          let found : config_between fl ops p m n ≡ cfg = some_injective (rw (good, fine) at e) in
          subst (λ c. c ≡ config_between fl ops p c.start c.end) found refl
    ]
  ]

  -- Settings that `from_payload` reads from any payload, written by `to_dict`, are read again, and are the
  -- same but for their bounds, of which a naive one comes back as an aware one in UTC. Upper case and the
  -- cleaning of a text are idempotent, as those of `str` are, and `fromisoformat` reads what `isoformat`
  -- writes.
  pub from_payload-to_payload :
      (p : Payload F) (cfg : Settings Moment F)
      → from_payload fl ops p ≡ some cfg
      → from_payload fl ops (to_payload ops cfg)
        ≡ some (record cfg { start = in_utc? cfg.start; end = in_utc? cfg.end })
  unfolding from_payload to_payload
  from_payload-to_payload p cfg e =
      rw (read_date-write_date cfg.start, read_date-write_date cfg.end)
        (ap some (
          subst
            (λ c.
              config_between fl ops (to_payload ops c) (in_utc? cfg.start) (in_utc? cfg.end)
              ≡ record c { start = in_utc? cfg.start; end = in_utc? cfg.end })
            (sym (from_payload-bounds p cfg e))
            (config_between-again p cfg.start cfg.end (in_utc? cfg.start) (in_utc? cfg.end))))
