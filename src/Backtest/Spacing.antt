-- ===== src/Backtest/Spacing.antt =====
-- When the backtest of services/quant-engine/app/backtesting/engine.py raises, and how far apart the
-- trades of one symbol are.
use simple_scanner.Common.{
  ℕ, ◌+◌, ◌<◌, ◌≡◌, refl, sym, ◌∙◌, ap, inl, inr, String, Bool, true, false, ◌||◌, Option, none,
  some, List, [], ◌∷◌, arith, ltb, leb, if◌then◌else◌, Bool-cases, str_eq, or_else,
}
use simple_scanner.Common.Dict.{text_key, get_or, put, get_or-put}
use simple_scanner.Common.Floats.{Floats}
use simple_scanner.Common.Sorting.{sort_by, any_if, any_if-sort_by}
use simple_scanner.Windowing.{
  Result, ok, err, value_error, ◌>>=◌, minutes, max_time, Returns, Returns-bind,
}
use simple_scanner.Backtest.Model.{Label, SimulatedTrade, is_leap_day, in_1900}
use simple_scanner.Backtest.Engine.{
  duration, exit_of, label_before, trade_of, simulate_from, simulate_labels,
}

-- A time is after one that may be missing.
abbrev pub IsAfter : Option ℕ → ℕ → Type 0
IsAfter none t = Unit
IsAfter (some e) t = e < t

later_than : (o : Option ℕ) (t d : ℕ) → leb t (or_else o d) ≡ false → IsAfter o t
later_than none t d h = tt
later_than (some e) t d h = ground (arith, h)

or_false_left : (a b : Bool) → a || b ≡ false → a ≡ false
or_false_left a b h = ground arith

or_false_right : (a b : Bool) → a || b ≡ false → b ≡ false
or_false_right a b h = ground arith

module _ {F : Type 0} where
  -- The exit of a label is not given and leaves the range of `datetime`.
  abbrev pub overflows : ℕ → Label F → Bool
  overflows max_hold l = elim l.exit_timestamp_utc [
    | none ↦ ltb max_time (l.timestamp + minutes (duration max_hold l))
    | some t ↦ false
  ]

  abbrev pub is_on_leap_day : Label F → Bool
  is_on_leap_day l = is_leap_day l.timestamp

  -- The exit of the latest trade of a symbol; `before` has the latest first.
  abbrev pub last_exit : String → List (SimulatedTrade F) → Option ℕ
  last_exit symbol [] = none
  last_exit symbol (t ∷ ts) =
      let earlier = last_exit symbol ts in
      if str_eq t.symbol symbol then some t.exit_timestamp_utc else earlier

  -- Each trade enters later than the exit of the trade of its symbol before it.
  abbrev pub IsSpaced : List (SimulatedTrade F) → List (SimulatedTrade F) → Type 0
  IsSpaced before [] = Unit
  IsSpaced before (t ∷ ts) =
      IsAfter (last_exit t.symbol before) t.entry_timestamp_utc × IsSpaced (t ∷ before) ts

  abbrev Tells : List (SimulatedTrade F) → List (String × ℕ) → Type 0
  Tells before open_until =
      (s : String) (d : ℕ) → get_or s d open_until ≡ or_else (last_exit s before) d

  Tells-put :
      (before : List (SimulatedTrade F)) (open_until : List (String × ℕ)) (t : SimulatedTrade F)
      → Tells before open_until
      → Tells (t ∷ before) (put t.symbol t.exit_timestamp_utc open_until)
  Tells-put before open_until t h s d =
      get_or-put t.symbol s t.exit_timestamp_utc d open_until
      ∙ elim (Bool-cases (str_eq t.symbol s)) [ inl e ↦ rw e refl | inr e ↦ rw e (h s d) ]

  exit_of-ok :
      (max_hold : ℕ) (l : Label F)
      → overflows max_hold l ≡ false
      → Returns (exit_of max_hold l) (λ e. Unit)
  exit_of-ok max_hold l h = ground arith

module _ {F : Type 0} (fl : Floats F) (hash : Label F → String) where
  -- One label that is not on 29 February and whose exit is in range: it is passed over, or its trade
  -- comes first.
  simulate_from-IsSpaced :
      (max_hold : ℕ) (before : List (SimulatedTrade F)) (open_until : List (String × ℕ))
      (ls : List (Label F))
      → Tells before open_until
      → any_if (overflows max_hold) ls ≡ false
      → any_if is_on_leap_day ls ≡ false
      → Returns (simulate_from fl hash true max_hold open_until ls) (IsSpaced before)
  unfolding simulate_from
  simulate_from-IsSpaced max_hold before open_until [] t o d = tt
  simulate_from-IsSpaced max_hold before open_until (l ∷ ls) t o d =
      let no_leap : is_leap_day l.timestamp ≡ false =
        or_false_left _ (any_if is_on_leap_day ls) d in
      let days_left : any_if is_on_leap_day ls ≡ false = or_false_right (is_on_leap_day l) _ d in
      let exits_left : any_if (overflows max_hold) ls ≡ false =
        or_false_right (overflows max_hold l) _ o in
      let exit_ok : overflows max_hold l ≡ false =
        or_false_left _ (any_if (overflows max_hold) ls) o in
      elim (Bool-cases (leb l.timestamp (get_or l.symbol (in_1900 l.timestamp) open_until))) [
        | inl blocked ↦
            rw (no_leap, blocked)
              (simulate_from-IsSpaced max_hold before open_until ls t exits_left days_left)
        | inr free ↦
            rw (no_leap, free)
              (Returns-bind (λ e. Unit) (IsSpaced before) (exit_of max_hold l) _
                (exit_of-ok max_hold l exit_ok)
                (λ e u.
                  let trade = trade_of fl hash max_hold l e in
                  Returns-bind (IsSpaced (trade ∷ before)) (IsSpaced before)
                    (simulate_from fl hash true max_hold (put l.symbol e open_until) ls) _
                    (simulate_from-IsSpaced max_hold (trade ∷ before) (put l.symbol e open_until) ls
                      (Tells-put before open_until trade t) exits_left days_left)
                    (λ rest k. (
                      later_than (last_exit l.symbol before) l.timestamp (in_1900 l.timestamp)
                          (ap (leb l.timestamp) (sym (t l.symbol (in_1900 l.timestamp))) ∙ free),
                      k,
                    ))))
      ]

  -- With one open trade per symbol, labels that are not on 29 February and whose exits are in range are
  -- simulated without an error, and each trade enters later than the exit of the last trade of its symbol
  -- before it.
  pub simulate_labels-IsSpaced :
      (labels : List (Label F)) (max_hold : ℕ)
      → any_if (overflows max_hold) labels ≡ false
      → any_if is_on_leap_day labels ≡ false
      → Returns (simulate_labels fl hash labels true max_hold) (IsSpaced [])
  unfolding simulate_labels
  simulate_labels-IsSpaced labels max_hold o d =
      simulate_from-IsSpaced max_hold [] [] (sort_by label_before labels) (λ s e. refl)
        (any_if-sort_by (overflows max_hold) label_before labels ∙ o)
        (any_if-sort_by is_on_leap_day label_before labels ∙ d)

  raises_after :
      {A B : Type 0} (P : A → Type 0) (r : Result A) (step : A → Result B)
      → Returns r P
      → ((a : A) → step a ≡ err value_error)
      → (r >>= step) ≡ err value_error
  raises_after P (ok a) step h k = k a
  raises_after P (err e) step h k = absurd h

  simulate_from-raises :
      (max_hold : ℕ) (open_until : List (String × ℕ)) (ls : List (Label F))
      → any_if (overflows max_hold) ls ≡ false
      → any_if is_on_leap_day ls ≡ true
      → simulate_from fl hash true max_hold open_until ls ≡ err value_error
  unfolding simulate_from
  simulate_from-raises max_hold open_until [] o d = cc
  simulate_from-raises max_hold open_until (l ∷ ls) o d =
      elim (Bool-cases (is_leap_day l.timestamp)) [
        | inl here ↦ rw here refl
        | inr away ↦
            let later : any_if is_on_leap_day ls ≡ true = simp away at d in
            let exits_left : any_if (overflows max_hold) ls ≡ false =
              or_false_right (overflows max_hold l) _ o in
            elim (Bool-cases (leb l.timestamp (get_or l.symbol (in_1900 l.timestamp) open_until))) [
              | inl blocked ↦
                  rw (away, blocked) (simulate_from-raises max_hold open_until ls exits_left later)
              | inr free ↦
                  rw (away, free)
                    (raises_after (λ e. Unit) (exit_of max_hold l) _
                      (exit_of-ok max_hold l (or_false_left _ (any_if (overflows max_hold) ls) o))
                      (λ e.
                        rw
                          (simulate_from-raises max_hold (put l.symbol e open_until) ls exits_left
                            later)
                          refl))
            ]
      ]

  -- With one open trade per symbol and exits in range, a label on 29 February, be it blocked or not, makes
  -- the whole simulation raise ValueError, as the default of the lookup is computed at every label.
  pub simulate_labels-raises :
      (labels : List (Label F)) (max_hold : ℕ)
      → any_if (overflows max_hold) labels ≡ false
      → any_if is_on_leap_day labels ≡ true
      → simulate_labels fl hash labels true max_hold ≡ err value_error
  unfolding simulate_labels
  simulate_labels-raises labels max_hold o d =
      simulate_from-raises max_hold [] (sort_by label_before labels)
        (any_if-sort_by (overflows max_hold) label_before labels ∙ o)
        (any_if-sort_by is_on_leap_day label_before labels ∙ d)
