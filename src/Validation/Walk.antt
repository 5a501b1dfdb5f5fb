-- ===== src/Validation/Walk.antt =====
-- The splits step over the span, and an embargo of zero is taken for a violation of it.
use simple_scanner.Common.{
  ℕ, zero, suc, ◌+◌, ◌-◌, ◌*◌, ◌≤◌, ◌<◌, ◌≡◌, refl, ap, ◌∙◌, inl, inr, true, false, List, [], ◌∷◌,
  arith, ltb, leb, Bool-cases, All,
}
use simple_scanner.Common.Texts.{sorted_set}
use simple_scanner.Windowing.{
  Result, Error, err, out_of_fuel, ok, ◌>>=◌, days, minutes, max_time, plus, plus_ok, Returns,
  Returns-bind, Returns-map,
}
use simple_scanner.Validation.Splits.{
  WalkForwardSettings, ValidationSplit, split_at, walk_loop, walk_forward_windows, split_warnings,
  all_split_warnings, leakage_warnings,
}

-- The length of a split, embargoes included.
abbrev pub span : WalkForwardSettings → ℕ
span s =
    days s.train_window_days
    + minutes s.embargo_minutes
    + days s.validation_window_days
    + minutes s.embargo_minutes
    + days s.test_window_days

-- The parts follow one another from `a` on, an embargo between them.
pub record IsSplit (s : WalkForwardSettings) (a : ℕ) (w : ValidationSplit) : Type 0 where
  pub starts : w.train_start ≡ a
  pub trained : w.train_end ≡ a + days s.train_window_days
  pub first_gap : w.validation_start ≡ w.train_end + minutes s.embargo_minutes
  pub validated : w.validation_end ≡ w.validation_start + days s.validation_window_days
  pub second_gap : w.test_start ≡ w.validation_end + minutes s.embargo_minutes
  pub tested : w.test_end ≡ w.test_start + days s.test_window_days

-- Splits one step apart, as long as they end in the span; the next one would not.
abbrev pub Walks : WalkForwardSettings → ℕ → ℕ → List ValidationSplit → Type 0
Walks s end a [] = end < a + span s
Walks s end a (w ∷ ws) = (a + span s ≤ end) × IsSplit s a w × Walks s end (a + days s.step_days) ws

split_at-IsSplit :
    (s : WalkForwardSettings) (a : ℕ) → a + span s ≤ max_time → Returns (split_at s a) (IsSplit s a)
unfolding split_at
split_at-IsSplit s a h = ground arith

step_next : (k i : ℕ) → k * (i + 1) ≡ k * i + k
step_next k i = omega arith

walk_loop_stop :
    (fuel : ℕ) (s : WalkForwardSettings) (start end c i : ℕ)
    → c + span s ≤ max_time
    → end < c + span s
    → walk_loop (suc fuel) s start end c i ≡ ok []
unfolding walk_loop split_at
walk_loop_stop fuel s start end c i h k = ground arith

walk_loop-Walks :
    (fuel : ℕ) (s : WalkForwardSettings) (start end c i : ℕ)
    → 0 < s.step_days
    → end + days s.step_days + span s ≤ max_time
    → 0 < fuel
    → end + 1 < fuel + c
    → c ≤ end + days s.step_days
    → start + days (s.step_days * i) ≡ c + days s.step_days
    → Returns (walk_loop fuel s start end c i) (Walks s end c)
unfolding walk_loop
walk_loop-Walks zero s start end c i q m z f l e = absurd (omega arith)
walk_loop-Walks (suc fuel) s start end c i q m z f l e = elim (Bool-cases (ltb end (c + span s))) [
  | inl over ↦ rw (walk_loop_stop fuel s start end c i (omega arith) (ground arith)) (ground arith)
  | inr fits ↦
      Returns-bind (IsSplit s c) _ (split_at s c) _ (split_at-IsSplit s c (omega arith)) (λ w h.
        let within : c + span s ≤ end = ground (arith, fits) in
        let inside : ltb end w.test_end ≡ false =
          ground (arith, fits, h.tested, h.second_gap, h.validated, h.first_gap, h.trained) in
        let moved : plus start (days (s.step_days * i)) ≡ ok (c + days s.step_days) =
          plus_ok start (days (s.step_days * i)) (omega (arith, e, within)) ∙ ap ok e in
        rw (inside, moved)
          (Returns-bind (Walks s end (c + days s.step_days)) _
            (walk_loop fuel s start end (c + days s.step_days) (i + 1)) _
            (walk_loop-Walks fuel s start end (c + days s.step_days) (i + 1) q m (ground arith)
              (omega arith) (ground arith) (omega (arith, e, step_next s.step_days i)))
            (λ rest t. (ground arith, h, t))))
]

-- If the arithmetic stays in the range of `datetime` and the step is a day at least,
-- `walk_forward_windows` returns: the splits stand one step apart from `start` on, each with its
-- training, validation and test one after another, an embargo between them, and all that fit in the
-- span are there.
pub walk_forward_windows-Walks :
    (start end : ℕ) (s : WalkForwardSettings)
    → 0 < s.step_days
    → start ≤ end
    → end + days s.step_days + span s ≤ max_time
    → Returns (walk_forward_windows start end s) (Walks s end start)
unfolding walk_forward_windows
walk_forward_windows-Walks start end s q o m =
    walk_loop-Walks (suc (suc (end - start))) s start end start 1 q m (omega arith) (omega arith)
      (omega arith) (omega arith)

-- What `leakage_warnings` says of the splits.
Walks-clean :
    (s : WalkForwardSettings) (end a : ℕ) (ws : List ValidationSplit)
    → 0 < s.embargo_minutes
    → Walks s end a ws
    → all_split_warnings ws ≡ []
unfolding all_split_warnings
Walks-clean s end a [] q h = refl
Walks-clean s end a (w ∷ ws) q h =
    let one : leb w.validation_start w.train_end ≡ false = ground (arith, h.1.first_gap, q) in
    let two : leb w.test_start w.validation_end ≡ false = ground (arith, h.1.second_gap, q) in
    rw (one, two) (Walks-clean s end (a + days s.step_days) ws q h.2)

Walks-warned :
    (s : WalkForwardSettings) (end a : ℕ) (ws : List ValidationSplit)
    → s.embargo_minutes ≡ 0
    → Walks s end a ws
    → All
        (λ w.
          split_warnings w
          ≡ "train_validation_overlap_or_embargo_violation"
            ∷ "validation_test_overlap_or_embargo_violation" ∷ [])
        ws
Walks-warned s end a [] q h = tt
Walks-warned s end a (w ∷ ws) q h =
    let one : leb w.validation_start w.train_end ≡ true = ground (arith, h.1.first_gap, q) in
    let two : leb w.test_start w.validation_end ≡ true = ground (arith, h.1.second_gap, q) in
    (rw (one, two) refl, Walks-warned s end (a + days s.step_days) ws q h.2)

-- The splits of `walk_forward_windows` draw no warning from `leakage_warnings` if there is an embargo,
-- and each of them draws both if the embargo is zero.
pub walk_forward_windows-warnings :
    (start end : ℕ) (s : WalkForwardSettings)
    → 0 < s.step_days
    → start ≤ end
    → end + days s.step_days + span s ≤ max_time
    → Returns (walk_forward_windows start end s) (λ ws.
      (0 < s.embargo_minutes → leakage_warnings ws ≡ [])
      × (s.embargo_minutes ≡ 0
          → All
              (λ w.
                split_warnings w
                ≡ "train_validation_overlap_or_embargo_violation"
                  ∷ "validation_test_overlap_or_embargo_violation" ∷ [])
              ws))
unfolding leakage_warnings sorted_set
walk_forward_windows-warnings start end s q o m =
    Returns-map _ _ (walk_forward_windows start end s)
      (λ ws h.
        ((λ e. rw (Walks-clean s end start ws e h) refl), λ e. Walks-warned s end start ws e h))
      (walk_forward_windows-Walks start end s q o m)

-- A call that returns, and whose next step raises the error, raises it.
raises-bind :
    {A B : Type 0} (P : A → Type 0) (r : Result A) (step : A → Result B) (e : Error)
    → Returns r P
    → ((a : A) → P a → step a ≡ err e)
    → (r >>= step) ≡ err e
raises-bind P (ok a) step e h k = k a h
raises-bind P (err d) step e h k = absurd h

no_steps : (k i : ℕ) → k ≡ 0 → k * i ≡ 0
no_steps k i z = rw z (omega arith)

-- Where the first split fits in the span and the step is zero, no number of passes ends the loop.
pub walk_loop-stuck :
    (fuel : ℕ) (s : WalkForwardSettings) (start end i : ℕ)
    → s.step_days ≡ 0
    → start + span s ≤ end
    → end ≤ max_time
    → walk_loop fuel s start end start i ≡ err out_of_fuel
unfolding walk_loop
walk_loop-stuck zero s start end i z h m = refl
walk_loop-stuck (suc fuel) s start end i z h m =
    raises-bind (IsSplit s start) (split_at s start) _ out_of_fuel
      (split_at-IsSplit s start (omega arith))
      (λ w k.
        let inside : ltb end w.test_end ≡ false =
          ground (arith, h, k.tested, k.second_gap, k.validated, k.first_gap, k.trained) in
        let moved : plus start (days (s.step_days * i)) ≡ ok start =
          plus_ok start (days (s.step_days * i)) (omega (arith, no_steps s.step_days i z))
          ∙ ap ok (omega (arith, no_steps s.step_days i z)) in
        rw (inside, moved, walk_loop-stuck fuel s start end (i + 1) z h m) refl)
