-- ===== src/Windowing/Custom.antt =====
-- The windows that the payload lists: each row with both bounds gives its window, each other row a warning,
-- and an embargo that the training range enters is told of.
use simple_scanner.Common.{
  ℕ, zero, suc, ◌+◌, ◌≤◌, ◌<◌, ◌≡◌, ◌↔◌, refl, Bool, true, false, Option, none, some, List, [], ◌∷◌,
  ◌++◌, arith, ◌==◌, All, if◌then◌else◌, ltb, ◌&&◌, or_else, ap, sym, ◌∙◌, subst, inl, inr,
  Bool-cases,
}
use simple_scanner.Common.Int.{pos, int_or}
use simple_scanner.Windowing.Clock.{Result, ok, err, minutes, Returns, Returns-bind}
use simple_scanner.Windowing.Defs.{
  ReplayWindow, RawWindow, WindowPayload, Warning, start_or_end_missing, embargo_overlap,
  window_warnings, start_and_end_required, end_must_be_after_start, unsupported_window_mode,
  no_windows_generated, window_count_exceeds_default_limit, custom_windows_required,
}
use simple_scanner.Windowing.Generation.{
  row_embargo, embargo_test, custom_window, first_of_dates, custom_step, custom_rows, raw_windows,
  custom_windows, required_warning,
}

-- The rows that warnings say were left out, and those whose training enters the embargo.
abbrev pub left_out : List Warning → List ℕ
left_out [] = []
left_out (start_or_end_missing i ∷ ws) = i ∷ left_out ws
left_out (w ∷ ws) = left_out ws

abbrev pub overlapping : List Warning → List ℕ
overlapping [] = []
overlapping (embargo_overlap i ∷ ws) = i ∷ overlapping ws
overlapping (w ∷ ws) = overlapping ws

abbrev pub tells_overlap : ℕ → List Warning → Bool
tells_overlap i [] = false
tells_overlap i (embargo_overlap j ∷ ws) = if i == j then true else tells_overlap i ws
tells_overlap i (w ∷ ws) = tells_overlap i ws

-- The subtraction of the row's embargo stays in the range of `datetime`.
abbrev pub HasRoom : Option ℕ → ℕ → Type 0
HasRoom none e = Unit
HasRoom (some v) e = minutes e ≤ v

-- The bounds of a row: its own, those under the shorter name, or the payload's.
abbrev pub replay_start_of : WindowPayload → RawWindow → Option ℕ
replay_start_of p row = first_of_dates row.replay_start (first_of_dates row.start p.start)

abbrev pub replay_end_of : WindowPayload → RawWindow → Option ℕ
replay_end_of p row = first_of_dates row.replay_end (first_of_dates row.end p.end)

-- The window of a row with both bounds.
pub record IsOfRow (row : RawWindow) (i e s t : ℕ) (w : ReplayWindow) : Type 0 where
  pub index : w.window_index ≡ int_or row.window_index (pos i)
  pub starts : w.replay_start ≡ s
  pub ends : w.replay_end ≡ t
  pub train : (w.train_start ≡ row.train_start) × (w.train_end ≡ row.train_end)
  pub validation :
      (w.validation_start ≡ row.validation_start) × (w.validation_end ≡ row.validation_end)
  pub test_from : w.test_start ≡ some (or_else row.test_start s)
  pub test_to : w.test_end ≡ some (or_else row.test_end t)
  pub embargo : w.embargo_minutes ≡ e
  pub warned : w.warnings ≡ window_warnings s t

-- The training of a row with both bounds enters an embargo that is set.
abbrev pub enters : ℕ → Option ℕ → Option ℕ → Bool
enters e (some b) (some v) = ltb 0 e && ltb v (b + minutes e)
enters e _ _ = false

-- What a row with the bounds `s` and `t` gives, before the windows, left-out rows and overlapping rows of
-- the rows after it.
abbrev pub RowGives :
    RawWindow
    → ℕ
    → ℕ
    → Option ℕ
    → Option ℕ
    → List ReplayWindow × List ℕ × List ℕ
    → List ReplayWindow × List ℕ × List ℕ
    → Type 0
RowGives row i e (some s) (some t) (ws, missing, over) (ws', missing', over') =
    ((w : ReplayWindow) × IsOfRow row i e s t w × (ws' ≡ w ∷ ws))
    × (missing' ≡ missing)
    × (over' ≡ (if enters e row.train_end row.validation_start then i ∷ over else over))
RowGives row i e _ _ (ws, missing, over) (ws', missing', over') =
    (ws' ≡ ws) × (missing' ≡ i ∷ missing) × (over' ≡ over)

-- What the rows give, row by row, numbered from `i` on.
abbrev pub RowsGive :
    WindowPayload → ℕ → ℕ → List RawWindow → List ReplayWindow × List ℕ × List ℕ → Type 0
RowsGive p e i [] out = out ≡ ([], [], [])
RowsGive p e i (row ∷ rows) out =
    (later : List ReplayWindow × List ℕ × List ℕ) × RowGives row i
      (row_embargo row.embargo_minutes e) (replay_start_of p row) (replay_end_of p row) later out
    × RowsGive p e (i + 1) rows later

abbrev told : List ReplayWindow × List Warning → List ReplayWindow × List ℕ × List ℕ
told out = (out.0, left_out out.1, overlapping out.1)

left_out-append : (xs ys : List Warning) → left_out (xs ++ ys) ≡ left_out xs ++ left_out ys
left_out-append [] ys = refl
left_out-append (start_or_end_missing i ∷ xs) ys = ap (◌∷◌ i) (left_out-append xs ys)
left_out-append (embargo_overlap i ∷ xs) ys = left_out-append xs ys
left_out-append (start_and_end_required ∷ xs) ys = left_out-append xs ys
left_out-append (end_must_be_after_start ∷ xs) ys = left_out-append xs ys
left_out-append (unsupported_window_mode m ∷ xs) ys = left_out-append xs ys
left_out-append (no_windows_generated ∷ xs) ys = left_out-append xs ys
left_out-append (window_count_exceeds_default_limit ∷ xs) ys = left_out-append xs ys
left_out-append (custom_windows_required ∷ xs) ys = left_out-append xs ys

overlapping-append :
    (xs ys : List Warning) → overlapping (xs ++ ys) ≡ overlapping xs ++ overlapping ys
overlapping-append [] ys = refl
overlapping-append (embargo_overlap i ∷ xs) ys = ap (◌∷◌ i) (overlapping-append xs ys)
overlapping-append (start_or_end_missing i ∷ xs) ys = overlapping-append xs ys
overlapping-append (start_and_end_required ∷ xs) ys = overlapping-append xs ys
overlapping-append (end_must_be_after_start ∷ xs) ys = overlapping-append xs ys
overlapping-append (unsupported_window_mode m ∷ xs) ys = overlapping-append xs ys
overlapping-append (no_windows_generated ∷ xs) ys = overlapping-append xs ys
overlapping-append (window_count_exceeds_default_limit ∷ xs) ys = overlapping-append xs ys
overlapping-append (custom_windows_required ∷ xs) ys = overlapping-append xs ys

-- The embargo test of the code, on a row whose embargo stays in range, is that of the specification.
embargo_test-enters :
    (e : ℕ) (b v : Option ℕ) → HasRoom v e → embargo_test e b v ≡ ok (enters e b v)
embargo_test-enters zero none none h = refl
embargo_test-enters zero none (some v) h = refl
embargo_test-enters zero (some b) none h = refl
embargo_test-enters zero (some b) (some v) h = refl
embargo_test-enters (suc e) none none h = refl
embargo_test-enters (suc e) none (some v) h = refl
embargo_test-enters (suc e) (some b) none h = refl
embargo_test-enters (suc e) (some b) (some v) h = ground arith

whole_row : (row : RawWindow) (i e s t : ℕ) → IsOfRow row i e s t (custom_window row i e s t)
unfolding custom_window
whole_row row i e s t = record {
  index = refl;
  starts = refl;
  ends = refl;
  train = (refl, refl);
  validation = (refl, refl);
  test_from = refl;
  test_to = refl;
  embargo = refl;
  warned = refl;
}

-- A family of statements on what a call returns.
Returns-all :
    {A B : Type 0} (given : B) (r : Result A) (P : B → A → Type 0)
    → ((b : B) → Returns r (P b))
    → Returns r (λ a. (b : B) → P b a)
Returns-all given (ok a) P h = h
Returns-all given (err e) P h = absurd (h given)

custom_step-RowGives :
    (row : RawWindow) (i e : ℕ) (s t : Option ℕ) (rest : List ReplayWindow × List Warning)
    → HasRoom row.validation_start e
    → Returns
        (custom_step row i e s t)
        (λ here. RowGives row i e s t (told rest) (told (here.0 ++ rest.0, here.1 ++ rest.1)))
unfolding custom_window
custom_step-RowGives row i e (some s) (some t) rest h =
    rw (embargo_test-enters e row.train_end row.validation_start h)
      (elim (Bool-cases (enters e row.train_end row.validation_start)) [
        | inl y ↦ rw y ((custom_window row i e s t, whole_row row i e s t, refl), refl, refl)
        | inr n ↦ rw n ((custom_window row i e s t, whole_row row i e s t, refl), refl, refl)
      ])
custom_step-RowGives row i e none t rest h = (refl, refl, refl)
custom_step-RowGives row i e (some s) none rest h = (refl, refl, refl)

custom_rows-RowsGive :
    (p : WindowPayload) (e : ℕ) (rows : List RawWindow) (i : ℕ)
    → All (λ row. HasRoom row.validation_start (row_embargo row.embargo_minutes e)) rows
    → Returns (custom_rows p e rows i) (λ out. RowsGive p e i rows (told out))
unfolding custom_rows
custom_rows-RowsGive p e [] i h = refl
custom_rows-RowsGive p e (row ∷ rows) i h =
    let step =
      custom_step row i (row_embargo row.embargo_minutes e) (replay_start_of p row)
        (replay_end_of p row) in
    Returns-bind
      (λ here.
        (rest : List ReplayWindow × List Warning)
        → RowGives row i (row_embargo row.embargo_minutes e) (replay_start_of p row)
            (replay_end_of p row) (told rest) (told (here.0 ++ rest.0, here.1 ++ rest.1)))
      _ step _
      (Returns-all ([], []) step _
        (λ rest.
          custom_step-RowGives row i (row_embargo row.embargo_minutes e) (replay_start_of p row)
            (replay_end_of p row) rest h.0))
      (λ here a.
        Returns-bind (λ rest. RowsGive p e (i + 1) rows (told rest)) _
          (custom_rows p e rows (i + 1)) _ (custom_rows-RowsGive p e rows (i + 1) h.1)
          (λ rest b. (told rest, a rest, b)))

append_nil : {A : Type 0} (xs : List A) → xs ++ [] ≡ xs
append_nil [] = refl
append_nil (x ∷ xs) = ap (◌∷◌ x) (append_nil xs)

told-required_warning :
    (found : List ReplayWindow × List Warning) (rows : List RawWindow)
    → told (found.0, found.1 ++ required_warning rows) ≡ told found
told-required_warning found [] =
    let missing =
      left_out-append found.1 (custom_windows_required ∷ []) ∙ append_nil (left_out found.1) in
    let over =
      overlapping-append found.1 (custom_windows_required ∷ [])
      ∙ append_nil (overlapping found.1) in
    λ i. (found.0, missing i, over i)
told-required_warning found (r ∷ rs) =
    λ i. (found.0, left_out (append_nil found.1 i), overlapping (append_nil found.1 i))

-- `_custom_windows` returns for every list of rows whose embargoes stay in the range of `datetime`. Row
-- by row, in their order: a row with both bounds gives its window, with its bounds and its ranges; a row
-- without gives no window and is the one warned of as missing a bound; and exactly the rows with both
-- bounds whose training ends later than a set embargo before their validation are warned of for that.
pub custom_windows-RowsGive :
    (p : WindowPayload) (e : ℕ)
    → All (λ row. HasRoom row.validation_start (row_embargo row.embargo_minutes e)) (raw_windows p)
    → Returns
        (custom_windows p e)
        (λ out. RowsGive p e 1 (raw_windows p) (out.0, left_out out.1, overlapping out.1))
unfolding custom_windows
custom_windows-RowsGive p e h =
    Returns-bind (λ out. RowsGive p e 1 (raw_windows p) (told out)) _
      (custom_rows p e (raw_windows p) 1) _ (custom_rows-RowsGive p e (raw_windows p) 1 h)
      (λ out a.
        subst (RowsGive p e 1 (raw_windows p)) (sym (told-required_warning out (raw_windows p))) a)

-- For a row with both bounds of its replay, of its training end and of its validation start, the
-- overlap warning is given exactly when an embargo is set and training ends later than the embargo
-- before validation.
custom_step-overlap :
    (row : RawWindow) (index e s t b v : ℕ)
    → row.train_end ≡ some b
    → row.validation_start ≡ some v
    → minutes e ≤ v
    → Returns
        (custom_step row index e (some s) (some t))
        (λ out. (tells_overlap index out.1 ≡ true) ↔ ((0 < e) × (v < b + minutes e)))
custom_step-overlap row index zero s t b v p q h = ground arith
custom_step-overlap row index (suc e) s t b v p q h = ground arith
