-- ===== src/Labels/Holding.antt =====
-- A label's exit lies within the holding time that starts at the entry.
use simple_scanner.Common.{
  ℕ, suc, ◌+◌, ◌*◌, ◌≤◌, ◌≡◌, refl, inl, inr, Bool, true, ◌&&◌, Option, none, some, List, [], ◌∷◌,
  arith, leb, keep_if, drop, All, Bool-cases, subst, sym,
}
use simple_scanner.Labels.Market.{PriceOps, Bar, LabelSettings, Candidate, Feature, LabelRow}
use simple_scanner.Labels.Engine.{
  Plan, in_hold, future_window, last_bar, first_track, label_planned, label_from, label_candidate,
}
use simple_scanner.Labels.Touch.{walk-exit}

module _ {F : Type 0} where
  All-kept : (p : Bar F → Bool) (bs : List (Bar F)) → All (λ b. p b ≡ true) (keep_if p bs)
  All-kept p [] = tt
  All-kept p (b ∷ bs) = elim (Bool-cases (p b)) [
    | inl e ↦ simp e (refl, All-kept p bs)
    | inr e ↦ simp e (All-kept p bs)
  ]

  All-last_bar :
      (P : Bar F → Type 0) (b : Bar F) (bs : List (Bar F)) → P b → All P bs → P (last_bar b bs)
  All-last_bar P b [] h hs = h
  All-last_bar P b (c ∷ cs) h hs = All-last_bar P c cs hs.0 hs.1

  -- The exit is not before the entry and not after the holding time.
  abbrev pub IsHeld : ℕ → ℕ → Option (LabelRow F) → Type 0
  IsHeld start stop none = Unit
  IsHeld start stop (some l) =
      (start ≤ l.found.exit_timestamp_utc) × (l.found.exit_timestamp_utc ≤ stop)

module _ {F : Type 0} (ops : PriceOps F) where
  label_planned-IsHeld :
      (s : LabelSettings F) (c : Candidate) (t : ℕ) (f : Feature F) (p : Plan F) (start stop : ℕ)
      (bs : List (Bar F))
      → All (λ b. in_hold start stop b ≡ true) bs
      → IsHeld start stop (label_planned ops s c t f p bs)
  label_planned-IsHeld s c t f p start stop [] h = tt
  label_planned-IsHeld s c t f p start stop (b ∷ bs) h =
      elim (Bool-cases (ops.at_most p.risk ops.zero_price)) [
        | inl bad ↦ simp bad tt
        | inr good ↦
            let inside =
              walk-exit ops (λ n. (leb start n && leb n stop) ≡ true) s p (last_bar b bs)
                (first_track ops) 1 (b ∷ bs)
                (All-last_bar (λ b. in_hold start stop b ≡ true) b bs h.0 h.1) h in
            simp good (ground (arith, inside))
      ]

  -- The exit of a label that `_label_candidate` gives lies between the time of the entry's bar, the one
  -- after the candidate's, and that time with the holding time added.
  pub label_candidate-IsHeld :
      (s : LabelSettings F) (bars : List (Bar F)) (i t : ℕ) (f : Feature F) (c : Candidate)
      (entry_bar : Bar F) (rest : List (Bar F))
      → drop (suc i) bars ≡ entry_bar ∷ rest
      → IsHeld entry_bar.timestamp_utc
          (entry_bar.timestamp_utc + 60_000_000 * s.max_hold_minutes)
          (label_candidate ops s bars i t f c)
  unfolding label_candidate future_window
  label_candidate-IsHeld s bars i t f c entry_bar rest e =
      subst
        (λ bs.
          IsHeld entry_bar.timestamp_utc (entry_bar.timestamp_utc + 60_000_000 * s.max_hold_minutes)
            (label_from ops s bars i t f c bs))
        (sym e) (label_planned-IsHeld s c t f _ _ _ _ (All-kept (in_hold _ _) (entry_bar ∷ rest)))
