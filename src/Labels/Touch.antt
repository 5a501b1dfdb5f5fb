-- ===== src/Labels/Touch.antt =====
-- A label's outcome is decided by the first bar that touches the stop or the second target.
use simple_scanner.Common.{
  ℕ, ◌+◌, ◌≡◌, refl, inl, inr, List, [], ◌∷◌, if◌then◌else◌, Bool-cases, All,
}
use simple_scanner.Labels.Market.{PriceOps, Outcome, win, loss, neutral, Bar, LabelSettings}
use simple_scanner.Labels.Engine.{
  Plan, Track, walk, tracked, stop_hit_now, target_hit_now, gain_r, is_conservative,
}

module _ {F : Type 0} (ops : PriceOps F) where
  -- The outcome by the first bar that touches either, where the stop counts first in one bar.
  abbrev pub first_touch : Plan F → List (Bar F) → Outcome
  first_touch p [] = neutral
  first_touch p (b ∷ bs) =
      let later = first_touch p bs in
      if stop_hit_now ops p b
      then loss
      else if target_hit_now ops p p.target_2 b
      then win
      else later

  abbrev pub result_of : LabelSettings F → Plan F → Bar F → Outcome → F
  result_of s p last win = s.target_r
  result_of s p last loss = ops.minus_one
  result_of s p last neutral = gain_r ops p last.close

  -- Whatever the policy for a bar that touches both, the label is a loss if the first bar that touches
  -- the stop or the second target touches the stop, a win if it touches the target alone, and neutral
  -- if no bar touches either; the result is -1, the target or the gain at the last close.
  pub walk-first_touch :
      (s : LabelSettings F) (p : Plan F) (last : Bar F) (t : Track F) (offset : ℕ)
      (bs : List (Bar F))
      → let e = walk ops s p last t offset bs in
        (e.outcome ≡ first_touch p bs) × (e.realized_r ≡ result_of s p last (first_touch p bs))
  unfolding walk
  walk-first_touch s p last t offset [] = (refl, refl)
  walk-first_touch s p last t offset (b ∷ bs) =
      let later = walk-first_touch s p last (tracked ops p t b) (offset + 1) bs in
      elim (Bool-cases (stop_hit_now ops p b)) [
        | inl stopped ↦ elim (Bool-cases (target_hit_now ops p p.target_2 b)) [
          | inl hit ↦ simp (stopped, hit) (refl, refl)
          | inr missed ↦ elim (Bool-cases (is_conservative s.same_bar_stop_target_policy)) [
            | inl strict ↦ simp (stopped, missed, strict) (refl, refl)
            | inr lax ↦ simp (stopped, missed, lax) (refl, refl)
          ]
        ]
        | inr free ↦ elim (Bool-cases (target_hit_now ops p p.target_2 b)) [
          | inl hit ↦ simp (free, hit) (refl, refl)
          | inr missed ↦ simp (free, missed) (simp missed at later)
        ]
      ]

  -- The exit is at the time of some bar that the loop was given.
  pub walk-exit :
      (P : ℕ → Type 0) (s : LabelSettings F) (p : Plan F) (last : Bar F) (t : Track F) (offset : ℕ)
      (bs : List (Bar F))
      → P last.timestamp_utc
      → All (λ b. P b.timestamp_utc) bs
      → P (walk ops s p last t offset bs).exit_timestamp_utc
  unfolding walk
  walk-exit P s p last t offset [] h hs = h
  walk-exit P s p last t offset (b ∷ bs) h hs =
      let later = walk-exit P s p last (tracked ops p t b) (offset + 1) bs h hs.1 in
      elim (Bool-cases (stop_hit_now ops p b)) [
        | inl stopped ↦ elim (Bool-cases (target_hit_now ops p p.target_2 b)) [
          | inl hit ↦ simp (stopped, hit) hs.0
          | inr missed ↦ elim (Bool-cases (is_conservative s.same_bar_stop_target_policy)) [
            | inl strict ↦ simp (stopped, missed, strict) hs.0
            | inr lax ↦ simp (stopped, missed, lax) hs.0
          ]
        ]
        | inr free ↦ elim (Bool-cases (target_hit_now ops p p.target_2 b)) [
          | inl hit ↦ simp (free, hit) hs.0
          | inr missed ↦ simp (free, missed) (simp missed at later)
        ]
      ]
