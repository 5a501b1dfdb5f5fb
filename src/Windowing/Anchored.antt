-- ===== src/Windowing/Anchored.antt =====
-- The anchored windows: training grows from a fixed start and stops an embargo before the replay.
use simple_scanner.Common.{
  ℕ, zero, suc, ◌+◌, ◌-◌, ◌≤◌, ◌<◌, min, ◌≡◌, inl, inr, some, List, [], ◌∷◌, arith, ltb, Bool-cases,
}
use simple_scanner.Common.Int.{pos, int_or, at_least, le-at_least}
use simple_scanner.Windowing.Clock.{
  ok, ◌>>=◌, days, minutes, max_time, plus_ok, Returns, Returns-bind,
}
use simple_scanner.Windowing.Defs.{
  ReplayWindow, WindowPayload, AnchoredSettings, anchored_settings, anchored_window, anchored_loop,
  anchored_windows,
}

pub record IsAnchored (s : AnchoredSettings) (start end e a i : ℕ) (w : ReplayWindow) : Type 0 where
  pub index : w.window_index ≡ pos i
  pub starts : w.replay_start ≡ a
  pub ends : w.replay_end ≡ min (a + days s.window_size_days) end
  pub anchored_at : w.train_start ≡ some start
  pub trained_to : w.train_end ≡ some (a - minutes e)
  pub embargoed : minutes e ≤ a
  pub enough : start + days s.min_training_days ≤ a - minutes e
  pub validated_from : w.validation_start ≡ w.train_end
  pub validated_to : w.validation_end ≡ some w.replay_start

abbrev pub Anchors : AnchoredSettings → ℕ → ℕ → ℕ → ℕ → ℕ → List ReplayWindow → Type 0
Anchors s start end e a i [] = end ≤ a
Anchors s start end e a i (w ∷ ws) =
    (a < end)
    × IsAnchored s start end e a i w
    × Anchors s start end e (a + days s.step_days) (i + 1) ws

pub record InRange (s : AnchoredSettings) (start end e : ℕ) : Type 0 where
  pub room : end + days s.window_size_days ≤ max_time
  pub step_room : end + days s.step_days ≤ max_time
  pub first_room : start + days s.min_training_days + minutes e ≤ max_time

anchored_window-IsAnchored :
    (s : AnchoredSettings) (start end e current i : ℕ)
    → InRange s start end e
    → start + days s.min_training_days + minutes e ≤ current
    → current < end
    → Returns (anchored_window s start end e current i) (IsAnchored s start end e current i)
unfolding anchored_window
anchored_window-IsAnchored s start end e current i r l m = ground arith

anchored_loop_stop :
    (fuel : ℕ) (s : AnchoredSettings) (start end e current i : ℕ)
    → end ≤ current
    → anchored_loop (suc fuel) s start end e current i ≡ ok []
unfolding anchored_loop
anchored_loop_stop fuel s start end e current i h = ground arith

anchored_loop_step :
    (fuel : ℕ) (s : AnchoredSettings) (start end e current i : ℕ)
    → current < end
    → current + days s.step_days ≤ max_time
    → anchored_loop (suc fuel) s start end e current i ≡ (
        anchored_window s start end e current i >>= λ w.
        anchored_loop fuel s start end e (current + days s.step_days) (i + 1) >>= λ rest.
        ok (w ∷ rest))
unfolding anchored_loop
anchored_loop_step fuel s start end e current i h k = ground arith

anchored_loop-Anchors :
    (fuel : ℕ) (s : AnchoredSettings) (start end e current i : ℕ)
    → InRange s start end e
    → 0 < s.step_days
    → end - current < fuel
    → start + days s.min_training_days + minutes e ≤ current
    → Returns (anchored_loop fuel s start end e current i) (Anchors s start end e current i)
anchored_loop-Anchors zero s start end e current i r q f l = absurd (omega arith)
anchored_loop-Anchors (suc fuel) s start end e current i r q f l =
    elim (Bool-cases (ltb current end)) [
      | inl more ↦
          rw
            (anchored_loop_step fuel s start end e current i (ground arith)
              (ground (arith, r.step_room)))
            (Returns-bind (IsAnchored s start end e current i) _
              (anchored_window s start end e current i) _
              (anchored_window-IsAnchored s start end e current i r l (ground arith))
              (λ w h.
                Returns-bind (Anchors s start end e (current + days s.step_days) (i + 1)) _
                  (anchored_loop fuel s start end e (current + days s.step_days) (i + 1)) _
                  (anchored_loop-Anchors fuel s start end e (current + days s.step_days) (i + 1) r q
                    (ground arith) (omega arith))
                  (λ rest t. (ground arith, h, t))))
      | inr done ↦
          rw (anchored_loop_stop fuel s start end e current i (ground arith)) (ground arith)
    ]

positive_step : (p : WindowPayload) → 0 < (anchored_settings p).step_days
unfolding anchored_settings
positive_step p =
    le-at_least 1 (int_or p.step_days (pos (at_least 1 (int_or p.window_size_days (pos 5)))))

-- Whatever the payload's sizes, if the arithmetic stays in the range of `datetime`,
-- `_anchored_windows` returns: the first window starts the least training and the embargo after
-- `start`, the next ones a step apart until `end` is reached; every window trains from `start` for at
-- least the least training, stops the embargo before its replay, and validates on the embargo.
pub anchored_windows-Anchors :
    (start end e : ℕ) (p : WindowPayload)
    → InRange (anchored_settings p) start end e
    → Returns (anchored_windows start end p e) (
        Anchors
          (anchored_settings p)
          start
          end
          e
          (start + days (anchored_settings p).min_training_days + minutes e)
          1)
unfolding anchored_windows
anchored_windows-Anchors start end e p r =
    let first = start + days (anchored_settings p).min_training_days + minutes e in
    rw
      (
        plus_ok start (days (anchored_settings p).min_training_days) (omega (arith, r.first_room)),
        plus_ok (start + days (anchored_settings p).min_training_days) (minutes e) r.first_room,
      )
      (anchored_loop-Anchors (suc (end - first)) (anchored_settings p) start end e first 1 r
        (positive_step p) (omega arith) (omega arith))
