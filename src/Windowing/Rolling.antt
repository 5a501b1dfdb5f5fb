-- ===== src/Windowing/Rolling.antt =====
-- The rolling windows step over the span, and their training data ends an embargo before the replay.
use simple_scanner.Common.{
  ℕ, zero, suc, ◌+◌, ◌-◌, ◌≤◌, ◌<◌, min, ◌≡◌, inl, inr, Bool, true, false, ◌&&◌, ◌||◌, Option, none,
  some, List, [], ◌∷◌, arith, ltb, leb, Bool-cases, All, length, refl,
}
use simple_scanner.Common.Int.{pos, at_least, int_or, le-at_least}
use simple_scanner.Windowing.Clock.{
  ok, ◌>>=◌, days, minutes, max_time, plus, plus_ok, Returns, Returns-bind, Returns-map,
}
use simple_scanner.Windowing.Defs.{
  ReplayWindow, window_warnings, WindowPayload, RollingSettings, rolling_settings, rolling_window,
  back, rolling_loop, rolling_windows,
}

-- The bound lies `d` before `a` where a size is set, and is another one where it is zero.
abbrev pub IsBack : ℕ → ℕ → ℕ → Option ℕ → Option ℕ → Type 0
IsBack zero a d otherwise o = o ≡ otherwise
IsBack (suc n) a d otherwise none = ⊥
IsBack (suc n) a d otherwise (some t) = t + d ≡ a

-- The window that starts at `a`, of the size set, cut at the end of the span.
pub record IsRolling (s : RollingSettings) (end e a i : ℕ) (w : ReplayWindow) : Type 0 where
  pub index : w.window_index ≡ pos i
  pub starts : w.replay_start ≡ a
  pub ends : w.replay_end ≡ min (a + days s.window_size_days) end
  pub trained_from : IsBack s.train_size_days a (days s.train_size_days) none w.train_start
  pub trained_to : IsBack s.train_size_days a (minutes e) none w.train_end
  pub validated_from :
      IsBack s.validation_size_days a (days s.validation_size_days) (some a) w.validation_start
  pub validated_to :
      IsBack s.validation_size_days a (minutes e) (some w.replay_end) w.validation_end
  pub tested : (w.test_start ≡ some w.replay_start) × (w.test_end ≡ some w.replay_end)
  pub warned : w.warnings ≡ window_warnings w.replay_start w.replay_end

abbrev pub Rolls : RollingSettings → ℕ → ℕ → ℕ → ℕ → List ReplayWindow → Type 0
Rolls s end e a i [] = end ≤ a
Rolls s end e a i (w ∷ ws) =
    (a < end) × IsRolling s end e a i w × Rolls s end e (a + days s.step_days) (i + 1) ws

-- What the subtractions and additions of the loop need to stay in the range of `datetime`.
pub record InRange (s : RollingSettings) (start end e : ℕ) : Type 0 where
  pub room : end + days s.window_size_days ≤ max_time
  pub step_room : end + days s.step_days ≤ max_time
  pub train_room : days s.train_size_days ≤ start
  pub validation_room : days s.validation_size_days ≤ start
  pub embargo_room : minutes e ≤ start

-- A subtraction that stays in range gives the bound.
back-IsBack :
    (size a d : ℕ) (otherwise : Option ℕ)
    → d ≤ a
    → Returns (back size a d otherwise) (IsBack size a d otherwise)
back-IsBack zero a d otherwise h = refl
back-IsBack (suc n) a d otherwise h = ground arith

rolling_window-IsRolling :
    (s : RollingSettings) (start end e current i : ℕ)
    → InRange s start end e
    → start ≤ current
    → current < end
    → Returns (rolling_window s end e current i) (IsRolling s end e current i)
unfolding rolling_window
rolling_window-IsRolling s start end e current i r l m =
    let room : plus current (days s.window_size_days) ≡ ok (current + days s.window_size_days) =
      plus_ok current (days s.window_size_days) (omega (arith, r.room, m)) in
    let last = min (current + days s.window_size_days) end in
    rw room (
      Returns-bind (IsBack s.train_size_days current (days s.train_size_days) none) _
        (back s.train_size_days current (days s.train_size_days) none) _
        (back-IsBack s.train_size_days current (days s.train_size_days) none
          (omega (arith, r.train_room, l)))
        (λ from_ p.
          Returns-bind (IsBack s.train_size_days current (minutes e) none) _
            (back s.train_size_days current (minutes e) none) _
            (back-IsBack s.train_size_days current (minutes e) none
              (omega (arith, r.embargo_room, l)))
            (λ to q.
              Returns-bind
                (IsBack s.validation_size_days current (days s.validation_size_days) (some current))
                _ (back s.validation_size_days current (days s.validation_size_days) (some current))
                _
                (back-IsBack s.validation_size_days current (days s.validation_size_days)
                  (some current) (omega (arith, r.validation_room, l)))
                (λ valid_from u.
                  Returns-bind (IsBack s.validation_size_days current (minutes e) (some last)) _
                    (back s.validation_size_days current (minutes e) (some last)) _
                    (back-IsBack s.validation_size_days current (minutes e) (some last)
                      (omega (arith, r.embargo_room, l)))
                    (λ valid_to v. record {
                      index = refl;
                      starts = refl;
                      ends = refl;
                      trained_from = p;
                      trained_to = q;
                      validated_from = u;
                      validated_to = v;
                      tested = (refl, refl);
                      warned = refl;
                    })))))

rolling_loop_stop :
    (fuel : ℕ) (s : RollingSettings) (end e current i : ℕ)
    → end ≤ current
    → rolling_loop (suc fuel) s end e current i ≡ ok []
unfolding rolling_loop
rolling_loop_stop fuel s end e current i h = ground arith

rolling_loop_step :
    (fuel : ℕ) (s : RollingSettings) (end e current i : ℕ)
    → current < end
    → current + days s.step_days ≤ max_time
    → rolling_loop (suc fuel) s end e current i ≡ (
        rolling_window s end e current i >>= λ w.
        rolling_loop fuel s end e (current + days s.step_days) (i + 1) >>= λ rest. ok (w ∷ rest))
unfolding rolling_loop
rolling_loop_step fuel s end e current i h k = ground arith

rolling_loop-Rolls :
    (fuel : ℕ) (s : RollingSettings) (start end e current i : ℕ)
    → InRange s start end e
    → 0 < s.step_days
    → end - current < fuel
    → start ≤ current
    → Returns (rolling_loop fuel s end e current i) (Rolls s end e current i)
rolling_loop-Rolls zero s start end e current i r q f l = absurd (omega arith)
rolling_loop-Rolls (suc fuel) s start end e current i r q f l =
    elim (Bool-cases (ltb current end)) [
      | inl more ↦
          rw (rolling_loop_step fuel s end e current i (ground arith) (ground (arith, r.step_room)))
            (Returns-bind (IsRolling s end e current i) _ (rolling_window s end e current i) _
              (rolling_window-IsRolling s start end e current i r l (ground arith))
              (λ w h.
                Returns-bind (Rolls s end e (current + days s.step_days) (i + 1)) _
                  (rolling_loop fuel s end e (current + days s.step_days) (i + 1)) _
                  (rolling_loop-Rolls fuel s start end e (current + days s.step_days) (i + 1) r q
                    (ground arith) (omega arith))
                  (λ rest t. (ground arith, h, t))))
      | inr done ↦ rw (rolling_loop_stop fuel s end e current i (ground arith)) (ground arith)
    ]

positive_step : (p : WindowPayload) → 0 < (rolling_settings p).step_days
unfolding rolling_settings
positive_step p =
    le-at_least 1 (int_or p.step_days (pos (at_least 1 (int_or p.window_size_days (pos 5)))))

-- Whatever the payload's sizes, if the arithmetic stays in the range of `datetime`,
-- `_rolling_windows` returns: the windows start one step apart from `start` on until `end` is
-- reached, each runs for the size set or to `end`, and its test is its replay. With a training size it
-- has a training range, which starts that size before the replay and ends the embargo before it, and
-- with a training size of zero it has none; its validation range is likewise, or the replay range.
pub rolling_windows-Rolls :
    (start end e : ℕ) (p : WindowPayload)
    → InRange (rolling_settings p) start end e
    → Returns (rolling_windows start end p e) (Rolls (rolling_settings p) end e start 1)
unfolding rolling_windows
rolling_windows-Rolls start end e p r =
    rolling_loop-Rolls (suc (end - start)) (rolling_settings p) start end e start 1 r
      (positive_step p) (omega arith) (omega arith)

-- Some window replays the instant `t`.
abbrev pub covers : ℕ → List ReplayWindow → Bool
covers t [] = false
covers t (w ∷ ws) = (leb w.replay_start t && ltb t w.replay_end) || covers t ws

covers-Rolls :
    (s : RollingSettings) (end e a i t : ℕ) (ws : List ReplayWindow)
    → s.step_days ≤ s.window_size_days
    → a ≤ t
    → t < end
    → Rolls s end e a i ws
    → covers t ws ≡ true
covers-Rolls s end e a i t [] k l m h = absurd (omega arith)
covers-Rolls s end e a i t (w ∷ ws) k l m h = elim (Bool-cases (ltb t (a + days s.step_days))) [
  | inl here ↦ ground (arith, h.1.starts, h.1.ends)
  | inr later ↦
      ground
        (arith, covers-Rolls s end e (a + days s.step_days) (i + 1) t ws k (ground arith) m h.2)
]

-- With a step no longer than the window, every instant of the span is replayed by some window.
pub rolling_windows-covers :
    (start end e t : ℕ) (p : WindowPayload)
    → InRange (rolling_settings p) start end e
    → (rolling_settings p).step_days ≤ (rolling_settings p).window_size_days
    → start ≤ t
    → t < end
    → Returns (rolling_windows start end p e) (λ ws. covers t ws ≡ true)
rolling_windows-covers start end e t p r k l m =
    Returns-map _ _ (rolling_windows start end p e)
      (λ ws h. covers-Rolls (rolling_settings p) end e start 1 t ws k l m h)
      (rolling_windows-Rolls start end e p r)

-- Training that ends before it starts, and that no warning of the window tells of.
abbrev pub IsInverted : ReplayWindow → Type 0
IsInverted w =
    (b : ℕ) × (c : ℕ) × (w.train_start ≡ some b)
    × (w.train_end ≡ some c)
    × (c < b)
    × (w.warnings ≡ window_warnings w.replay_start w.replay_end)

inverted_range :
    (n a d e : ℕ) (o p : Option ℕ)
    → 0 < n
    → d < e
    → IsBack n a d none o
    → IsBack n a e none p
    → (b : ℕ) × (c : ℕ) × (o ≡ some b) × (p ≡ some c) × (c < b)
inverted_range zero a d e o p q h k l = absurd (omega arith)
inverted_range (suc n) a d e none p q h k l = absurd k
inverted_range (suc n) a d e (some b) none q h k l = absurd l
inverted_range (suc n) a d e (some b) (some c) q h k l = (b, c, refl, refl, omega arith)

IsInverted-Rolls :
    (s : RollingSettings) (end e a i : ℕ) (ws : List ReplayWindow)
    → 0 < s.train_size_days
    → days s.train_size_days < minutes e
    → Rolls s end e a i ws
    → All IsInverted ws
IsInverted-Rolls s end e a i [] q k h = tt
IsInverted-Rolls s end e a i (w ∷ ws) q k h =
    let (b, c, from_, to, later) =
      inverted_range s.train_size_days a (days s.train_size_days) (minutes e) w.train_start
        w.train_end q k h.1.trained_from h.1.trained_to in
    (
      (b, c, from_, to, later, h.1.warned),
      IsInverted-Rolls s end e (a + days s.step_days) (i + 1) ws q k h.2,
    )

some_window :
    (s : RollingSettings) (end e a i : ℕ) (ws : List ReplayWindow)
    → a < end
    → Rolls s end e a i ws
    → 0 < length ws
some_window s end e a i [] h k = absurd (omega arith)
some_window s end e a i (w ∷ ws) h k = omega arith

-- On a span that is not empty, with a training size and an embargo longer than it, there are windows, and
-- each has a training range that ends before it starts, while its warnings are those of its replay range
-- alone.
pub rolling_windows-IsInverted :
    (start end e : ℕ) (p : WindowPayload)
    → InRange (rolling_settings p) start end e
    → start < end
    → 0 < (rolling_settings p).train_size_days
    → days (rolling_settings p).train_size_days < minutes e
    → Returns (rolling_windows start end p e) (λ ws. (0 < length ws) × All IsInverted ws)
rolling_windows-IsInverted start end e p r o q k =
    Returns-map _ _ (rolling_windows start end p e)
      (λ ws h. (
        some_window (rolling_settings p) end e start 1 ws o h,
        IsInverted-Rolls (rolling_settings p) end e start 1 ws q k h,
      ))
      (rolling_windows-Rolls start end e p r)
