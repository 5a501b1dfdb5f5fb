-- ===== src/Windowing/Tiling.antt =====
-- The daily windows cut the span of the replay into pieces of one UTC day.
use simple_scanner.Common.{
  ℕ, zero, suc, ◌+◌, ◌-◌, ◌/◌, ◌%◌, ◌≤◌, ◌<◌, min, max, ◌≡◌, refl, subst, inl, inr, List, [], ◌∷◌,
  arith, ltb, Bool-cases,
}
use simple_scanner.Common.Int.{pos}
use simple_scanner.Windowing.Clock.{ok, ◌>>=◌, days, max_time, Returns, Returns-bind}
use simple_scanner.Windowing.Defs.{ReplayWindow, daily_window, daily_loop, day_start, daily_windows}

-- From `a` to `b` with no gap and no overlap, numbered from `i`, each within one UTC day.
abbrev pub Tiles : ℕ → ℕ → ℕ → List ReplayWindow → Type 0
Tiles a b i [] = a ≡ b
Tiles a b i (w ∷ ws) =
    (w.window_index ≡ pos i)
    × (w.replay_start ≡ a)
    × (a < w.replay_end)
    × (a / days 1 ≡ (w.replay_end - 1) / days 1)
    × Tiles w.replay_end b (i + 1) ws

daily_loop_stop :
    (fuel start end e current i : ℕ)
    → end ≤ current
    → daily_loop (suc fuel) start end e current i ≡ ok []
unfolding daily_loop
daily_loop_stop fuel start end e current i h = ground arith

daily_loop_step :
    (fuel start end e current i : ℕ)
    → current < end
    → current + days 1 ≤ max_time
    → daily_loop (suc fuel) start end e current i ≡ (
        daily_loop fuel start end e (current + days 1) (i + 1) >>= λ rest.
        ok (daily_window start end e current (current + days 1) i ∷ rest))
unfolding daily_loop
daily_loop_step fuel start end e current i h k = ground arith

-- One window more in front of a tiling of the rest.
daily_window-Tiles :
    (start end e current i : ℕ) (rest : List ReplayWindow)
    → current % days 1 ≡ 0
    → start < current + days 1
    → start < end
    → current < end
    → Tiles (min (max (current + days 1) start) end) end (i + 1) rest
    → Tiles
        (min (max current start) end)
        end
        i
        (daily_window start end e current (current + days 1) i ∷ rest)
unfolding daily_window
daily_window-Tiles start end e current i rest z s l more h = (
  refl,
  omega arith,
  omega arith,
  omega arith,
  subst (λ a. Tiles a end (i + 1) rest)
      (let same : min (max (current + days 1) start) end ≡ min (current + days 1) end =
          omega arith in
        same)
      h,
)

daily_loop-Tiles :
    (fuel start end e current i : ℕ)
    → end - current < fuel
    → end + days 1 ≤ max_time
    → current % days 1 ≡ 0
    → start < current + days 1
    → start < end
    → Returns (daily_loop fuel start end e current i) (Tiles (min (max current start) end) end i)
daily_loop-Tiles zero start end e current i f m z s l = absurd (omega arith)
daily_loop-Tiles (suc fuel) start end e current i f m z s l = elim (Bool-cases (ltb current end)) [
  | inl more ↦ rw (daily_loop_step fuel start end e current i (ground arith) (ground arith)) (
      Returns-bind (Tiles (min (max (current + days 1) start) end) end (i + 1)) _
        (daily_loop fuel start end e (current + days 1) (i + 1)) _
        (daily_loop-Tiles fuel start end e (current + days 1) (i + 1) (ground arith) m (omega arith)
          (omega arith) l)
        (λ rest h. daily_window-Tiles start end e current i rest z s l (ground arith) h))
  | inr done ↦
      rw (daily_loop_stop fuel start end e current i (ground arith))
        (let at_end : min (max current start) end ≡ end = ground arith in at_end)
]

-- `_daily_windows` on a span that ends a day before `datetime.max` returns windows that tile it from
-- `start` to `end`: consecutive, not empty, numbered from 1, each inside one UTC day.
pub daily_windows-Tiles :
    (start end e : ℕ)
    → start < end
    → end + days 1 ≤ max_time
    → Returns (daily_windows start end e) (Tiles start end 1)
unfolding daily_windows day_start
daily_windows-Tiles start end e l m =
    subst (λ a. Returns (daily_windows start end e) (Tiles a end 1))
      (let at_start : min (max (start - start % days 1) start) end ≡ start = omega arith in
        at_start)
      (daily_loop-Tiles (suc (end - (start - start % days 1))) start end e (start - start % days 1)
        1 (omega arith) m (omega arith) (omega arith) l)
