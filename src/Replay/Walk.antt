-- ===== src/Replay/Walk.antt =====
-- Where the walk over the future bars ends a trade: `_simulate_candidate` of
-- services/quant-engine/app/backtesting/replay.py.
use simple_scanner.Common.{
  ℕ, suc, ◌+◌, ◌≡◌, refl, ◌⊎◌, inl, inr, Bool, true, false, ◌&&◌, some, List, [], ◌∷◌, arith,
  Bool-cases, length, take, get_elem?, All,
}
use simple_scanner.Common.Int.{ℤ, pos, leb_ℤ}
use simple_scanner.Common.Floats.{Floats}
use simple_scanner.Replay.Model.{ExitReason, ReplayConfig, Bar, Env}
use simple_scanner.Replay.Prices.{Plan, time_exit_price, session_exit}
use simple_scanner.Replay.Simulation.{
  Exit, stop_hit, target_hit, next_mfe, next_mae, stop_first, walk, exit_at,
}

module _ {F : Type 0} (fl : Floats F) (env : Env F) (cfg : ReplayConfig F) (p : Plan F)
    (limit : ℤ) where
  abbrev pub is_timed_out : Bar F → Bool
  is_timed_out b = leb_ℤ limit (pos b.timestamp_utc)

  -- Nothing ends the trade at a bar.
  pub record IsQuiet (b : Bar F) : Type 0 where
    pub no_stop : stop_hit fl env p b ≡ false
    pub no_target : target_hit fl env p b ≡ false
    pub no_session_end : session_exit env b cfg ≡ false
    pub no_timeout : is_timed_out b ≡ false

  -- What a reason says of the bar and the price at which a trade ends.
  abbrev pub Explains : ExitReason → Bar F → F → Type 0
  Explains ExitReason.end_of_data b price = ⊥
  Explains ExitReason.stop b price =
      (stop_hit fl env p b ≡ true)
      × ((target_hit fl env p b ≡ false) ⊎ (stop_first cfg ≡ true))
      × (price ≡ p.stop_price)
  Explains ExitReason.target_2 b price =
      (target_hit fl env p b ≡ true)
      × ((stop_hit fl env p b ≡ false) ⊎ (stop_first cfg ≡ false))
      × (price ≡ p.target_2)
  Explains ExitReason.session_exit b price =
      (stop_hit fl env p b ≡ false)
      × (target_hit fl env p b ≡ false)
      × (session_exit env b cfg ≡ true)
      × (price ≡ time_exit_price fl b.close p.side cfg)
  Explains ExitReason.time_exit b price =
      (stop_hit fl env p b ≡ false)
      × (target_hit fl env p b ≡ false)
      × (session_exit env b cfg ≡ false)
      × (is_timed_out b ≡ true)
      × (price ≡ time_exit_price fl b.close p.side cfg)

  -- The trade ends at the first bar that is not quiet, as its reason says.
  pub record EndsAt (held : ℕ) (bs : List (Bar F)) (e : Exit F) (n : ℕ) : Type 0 where
    pub the_bar : get_elem? bs n ≡ some e.exit_bar
    pub quiet_before : All IsQuiet (take n bs)
    pub explained : Explains e.exit_reason e.exit_bar e.exit_price
    pub bars_held : e.bars_held ≡ held + n + 1
    pub ambiguous :
        e.same_bar_ambiguous ≡ (stop_hit fl env p e.exit_bar && target_hit fl env p e.exit_bar)

  -- The trade ends with the data.
  pub record EndsLast (held : ℕ) (last : Bar F) (bs : List (Bar F)) (e : Exit F) : Type 0 where
    pub the_bar : e.exit_bar ≡ last
    pub all_quiet : All IsQuiet bs
    pub the_reason : e.exit_reason ≡ ExitReason.end_of_data
    pub bars_held : e.bars_held ≡ held + length bs

  abbrev Ends : ℕ → Bar F → List (Bar F) → Exit F → Type 0
  Ends held last bs e = ((n : ℕ) × EndsAt held bs e n) ⊎ EndsLast held last bs e

  exit_at-Ends :
      (held : ℕ) (last b : Bar F) (bs : List (Bar F)) (mfe mae price : F) (reason : ExitReason)
      (ambiguous : Bool)
      → Explains reason b price
      → ambiguous ≡ (stop_hit fl env p b && target_hit fl env p b)
      → Ends held last (b ∷ bs) (exit_at fl env mfe mae b price reason ambiguous (held + 1))
  exit_at-Ends held last b bs mfe mae price reason ambiguous x y = inl (
    0,
    record {
      the_bar = refl;
      quiet_before = tt;
      explained = x;
      bars_held = omega arith;
      ambiguous = y;
    },
  )

  Ends-later :
      (held : ℕ) (last b : Bar F) (bs : List (Bar F)) (e : Exit F)
      → IsQuiet b
      → Ends (held + 1) last bs e
      → Ends held last (b ∷ bs) e
  Ends-later held last b bs e q (inl (n, k)) = inl (
    suc n,
    record {
      the_bar = k.the_bar;
      quiet_before = (q, k.quiet_before);
      explained = k.explained;
      bars_held = omega (arith, k.bars_held);
      ambiguous = k.ambiguous;
    },
  )
  Ends-later held last b bs e q (inr k) = inr (record {
    the_bar = k.the_bar;
    all_quiet = (q, k.all_quiet);
    the_reason = k.the_reason;
    bars_held = omega (arith, k.bars_held);
  })

  -- The walk over the future bars ends the trade at the first bar at which the stop or the second target
  -- is touched, the session ends or the time is out, for the first of these reasons that holds there,
  -- where of stop and target in one bar the policy decides, and at the price of that reason; with no such
  -- bar it ends the trade at the last bar, as the end of the data.
  pub walk-ends :
      (last : Bar F) (mfe mae : F) (held : ℕ) (bs : List (Bar F))
      → let e = walk fl env cfg p limit last mfe mae held bs in
        ((n : ℕ) × EndsAt held bs e n) ⊎ EndsLast held last bs e
  unfolding walk
  walk-ends last mfe mae held [] =
      inr (record { the_bar = refl; all_quiet = tt; the_reason = refl; bars_held = omega arith })
  walk-ends last mfe mae held (b ∷ bs) =
      let rest = walk-ends last (next_mfe fl env p mfe b) (next_mae fl env p mae b) (held + 1) bs in
      let here = exit_at-Ends held last b bs _ _ in
      elim (Bool-cases (stop_hit fl env p b)) [
        | inl stopped ↦ elim (Bool-cases (target_hit fl env p b)) [
          | inl hit ↦ elim (Bool-cases (stop_first cfg)) [
            | inl first ↦
                simp (stopped, hit, first)
                  (here p.stop_price ExitReason.stop true (stopped, inr first, refl)
                    (simp (stopped, hit) refl))
            | inr second ↦
                simp (stopped, hit, second)
                  (here p.target_2 ExitReason.target_2 true (hit, inr second, refl)
                    (simp (stopped, hit) refl))
          ]
          | inr missed ↦
              simp (stopped, missed)
                (here p.stop_price ExitReason.stop false (stopped, inl missed, refl)
                  (simp (stopped, missed) refl))
        ]
        | inr safe ↦ elim (Bool-cases (target_hit fl env p b)) [
          | inl hit ↦
              simp (safe, hit)
                (here p.target_2 ExitReason.target_2 false (hit, inl safe, refl)
                  (simp (safe, hit) refl))
          | inr missed ↦ elim (Bool-cases (session_exit env b cfg)) [
            | inl closes ↦
                simp (safe, missed, closes)
                  (here _ ExitReason.session_exit false (safe, missed, closes, refl)
                    (simp (safe, missed) refl))
            | inr open_still ↦ elim (Bool-cases (is_timed_out b)) [
              | inl late ↦
                  simp (safe, missed, open_still, late)
                    (here _ ExitReason.time_exit false (safe, missed, open_still, late, refl)
                      (simp (safe, missed) refl))
              | inr early ↦
                  simp (safe, missed, open_still, early)
                    (Ends-later held last b bs _
                      (record {
                        no_stop = safe;
                        no_target = missed;
                        no_session_end = open_still;
                        no_timeout = early;
                      })
                      rest)
            ]
          ]
        ]
      ]
