-- ===== src/Replay/Ledger/Refinement.antt =====
-- `replay` of services/quant-engine/app/backtesting/replay.py keeps dictionaries, and prunes them; it
-- gives the trades of the replay that decides from the trades so far.
use simple_scanner.Common.{
  ℕ, ◌≤◌, ◌≡◌, refl, ◌⊎◌, sym, ◌∙◌, ap, subst, inl, inr, String, Bool, true, false, Option, none,
  some, List, [], ◌∷◌, arith, Bool-cases, Option-cases, eq_iff, ◌==◌, ==_iff,
}
use simple_scanner.Common.Floats.{Floats}
use simple_scanner.Common.Dict.{get_or, get_or-put, text_key, texts_key}
use simple_scanner.Common.Sorting.{Ascends, sort_by-Ascends}
use simple_scanner.Replay.Model.{
  SkipReason, ReplayConfig, Bar, Candidate, Feature, Env, SimulatedTrade, TradeStatus,
  is_counterfactual,
}
use simple_scanner.Replay.Simulation.{skip}
use simple_scanner.Replay.Portfolio.{
  Book, empty_book, candidate_skip, limit_skip, limit_reason, in_cooldown, pruned, preflight_skip,
  after_trade,
}
use simple_scanner.Replay.Selection.{
  bars_of, feature_of, candidate_before, selected_candidates, filter_candidates,
}
use simple_scanner.Replay.Engine.{
  SeenKey, same_key, is_seen, key_of, Inputs, LoopState, candidate_regime, candidate_bucket,
  skipped_trade, simulated_trade, with_metadata, checked_step, step, loop, inputs_of, replay,
  first_state,
}
use simple_scanner.Replay.Outcomes.{IsTakenOf, IsSkipped, simulate_candidate-outcome}
use simple_scanner.Replay.Ledger.{
  visible, open_of_symbol, open_of_all, last_exit, ledger_reason, decided_trade, ledger_trade,
  ledger_loop,
}
use simple_scanner.Replay.Ledger.Books.{Tells, pruned-Tells, opened-Tells, skipped-Tells}

module _ {F : Type 0} (fl : Floats F) (cfg : ReplayConfig F) where
  -- A book that tells the trades from a time on tells them from a later time on.
  Tells-later :
      (n m : ℕ) (before : List (SimulatedTrade F)) (book : Book)
      → n ≤ m
      → Tells fl cfg n before book
      → Tells fl cfg m before book
  Tells-later n m before book h k = record {
    of_symbol = λ symbol t le. k.of_symbol symbol t (omega arith);
    of_all = λ t le. k.of_all t (omega arith);
    of_setup = k.of_setup;
    of_cooldown = k.of_cooldown;
  }

  limit_skip-pruned :
      (n : ℕ) (before : List (SimulatedTrade F)) (c : Candidate F) (book : Book)
      → n ≤ c.timestamp
      → Tells fl cfg n before book
      → limit_skip c cfg (pruned c.symbol c.timestamp book)
        ≡ limit_reason c cfg
            (open_of_symbol c.symbol c.timestamp before)
            (open_of_all c.timestamp before)
            (last_exit c.symbol c.setup_type before)
  unfolding limit_skip pruned
  limit_skip-pruned n before c book h k =
      rw
        (
          get_or-put,
          (eq_iff c.symbol c.symbol).1 refl,
          k.of_symbol c.symbol c.timestamp h,
          k.of_all c.timestamp h,
          k.of_setup c.symbol c.setup_type,
        )
        refl

module _ {F : Type 0} (fl : Floats F) (env : Env F) (inp : Inputs F) where
  -- Where the book tells the trades so far, the preflight gives the reason that they give, and leaves a
  -- book that still tells them.
  preflight_skip-Tells :
      (n : ℕ) (before : List (SimulatedTrade F)) (c : Candidate F) (book : Book)
      → n ≤ c.timestamp
      → Tells fl inp.config n (visible inp.config before) book
      → let out =
          preflight_skip fl env c inp.config
            (candidate_regime fl env inp c)
            (candidate_bucket fl env inp c)
            book in
        (out.0 ≡ ledger_reason fl env inp before c)
        × Tells fl inp.config c.timestamp (visible inp.config before) out.1
  unfolding preflight_skip ledger_reason
  preflight_skip-Tells n before c book h k =
      let cfg = inp.config in
      let same = limit_skip-pruned fl cfg n (visible cfg before) c book h k in
      let kept = pruned-Tells fl cfg n (visible cfg before) c.symbol c.timestamp book h k in
      let later = Tells-later fl cfg n c.timestamp (visible cfg before) book h k in
      elim (Option-cases (
        candidate_skip fl env c cfg (candidate_regime fl env inp c)
          (candidate_bucket fl env inp c))) [
            | inr (r, e) ↦ simp e (refl, later)
            | inl e ↦ elim (Bool-cases (in_cooldown c cfg book)) [
              | inl cold ↦ simp (e, cold, sym (k.of_cooldown c.symbol)) (refl, later)
              | inr free ↦ simp (e, free, sym (k.of_cooldown c.symbol)) (same, kept)
            ]
          ]

  -- The book after a candidate's trade tells that trade too.
  after_trade-Tells :
      (n : ℕ) (before : List (SimulatedTrade F)) (c : Candidate F) (t : SimulatedTrade F)
      (book : Book)
      → IsSkipped t ⊎ ((e : ℕ) × IsTakenOf c t e)
      → Tells fl inp.config n (visible inp.config before) book
      → Tells fl inp.config n
          (visible inp.config (t ∷ before))
          (after_trade fl env inp.config c t book)
  unfolding after_trade
  after_trade-Tells n before c t book o k = elim (Bool-cases (is_counterfactual inp.config)) [
    | inl counter ↦ elim o [
      | inl skips ↦ simp (skips.0, counter) (simp counter at k)
      | inr (e, taken) ↦ simp (taken.is_taken, counter) (simp counter at k)
    ]
    | inr real ↦ elim o [
      | inl skips ↦
          simp (skips.0, real)
            (skipped-Tells fl inp.config n before t book skips.0 (simp real at k))
      | inr (e, taken) ↦
          simp (taken.is_taken, taken.exits, real)
            (opened-Tells fl inp.config n before c t e book taken (simp real at k))
    ]
  ]

-- Two lists of keys that hold the same keys.
abbrev SameSeen : List SeenKey → List SeenKey → Type 0
SameSeen xs ys = (k : SeenKey) → is_seen k xs ≡ is_seen k ys

same_key-eq : (a b : SeenKey) → same_key a b ≡ true → a ≡ b
same_key-eq a b h = ground (
  arith,
  eq_iff a.symbol b.symbol,
  eq_iff a.interval b.interval,
  eq_iff a.side b.side,
  eq_iff a.setup_type b.setup_type,
)

SameSeen-cons : (k : SeenKey) (xs ys : List SeenKey) → SameSeen xs ys → SameSeen (k ∷ xs) (k ∷ ys)
unfolding is_seen
SameSeen-cons k xs ys h j = rw (h j) refl

SameSeen-again :
    (k : SeenKey) (xs ys : List SeenKey)
    → is_seen k xs ≡ true
    → SameSeen xs ys
    → SameSeen xs (k ∷ ys)
unfolding is_seen
SameSeen-again k xs ys e h j = elim (Bool-cases (same_key k j)) [
  | inl same ↦ simp same (subst (λ v. is_seen v xs ≡ true) (same_key-eq k j same) e)
  | inr other ↦ simp other (h j)
]

module _ {F : Type 0} (fl : Floats F) (env : Env F) (inp : Inputs F) where
  pub simulated_trade-outcome :
      (c : Candidate F)
      → let t = simulated_trade fl env inp c in IsSkipped t ⊎ ((e : ℕ) × IsTakenOf c t e)
  unfolding with_metadata
  simulated_trade-outcome c =
      elim (simulate_candidate-outcome fl env inp.run_id c inp.config
        (candidate_regime fl env inp c) (candidate_bucket fl env inp c) (bars_of c inp.bars)
        (feature_of c inp.features)) [
          | inl skips ↦ inl skips
          | inr (e, taken) ↦ inr (
            e,
            record {
              is_taken = taken.is_taken;
              exits = taken.exits;
              its_signal = taken.its_signal;
              its_symbol = taken.its_symbol;
              its_setup = taken.its_setup;
              its_interval = taken.its_interval;
            },
          )
        ]

  -- What ties the state of the loop to the keys and trades so far.
  record Follows (n : ℕ) (seen : List SeenKey) (before : List (SimulatedTrade F)) (s : LoopState)
      : Type 0 where
    keys : SameSeen s.seen_keys seen
    told : Tells fl inp.config n (visible inp.config before) s.book

  visible-skipped :
      (n : ℕ) (before : List (SimulatedTrade F)) (t : SimulatedTrade F) (book : Book)
      → t.status ≡ TradeStatus.skipped
      → Tells fl inp.config n (visible inp.config before) book
      → Tells fl inp.config n (visible inp.config (t ∷ before)) book
  visible-skipped n before t book e k = elim (Bool-cases (is_counterfactual inp.config)) [
    | inl counter ↦ simp counter (simp counter at k)
    | inr real ↦ simp real (skipped-Tells fl inp.config n before t book e (simp real at k))
  ]

  checked_step-Follows :
      (n : ℕ) (seen : List SeenKey) (before : List (SimulatedTrade F)) (c : Candidate F)
      (keys : List SeenKey) (o : Option SkipReason) (book : Book)
      → SameSeen keys (key_of c ∷ seen)
      → Tells fl inp.config n (visible inp.config before) book
      → let out = checked_step fl env inp c keys (o, book) in
        (out.0 ≡ decided_trade fl env inp c o) × Follows n (key_of c ∷ seen) (out.0 ∷ before) out.1
  unfolding skip with_metadata
  checked_step-Follows n seen before c keys (some r) book h k =
      (refl, record { keys = h; told = visible-skipped n before _ book refl k })
  checked_step-Follows n seen before c keys none book h k = (
    refl,
    record {
      keys = h;
      told =
          after_trade-Tells fl env inp n before c (simulated_trade fl env inp c) book
            (simulated_trade-outcome c) k;
    },
  )

  pub skipped_trade-IsSkipped :
      (c : Candidate F) (r : SkipReason) (blocked : Option Bool)
      → (skipped_trade fl env inp c r blocked).status ≡ TradeStatus.skipped
  unfolding with_metadata skip
  skipped_trade-IsSkipped c r blocked = refl

  step-Follows :
      (n : ℕ) (seen : List SeenKey) (before : List (SimulatedTrade F)) (c : Candidate F)
      (s : LoopState)
      → n ≤ c.timestamp
      → Follows n seen before s
      → let out = step fl env inp s c in
        (out.0 ≡ ledger_trade fl env inp seen before c)
        × Follows c.timestamp (key_of c ∷ seen) (out.0 ∷ before) out.1
  unfolding step ledger_trade
  step-Follows n seen before c s h k = elim (Bool-cases (is_seen (key_of c) s.seen_keys)) [
    | inl again ↦
        let again' : is_seen (key_of c) seen ≡ true = sym (k.keys (key_of c)) ∙ again in
        simp (again, again')
          (
            refl,
            record {
              keys = SameSeen-again (key_of c) s.seen_keys seen again k.keys;
              told =
                  visible-skipped c.timestamp before _ s.book
                    (skipped_trade-IsSkipped c SkipReason.duplicate_candidate (some true))
                    (Tells-later fl inp.config n c.timestamp (visible inp.config before) s.book h
                      k.told);
            },
          )
    | inr fresh ↦
        let fresh' : is_seen (key_of c) seen ≡ false = sym (k.keys (key_of c)) ∙ fresh in
        let pre = preflight_skip-Tells fl env inp n before c s.book h k.told in
        let out =
          checked_step-Follows c.timestamp seen before c (key_of c ∷ s.seen_keys) _ _
            (SameSeen-cons (key_of c) s.seen_keys seen k.keys) pre.1 in
        simp (fresh, fresh') (out.0 ∙ ap (decided_trade fl env inp c) pre.0, out.1)
  ]

  -- The loop gives the trades of the ledger, on candidates whose times do not fall.
  loop-ledger_loop :
      (n : ℕ) (seen : List SeenKey) (before : List (SimulatedTrade F)) (s : LoopState)
      (cs : List (Candidate F))
      → Ascends (λ c. c.timestamp) n cs
      → Follows n seen before s
      → loop fl env inp s cs ≡ ledger_loop fl env inp seen before cs
  unfolding loop ledger_loop
  loop-ledger_loop n seen before s [] h k = refl
  loop-ledger_loop n seen before s (c ∷ cs) h k =
      let one = step-Follows n seen before c s h.0 k in
      let rest =
        loop-ledger_loop c.timestamp (key_of c ∷ seen) ((step fl env inp s c).0 ∷ before)
          (step fl env inp s c).1 cs h.1 one.1 in
      rw rest (rw one.0 refl)

  first_state-Follows : (n : ℕ) → Follows n [] [] first_state
  unfolding is_seen get_or
  first_state-Follows n = elim (Bool-cases (is_counterfactual inp.config)) [
    | inl counter ↦ record { keys = λ k. refl; told = simp counter empty-Tells }
    | inr real ↦ record { keys = λ k. refl; told = simp real empty-Tells }
  ]
    where
      empty-Tells : Tells fl inp.config n [] empty_book
      empty-Tells = record {
        of_symbol = λ symbol t le. refl;
        of_all = λ t le. refl;
        of_setup = λ symbol setup. refl;
        of_cooldown = λ symbol. refl;
      }

module _ {F : Type 0} (fl : Floats F) where
  candidate_before-time :
      (a b : Candidate F)
      → ((candidate_before fl a b ≡ true → a.timestamp ≤ b.timestamp)
          × (candidate_before fl a b ≡ false → b.timestamp ≤ a.timestamp))
  unfolding candidate_before
  candidate_before-time a b = elim (Bool-cases (a.timestamp == b.timestamp)) [
    | inl same ↦
        let e : a.timestamp ≡ b.timestamp = (==_iff a.timestamp b.timestamp).0 same in
        (λ h. omega arith, λ h. omega arith)
    | inr other ↦ simp other (λ h. ground arith, λ h. ground arith)
  ]

  -- The candidates of a replay are in the order of their times.
  pub selected_candidates-Ascends :
      (cfg : ReplayConfig F) (cs : List (Candidate F))
      → Ascends (λ c. c.timestamp) 0 (selected_candidates fl cfg cs)
  unfolding selected_candidates
  selected_candidates-Ascends cfg cs =
      sort_by-Ascends (λ c. c.timestamp) (candidate_before fl)
        (λ a b. (candidate_before-time a b).0) (λ a b. (candidate_before-time a b).1)
        (filter_candidates cfg cs)

module _ {F : Type 0} (fl : Floats F) (env : Env F) where
  -- The trades of `replay`, which it decides by lists of open trades that it prunes at each candidate,
  -- are those that the selected candidates get, in order, when each is decided by looking through the
  -- trades of all candidates before it for the open ones, the last exit and the last cooldown.
  pub replay-refines :
      (bars : List (Bar F)) (features : List (Feature F)) (candidates : List (Candidate F))
      (cfg : ReplayConfig F) (run_id : String)
      → let selected = selected_candidates fl cfg candidates in
        replay fl env bars features candidates cfg run_id
        ≡ ledger_loop fl env (inputs_of fl env bars features selected cfg run_id) [] [] selected
  unfolding replay
  replay-refines bars features candidates cfg run_id =
      let selected = selected_candidates fl cfg candidates in
      loop-ledger_loop fl env (inputs_of fl env bars features selected cfg run_id) 0 [] []
        first_state selected (selected_candidates-Ascends fl cfg candidates)
        (first_state-Follows fl env (inputs_of fl env bars features selected cfg run_id) 0)
