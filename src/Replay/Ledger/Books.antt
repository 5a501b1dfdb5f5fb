-- ===== src/Replay/Ledger/Books.antt =====
-- The dictionaries of a replay tell the same as the trades so far, at every time from the last
-- candidate's on: services/quant-engine/app/backtesting/replay.py.
use simple_scanner.Common.{
  ℕ, suc, ◌≤◌, ◌≡◌, refl, ◌∙◌, ap, inl, inr, String, Bool, true, false, List, [], ◌∷◌, ◌++◌, arith,
  ltb, if◌then◌else◌, Bool-cases, length, str_eq, eq_iff,
}
use simple_scanner.Common.Floats.{Floats}
use simple_scanner.Common.Dict.{
  get_or, put, append_at, get_or-put, text_key, texts_key, get_or-append_at,
}
use simple_scanner.Replay.Model.{ReplayConfig, Candidate, SimulatedTrade, TradeStatus}
use simple_scanner.Replay.Portfolio.{
  Book, active_at, no_times, pruned, opened, with_cooldown, sets_cooldown,
}
use simple_scanner.Replay.Outcomes.{IsTakenOf}
use simple_scanner.Replay.Ledger.{open_of_symbol, open_of_all, last_exit, last_cooldown, is_loss}

pub active_at-active_at :
    (t u : ℕ) (xs : List ℕ) → t ≤ u → active_at u (active_at t xs) ≡ active_at u xs
active_at-active_at t u [] h = refl
active_at-active_at t u (x ∷ xs) h = ground (arith, active_at-active_at t u xs h)

pub length-active_at-append :
    (t x : ℕ) (xs : List ℕ) → length (active_at t (xs ++ x ∷ [])) ≡ length (active_at t (x ∷ xs))
length-active_at-append t x [] = refl
length-active_at-append t x (y ∷ ys) = ground (arith, length-active_at-append t x ys)

length-if :
    {A B : Type 0} (b : Bool) (x : A) (y : B) (xs : List A) (ys : List B)
    → length xs ≡ length ys
    → length (if b then x ∷ xs else xs) ≡ length (if b then y ∷ ys else ys)
length-if true x y xs ys h = ap suc h
length-if false x y xs ys h = h

-- What the book says of the trades so far, at times from `n` on.
pub record Tells {F : Type 0} (fl : Floats F) (cfg : ReplayConfig F) (n : ℕ)
    (before : List (SimulatedTrade F)) (book : Book) : Type 0 where
  pub of_symbol :
      (symbol : String) (t : ℕ)
      → n ≤ t
      → length (active_at t (get_or symbol no_times book.open_until_symbol))
        ≡ open_of_symbol symbol t before
  pub of_all :
      (t : ℕ) → n ≤ t → length (active_at t book.open_until_portfolio) ≡ open_of_all t before
  pub of_setup :
      (symbol setup : String)
      → get_or (symbol, setup) 0 book.open_until_setup ≡ last_exit symbol setup before
  pub of_cooldown :
      (symbol : String) → get_or symbol 0 book.cooldown_until ≡ last_cooldown fl cfg symbol before

module _ {F : Type 0} (fl : Floats F) (cfg : ReplayConfig F) where
  active_at-pruned :
      (s symbol : String) (t u : ℕ) (book : Book)
      → t ≤ u
      → active_at u (get_or symbol no_times (pruned s t book).open_until_symbol)
        ≡ active_at u (get_or symbol no_times book.open_until_symbol)
  unfolding pruned
  active_at-pruned s symbol t u book h = elim (Bool-cases (str_eq s symbol)) [
    | inl same ↦
        let e : s ≡ symbol = (eq_iff s symbol).0 same in
        rw (get_or-put, same, e)
          (active_at-active_at t u (get_or symbol no_times book.open_until_symbol) h)
    | inr other ↦ rw (get_or-put, other) refl
  ]

  -- The pruned book still tells it, from the time of the pruning on.
  pub pruned-Tells :
      (n : ℕ) (before : List (SimulatedTrade F)) (s : String) (t : ℕ) (book : Book)
      → n ≤ t
      → Tells fl cfg n before book
      → Tells fl cfg t before (pruned s t book)
  unfolding pruned
  pruned-Tells n before s t book h k = record {
    of_symbol = λ symbol u le.
        ap length (active_at-pruned s symbol t u book le) ∙ k.of_symbol symbol u (omega arith);
    of_all = λ u le.
        ap length (active_at-active_at t u book.open_until_portfolio le) ∙ k.of_all u (omega arith);
    of_setup = k.of_setup;
    of_cooldown = k.of_cooldown;
  }

module _ {F : Type 0} (fl : Floats F) (cfg : ReplayConfig F) (n : ℕ)
    (before : List (SimulatedTrade F)) (c : Candidate F) (t : SimulatedTrade F) (e : ℕ)
    (book : Book) (of : IsTakenOf c t e) (k : Tells fl cfg n before book) where
  opened-of_symbol :
      (symbol : String) (u : ℕ)
      → n ≤ u
      → length (active_at u (get_or symbol no_times (append_at c.symbol e book.open_until_symbol)))
        ≡ open_of_symbol symbol u (t ∷ before)
  opened-of_symbol symbol u h =
      let old = k.of_symbol symbol u h in
      let more = length-active_at-append u e (get_or symbol no_times book.open_until_symbol) in
      elim (Bool-cases (str_eq c.symbol symbol)) [
        | inl same ↦
            simp (get_or-append_at, of.is_taken, of.exits, of.its_symbol, same)
              (more ∙ length-if (ltb u e) e t _ _ old)
        | inr other ↦ simp (get_or-append_at, of.is_taken, of.exits, of.its_symbol, other) old
      ]

  opened-of_all :
      (u : ℕ)
      → n ≤ u
      → length (active_at u (book.open_until_portfolio ++ e ∷ [])) ≡ open_of_all u (t ∷ before)
  opened-of_all u h =
      simp (of.is_taken, of.exits, length-active_at-append)
        (length-if (ltb u e) e t _ _ (k.of_all u h))

  opened-of_setup :
      (symbol setup : String)
      → get_or (symbol, setup) 0 (put (c.symbol, c.setup_type) e book.open_until_setup)
        ≡ last_exit symbol setup (t ∷ before)
  opened-of_setup symbol setup =
      simp (get_or-put, of.is_taken, of.exits, of.its_symbol, of.its_setup, k.of_setup) refl

  opened-of_cooldown :
      (symbol : String)
      → get_or symbol 0 (with_cooldown cfg c e (is_loss fl t) book.cooldown_until)
        ≡ last_cooldown fl cfg symbol (t ∷ before)
  unfolding with_cooldown
  opened-of_cooldown symbol = elim (Bool-cases (sets_cooldown cfg (is_loss fl t))) [
    | inl sets ↦ elim (Bool-cases (str_eq c.symbol symbol)) [
      | inl same ↦
          simp (get_or-put, of.is_taken, of.exits, of.its_symbol, of.its_interval, sets, same) refl
      | inr other ↦
          simp (get_or-put, of.is_taken, of.its_symbol, sets, other) (k.of_cooldown symbol)
    ]
    | inr unset ↦ elim (Bool-cases (str_eq c.symbol symbol)) [
      | inl same ↦ simp (of.is_taken, of.its_symbol, unset, same) (k.of_cooldown symbol)
      | inr other ↦ simp (of.is_taken, of.its_symbol, unset, other) (k.of_cooldown symbol)
    ]
  ]

  pub opened-Tells : Tells fl cfg n (t ∷ before) (opened cfg c e (is_loss fl t) book)
  unfolding opened
  opened-Tells = record {
    of_symbol = opened-of_symbol;
    of_all = opened-of_all;
    of_setup = opened-of_setup;
    of_cooldown = opened-of_cooldown;
  }

-- A trade that was not taken changes nothing that the book tells.
pub skipped-Tells :
    {F : Type 0} (fl : Floats F) (cfg : ReplayConfig F) (n : ℕ) (before : List (SimulatedTrade F))
    (t : SimulatedTrade F) (book : Book)
    → t.status ≡ TradeStatus.skipped
    → Tells fl cfg n before book
    → Tells fl cfg n (t ∷ before) book
skipped-Tells fl cfg n before t book e k = record {
  of_symbol = λ symbol u h. elim (Bool-cases (str_eq t.symbol symbol)) [
    | inl same ↦ simp (e, same) (k.of_symbol symbol u h)
    | inr other ↦ simp (e, other) (k.of_symbol symbol u h)
  ];
  of_all = λ u h. simp e (k.of_all u h);
  of_setup = λ symbol setup. simp e (k.of_setup symbol setup);
  of_cooldown = λ symbol. simp e (k.of_cooldown symbol);
}
