-- ===== src/Windowing/Clock.antt =====
-- `datetime` and `timedelta` arithmetic of services/quant-engine/app/orchestration/windowing.py.
use simple_scanner.Common.{ℕ, ◌+◌, ◌-◌, ◌*◌, ◌≤◌, ◌≡◌, arith, ltb, if◌then◌else◌}

-- `OverflowError` and `ValueError`; `out_of_fuel` stands for a loop that has not ended.
pub data Error : Type 0 where
  overflow value_error out_of_fuel : Error

pub data Result {ℓ} (A : Type ℓ) : Type ℓ where
  ok : A → Result A
  err : Error → Result A

infixl 5 ◌>>=◌
abbrev pub ◌>>=◌ {ℓ κ} : {A : Type ℓ} {B : Type κ} → Result A → (A → Result B) → Result B
ok a >>= f = f a
err e >>= f = err e

-- `datetime.max`, in microseconds since `datetime.min`
abbrev pub max_time : ℕ
max_time = 315_537_897_599_999_999

-- `timedelta(days=n)` and `timedelta(minutes=n)`
abbrev pub days : ℕ → ℕ
days n = 86_400_000_000 * n

abbrev pub minutes : ℕ → ℕ
minutes n = 60_000_000 * n

-- `t + d` and `t - d`
abbrev pub plus : ℕ → ℕ → Result ℕ
plus t d = if ltb max_time (t + d) then err overflow else ok (t + d)

abbrev pub minus : ℕ → ℕ → Result ℕ
minus t d = if ltb t d then err overflow else ok (t - d)

pub plus_ok : (t d : ℕ) → t + d ≤ max_time → plus t d ≡ ok (t + d)
plus_ok t d h = ground arith

pub minus_ok : (t d : ℕ) → d ≤ t → minus t d ≡ ok (t - d)
minus_ok t d h = ground arith

-- The call returns, and what it returns satisfies `P`.
abbrev pub Returns {ℓ} : {A : Type ℓ} → Result A → (A → Type 0) → Type 0
Returns (ok a) P = P a
Returns (err e) P = ⊥

-- A call followed by a step that returns.
pub Returns-bind {α β} :
    {A : Type α} {B : Type β} (P : A → Type 0) (Q : B → Type 0) (r : Result A) (step : A → Result B)
    → Returns r P
    → ((a : A) → P a → Returns (step a) Q)
    → Returns (r >>= step) Q
Returns-bind P Q (ok a) f h k = k a h
Returns-bind P Q (err e) f h k = h

pub Returns-map {ℓ} :
    {A : Type ℓ} (P Q : A → Type 0) (r : Result A)
    → ((a : A) → P a → Q a)
    → Returns r P
    → Returns r Q
Returns-map P Q (ok a) k h = k a h
Returns-map P Q (err e) k h = h
