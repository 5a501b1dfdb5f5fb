-- ===== src/Common/Floats.antt =====
-- What the code does with a `float`, for any type in its place.
use Prim.Native.Nat.{ℕ}
use mathlib.Core.Bool.{Bool, ◌&&◌}
use mathlib.Core.Option.{Option, none, some}
use mathlib.Core.List.{List, [], ◌∷◌}
use simple_scanner.Common.Tests.{if◌then◌else◌}

-- `number n d` is the literal n / d, and the quotient of two counts.
pub record Floats (F : Type 0) : Type 0 where
  pub add : F → F → F
  pub sub : F → F → F
  pub mul : F → F → F
  pub div : F → F → F
  pub negate : F → F
  pub less : F → F → Bool
  pub at_most : F → F → Bool
  pub number : ℕ → ℕ → F

module _ {F : Type 0} (fl : Floats F) where
  abbrev pub zero_float : F
  zero_float = fl.number 0 1

  -- `a == b` and `not a`; both fail on a NaN
  abbrev pub equal_float : F → F → Bool
  equal_float a b = fl.at_most a b && fl.at_most b a

  abbrev pub is_zero : F → Bool
  is_zero a = equal_float a zero_float

  -- `max(a, b)` and `min(a, b)`
  abbrev pub max_float : F → F → F
  max_float a b = if fl.less a b then b else a

  abbrev pub min_float : F → F → F
  min_float a b = if fl.less b a then b else a

  -- `a or b` of numbers that may be missing: zero counts as missing.
  abbrev pub filled_float : Option F → Option F → Option F
  filled_float none b = b
  filled_float (some a) b = if is_zero a then b else some a

  abbrev pub float_or : Option F → F → F
  float_or none d = d
  float_or (some a) d = if is_zero a then d else a

  -- `max(values)` and `min(values)`, of a value and more
  unfoldable pub greatest_of : F → List F → F
  greatest_of a [] = a
  greatest_of a (b ∷ bs) = greatest_of (max_float a b) bs

  unfoldable pub least_of : F → List F → F
  least_of a [] = a
  least_of a (b ∷ bs) = least_of (min_float a b) bs

  -- `max(values) if values else None`
  abbrev pub greatest? : List F → Option F
  greatest? [] = none
  greatest? (a ∷ rest) = some (greatest_of a rest)

  abbrev pub least? : List F → Option F
  least? [] = none
  least? (a ∷ rest) = some (least_of a rest)

  -- `sum(values)`
  abbrev pub sum_onto : F → List F → F
  sum_onto a [] = a
  sum_onto a (b ∷ bs) = sum_onto (fl.add a b) bs

  abbrev pub sum_float : List F → F
  sum_float vs = sum_onto zero_float vs
