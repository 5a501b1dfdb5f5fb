-- ===== src/Common/Sorting.antt =====
-- `list.sort(key=...)`: a stable sort by a test of "comes before".
use Prim.Native.Nat.{ℕ, ◌≤◌}
use mathlib.Core.Path.{◌≡◌, refl, ap, ◌∙◌}
use mathlib.Core.Logic.{inl, inr}
use mathlib.Core.Bool.{Bool, true, false, ◌||◌}
use mathlib.Core.List.{List, [], ◌∷◌, Perm}
use mathlib.Core.List.Perm
use native.Mathlib.Omega.{arith}
use simple_scanner.Common.Tests.{if◌then◌else◌, Bool-cases}
use simple_scanner.Common.Lists.{All}

module _ {ℓ} {A : Type ℓ} (before : A → A → Bool) where
  -- An element goes before the first one that does not come before it.
  unfoldable pub insert_sorted : A → List A → List A
  insert_sorted x [] = x ∷ []
  insert_sorted x (y ∷ ys) = if before y x then y ∷ insert_sorted x ys else x ∷ y ∷ ys

  unfoldable pub sort_by : List A → List A
  unfolding insert_sorted
  sort_by [] = []
  sort_by (x ∷ xs) = insert_sorted x (sort_by xs)

  insert_sorted-perm : (x : A) (xs : List A) → Perm (insert_sorted x xs) (x ∷ xs)
  unfolding insert_sorted
  insert_sorted-perm x [] = Perm.rfl
  insert_sorted-perm x (y ∷ ys) = elim (Bool-cases (before y x)) [
    | inl e ↦ rw e (Perm.trans (Perm.cons y (insert_sorted-perm x ys)) (Perm.swap x y ys))
    | inr e ↦ rw e Perm.rfl
  ]

  -- A sort gives a rearrangement.
  pub sort_by-perm : (xs : List A) → Perm (sort_by xs) xs
  unfolding sort_by
  sort_by-perm [] = Perm.rfl
  sort_by-perm (x ∷ xs) =
      Perm.trans (insert_sorted-perm x (sort_by xs)) (Perm.cons x (sort_by-perm xs))

-- Numbers of members that do not fall, from a first bound on.
module _ {ℓ} {A : Type ℓ} (of : A → ℕ) where
  abbrev pub Ascends : ℕ → List A → Type 0
  Ascends n [] = Unit
  Ascends n (x ∷ xs) = (n ≤ of x) × Ascends (of x) xs

  Ascends-insert :
      (before : A → A → Bool)
      → ((a b : A) → before a b ≡ true → of a ≤ of b)
      → ((a b : A) → before a b ≡ false → of b ≤ of a)
      → (n : ℕ) (x : A) (xs : List A) → n ≤ of x
      → Ascends n xs
      → Ascends n (insert_sorted before x xs)
  unfolding insert_sorted
  Ascends-insert before p q n x [] h k = (h, tt)
  Ascends-insert before p q n x (y ∷ ys) h k = elim (Bool-cases (before y x)) [
    | inl e ↦ rw e (k.0, Ascends-insert before p q (of y) x ys (p y x e) k.1)
    | inr e ↦ rw e (h, (q y x e, k.1))
  ]

  -- Where the test goes by the number first, a sort leaves the numbers ascending.
  pub sort_by-Ascends :
      (before : A → A → Bool)
      → ((a b : A) → before a b ≡ true → of a ≤ of b)
      → ((a b : A) → before a b ≡ false → of b ≤ of a)
      → (xs : List A) → Ascends 0 (sort_by before xs)
  unfolding sort_by
  sort_by-Ascends before p q [] = tt
  sort_by-Ascends before p q (x ∷ xs) =
      Ascends-insert before p q 0 x (sort_by before xs) (omega arith)
        (sort_by-Ascends before p q xs)

  -- Where the numbers ascend from a bound on, none is below it.
  pub Ascends-le : (n m : ℕ) (xs : List A) → n ≤ m → Ascends m xs → Ascends n xs
  Ascends-le n m [] h k = tt
  Ascends-le n m (x ∷ xs) h k = (omega arith, k.1)

  pub Ascends-All : (n : ℕ) (xs : List A) → Ascends n xs → All (λ x. n ≤ of x) xs
  Ascends-All n [] h = tt
  Ascends-All n (x ∷ xs) h = (h.0, Ascends-All n xs (Ascends-le n (of x) xs h.0 h.1))

-- Whether any member passes a test.
module _ {ℓ} {A : Type ℓ} (test : A → Bool) where
  abbrev pub any_if : List A → Bool
  any_if [] = false
  any_if (x ∷ xs) = test x || any_if xs

  or_swap : (a b c : Bool) → (a || (b || c)) ≡ (b || (a || c))
  or_swap true true c = refl
  or_swap true false c = refl
  or_swap false b c = refl

  any_if-insert_sorted :
      (before : A → A → Bool) (x : A) (xs : List A)
      → any_if (insert_sorted before x xs) ≡ any_if (x ∷ xs)
  unfolding insert_sorted
  any_if-insert_sorted before x [] = refl
  any_if-insert_sorted before x (y ∷ ys) = elim (Bool-cases (before y x)) [
    | inl e ↦ rw (e, any_if-insert_sorted before x ys) (or_swap (test y) (test x) (any_if ys))
    | inr e ↦ rw e refl
  ]

  -- A sort keeps whether any does.
  pub any_if-sort_by :
      (before : A → A → Bool) (xs : List A) → any_if (sort_by before xs) ≡ any_if xs
  unfolding sort_by
  any_if-sort_by before [] = refl
  any_if-sort_by before (x ∷ xs) =
      any_if-insert_sorted before x (sort_by before xs)
      ∙ ap (λ b. test x || b) (any_if-sort_by before xs)
