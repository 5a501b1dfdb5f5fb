-- ===== src/Common/Dict.antt =====
-- Python's dictionaries as association lists, in the order of insertion, and grouping by a key.
use Prim.Native.Nat.{ℕ}
use Prim.Native.String.{String}
use mathlib.Core.Path.{◌≡◌, refl}
use mathlib.Core.Logic.{◌↔◌}
use mathlib.Core.Bool.{Bool, true, false, ◌&&◌, ◌||◌}
use mathlib.Core.Option.{Option, none, some}
use mathlib.Core.List.{List, [], ◌∷◌, ◌++◌}
use native.Mathlib.Omega.{arith}
use text.Mathlib.Text.{◌==◌ as str_eq}
use text.Mathlib.TextEquality.{eq_iff}
use simple_scanner.Common.Tests.{if◌then◌else◌, ◌==◌, ==_iff}

-- Equality of keys, as a test.
pub record Key {ℓ} (K : Type ℓ) : Type ℓ where
  pub same : K → K → Bool
  pub same_iff : (a b : K) → (same a b ≡ true) ↔ (a ≡ b)

-- Numbers as keys
abbrev pub number_key : Key ℕ
number_key = record { same = λ a b. a == b; same_iff = ==_iff }

instance abbrev pub text_key : Key String
text_key = record { same = str_eq; same_iff = eq_iff }

abbrev pub same_texts : String × String → String × String → Bool
same_texts (a, b) (c, d) = str_eq a c && str_eq b d

pub same_texts_iff : (a b : String × String) → (same_texts a b ≡ true) ↔ (a ≡ b)
same_texts_iff (a, b) (c, d) =
    (λ h. ground (arith, eq_iff a c, eq_iff b d), λ e. ground (arith, eq_iff a c, eq_iff b d))

instance abbrev pub texts_key : Key (String × String)
texts_key = record { same = same_texts; same_iff = same_texts_iff }

module _ {ℓ κ} {K : Type ℓ} ⦃key : Key K⦄ {V : Type κ} where
  -- `d.get(k, default)`
  unfoldable pub get_or : K → V → List (K × V) → V
  get_or k v [] = v
  get_or k v ((j, w) ∷ d) = if key.same j k then w else get_or k v d

  unfoldable pub get? : K → List (K × V) → Option V
  get? k [] = none
  get? k ((j, w) ∷ d) = if key.same j k then some w else get? k d

  -- `d[k] = v`
  unfoldable pub put : K → V → List (K × V) → List (K × V)
  put k v [] = (k, v) ∷ []
  put k v ((j, w) ∷ d) = if key.same j k then (k, v) ∷ d else (j, w) ∷ put k v d

  pub get_or-put :
      (k j : K) (v w : V) (d : List (K × V))
      → get_or j w (put k v d) ≡ (if key.same k j then v else get_or j w d)
  unfolding get_or put
  get_or-put k j v w [] = refl
  get_or-put k j v w ((i, u) ∷ d) =
      ground (arith, key.same_iff k j, key.same_iff i k, key.same_iff i j, get_or-put k j v w d)

  -- `d.setdefault(k, []).append(v)`
  unfoldable pub append_at : K → V → List (K × List V) → List (K × List V)
  append_at k v [] = (k, v ∷ []) ∷ []
  append_at k v ((j, ws) ∷ d) =
      if key.same j k then (j, ws ++ v ∷ []) ∷ d else (j, ws) ∷ append_at k v d

  abbrev pub group_onto : (V → K) → List (K × List V) → List V → List (K × List V)
  group_onto of d [] = d
  group_onto of d (v ∷ vs) = group_onto of (append_at (of v) v d) vs

  unfoldable pub group_by : (V → K) → List V → List (K × List V)
  unfolding append_at
  group_by of vs = group_onto of [] vs

module _ {ℓ κ} {K : Type ℓ} ⦃key : Key K⦄ {V : Type κ} where
  pub get_or-append_at :
      (k j : K) (v : V) (d : List (K × List V))
      → get_or j [] (append_at k v d)
        ≡ (if key.same k j then get_or j [] d ++ v ∷ [] else get_or j [] d)
  unfolding get_or append_at
  get_or-append_at k j v [] = refl
  get_or-append_at k j v ((i, ws) ∷ d) =
      ground (arith, key.same_iff k j, key.same_iff i k, key.same_iff i j, get_or-append_at k j v d)

-- `k in ks`
unfoldable pub holds_key {ℓ} : {K : Type ℓ} ⦃key : Key K⦄ → K → List K → Bool
holds_key k [] = false
holds_key ⦃key⦄ k (j ∷ js) = key.same j k || holds_key k js
