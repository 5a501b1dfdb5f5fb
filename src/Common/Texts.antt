-- ===== src/Common/Texts.antt =====
-- Texts in order, and Python's tests on optional texts.
use Prim.Native.Char.{code}
use Prim.Native.String.{String, compare}
use Prim.Native.Nat.{Ordering}
use mathlib.Core.Bool.{Bool, true, false, not, ◌&&◌, ◌||◌}
use mathlib.Core.Option.{Option, none, some}
use mathlib.Core.List.{List, [], ◌∷◌}
use text.Mathlib.Text.{◌==◌ as str_eq}
use text.Mathlib.TextEquality.{eq_iff}
use mathlib.Core.Path.{◌≡◌, refl, sym, ◌∙◌, ap, subst}
use simple_scanner.Common.Tests.{if◌then◌else◌, ◌==◌}
use simple_scanner.Common.Lists.{keep_if}

placed : Ordering → String → String → List String → List String → List String
placed Ordering.lt s t ts rest = s ∷ t ∷ ts
placed Ordering.eq s t ts rest = t ∷ ts
placed Ordering.gt s t ts rest = t ∷ rest

insert_text : String → List String → List String
unfolding placed
insert_text s [] = s ∷ []
insert_text s (t ∷ ts) = placed (compare s t) s t ts (insert_text s ts)

-- `sorted(set(texts))`
unfoldable pub sorted_set : List String → List String
unfolding insert_text
sorted_set [] = []
sorted_set (s ∷ ss) = insert_text s (sorted_set ss)

-- `text in texts`
unfoldable pub member : String → List String → Bool
member s [] = false
member s (t ∷ ts) = str_eq t s || member s ts

-- `part in text`
starts_with : String → String → Bool
starts_with String.[] s = true
starts_with (String.◌∷◌ c p) String.[] = false
starts_with (String.◌∷◌ c p) (String.◌∷◌ d s) = (code c == code d) && starts_with p s

unfoldable pub is_within : String → String → Bool
unfolding starts_with
is_within p String.[] = starts_with p String.[]
is_within p (String.◌∷◌ c s) = starts_with p (String.◌∷◌ c s) || is_within p s

-- `bool(text)`, and `a or b` of optional texts.
abbrev pub is_filled : String → Bool
is_filled s = not (str_eq s "")

abbrev pub text_or : Option String → Option String → Option String
text_or none b = b
text_or (some a) b = if is_filled a then some a else b

-- `str(a or "")`
abbrev pub text_of : Option String → String
text_of none = ""
text_of (some a) = a

-- `[text for text in texts if text]`
abbrev pub filled_texts : List String → List String
filled_texts ts = keep_if is_filled ts

pub str_eq_self : (s : String) → str_eq s s ≡ true
str_eq_self s = (eq_iff s s).1 refl

or_again : (a b : Bool) → (a || b) ≡ (a || (a || b))
or_again true b = refl
or_again false b = refl

or_swap : (a b c : Bool) → (a || (b || c)) ≡ (b || (a || c))
or_swap true true c = refl
or_swap true false c = refl
or_swap false true c = refl
or_swap false false c = refl

member-placed :
    (f s t : String) (ts rest : List String) (o : Ordering)
    → compare s t ≡ o
    → member f rest ≡ (str_eq s f || member f ts)
    → member f (placed o s t ts rest) ≡ (str_eq s f || (str_eq t f || member f ts))
unfolding member placed
member-placed f s t ts rest Ordering.lt e h = refl
member-placed f s t ts rest Ordering.eq e h =
    let same : s ≡ t = (eq_iff s t).0 (rw e refl) in
    subst (λ u. (str_eq t f || member f ts) ≡ (str_eq u f || (str_eq t f || member f ts)))
      (sym same) (or_again (str_eq t f) (member f ts))
member-placed f s t ts rest Ordering.gt e h =
    ap (λ b. str_eq t f || b) h ∙ or_swap (str_eq t f) (str_eq s f) (member f ts)

member-insert_text :
    (f s : String) (ts : List String) → member f (insert_text s ts) ≡ (str_eq s f || member f ts)
unfolding member insert_text
member-insert_text f s [] = refl
member-insert_text f s (t ∷ ts) =
    member-placed f s t ts (insert_text s ts) (compare s t) refl (member-insert_text f s ts)

-- The sorted set holds the same texts.
pub member-sorted_set : (f : String) (ts : List String) → member f (sorted_set ts) ≡ member f ts
unfolding member sorted_set
member-sorted_set f [] = refl
member-sorted_set f (t ∷ ts) =
    member-insert_text f t (sorted_set ts) ∙ ap (λ b. str_eq t f || b) (member-sorted_set f ts)

-- `if condition: flags.append(flag)`, one after another
abbrev pub chosen : List (Bool × String) → List String
chosen [] = []
chosen ((condition, flag) ∷ rest) =
    let flags = chosen rest in if condition then flag ∷ flags else flags
