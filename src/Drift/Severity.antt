-- ===== src/Drift/Severity.antt =====
-- What flags amount to: `_severity` of services/quant-engine/app/models/calibration_drift.py.
use simple_scanner.Common.{
  ℕ, ◌≤◌, String, Bool, true, false, ◌&&◌, ◌≡◌, refl, inl, inr, List, [], ◌∷◌, arith, if◌then◌else◌,
  Bool-cases,
}
use simple_scanner.Common.Texts.{member, str_eq_self}
use simple_scanner.Drift.Model.{Severity, info, watch, review, blocking}
use simple_scanner.Drift.Engine.{holds_any, severity_of}

abbrev pub severity_rank : Severity → ℕ
severity_rank info = 0
severity_rank watch = 1
severity_rank review = 2
severity_rank blocking = 3

-- Every text of the one list is in the other.
abbrev pub IsAmong : List String → List String → Type 0
IsAmong xs ys = (f : String) → member f xs ≡ true → member f ys ≡ true

holds_any_mono :
    (fs xs ys : List String) → IsAmong xs ys → holds_any fs xs ≡ true → holds_any fs ys ≡ true
unfolding holds_any
holds_any_mono [] xs ys h e = cc
holds_any_mono (f ∷ fs) xs ys h e = elim (Bool-cases (member f xs)) [
  | inl here ↦ rw (h f here) refl
  | inr away ↦
      let rest = holds_any_mono fs xs ys h (simp away at e) in
      elim (Bool-cases (member f ys)) [ inl now ↦ rw now refl | inr still ↦ rw still rest ]
]

-- The steps of `_severity` on the answers that it looks at.
abbrev pub severity_by : Bool → Bool → Bool → Bool → Bool → Severity
severity_by stale failing weak drifting some_flag =
    if stale
    then blocking
    else if failing
    then blocking
    else if weak
    then review
    else if drifting
    then review
    else if some_flag
    then watch
    else info

abbrev is_any : List String → Bool
is_any [] = false
is_any (f ∷ fs) = true

abbrev pub stale_flags : List String
stale_flags = "stale_window_contamination" ∷ "stale_replay_source_contamination" ∷ []

abbrev pub drifting_flags : List String
drifting_flags =
    "rank_correlation_deteriorating" ∷ "monotonicity_failed_in_recent_window"
    ∷ "high_grade_expectancy_turns_negative" ∷ "take_underperforms_watch_recently"
    ∷ "calibration_warning_spike" ∷ []

pub severity_of_lem :
    (flags : List String)
    → severity_of flags
      ≡ severity_by
          (holds_any stale_flags flags)
          (member "high_grade_expectancy_turns_negative" flags
            && member "take_underperforms_watch_recently" flags)
          (member "high_grade_expectancy_negative" flags && member "take_underperforms_watch" flags)
          (holds_any drifting_flags flags)
          (is_any flags)
unfolding severity_of
severity_of_lem [] = refl
severity_of_lem (f ∷ fs) = refl

severity_by_mono :
    (a b c d e a' b' c' d' e' : Bool)
    → (a ≡ true → a' ≡ true)
    → (b ≡ true → b' ≡ true)
    → (c ≡ true → c' ≡ true)
    → (d ≡ true → d' ≡ true)
    → (e ≡ true → e' ≡ true)
    → severity_rank (severity_by a b c d e) ≤ severity_rank (severity_by a' b' c' d' e')
severity_by_mono a b c d e a' b' c' d' e' p q r s t = ground arith

both_mono :
    (f g : String) (xs ys : List String)
    → IsAmong xs ys
    → member f xs && member g xs ≡ true
    → member f ys && member g ys ≡ true
both_mono f g xs ys h e = elim (Bool-cases (member f xs)) [
  | inl one ↦ rw (h f one) (h g (simp one at e))
  | inr no_one ↦ let none_there : false ≡ true = simp no_one at e in cc
]

is_any_mono : (xs ys : List String) → IsAmong xs ys → is_any xs ≡ true → is_any ys ≡ true
unfolding member
is_any_mono [] ys h e = cc
is_any_mono (x ∷ xs) [] h e = let there : false ≡ true = h x (simp (str_eq_self x) refl) in cc
is_any_mono (x ∷ xs) (y ∷ ys) h e = refl

-- Flags that are all among others amount to no more than those: the severity does not fall where flags
-- are added, and does not depend on their order or on how often one stands there.
severity_of_mono :
    (xs ys : List String)
    → IsAmong xs ys
    → severity_rank (severity_of xs) ≤ severity_rank (severity_of ys)
severity_of_mono xs ys h =
    rw (severity_of_lem xs, severity_of_lem ys)
      (severity_by_mono _ _ _ _ _ _ _ _ _ _ (holds_any_mono stale_flags xs ys h)
        (both_mono "high_grade_expectancy_turns_negative" "take_underperforms_watch_recently" xs ys
          h)
        (both_mono "high_grade_expectancy_negative" "take_underperforms_watch" xs ys h)
        (holds_any_mono drifting_flags xs ys h) (is_any_mono xs ys h))
