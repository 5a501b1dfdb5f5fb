-- ===== src/Labels/Spacing.antt =====
-- The labels of one symbol and setup do not overlap.
use simple_scanner.Common.{
  ℕ, ◌+◌, ◌<◌, ◌≡◌, refl, inl, inr, String, Bool, true, false, ◌&&◌, ◌||◌, Option, none, some, List,
  [], ◌∷◌, ◌++◌, arith, if◌then◌else◌, Bool-cases, Option-cases, leb, ltb, length, drop, suc,
  str_eq, eq_iff, subst, sym, ap, ◌∙◌,
}
use simple_scanner.Labels.Market.{PriceOps, Bar, LabelSettings, Candidate, Feature, LabelRow}
use simple_scanner.Labels.Engine.{index_of, label_candidate, label_from, label_planned, Plan}
use simple_scanner.Labels.Rows.{
  Block, is_block_of, blocked_until, set_block, Group, block_of, with_label, add_label, first_label,
  label_at, label_features, label_groups, build_label_rows,
}

is_block_of-same :
    (sy se : String) (b c : Block)
    → is_block_of b.symbol b.setup_type c ≡ true
    → is_block_of sy se c ≡ is_block_of sy se b
is_block_of-same sy se b c h =
    let one : c.symbol ≡ b.symbol = (eq_iff c.symbol b.symbol).0 (ground (arith, h)) in
    let two : c.setup_type ≡ b.setup_type =
      (eq_iff c.setup_type b.setup_type).0 (ground (arith, h)) in
    subst (λ u. is_block_of sy se c ≡ (str_eq u sy && str_eq b.setup_type se)) one
      (subst (λ v. is_block_of sy se c ≡ (str_eq c.symbol sy && str_eq v se)) two refl)

is_block_of-both :
    (sy se : String) (b c : Block)
    → is_block_of sy se b ≡ true
    → is_block_of sy se c ≡ true
    → is_block_of b.symbol b.setup_type c ≡ true
is_block_of-both sy se b c h k =
    let one : b.symbol ≡ sy = (eq_iff b.symbol sy).0 (ground (arith, h)) in
    let two : b.setup_type ≡ se = (eq_iff b.setup_type se).0 (ground (arith, h)) in
    subst (λ u. is_block_of u b.setup_type c ≡ true) (sym one)
      (subst (λ v. is_block_of sy v c ≡ true) (sym two) k)

blocked_until-set_block :
    (sy se : String) (b : Block) (bs : List Block)
    → blocked_until sy se (set_block b bs)
      ≡ (if is_block_of sy se b then b.until else blocked_until sy se bs)
unfolding blocked_until set_block
blocked_until-set_block sy se b [] = refl
blocked_until-set_block sy se b (c ∷ cs) = elim (Bool-cases (is_block_of b.symbol b.setup_type c)) [
  | inl same ↦ elim (Bool-cases (is_block_of sy se b)) [
    | inl here ↦ simp (same, here) refl
    | inr away ↦ simp (same, away, is_block_of-same sy se b c same) refl
  ]
  | inr other ↦ elim (Bool-cases (is_block_of sy se c)) [
    | inl here ↦ elim (Bool-cases (is_block_of sy se b)) [
      | inl both ↦ cc (sym other ∙ is_block_of-both sy se b c both here)
      | inr only ↦ simp (other, here, only) refl
    ]
    | inr away ↦ simp (other, away) (blocked_until-set_block sy se b cs)
  ]
]

module _ {F : Type 0} where
  abbrev pub is_label_of : String → String → LabelRow F → Bool
  is_label_of symbol setup l = str_eq l.symbol symbol && str_eq l.setup_type setup

  -- The exit of the latest label of a symbol and setup; `before` has the latest first.
  abbrev pub last_exit : String → String → List (LabelRow F) → ℕ
  last_exit symbol setup [] = 0
  last_exit symbol setup (l ∷ ls) =
      if is_label_of symbol setup l then l.found.exit_timestamp_utc else last_exit symbol setup ls

  -- Each label stands later than the exit of the one of its symbol and setup before it.
  abbrev pub IsSpaced : List (LabelRow F) → List (LabelRow F) → Type 0
  IsSpaced before [] = Unit
  IsSpaced before (l ∷ ls) =
      (last_exit l.symbol l.setup_type before < l.timestamp_utc) × IsSpaced (l ∷ before) ls

  -- The dictionary of the code tells the exits of the labels so far.
  abbrev Tells : List (LabelRow F) → List Block → Type 0
  Tells before blocks = (sy se : String) → blocked_until sy se blocks ≡ last_exit sy se before

  Tells-set_block :
      (before : List (LabelRow F)) (blocks : List Block) (l : LabelRow F)
      → Tells before blocks
      → Tells (l ∷ before) (set_block (block_of l) blocks)
  Tells-set_block before blocks l h sy se =
      blocked_until-set_block sy se (block_of l) blocks
      ∙ ap (λ n. if is_label_of sy se l then l.found.exit_timestamp_utc else n) (h sy se)

module _ {F : Type 0} (ops : PriceOps F) where
  -- What a label takes from its candidate and its feature.
  abbrev IsOf : Candidate → ℕ → Option (LabelRow F) → Type 0
  IsOf c t none = Unit
  IsOf c t (some l) = (l.symbol ≡ c.symbol) × (l.setup_type ≡ c.setup_type) × (l.timestamp_utc ≡ t)

  label_planned-IsOf :
      (s : LabelSettings F) (c : Candidate) (t : ℕ) (f : Feature F) (p : Plan F) (bs : List (Bar F))
      → IsOf c t (label_planned ops s c t f p bs)
  label_planned-IsOf s c t f p [] = tt
  label_planned-IsOf s c t f p (b ∷ bs) = elim (Bool-cases (ops.at_most p.risk ops.zero_price)) [
    | inl bad ↦ simp bad tt
    | inr good ↦ simp good (refl, refl, refl)
  ]

  label_from-IsOf :
      (s : LabelSettings F) (bars : List (Bar F)) (i t : ℕ) (f : Feature F) (c : Candidate)
      (later : List (Bar F))
      → IsOf c t (label_from ops s bars i t f c later)
  label_from-IsOf s bars i t f c [] = tt
  label_from-IsOf s bars i t f c (b ∷ bs) = label_planned-IsOf s c t f _ _

-- A label, if there is one, stands later than the last exit of its symbol and setup.
abbrev IsLater : {F : Type 0} → List (LabelRow F) → Option (LabelRow F) → Type 0
IsLater before none = Unit
IsLater before (some l) = last_exit l.symbol l.setup_type before < l.timestamp_utc

module _ {F : Type 0} (ops : PriceOps F) (detect : Feature F → List Candidate) where
  IsLater-of :
      (before : List (LabelRow F)) (blocks : List Block) (c : Candidate) (t : ℕ) (l : LabelRow F)
      → Tells before blocks
      → blocked_until c.symbol c.setup_type blocks < t
      → IsOf ops c t (some l)
      → IsLater before (some l)
  IsLater-of before blocks c t l h k e =
      subst (λ sy. last_exit sy l.setup_type before < l.timestamp_utc) (sym e.0)
        (subst (λ se. last_exit c.symbol se before < l.timestamp_utc) (sym e.1)
          (subst (λ n. last_exit c.symbol c.setup_type before < n) (sym e.2)
            (subst (λ n. n < t) (h c.symbol c.setup_type) k)))

  first_label-IsLater :
      (s : LabelSettings F) (bars : List (Bar F)) (i : ℕ) (f : Feature F) (cs : List Candidate)
      (before : List (LabelRow F)) (blocks : List Block)
      → s.allow_overlapping_trades ≡ false
      → Tells before blocks
      → IsLater before (first_label ops detect s bars i f cs blocks)
  unfolding first_label label_candidate
  first_label-IsLater s bars i f [] before blocks a h = tt
  first_label-IsLater s bars i f (c ∷ cs) before blocks a h =
      let rest = first_label-IsLater s bars i f cs before blocks a h in
      elim (Bool-cases (leb f.timestamp (blocked_until c.symbol c.setup_type blocks))) [
        | inl held ↦ simp (a, held) rest
        | inr free ↦ elim (Option-cases (label_candidate ops s bars i f.timestamp f c)) [
          | inl missing ↦ simp (a, free, missing) rest
          | inr (l, made) ↦
              simp (a, free, made)
                (IsLater-of before blocks c f.timestamp l h (ground (arith, free)) (
                  subst (λ o. IsOf ops c f.timestamp o) made
                    (label_from-IsOf ops s bars i f.timestamp f c (drop (suc i) bars))))
        ]
      ]

  label_at-IsLater :
      (s : LabelSettings F) (bars : List (Bar F)) (o : Option ℕ) (f : Feature F)
      (before : List (LabelRow F)) (blocks : List Block)
      → s.allow_overlapping_trades ≡ false
      → Tells before blocks
      → IsLater before (label_at ops detect s bars o f blocks)
  label_at-IsLater s bars none f before blocks a h = tt
  label_at-IsLater s bars (some i) f before blocks a h =
      elim (Bool-cases (ltb i s.minimum_bars_before_label || leb (length bars) (i + 1))) [
        | inl short ↦ simp short tt
        | inr enough ↦ simp enough (first_label-IsLater s bars i f (detect f) before blocks a h)
      ]

-- The labels of a loop continue those before it, and so do the labels of what follows the loop.
abbrev Continues : {F : Type 0} → List (LabelRow F) → List (LabelRow F) × List Block → Type 0
Continues before out =
    (rest : List (LabelRow _))
    → ((all : List (LabelRow _)) → Tells all out.1 → IsSpaced all rest)
    → IsSpaced before (out.0 ++ rest)

module _ {F : Type 0} (ops : PriceOps F) (detect : Feature F → List Candidate) where
  add_label-Continues :
      (o : Option (LabelRow F)) (before : List (LabelRow F)) (blocks : List Block)
      (out : List (LabelRow F) × List Block)
      → Tells before blocks
      → IsLater before o
      → ((all : List (LabelRow F)) → Tells all (with_label o blocks) → Continues all out)
      → Continues before (add_label o out.0, out.1)
  add_label-Continues none before blocks out h k more = more before h
  add_label-Continues (some l) before blocks out h k more =
      λ rest next. (k, more (l ∷ before) (Tells-set_block before blocks l h) rest next)

  label_features-Continues :
      (s : LabelSettings F) (bars : List (Bar F)) (fs : List (Feature F))
      (before : List (LabelRow F)) (blocks : List Block)
      → s.allow_overlapping_trades ≡ false
      → Tells before blocks
      → Continues before (label_features ops detect s bars fs blocks)
  unfolding label_features
  label_features-Continues s bars [] before blocks a h = λ rest next. next before h
  label_features-Continues s bars (f ∷ fs) before blocks a h =
      let label = label_at ops detect s bars (index_of f.timestamp bars) f blocks in
      add_label-Continues label before blocks
        (label_features ops detect s bars fs (with_label label blocks)) h
        (label_at-IsLater ops detect s bars (index_of f.timestamp bars) f before blocks a h)
        (λ all told. label_features-Continues s bars fs all (with_label label blocks) a told)

  label_groups-IsSpaced :
      (s : LabelSettings F) (gs : List (Group F)) (before : List (LabelRow F)) (blocks : List Block)
      → s.allow_overlapping_trades ≡ false
      → Tells before blocks
      → IsSpaced before (label_groups ops detect s gs blocks)
  unfolding label_groups
  label_groups-IsSpaced s [] before blocks a h = tt
  label_groups-IsSpaced s (g ∷ gs) before blocks a h =
      let here = label_features ops detect s g.bars g.features blocks in
      label_features-Continues s g.bars g.features before blocks a h
        (label_groups ops detect s gs here.1)
        (λ all told. label_groups-IsSpaced s gs all here.1 a told)

  -- Where overlapping trades are not allowed, each label stands later than the exit of the label of
  -- its symbol and setup that `build_label_rows` gave before it, whatever the candidates are.
  pub build_label_rows-IsSpaced :
      (s : LabelSettings F) (gs : List (Group F))
      → s.allow_overlapping_trades ≡ false
      → IsSpaced [] (build_label_rows ops detect s gs)
  unfolding build_label_rows blocked_until
  build_label_rows-IsSpaced s gs a = label_groups-IsSpaced s gs [] [] a (λ sy se. refl)
