-- ===== src/Scheduler/Redaction.antt =====
-- `_redact`: what is stored of a payload, a result or an event's metadata.
use simple_scanner.Common.{
  ℕ, [], ◌∷◌, ◌++◌, ◌⊎◌, ◌↔◌, ◌≡◌, refl, ap, sym, subst, eq_iff, inl, inr, true, false, String,
  List, arith, str_eq, Bool-cases,
}
use simple_scanner.Scheduler.Value.{
  Value, Items, Fields, null, bool, num, text, arr, obj, nil, cons, end, field, is_secret_key,
  codes, lower, begins, has_part, has_any, contains, redacted_text, redact, redact_items,
  redact_fields, refresh_data_requested, refresh_in_items, refresh_in_fields, truthy,
}

-- A text is among others; what `in` means, written with equality of texts.
abbrev pub IsAmong : String → List String → Type 0
IsAmong s [] = ⊥
IsAmong s (x ∷ xs) = (x ≡ s) ⊎ IsAmong s xs

-- One sequence stands inside another.
abbrev pub IsInside : List ℕ → List ℕ → Type 0
IsInside part cs = (front : List ℕ) × (back : List ℕ) × (cs ≡ front ++ (part ++ back))

-- A key names a secret where one of the six words stands in it, whatever the case of its letters.
abbrev pub secret_words : List String
secret_words = "api_key" ∷ "secret" ∷ "password" ∷ "token" ∷ "database_url" ∷ "credential" ∷ []

abbrev pub HasWord : List String → List ℕ → Type 0
HasWord [] cs = ⊥
HasWord (w ∷ ws) cs = IsInside (codes w) cs ⊎ HasWord ws cs

abbrev pub NamesSecret : String → Type 0
NamesSecret key = HasWord secret_words (lower (codes key))

-- What becomes of a value: a text that is a secret turns into the mark and another stays; the items of a
-- list and the fields of an object stay in their number and order; a key stays as it is, and its value
-- turns into the mark where the key names a secret.
abbrev mutual
  pub IsRedaction : List String → Value → Value → Type 0
  IsRedaction secrets null w = w ≡ null
  IsRedaction secrets (bool b) w = w ≡ bool b
  IsRedaction secrets (num n) w = w ≡ num n
  IsRedaction secrets (text s) w =
      (IsAmong s secrets × (w ≡ text redacted_text)) ⊎ ((IsAmong s secrets → ⊥) × (w ≡ text s))
  IsRedaction secrets (arr xs) w = (ys : Items) × (w ≡ arr ys) × AreRedacted secrets xs ys
  IsRedaction secrets (obj fs) w = (gs : Fields) × (w ≡ obj gs) × FieldsRedacted secrets fs gs

  pub AreRedacted : List String → Items → Items → Type 0
  AreRedacted secrets nil ys = ys ≡ nil
  AreRedacted secrets (cons v vs) ys =
      (w : Value) × (ws : Items) × (ys ≡ cons w ws)
      × IsRedaction secrets v w
      × AreRedacted secrets vs ws

  pub FieldsRedacted : List String → Fields → Fields → Type 0
  FieldsRedacted secrets end gs = gs ≡ end
  FieldsRedacted secrets (field k v fs) gs =
      (w : Value) × (rest : Fields) × (gs ≡ field k w rest)
      × ((NamesSecret k × (w ≡ text redacted_text))
          ⊎ ((NamesSecret k → ⊥) × IsRedaction secrets v w))
      × FieldsRedacted secrets fs rest

begins-front : (ps cs : List ℕ) → begins ps cs ≡ true → (back : List ℕ) × (cs ≡ ps ++ back)
unfolding begins
begins-front [] cs h = (cs, refl)
begins-front (p ∷ ps) [] h = cc
begins-front (p ∷ ps) (c ∷ cs) h =
    let (back, e) = begins-front ps cs (ground (arith, h)) in
    let same : c ≡ p = ground (arith, h) in (back, λ i. same i ∷ e i)

begins_front : (ps back : List ℕ) → begins ps (ps ++ back) ≡ true
unfolding begins
begins_front [] back = refl
begins_front (p ∷ ps) back = ground (arith, begins_front ps back)

has_part-IsInside : (part cs : List ℕ) → has_part part cs ≡ true → IsInside part cs
unfolding has_part
has_part-IsInside part [] h = let (back, e) = begins-front part [] h in ([], back, e)
has_part-IsInside part (c ∷ cs) h = elim (Bool-cases (begins part (c ∷ cs))) [
  | inl here ↦ let (back, e) = begins-front part (c ∷ cs) here in ([], back, e)
  | inr away ↦
      let (front, back, e) = has_part-IsInside part cs (simp away at h) in
      (c ∷ front, back, ap (◌∷◌ c) e)
]

has_part_here : (part cs : List ℕ) → begins part cs ≡ true → has_part part cs ≡ true
unfolding has_part
has_part_here part [] h = h
has_part_here part (c ∷ cs) h = rw h refl

has_part_inside : (part front back : List ℕ) → has_part part (front ++ (part ++ back)) ≡ true
unfolding has_part
has_part_inside part [] back = has_part_here part (part ++ back) (begins_front part back)
has_part_inside part (c ∷ front) back = ground (arith, has_part_inside part front back)

has_any-HasWord : (ws : List String) (cs : List ℕ) → (has_any ws cs ≡ true) ↔ HasWord ws cs
unfolding has_any
has_any-HasWord [] cs = ((λ h. cc), λ h. absurd h)
has_any-HasWord (w ∷ ws) cs = (
  λ h. elim (Bool-cases (has_part (codes w) cs)) [
    | inl e ↦ inl (has_part-IsInside (codes w) cs e)
    | inr e ↦ inr ((has_any-HasWord ws cs).0 (simp e at h))
  ],
  λ h. elim h [
    | inl (front, back, e) ↦
        let here : has_part (codes w) cs ≡ true = rw e (has_part_inside (codes w) front back) in
        rw here refl
    | inr later ↦ ground (arith, (has_any-HasWord ws cs).1 later)
  ],
)

is_secret_key-NamesSecret : (key : String) → (is_secret_key key ≡ true) ↔ NamesSecret key
unfolding is_secret_key
is_secret_key-NamesSecret key = has_any-HasWord secret_words (lower (codes key))

contains-IsAmong :
    (secrets : List String) (s : String) → (contains secrets s ≡ true) ↔ IsAmong s secrets
unfolding contains
contains-IsAmong [] s = ((λ h. cc), λ h. absurd h)
contains-IsAmong (x ∷ xs) s = (
  λ h. elim (Bool-cases (str_eq x s)) [
    | inl e ↦ inl ((eq_iff x s).0 e)
    | inr e ↦ inr ((contains-IsAmong xs s).0 (simp e at h))
  ],
  λ h. elim h [
    | inl e ↦ let here : str_eq x s ≡ true = (eq_iff x s).1 e in rw here refl
    | inr later ↦ ground (arith, (contains-IsAmong xs s).1 later)
  ],
)

module _ (secrets : List String) where
  mutual
    unfolding redact

    redact-all : (v : Value) → IsRedaction secrets v (redact secrets v)
    redact-all null = refl
    redact-all (bool b) = refl
    redact-all (num n) = refl
    redact-all (text s) = elim (Bool-cases (contains secrets s)) [
      | inl e ↦ rw e (inl ((contains-IsAmong secrets s).0 e, refl))
      | inr e ↦ rw e (inr ((λ h. cc ((contains-IsAmong secrets s).1 h)), refl))
    ]
    redact-all (arr xs) = (redact_items secrets xs, refl, redact_items-all xs)
    redact-all (obj fs) = (redact_fields secrets fs, refl, redact_fields-all fs)

    redact_items-all : (xs : Items) → AreRedacted secrets xs (redact_items secrets xs)
    redact_items-all nil = refl
    redact_items-all (cons v vs) =
        (redact secrets v, redact_items secrets vs, refl, redact-all v, redact_items-all vs)

    redact_fields-all : (fs : Fields) → FieldsRedacted secrets fs (redact_fields secrets fs)
    redact_fields-all end = refl
    redact_fields-all (field k v fs) = elim (Bool-cases (is_secret_key k)) [
      | inl e ↦ rw e (
        text redacted_text,
        redact_fields secrets fs,
        refl,
        inl ((is_secret_key-NamesSecret k).0 e, refl),
        redact_fields-all fs,
      )
      | inr e ↦ rw e (
        redact secrets v,
        redact_fields secrets fs,
        refl,
        inr ((λ h. cc ((is_secret_key-NamesSecret k).1 h)), redact-all v),
        redact_fields-all fs,
      )
    ]

module _ (secrets : List String) (mark : contains secrets redacted_text ≡ false) where
  mutual
    unfolding redact

    redact_again : (v : Value) → redact secrets (redact secrets v) ≡ redact secrets v
    redact_again null = refl
    redact_again (bool b) = refl
    redact_again (num n) = refl
    redact_again (text s) = elim (Bool-cases (contains secrets s)) [
      | inl e ↦ rw e (rw mark)
      | inr e ↦ rw e (rw e)
    ]
    redact_again (arr xs) = ap arr (redact_items_again xs)
    redact_again (obj fs) = ap obj (redact_fields_again fs)

    redact_items_again :
        (xs : Items) → redact_items secrets (redact_items secrets xs) ≡ redact_items secrets xs
    redact_items_again nil = refl
    redact_items_again (cons v vs) = rw (redact_again v, redact_items_again vs)

    redact_fields_again :
        (fs : Fields) → redact_fields secrets (redact_fields secrets fs) ≡ redact_fields secrets fs
    redact_fields_again end = refl
    redact_fields_again (field k v fs) = elim (Bool-cases (is_secret_key k)) [
      | inl e ↦ rw (e, redact_fields_again fs)
      | inr e ↦ rw (e, redact_again v, redact_fields_again fs)
    ]

  -- Redacting once more changes nothing, provided that the mark is no secret.
  redact-idempotent : (v : Value) → redact secrets (redact secrets v) ≡ redact secrets v
  redact-idempotent v = redact_again v

refresh_data_open : is_secret_key "refresh_data" ≡ false
unfolding is_secret_key
refresh_data_open = refl

open_key : (k : String) → str_eq k "refresh_data" ≡ true → is_secret_key k ≡ false
open_key k e =
    subst (λ j. is_secret_key j ≡ false) (sym ((eq_iff k "refresh_data").0 e)) refresh_data_open

module _ (secrets : List String) (filled : contains secrets "" ≡ false) where
  empty_is_no_secret :
      (s : String) → str_eq s "" ≡ true → truthy (redact secrets (text s)) ≡ true → ⊥
  unfolding truthy redact
  empty_is_no_secret s e h =
      let none : contains secrets s ≡ false =
        subst (λ t. contains secrets t ≡ false) (sym ((eq_iff s "").0 e)) filled in
      cc (rw (none, e) at h)

  truthy-redact : (v : Value) → truthy (redact secrets v) ≡ true → truthy v ≡ true
  unfolding truthy redact
  truthy-redact null h = h
  truthy-redact (bool b) h = h
  truthy-redact (num n) h = h
  truthy-redact (text s) h = elim (Bool-cases (str_eq s "")) [
    | inl e ↦ absurd (empty_is_no_secret s e h)
    | inr e ↦ rw e
  ]
  truthy-redact (arr nil) h = h
  truthy-redact (arr (cons v vs)) h = refl
  truthy-redact (obj end) h = h
  truthy-redact (obj (field k v fs)) h = refl

  mutual
    unfolding redact refresh_data_requested

    refresh-clean :
        (v : Value)
        → refresh_data_requested (redact secrets v) ≡ true
        → refresh_data_requested v ≡ true
    refresh-clean null h = h
    refresh-clean (bool b) h = h
    refresh-clean (num n) h = h
    refresh-clean (text s) h = ground arith
    refresh-clean (arr xs) h = refresh_items-clean xs h
    refresh-clean (obj fs) h = refresh_fields-clean fs h

    refresh_items-clean :
        (xs : Items)
        → refresh_in_items (redact_items secrets xs) ≡ true
        → refresh_in_items xs ≡ true
    refresh_items-clean nil h = h
    refresh_items-clean (cons v vs) h = ground (arith, refresh-clean v, refresh_items-clean vs)

    refresh_fields-clean :
        (fs : Fields)
        → refresh_in_fields (redact_fields secrets fs) ≡ true
        → refresh_in_fields fs ≡ true
    refresh_fields-clean end h = h
    refresh_fields-clean (field k v fs) h =
        ground (arith, open_key k, truthy-redact v, refresh-clean v, refresh_fields-clean fs)

  -- Where no secret is the empty text, redaction asks for no refresh of data that was not asked for:
  -- what `_refresh_data_requested` finds in the payload that was stored, it finds in the one given.
  refresh_data_requested-redact :
      (v : Value)
      → refresh_data_requested (redact secrets v) ≡ true
      → refresh_data_requested v ≡ true
  refresh_data_requested-redact v h = refresh-clean v h
