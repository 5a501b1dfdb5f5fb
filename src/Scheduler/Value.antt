-- ===== src/Scheduler/Value.antt =====
-- JSON values, and `_redact` and `_refresh_data_requested` of
-- services/quant-engine/app/services/scheduler.py. Keys of one object are different texts; a number
-- is only tested for zero. Lower case is that of ASCII.
use Prim.Native.Char.{code}
use Prim.Native.String.{String}
use mathlib.Core.Bool.{Bool, true, false, not, ◌&&◌, ◌||◌}
use mathlib.Core.List.{List, [], ◌∷◌}
use simple_scanner.Common.{ℕ, zero, ◌+◌, leb, ◌==◌, if◌then◌else◌, str_eq}
use simple_scanner.Common.Int.{ℤ, pos}

mutual
  pub data Fields : Type 0 where
    end : Fields
    field : String → Value → Fields → Fields

  pub data Items : Type 0 where
    nil : Items
    cons : Value → Items → Items

  pub data Value : Type 0 where
    null : Value
    bool : Bool → Value
    num : ℤ → Value
    text : String → Value
    arr : Items → Value
    obj : Fields → Value

-- `bool(value)`
unfoldable pub truthy : Value → Bool
truthy null = false
truthy (bool b) = b
truthy (num (pos zero)) = false
truthy (num n) = true
truthy (text s) = not (str_eq s "")
truthy (arr nil) = false
truthy (arr (cons v vs)) = true
truthy (obj end) = false
truthy (obj (field k v fs)) = true

-- `a or b`
unfoldable pub py_or : Value → Value → Value
py_or a b = if truthy a then a else b

unfoldable pub get_field : String → Fields → Value
get_field k end = null
get_field k (field j v fs) = if str_eq j k then v else get_field k fs

-- `value.get(key)` of a dictionary
unfoldable pub get_key : String → Value → Value
unfolding get_field
get_key k (obj fs) = get_field k fs
get_key k v = null

abbrev pub codes : String → List ℕ
codes String.[] = []
codes (String.◌∷◌ c s) = code c ∷ codes s

abbrev lower_code : ℕ → ℕ
lower_code c = if leb b'A' c && leb c b'Z' then c + 32 else c

abbrev pub lower : List ℕ → List ℕ
lower [] = []
lower (c ∷ cs) = lower_code c ∷ lower cs

unfoldable pub begins : List ℕ → List ℕ → Bool
begins [] cs = true
begins (p ∷ ps) [] = false
begins (p ∷ ps) (c ∷ cs) = p == c && begins ps cs

-- `part in text`
unfoldable pub has_part : List ℕ → List ℕ → Bool
unfolding begins
has_part part [] = begins part []
has_part part (c ∷ cs) = begins part (c ∷ cs) || has_part part cs

unfoldable pub has_any : List String → List ℕ → Bool
has_any [] cs = false
has_any (p ∷ ps) cs = has_part (codes p) cs || has_any ps cs

unfoldable pub is_secret_key : String → Bool
unfolding lower has_part has_any
is_secret_key key =
    has_any ("api_key" ∷ "secret" ∷ "password" ∷ "token" ∷ "database_url" ∷ "credential" ∷ [])
      (lower (codes key))

unfoldable pub contains : List String → String → Bool
contains [] s = false
contains (x ∷ xs) s = str_eq x s || contains xs s

abbrev pub redacted_text : String
redacted_text = "[REDACTED]"

-- `_redact`; `secrets` are the values of FMP_API_KEY and DATABASE_URL that are set.
unfoldable mutual
  pub redact : List String → Value → Value
  redact secrets null = null
  redact secrets (bool b) = bool b
  redact secrets (num n) = num n
  redact secrets (text s) = if contains secrets s then text redacted_text else text s
  redact secrets (arr xs) = arr (redact_items secrets xs)
  redact secrets (obj fs) = obj (redact_fields secrets fs)

  pub redact_items : List String → Items → Items
  redact_items secrets nil = nil
  redact_items secrets (cons v vs) = cons (redact secrets v) (redact_items secrets vs)

  pub redact_fields : List String → Fields → Fields
  redact_fields secrets end = end
  redact_fields secrets (field k v fs) =
      field k (if is_secret_key k then text redacted_text else redact secrets v)
        (redact_fields secrets fs)

-- `_refresh_data_requested`
unfoldable mutual
  pub refresh_data_requested : Value → Bool
  refresh_data_requested null = false
  refresh_data_requested (bool b) = false
  refresh_data_requested (num n) = false
  refresh_data_requested (text s) = false
  refresh_data_requested (arr xs) = refresh_in_items xs
  refresh_data_requested (obj fs) = refresh_in_fields fs

  pub refresh_in_items : Items → Bool
  refresh_in_items nil = false
  refresh_in_items (cons v vs) = refresh_data_requested v || refresh_in_items vs

  pub refresh_in_fields : Fields → Bool
  refresh_in_fields end = false
  refresh_in_fields (field k v fs) =
      (str_eq k "refresh_data" && truthy v) || refresh_data_requested v || refresh_in_fields fs
