-- ===== src/Validation.antt =====
-- The patterns of VirtualGateway/devcontrol_gateway/models.py and how its pydantic models read the
-- fields of a JSON object. A `none` is a `ValidationError`.
pub mod Requests
pub mod Rendering
use dev_control_open_harmony.Prelude.{
  ℕ, ◌*◌, String, Bool, true, false, not, ◌&&◌, ◌||◌, Option, none, some, List, [], ◌∷◌, ◌==◌, ltb,
  leb, nat_eq, if◌then◌else◌, all, length, contains,
}
use dev_control_open_harmony.Numbers.{ℤ, Float}
use dev_control_open_harmony.Value.{Value, Values, nil, cons, null, text, array, as_text}
use dev_control_open_harmony.Dict.{Dict, get, keys}
use dev_control_open_harmony.Ascii.{
  codes, is_letter, is_digit, is_base64url, is_visible, strip, split_once,
}

-- What pydantic converts by rules of its own: a number that stands in a text, the decimal digits of
-- Unicode.
pub record Pydantic : Type 0 where
  pub int_of : Value → Option ℤ
  pub float_of : Value → Option Float
  pub bool_of : Value → Option Bool
  -- `\d`
  pub is_decimal : ℕ → Bool

-- `IDENTIFIER_PATTERN`
unfoldable pub identifier_codes : List ℕ → Bool
unfolding is_letter is_digit
identifier_codes [] = false
identifier_codes (c ∷ cs) =
    is_letter c
    && (all (λ d. is_letter d || is_digit d || nat_eq d b'.' || nat_eq d b'_' || nat_eq d b'-') cs
        && leb (length cs) 63)

unfoldable pub is_identifier : String → Bool
unfolding identifier_codes
is_identifier s = identifier_codes (codes s)

-- `DEVICE_ID_PATTERN`
unfoldable pub device_id_codes : List ℕ → Bool
unfolding is_letter is_digit
device_id_codes [] = false
device_id_codes (c ∷ cs) =
    (is_letter c || is_digit c)
    && (all
          (λ d.
            is_letter d
            || is_digit d
            || nat_eq d b'.'
            || nat_eq d b'_'
            || nat_eq d b':'
            || nat_eq d b'-')
          cs
        && (leb 2 (length cs) && leb (length cs) 63))

unfoldable pub is_device_id : String → Bool
unfolding device_id_codes
is_device_id s = device_id_codes (codes s)

-- `min_length <= len(s) <= max_length`
unfoldable pub has_length : ℕ → ℕ → String → Bool
has_length low high s = leb low (length (codes s)) && leb (length (codes s)) high

-- `DEVICE_NAME_PATTERN`, and the name is not blank
unfoldable pub is_device_name : String → Bool
unfolding has_length is_visible strip
is_device_name s = all is_visible (codes s) && has_length 1 64 s && not (strip s == "")

-- `[A-Za-z0-9_-]{8,}`
unfoldable pub is_segment : String → Bool
unfolding is_base64url
is_segment s = all is_base64url (codes s) && leb 8 (length (codes s))

-- `COMPACT_JWS_PATTERN`: a segment has no dot, so the first two dots end the first two segments.
unfoldable pub is_compact_jws : String → Bool
unfolding split_once is_segment
is_compact_jws s = elim (split_once b'.' s) [
  | none ↦ false
  | some p ↦ elim (split_once b'.' p.1) [
    | none ↦ false
    | some q ↦ is_segment p.0 && (is_segment q.0 && is_segment q.1)
  ]
]

-- `len(value) == len(set(value))`
unfoldable pub distinct : List String → Bool
unfolding contains
distinct [] = true
distinct (s ∷ ss) = not (contains ss s) && distinct ss

-- `valid_capabilities`, with the limits of the field
unfoldable pub are_capabilities : List String → Bool
unfolding distinct is_identifier
are_capabilities ss =
    leb 1 (length ss) && (leb (length ss) 32 && (distinct ss && all is_identifier ss))

infixl 10 ◌>>=◌
abbrev pub ◌>>=◌ {ℓ κ} : {A : Type ℓ} {B : Type κ} → Option A → (A → Option B) → Option B
none >>= next = none
some a >>= next = next a

abbrev pub require : Bool → Option (Unit {0})
require true = some tt
require false = none

-- `extra="forbid"`
unfoldable pub only_keys : List String → Dict Value → Bool
unfolding contains
only_keys names d = all (contains names) (keys d)

-- A required field of type `str`, with the test of its limits and its validator.
unfoldable pub text_field : String → (String → Bool) → Dict Value → Option String
unfolding get
text_field name valid d = get name d >>= λ v. as_text v >>= λ s. require (valid s) >>= λ _. some s

-- A field of type `Literal[expected]`, with `expected` as its default.
unfoldable pub literal_field : String → String → Dict Value → Option (Unit {0})
unfolding get
literal_field name expected d = elim (get name d) [
  | none ↦ some tt
  | some v ↦ as_text v >>= λ s. require (s == expected)
]

-- A field of an optional type, with the default `None`.
unfoldable pub optional_field {ℓ} :
    {A : Type ℓ} → String → (Value → Option A) → Dict Value → Option (Option A)
unfolding get
optional_field name convert d = elim (get name d) [
  | none ↦ some none
  | some null ↦ some none
  | some v ↦ convert v >>= λ a. some (some a)
]

-- `list[str]`
abbrev pub texts_of : Values → Option (List String)
texts_of nil = some []
texts_of (cons v vs) = as_text v >>= λ s. texts_of vs >>= λ ss. some (s ∷ ss)

abbrev pub as_texts : Value → Option (List String)
as_texts (array vs) = texts_of vs
as_texts _ = none

unfoldable pub texts_field : String → (List String → Bool) → Dict Value → Option (List String)
unfolding get
texts_field name valid d =
    get name d >>= λ v. as_texts v >>= λ ss. require (valid ss) >>= λ _. some ss

-- `d.get(name)` where only a text counts
abbrev pub text_of : Option Value → Option String
text_of none = none
text_of (some v) = as_text v
