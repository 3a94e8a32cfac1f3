-- ===== src/Ascii.antt =====
-- Texts character by character, as Python handles them: the classes that regular expressions name,
-- `str.strip`, `str.split`, `str.encode("ascii")`.
pub mod Pieces
use Prim.Native.Char.{code}
use Prim.Native.String.{String}
use dev_control_open_harmony.Prelude.{
  ℕ, Bool, true, false, not, ◌&&◌, ◌||◌, List, [], ◌∷◌, Option, none, some, ltb, leb, nat_eq,
  if◌then◌else◌, all,
}

abbrev pub codes : String → List ℕ
codes String.[] = []
codes (String.◌∷◌ c s) = code c ∷ codes s

abbrev between : ℕ → ℕ → ℕ → Bool
between low high c = leb low c && leb c high

-- `[A-Za-z]`
unfoldable pub is_letter : ℕ → Bool
is_letter c = between b'A' b'Z' c || between b'a' b'z' c

-- `[0-9]`
unfoldable pub is_digit : ℕ → Bool
is_digit c = between b'0' b'9' c

-- `[A-Za-z0-9_-]`
unfoldable pub is_base64url : ℕ → Bool
unfolding is_letter is_digit
is_base64url c = is_letter c || is_digit c || nat_eq c b'-' || nat_eq c b'_'

-- `not [\x00-\x1F\x7F]`
unfoldable pub is_visible : ℕ → Bool
is_visible c = leb 32 c && not (nat_eq c 127)

-- `str.isspace` of one character
unfoldable pub is_space : ℕ → Bool
is_space c =
    between 9 13 c
    || between 28 32 c
    || nat_eq c 133
    || nat_eq c 160
    || nat_eq c 5760
    || between 8192 8202 c
    || between 8232 8233 c
    || nat_eq c 8239
    || nat_eq c 8287
    || nat_eq c 12288

-- `str.isascii`
unfoldable pub is_ascii : List ℕ → Bool
is_ascii cs = all (λ c. ltb c 128) cs

-- `s.lstrip()`
unfoldable pub lstrip : String → String
unfolding is_space
lstrip String.[] = ""
lstrip (String.◌∷◌ c s) = let rest = lstrip s in if is_space (code c) then rest else String.◌∷◌ c s

abbrev pub is_empty : String → Bool
is_empty String.[] = true
is_empty (String.◌∷◌ _ _) = false

-- `s.rstrip()`
unfoldable pub rstrip : String → String
unfolding is_space
rstrip String.[] = ""
rstrip (String.◌∷◌ c s) =
    let rest = rstrip s in if is_empty rest && is_space (code c) then "" else String.◌∷◌ c rest

-- `s.strip()`
unfoldable pub strip : String → String
unfolding lstrip rstrip
strip s = rstrip (lstrip s)

-- `s.split(separator, 1)`, for a separator of one character: the text before it and the text after
-- it, if it occurs
unfoldable pub split_once : ℕ → String → Option (String × String)
split_once separator String.[] = none
split_once separator (String.◌∷◌ c s) =
    let rest = split_once separator s in
    if nat_eq (code c) separator
    then some ("", s)
    else elim rest [ none ↦ none | some p ↦ some (String.◌∷◌ c p.0, p.1) ]
