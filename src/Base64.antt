-- ===== src/Base64.antt =====
-- `base64url_encode` and `base64url_decode` of VirtualGateway/devcontrol_gateway/security.py, with the
-- parts of Python's base64 and binascii that they use. A byte is a number below 256.
pub mod Letters
pub mod RoundTrip
use Prim.Native.Char.{Char}
use Prim.Native.String.{String, char_at}
use dev_control_open_harmony.Prelude.{
  ℕ, zero, suc, ◌+◌, ◌-◌, ◌*◌, ◌/◌, ◌%◌, Bool, true, false, not, ◌&&◌, ◌||◌, List, [], ◌∷◌, ◌++◌,
  Option, none, some, length, leb, nat_eq, if◌then◌else◌,
}
use dev_control_open_harmony.Ascii.{codes, is_ascii}

abbrev pub Bytes : Type 0
Bytes = List ℕ

-- The character of a number below 64.
unfoldable pub letter : ℕ → Char
letter n = char_at "ABCDEFGHIJKLMNOPQRSTUVWXYZabcdefghijklmnopqrstuvwxyz0123456789-_" n

-- `urlsafe_b64encode` without its padding: four letters for three bytes
unfoldable pub base64url_encode : Bytes → String
unfolding letter
base64url_encode [] = ""
base64url_encode (a ∷ []) = String.◌∷◌ (letter (a / 4)) (String.◌∷◌ (letter (a % 4 * 16)) "")
base64url_encode (a ∷ b ∷ []) =
    String.◌∷◌ (letter (a / 4))
      (String.◌∷◌ (letter (a % 4 * 16 + b / 16)) (String.◌∷◌ (letter (b % 16 * 4)) ""))
base64url_encode (a ∷ b ∷ c ∷ rest) = String.◌∷◌ (letter (a / 4)) (
    String.◌∷◌ (letter (a % 4 * 16 + b / 16)) (
      String.◌∷◌ (letter (b % 16 * 4 + c / 64))
        (String.◌∷◌ (letter (c % 64)) (base64url_encode rest))))

-- The number of a character of the alphabet. `urlsafe_b64decode` reads `-` as `+` and `_` as `/`.
unfoldable pub sextet : ℕ → Option ℕ
sextet c =
    if leb b'A' c && leb c b'Z'
    then some (c - 65)
    else if leb b'a' c && leb c b'z'
    then some (c - 71)
    else if leb b'0' c && leb c b'9'
    then some (c + 4)
    else if nat_eq c b'-' || nat_eq c b'+'
    then some 62
    else if nat_eq c b'_' || nat_eq c b'/'
    then some 63
    else none

-- What `binascii.a2b_base64` keeps between characters: the place in the group of four, the bits left
-- over from the character before, the padding characters seen.
pub record Reader : Type 0 where
  pub place : ℕ
  pub left : ℕ
  pub pads : ℕ

abbrev pub start : Reader
start = record { place = 0; left = 0; pads = 0 }

-- A padding character that completes its group ends the reading.
unfoldable pub is_done : Reader → ℕ → Bool
is_done r c = nat_eq c b'=' && leb 2 r.place && leb 4 (r.place + (r.pads + 1))

abbrev pub read : Reader → ℕ → Reader
read r v =
    if nat_eq r.place 0
    then record { place = 1; left = v; pads = 0 }
    else if nat_eq r.place 1
    then record { place = 2; left = v % 16; pads = 0 }
    else if nat_eq r.place 2
    then record { place = 3; left = v % 4; pads = 0 }
    else record { place = 0; left = 0; pads = 0 }

abbrev pub written : Reader → ℕ → Bytes
written r v =
    if nat_eq r.place 0
    then []
    else if nat_eq r.place 1
    then (r.left * 4 + v / 16) ∷ []
    else if nat_eq r.place 2
    then (r.left * 16 + v / 4) ∷ []
    else (r.left * 64 + v) ∷ []

-- Characters outside the alphabet are skipped.
unfoldable pub next : Reader → ℕ → Reader
unfolding sextet
next r c =
    if nat_eq c b'='
    then if leb 2 r.place then record r { pads = r.pads + 1 } else r
    else elim (sextet c) [ none ↦ r | some v ↦ read r v ]

unfoldable pub output : Reader → ℕ → Bytes
unfolding sextet
output r c = elim (sextet c) [ none ↦ [] | some v ↦ written r v ]

abbrev pub prepend : Bytes → Option Bytes → Option Bytes
prepend bytes none = none
prepend bytes (some rest) = some (bytes ++ rest)

-- `binascii.a2b_base64`; a `none` is `binascii.Error`
unfoldable pub a2b_base64 : Reader → List ℕ → Option Bytes
unfolding is_done next output
a2b_base64 r [] = if nat_eq r.place 0 then some [] else none
a2b_base64 r (c ∷ cs) =
    let rest = a2b_base64 (next r c) cs in
    if is_done r c then some [] else prepend (output r c) rest

abbrev pub repeat : ℕ → ℕ → List ℕ
repeat zero c = []
repeat (suc n) c = c ∷ repeat n c

-- `"=" * ((4 - len(value) % 4) % 4)`
unfoldable pub padding : ℕ → List ℕ
padding n = repeat ((4 - n % 4) % 4) b'='

-- A `none` is a `ValueError`, which a character beyond ASCII raises too.
unfoldable pub base64url_decode : String → Option Bytes
unfolding is_ascii padding a2b_base64
base64url_decode value =
    let read = a2b_base64 start (codes value ++ padding (length (codes value))) in
    if is_ascii (codes value) then read else none
