-- ===== src/Base64/RoundTrip.antt =====
-- base64url: what is decoded of an encoded byte string.
use Prim.Native.Char.{code}
use dev_control_open_harmony.Prelude.{
  all, not, true, nat_eq, ℕ, suc, ◌+◌, ◌-◌, ◌*◌, ◌/◌, ◌%◌, ◌<◌, ◌≡◌, refl, ap, true, List, [], ◌∷◌,
  ◌++◌, Option, none, some, arith, length, All,
}
use dev_control_open_harmony.Ascii.{codes, is_ascii, is_base64url}
use dev_control_open_harmony.Base64.{
  Bytes, letter, base64url_encode, base64url_decode, start, is_done, next, output, prepend,
  a2b_base64, repeat, padding,
}
use dev_control_open_harmony.Base64.Letters.{
  base64url_no_dot, a2b_base64-letter, letter-is_base64url, base64url_ascii,
}

prepend-letters :
    (x y z : ℕ) (o : Option Bytes)
    → prepend [] (prepend (x ∷ []) (prepend (y ∷ []) (prepend (z ∷ []) o)))
      ≡ prepend (x ∷ y ∷ z ∷ []) o
prepend-letters x y z none = refl
prepend-letters x y z (some rest) = refl

first_byte : (a b : ℕ) → b < 256 → a / 4 * 4 + (a % 4 * 16 + b / 16) / 16 ≡ a
first_byte a b small = omega arith

second_byte :
    (a b c : ℕ)
    → b < 256
    → c < 256
    → (a % 4 * 16 + b / 16) % 16 * 16 + (b % 16 * 4 + c / 64) / 4 ≡ b
second_byte a b c small_b small_c = omega arith

last_byte : (a : ℕ) → a / 4 * 4 + a % 4 * 16 / 16 ≡ a
last_byte a = omega arith

last_of_two : (a b : ℕ) → b < 256 → (a % 4 * 16 + b / 16) % 16 * 16 + b % 16 * 4 / 4 ≡ b
last_of_two a b small = omega arith

third_byte : (b c : ℕ) → c < 256 → (b % 16 * 4 + c / 64) % 4 * 64 + c % 64 ≡ c
third_byte b c small_c = omega arith

module _ (a : ℕ) (small_a : a < 256) where
  -- One letter, and the two bits that it leaves for the next one.
  one_letter :
      (cs : List ℕ)
      → a2b_base64 start (code (letter (a / 4)) ∷ cs)
        ≡ prepend [] (a2b_base64 (record { place = 1; left = a / 4; pads = 0 }) cs)
  one_letter cs = a2b_base64-letter (a / 4) (omega arith) start cs

  two_letters :
      (b : ℕ) (cs : List ℕ)
      → b < 256
      → a2b_base64 start (code (letter (a / 4)) ∷ code (letter (a % 4 * 16 + b / 16)) ∷ cs)
        ≡ prepend [] (
            prepend
              (a ∷ [])
              (a2b_base64 (record { place = 2; left = (a % 4 * 16 + b / 16) % 16; pads = 0 }) cs))
  two_letters b cs small_b =
      rw (one_letter, a2b_base64-letter (a % 4 * 16 + b / 16) (omega arith), first_byte a b small_b)

  three_letters :
      (b c : ℕ) (cs : List ℕ)
      → b < 256
      → c < 256
      → a2b_base64 start (
          code (letter (a / 4))
          ∷ code (letter (a % 4 * 16 + b / 16))
          ∷ code (letter (b % 16 * 4 + c / 64))
          ∷ cs)
        ≡ prepend [] (
            prepend (a ∷ []) (
              prepend
                (b ∷ [])
                (a2b_base64 (record { place = 3; left = (b % 16 * 4 + c / 64) % 4; pads = 0 }) cs)))
  three_letters b c cs small_b small_c = rw (
    two_letters b,
    small_b,
    a2b_base64-letter (b % 16 * 4 + c / 64) (omega arith),
    second_byte a b c small_b small_c,
  )

  four_letters :
      (b c : ℕ) (cs : List ℕ)
      → b < 256
      → c < 256
      → a2b_base64 start (
          code (letter (a / 4))
          ∷ code (letter (a % 4 * 16 + b / 16))
          ∷ code (letter (b % 16 * 4 + c / 64))
          ∷ code (letter (c % 64))
          ∷ cs)
        ≡ prepend (a ∷ b ∷ c ∷ []) (a2b_base64 start cs)
  four_letters b c cs small_b small_c = rw (
    three_letters b c (code (letter (c % 64)) ∷ cs) small_b small_c,
    a2b_base64-letter (c % 64) (omega arith),
    third_byte b c small_c,
    prepend-letters,
  )

padding-add_four : (n : ℕ) → padding (suc (suc (suc (suc n)))) ≡ padding n
unfolding padding
padding-add_four n = ap (λ m. repeat ((4 - m) % 4) b'=') (omega arith)

no_group : a2b_base64 start (padding 0) ≡ some []
unfolding a2b_base64 padding
no_group = refl

two_pads :
    (left : ℕ) → a2b_base64 (record { place = 2; left = left; pads = 0 }) (padding 2) ≡ some []
unfolding a2b_base64 padding is_done next output
two_pads left = refl

one_pad :
    (left : ℕ) → a2b_base64 (record { place = 3; left = left; pads = 0 }) (padding 3) ≡ some []
unfolding a2b_base64 padding is_done next output
one_pad left = refl

decode_padded :
    (bytes : Bytes)
    → All (λ b. b < 256) bytes
    → a2b_base64 start
        (codes (base64url_encode bytes) ++ padding (length (codes (base64url_encode bytes))))
      ≡ some bytes
unfolding base64url_encode
decode_padded [] h = no_group
decode_padded (a ∷ []) h =
    rw (one_letter a h.0, a2b_base64-letter (a % 4 * 16) (omega arith), two_pads, last_byte a)
decode_padded (a ∷ b ∷ []) h = rw (
  two_letters a h.0 b,
  h.1.0,
  a2b_base64-letter (b % 16 * 4) (omega arith),
  one_pad,
  last_of_two a b h.1.0,
)
decode_padded (a ∷ b ∷ c ∷ rest) h =
    rw (padding-add_four, four_letters a h.0 b c _ h.1.0 h.1.1.0, decode_padded rest h.1.1.1)

-- An encoded byte string has no character outside the alphabet.
pub encode-is_base64url :
    (bytes : Bytes)
    → All (λ b. b < 256) bytes
    → all is_base64url (codes (base64url_encode bytes)) ≡ true
unfolding base64url_encode
encode-is_base64url [] h = refl
encode-is_base64url (a ∷ []) h =
    simp (letter-is_base64url (a / 4) (omega arith), letter-is_base64url (a % 4 * 16) (omega arith))
encode-is_base64url (a ∷ b ∷ []) h = simp (
  letter-is_base64url (a / 4) (omega arith),
  letter-is_base64url (a % 4 * 16 + b / 16) (omega arith),
  letter-is_base64url (b % 16 * 4) (omega arith),
)
encode-is_base64url (a ∷ b ∷ c ∷ rest) h = simp (
  letter-is_base64url (a / 4) (omega arith),
  letter-is_base64url (a % 4 * 16 + b / 16) (omega arith),
  letter-is_base64url (b % 16 * 4 + c / 64) (omega arith),
  letter-is_base64url (c % 64) (omega arith),
  encode-is_base64url rest h.1.1.1,
)

all_ascii : (cs : List ℕ) → all is_base64url cs ≡ true → is_ascii cs ≡ true
unfolding is_ascii
all_ascii [] h = refl
all_ascii (c ∷ cs) h = ground (arith, base64url_ascii c, all_ascii cs)

all_other : (cs : List ℕ) → all is_base64url cs ≡ true → all (λ c. not (nat_eq c b'.')) cs ≡ true
all_other [] h = refl
all_other (c ∷ cs) h = ground (arith, base64url_no_dot c, all_other cs)

pub encode-no_dot :
    (bytes : Bytes)
    → All (λ b. b < 256) bytes
    → all (λ c. not (nat_eq c b'.')) (codes (base64url_encode bytes)) ≡ true
encode-no_dot bytes small =
    all_other (codes (base64url_encode bytes)) (encode-is_base64url bytes small)

-- base64url_decode gives back the bytes that base64url_encode encoded, for numbers below 256.
pub base64url_decode-encode :
    (bytes : Bytes)
    → All (λ b. b < 256) bytes
    → base64url_decode (base64url_encode bytes) ≡ some bytes
unfolding base64url_decode
base64url_decode-encode bytes small =
    simp (decode_padded bytes small, all_ascii _ (encode-is_base64url bytes small))
