-- ===== src/Base64/Letters.antt =====
-- The letters of base64url: each is read back as its number.
use Prim.Native.Char.{code}
use dev_control_open_harmony.Prelude.{
  ℕ, zero, suc, ◌<◌, ◌≡◌, refl, ap, ◌∙◌, sym, Bool, true, false, ◌&&◌, List, [], ◌∷◌, Option, none,
  some, arith, ltb, nat_eq, Bool-cases, inl, inr,
}
use dev_control_open_harmony.Ascii.{is_base64url, is_letter, is_digit}
use dev_control_open_harmony.Base64.{
  letter, sextet, Reader, is_done, read, written, next, output, prepend, a2b_base64,
}
use mathlib.Core.Path.{subst}

left_of : (a b : Bool) → (a && b) ≡ true → a ≡ true
left_of a b h = ground arith

right_of : (a b : Bool) → (a && b) ≡ true → b ≡ true
right_of a b h = ground arith

nat_eq-eq : (a b : ℕ) → nat_eq a b ≡ true → a ≡ b
nat_eq-eq a b h = ground arith

-- A test that holds below a bound, run through.
all_below : ℕ → (ℕ → Bool) → Bool
all_below zero p = true
all_below (suc k) p = p k && all_below k p

test_below : (k : ℕ) (p : ℕ → Bool) (n : ℕ) → all_below k p ≡ true → n < k → p n ≡ true
unfolding all_below
test_below zero p n h small = absurd (omega arith)
test_below (suc k) p n h small = elim (Bool-cases (nat_eq n k)) [
  | inl same ↦ subst (λ m. p m ≡ true) (sym (nat_eq-eq n k same)) (left_of _ _ h)
  | inr other ↦ test_below k p n (right_of _ _ h) (ground arith)
]

is_number : ℕ → Option ℕ → Bool
is_number n none = false
is_number n (some m) = nat_eq m n

-- A letter is read back, is ASCII, and is no padding.
is_plain : ℕ → Bool
unfolding letter sextet is_number is_base64url is_letter is_digit
is_plain n = is_number n (sextet (code (letter n))) && is_base64url (code (letter n))

letters : all_below 64 is_plain ≡ true
unfolding all_below is_plain is_number letter sextet is_base64url is_letter is_digit
letters = refl

is_number-eq : (n : ℕ) (o : Option ℕ) → is_number n o ≡ true → o ≡ some n
unfolding is_number
is_number-eq n none h = ground arith
is_number-eq n (some m) h = ap some (nat_eq-eq m n h)

pub sextet-letter : (n : ℕ) → n < 64 → sextet (code (letter n)) ≡ some n
unfolding is_plain
sextet-letter n small =
    is_number-eq n (sextet (code (letter n))) (left_of _ _ (test_below 64 is_plain n letters small))

pub letter-is_base64url : (n : ℕ) → n < 64 → is_base64url (code (letter n)) ≡ true
unfolding is_plain
letter-is_base64url n small = right_of _ _ (test_below 64 is_plain n letters small)

pub is_base64url-other :
    (c d : ℕ) → is_base64url c ≡ true → is_base64url d ≡ false → nat_eq c d ≡ false
is_base64url-other c d here absent = elim (Bool-cases (nat_eq c d)) [
  | inl same ↦ absurd (ground (arith, sym here ∙ ap is_base64url (nat_eq-eq c d same) ∙ absent))
  | inr other ↦ other
]

-- A letter, read with a known place.
module _ (v : ℕ) (small : v < 64) where
  no_padding : nat_eq (code (letter v)) b'=' ≡ false
  unfolding is_base64url is_letter is_digit
  no_padding = is_base64url-other (code (letter v)) b'=' (letter-is_base64url v small) refl

  next-letter : (r : Reader) → next r (code (letter v)) ≡ read r v
  unfolding next
  next-letter r = simp (no_padding, sextet-letter v small)

  output-letter : (r : Reader) → output r (code (letter v)) ≡ written r v
  unfolding output
  output-letter r = ap (λ o. elim o [ none ↦ [] | some w ↦ written r w ]) (sextet-letter v small)

  not_done : (r : Reader) → is_done r (code (letter v)) ≡ false
  unfolding is_done
  not_done r = simp (no_padding)

  pub a2b_base64-letter :
      (r : Reader) (cs : List ℕ)
      → a2b_base64 r (code (letter v) ∷ cs) ≡ prepend (written r v) (a2b_base64 (read r v) cs)
  unfolding a2b_base64
  a2b_base64-letter r cs = simp (not_done r, next-letter r, output-letter r)

pub base64url_ascii : (c : ℕ) → is_base64url c ≡ true → ltb c 128 ≡ true
unfolding is_base64url is_letter is_digit
base64url_ascii c h = ground arith

pub base64url_no_dot : (c : ℕ) → is_base64url c ≡ true → nat_eq c b'.' ≡ false
unfolding is_base64url is_letter is_digit
base64url_no_dot c h = is_base64url-other c b'.' h refl
