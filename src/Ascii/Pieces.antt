-- ===== src/Ascii/Pieces.antt =====
-- Splitting a text at a separator, and the characters of a text put together.
use Prim.Native.Char.{Char, code}
use Prim.Native.String.{String, ◌++◌ as ◌<>◌}
use Prim.Native.String.append
use mathlib.Core.Path.{subst}
use mathlib.Core.Option.{some-injective}
use dev_control_open_harmony.Prelude.{
  ℕ, ◌≡◌, refl, ap, ◌∙◌, Bool, true, false, not, ◌∷◌, ◌++◌, Option, none, some, arith, nat_eq,
  if◌then◌else◌, all,
}
use dev_control_open_harmony.Ascii.{codes, split_once}

pub codes-append : (s t : String) → codes (s <> t) ≡ codes s ++ codes t
codes-append String.[] t = ap codes (append.nil t)
codes-append (String.◌∷◌ c s) t =
    ap codes (append.cons c s t) ∙ ap (◌∷◌ (code c)) (codes-append s t)

same_number : (n : ℕ) → nat_eq n n ≡ true
same_number n = ground arith

-- A text with no separator, then the separator, then anything, is split there.
pub split_once-append :
    (c : Char) (s t : String)
    → all (λ d. not (nat_eq d (code c))) (codes s) ≡ true
    → split_once (code c) (s <> String.◌∷◌ c t) ≡ some (s, t)
unfolding split_once
split_once-append c String.[] t free = rw (append.nil, same_number (code c))
split_once-append c (String.◌∷◌ d s) t free =
    let other : nat_eq (code d) (code c) ≡ false = ground arith in
    let after = split_once-append c s t (ground arith) in rw (append.cons, other, after)

extend : Char → Option (String × String) → Option (String × String)
extend c none = none
extend c (some p) = some (String.◌∷◌ c p.0, p.1)

after_character :
    (separator : ℕ) (c : Char) (s : String) (b : Bool) (o : Option (String × String))
    (p : String × String)
    → (b ≡ true → code c ≡ separator)
    → ((q : String × String) → o ≡ some q → codes s ≡ codes q.0 ++ separator ∷ codes q.1)
    → (if b then some ("", s) else extend c o) ≡ some p
    → code c ∷ codes s ≡ codes p.0 ++ separator ∷ codes p.1
unfolding extend
after_character separator c s true o p here later h =
    subst (λ q. code c ∷ codes s ≡ codes q.0 ++ separator ∷ codes q.1) (some-injective _ _ h)
      (ap (λ d. d ∷ codes s) (here refl))
after_character separator c s false none p here later h = cc
after_character separator c s false (some q) p here later h =
    subst (λ r. code c ∷ codes s ≡ codes r.0 ++ separator ∷ codes r.1) (some-injective _ _ h)
      (ap (λ ds. code c ∷ ds) (later q refl))

pub codes-split_once :
    (separator : ℕ) (s : String) (p : String × String)
    → split_once separator s ≡ some p
    → codes s ≡ codes p.0 ++ separator ∷ codes p.1
unfolding split_once extend
codes-split_once separator String.[] p h = cc
codes-split_once separator (String.◌∷◌ c s) p h =
    after_character separator c s (nat_eq (code c) separator) (split_once separator s) p
      (λ e. ground arith) (codes-split_once separator s) h
