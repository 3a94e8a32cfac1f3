-- ===== src/Prelude/Texts.antt =====
-- Texts: pieces of an f-string put together, the order of Python's `sorted`, sets of texts.
use Prim.Native.Nat.{ℕ, zero, suc, ◌/◌, ◌%◌}
use Prim.Native.String.{String, compare}
use Prim.Native.String.{◌++◌ as str_append}
use mathlib.Core.Bool.{Bool, ◌&&◌}
use mathlib.Core.List.{List, [], ◌∷◌}
use text.Mathlib.Text.{◌==◌, is_le}
use dev_control_open_harmony.Prelude.Tests.{if◌then◌else◌, ltb, nat_eq}
use dev_control_open_harmony.Prelude.Lists.{any, all}

-- the pieces of an f-string
abbrev pub concat : List String → String
concat [] = ""
concat (s ∷ rest) = str_append s (concat rest)

abbrev digit : ℕ → String
digit d =
    if nat_eq d 0
    then "0"
    else if nat_eq d 1
    then "1"
    else if nat_eq d 2
    then "2"
    else if nat_eq d 3
    then "3"
    else if nat_eq d 4
    then "4"
    else if nat_eq d 5
    then "5"
    else if nat_eq d 6
    then "6"
    else if nat_eq d 7
    then "7"
    else if nat_eq d 8
    then "8"
    else "9"

digits : ℕ → ℕ → String → String
digits zero n rest = rest
digits (suc fuel) n rest =
    let last = str_append (digit (n % 10)) rest in
    let more = digits fuel (n / 10) last in if ltb n 10 then last else more

-- `str(n)`: a number has at most n + 1 digits
unfoldable pub decimal : ℕ → String
unfolding digits
decimal n = digits (suc n) n ""

-- `s in xs`
unfoldable pub contains : List String → String → Bool
contains xs s = any (λ x. x == s) xs

-- `set(xs) == set(ys)`
unfoldable pub same_set : List String → List String → Bool
unfolding contains
same_set xs ys = all (contains ys) xs && all (contains xs) ys

insert : String → List String → List String
insert s [] = s ∷ []
insert s (t ∷ ts) = let rest = insert s ts in if is_le (compare s t) then s ∷ t ∷ ts else t ∷ rest

-- `sorted(xs)`
unfoldable pub sorted : List String → List String
unfolding insert
sorted [] = []
sorted (s ∷ ss) = insert s (sorted ss)
