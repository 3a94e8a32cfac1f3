-- ===== src/Numbers.antt =====
-- Python's int and float, as far as the gateway computes with them. A finite float is the exact
-- fraction that it stands for; infinities and NaN are kept, since `json.loads` accepts them.
pub mod Bounds
use dev_control_open_harmony.Prelude.{
  ℕ, zero, suc, ◌+◌, ◌-◌, ◌*◌, ◌/◌, ◌%◌, Bool, true, false, Option, none, some, ltb, nat_eq,
  if◌then◌else◌,
}

-- `negsuc n` is -(n + 1).
pub data ℤ : Type 0 where
  pos : ℕ → ℤ
  negsuc : ℕ → ℤ

abbrev pub int_lt : ℤ → ℤ → Bool
int_lt (pos a) (pos b) = ltb a b
int_lt (pos a) (negsuc b) = false
int_lt (negsuc a) (pos b) = true
int_lt (negsuc a) (negsuc b) = ltb b a

-- the integer times a positive number
abbrev pub scale : ℤ → ℕ → ℤ
scale (pos a) d = pos (a * d)
scale (negsuc a) d = negsuc ((a + 1) * d - 1)

-- The integer as a size: 0 below zero.
abbrev pub to_ℕ : ℤ → ℕ
to_ℕ (pos n) = n
to_ℕ (negsuc n) = 0

-- `finite n d` is n / (d + 1).
pub data Float : Type 0 where
  finite : ℤ → ℕ → Float
  infinite : Bool → Float
  nan : Float

abbrev pub of_ℕ : ℕ → Float
of_ℕ n = finite (pos n) 0

-- `a < b`; a comparison with NaN is false. `infinite true` is the negative one.
unfoldable pub less : Float → Float → Bool
less (finite a d) (finite b e) = int_lt (scale a (e + 1)) (scale b (d + 1))
less (finite a d) (infinite negative) = if negative then false else true
less (infinite negative) (finite b e) = negative
less (infinite negative) (infinite negative') =
    if negative then (if negative' then false else true) else false
less nan b = false
less a nan = false

-- `int(x)`: truncation; `none` where Python raises.
unfoldable pub truncate : Float → Option ℤ
truncate (finite (pos n) d) = some (pos (n / (d + 1)))
truncate (finite (negsuc n) d) =
    some (let q = (n + 1) / (d + 1) in if nat_eq q 0 then pos 0 else negsuc (q - 1))
truncate (infinite negative) = none
truncate nan = none

abbrev half_even : ℕ → ℕ → ℕ
half_even n d =
    let q = n / d in
    let twice = 2 * (n % d) in
    if ltb twice d then q else if ltb d twice then q + 1 else if nat_eq (q % 2) 0 then q else q + 1

-- `int(round(x))`: to the nearest integer, ties to even; `none` where Python raises.
unfoldable pub round : Float → Option ℤ
round (finite (pos n) d) = some (pos (half_even n (d + 1)))
round (finite (negsuc n) d) =
    some (let q = half_even (n + 1) (d + 1) in if nat_eq q 0 then pos 0 else negsuc (q - 1))
round (infinite negative) = none
round nan = none
