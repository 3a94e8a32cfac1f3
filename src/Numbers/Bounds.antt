-- ===== src/Numbers/Bounds.antt =====
-- What a range test on a float says of the integer made from it.
use native.Mathlib.Nat.{le-div_iff_mul-le, div-le_of_le-mul, mul_comm, div-add-mod}
use dev_control_open_harmony.Prelude.{ℕ, ◌+◌, ◌*◌, ◌/◌, ◌%◌, ◌≤◌, ◌≡◌, false, some, arith}
use dev_control_open_harmony.Numbers.{
  ℤ, pos, Float, finite, of_ℕ, less, truncate, round, to_ℕ, half_even,
}

module _ (n d lo hi : ℕ) (above : lo * (d + 1) ≤ n) (below : n ≤ hi * (d + 1)) where
  div_bounds : (lo ≤ n / (d + 1)) × (n / (d + 1) ≤ hi)
  div_bounds = (
    (le-div_iff_mul-le (omega arith)).1 above,
    div-le_of_le-mul (d + 1) (rw (mul_comm (d + 1) hi) below),
  )

  -- a quotient at its upper bound leaves no remainder
  no_remainder : hi ≤ n / (d + 1) → n % (d + 1) ≡ 0
  no_remainder h = grind (arith, div-add-mod n (d + 1), div_bounds)

  half_even_bounds : (lo ≤ half_even n (d + 1)) × (half_even n (d + 1) ≤ hi)
  half_even_bounds = ground (arith, div_bounds, no_remainder)

-- A float that passed `not (x < lo or x > hi)` converts to an integer in the range, if at all.
abbrev pub InRange : Float → ℕ → ℕ → Type 0
InRange x lo hi = (less x (of_ℕ lo) ≡ false) × (less (of_ℕ hi) x ≡ false)

pub truncate_bounds :
    (x : Float) (lo hi : ℕ) (n : ℤ)
    → InRange x lo hi
    → truncate x ≡ some n
    → (lo ≤ to_ℕ n) × (to_ℕ n ≤ hi)
unfolding less truncate
truncate_bounds (finite (pos m) d) lo hi n h e =
    ground (arith, div_bounds m d lo hi (ground arith) (ground arith))
truncate_bounds _ lo hi n h e = ground arith

pub round_bounds :
    (x : Float) (lo hi : ℕ) (n : ℤ)
    → InRange x lo hi
    → round x ≡ some n
    → (lo ≤ to_ℕ n) × (to_ℕ n ≤ hi)
unfolding less round
round_bounds (finite (pos m) d) lo hi n h e =
    ground (arith, half_even_bounds m d lo hi (ground arith) (ground arith))
round_bounds _ lo hi n h e = ground arith
