-- ===== src/Certificates/Integers.antt =====
-- Integers as big-endian byte strings: their length, their bytes, and what is read back.
use dev_control_open_harmony.Prelude.{
  ℕ, zero, suc, ◌+◌, ◌*◌, ◌/◌, ◌%◌, ◌<◌, ◌≡◌, refl, [], ◌∷◌, ◌++◌, length, All, All-append,
  length-append, arith,
}
use dev_control_open_harmony.Base64.{Bytes}
use dev_control_open_harmony.Certificates.{capacity, big_endian, from_bytes}

pub length-big_endian : (width n : ℕ) → length (big_endian width n) ≡ width
unfolding big_endian
length-big_endian zero n = refl
length-big_endian (suc width) n = omega (
  arith,
  length-append (big_endian width (n / 256)) ((n % 256) ∷ []),
  length-big_endian width (n / 256),
)

pub big_endian-bytes : (width n : ℕ) → All (λ b. b < 256) (big_endian width n)
unfolding big_endian
big_endian-bytes zero n = tt
big_endian-bytes (suc width) n =
    All-append (λ b. b < 256) (big_endian width (n / 256)) ((n % 256) ∷ [])
      (big_endian-bytes width (n / 256)) (omega arith, tt)

from_bytes-append :
    (before : ℕ) (bs : Bytes) (b : ℕ)
    → from_bytes before (bs ++ b ∷ []) ≡ from_bytes before bs * 256 + b
unfolding from_bytes
from_bytes-append before [] b = refl
from_bytes-append before (c ∷ bs) b = from_bytes-append (before * 256 + c) bs b

pub from_bytes-big_endian :
    (width n : ℕ) → n < capacity width → from_bytes 0 (big_endian width n) ≡ n
unfolding big_endian capacity from_bytes
from_bytes-big_endian zero n small = omega arith
from_bytes-big_endian (suc width) n small = omega (
  arith,
  from_bytes-append 0 (big_endian width (n / 256)) (n % 256),
  from_bytes-big_endian width (n / 256) (omega arith),
)
