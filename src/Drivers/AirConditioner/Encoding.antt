-- ===== src/Drivers/AirConditioner/Encoding.antt =====
-- The adapters of VirtualGateway/devcontrol_gateway/adapters.py against what the devices read.
use dev_control_open_harmony.Prelude.{ℕ, ◌≤◌, ◌≡◌, refl, true, Option, none, some, arith, eq_iff}
use dev_control_open_harmony.Numbers.{ℤ, pos, negsuc}
use dev_control_open_harmony.Errors.{is_ok}
use dev_control_open_harmony.Adapters.{
  BrandAdapter, NormalizedAcCommand, encode, validate, frame, is_settable,
}
use dev_control_open_harmony.Drivers.AirConditioner.Reading.{Reading, temperature, read}

abbrev IsRead : BrandAdapter → NormalizedAcCommand → Reading → Type 0
IsRead adapter c r = read adapter (frame adapter c) ≡ some r

settable-range :
    (o : Option ℤ) → is_settable o ≡ true → (n : ℕ) × (o ≡ some (pos n)) × (16 ≤ n) × (n ≤ 30)
unfolding is_settable
settable-range none h = absurd (ground arith)
settable-range (some (pos n)) h = (n, refl, ground arith, ground arith)
settable-range (some (negsuc n)) h = absurd (ground arith)

-- If any brand sends a frame for setTemperature, the temperature is an integer from 16 to 30.
pub encode-range :
    (adapter : BrandAdapter) (c : NormalizedAcCommand)
    → c.action ≡ "setTemperature"
    → is_ok (encode adapter c) ≡ true
    → (n : ℕ) × (c.temperature ≡ some (pos n)) × (16 ≤ n) × (n ≤ 30)
unfolding encode validate
encode-range adapter c named accepted =
    settable-range c.temperature (ground (arith, eq_iff c.action "setTemperature"))
