-- ===== src/Drivers/AirConditioner/Reading.antt =====
-- What an air conditioner of each brand of VirtualGateway/devcontrol_gateway/adapters.py reads in a
-- frame.
use dev_control_open_harmony.Prelude.{
  ℕ, ◌≤◌, ◌≡◌, String, Bool, true, false, Option, none, some, List, [], ◌∷◌, ◌==◌, decimal,
  if◌then◌else◌, contains,
}
use dev_control_open_harmony.Numbers.{pos}
use dev_control_open_harmony.Ascii.{split_once}
use dev_control_open_harmony.QrCode.{split}
use dev_control_open_harmony.Adapters.{
  BrandAdapter, generic, haier_sim, gree_sim, midea_sim, NormalizedAcCommand, bare_command,
}

-- What is read: the power where the brand sends it, and the texts of the other fields.
pub record Reading : Type 0 where
  pub power : Option Bool
  pub mode : String
  pub temperature : String
  pub fan_speed : String

-- What stands after a label, `?` where the label is another one.
unfoldable value : ℕ → String → String → String
unfolding split_once
value separator label word = elim (split_once separator word) [
  | none ↦ "?"
  | some p ↦ if p.0 == label then p.1 else "?"
]

-- A power, by the words for on and off.
abbrev switched : String → String → String → Option Bool
switched on off word = if word == on then some true else if word == off then some false else none

abbrev of_brand : String → String → Reading → Option Reading
of_brand expected brand r = if brand == expected then some r else none

-- The words of a frame, its brand first.
unfoldable read_words : BrandAdapter → List String → Option Reading
unfolding value
read_words generic (brand ∷ action ∷ mode ∷ temperature ∷ fan ∷ []) =
    of_brand "GENERIC_SIM" brand
      (record { power = none; mode = mode; temperature = temperature; fan_speed = fan })
read_words haier_sim (brand ∷ power ∷ mode ∷ temperature ∷ fan ∷ []) =
    of_brand "HAIER_SIM" brand (record {
      power = switched "POWER=ON" "POWER=OFF" power;
      mode = value b'=' "MODE" mode;
      temperature = value b'=' "TEMP" temperature;
      fan_speed = value b'=' "FAN" fan;
    })
read_words gree_sim (brand ∷ power ∷ mode ∷ temperature ∷ fan ∷ []) =
    of_brand "GREE_SIM" brand (record {
      power = switched "PWR:1" "PWR:0" power;
      mode = value b':' "MODE" mode;
      temperature = value b':' "T" temperature;
      fan_speed = value b':' "FAN" fan;
    })
read_words midea_sim (power ∷ mode ∷ temperature ∷ fan ∷ []) = some (record {
  power = switched "MIDEA_SIM|ON" "MIDEA_SIM|OFF" power;
  mode = mode;
  temperature = temperature;
  fan_speed = fan;
})
read_words _ _ = none

unfoldable pub read : BrandAdapter → String → Option Reading
unfolding read_words split
read midea_sim f = read_words midea_sim (split b';' f)
read adapter f = read_words adapter (split b'|' f)

-- What a brand with a power field sees of a power; the generic brand has none.
abbrev pub power_field : BrandAdapter → Bool → Option Bool
power_field generic b = none
power_field _ b = some b

-- The commands that the driver makes of its actions.
abbrev pub power_command : Bool → NormalizedAcCommand
power_command b = record (bare_command "setPower") { power = some b }

abbrev pub mode_command : String → NormalizedAcCommand
mode_command m = record (bare_command "setMode") { mode = some m }

abbrev pub temperature_command : ℕ → NormalizedAcCommand
temperature_command n = record (bare_command "setTemperature") { temperature = some (pos n) }

abbrev pub fan_command : String → NormalizedAcCommand
fan_command f = record (bare_command "setFanSpeed") { fan_speed = some f }

abbrev pub reading : BrandAdapter → Bool → String → String → String → Reading
reading adapter b mode temperature fan = record {
  power = power_field adapter b;
  mode = mode;
  temperature = temperature;
  fan_speed = fan;
}

-- The values of the protocol.
abbrev pub protocol_modes : List String
protocol_modes = "auto" ∷ "cool" ∷ "heat" ∷ "dry" ∷ "fan" ∷ []

abbrev pub protocol_fans : List String
protocol_fans = "auto" ∷ "low" ∷ "medium" ∷ "high" ∷ []

abbrev pub protocol_temperatures : List ℕ
protocol_temperatures =
    16 ∷ 17 ∷ 18 ∷ 19 ∷ 20 ∷ 21 ∷ 22 ∷ 23 ∷ 24 ∷ 25 ∷ 26 ∷ 27 ∷ 28 ∷ 29 ∷ 30 ∷ []

-- A command within the ranges of the protocol, with the power and the texts that it is to set.
pub data Means : NormalizedAcCommand → Bool → String → String → String → Type 0 where
  switch : (b : Bool) → Means (power_command b) b "" "" ""
  mode : (m : String) → contains protocol_modes m ≡ true → Means (mode_command m) false m "" ""
  temperature : (n : ℕ) → 16 ≤ n → n ≤ 30 → Means (temperature_command n) false "" (decimal n) ""
  fan : (f : String) → contains protocol_fans f ≡ true → Means (fan_command f) false "" "" f
