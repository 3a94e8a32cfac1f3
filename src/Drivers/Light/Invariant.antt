-- ===== src/Drivers/Light/Invariant.antt =====
-- What stays true of a light under commands and ticks.
use dev_control_open_harmony.Prelude.{
  ℕ, ◌≤◌, ◌≡◌, String, some, arith, Option-cases, inl, inr, ◌&&◌, nat_eq, false,
}
use dev_control_open_harmony.Numbers.{ℤ, Float, truncate, to_ℕ}
use dev_control_open_harmony.Numbers.Bounds.{truncate_bounds}
use dev_control_open_harmony.Value.{Value, as_number}
use dev_control_open_harmony.Errors.{ok, Error, Result-cases}
use dev_control_open_harmony.Dict.{Dict}
use dev_control_open_harmony.Device.{Device, Light, Automation, Environment}
use dev_control_open_harmony.Context.{Context, find_first}
use dev_control_open_harmony.Drivers.Base.{arg}
use dev_control_open_harmony.Drivers.Light.{
  execute, set_power, set_brightness, set_automation_config, number_within, automation_config,
  react, tick, as_environment, new_light,
}

pub record IsValid (l : Light) : Type 0 where
  pub bright : l.brightness ≤ 100
  pub last_low : 1 ≤ l.last_non_zero_brightness
  pub last_high : l.last_non_zero_brightness ≤ 100
  pub lit : (l.power && nat_eq l.brightness 0) ≡ false
  pub threshold_low : 10 ≤ l.automation.illuminance_threshold_lux
  pub threshold_high : l.automation.illuminance_threshold_lux ≤ 500
  pub delay_low : 5 ≤ l.automation.no_presence_delay_seconds
  pub delay_high : l.automation.no_presence_delay_seconds ≤ 600

new_light-IsValid : (b : ℕ) → 1 ≤ b → b ≤ 100 → IsValid (new_light b)
unfolding new_light
new_light-IsValid b h k = ground arith

set_power-IsValid :
    (now : ℕ) (payload : Dict Value) (l : Light) → IsValid l → IsValid (set_power now payload l).1
unfolding set_power
set_power-IsValid now payload l v = ground arith

set_brightness-IsValid :
    (now : ℕ) (payload : Dict Value) (l : Light)
    → IsValid l
    → IsValid (set_brightness now payload l).1
unfolding set_brightness
set_brightness-IsValid now payload l v =
    elim (Option-cases (as_number (arg "brightness" payload))) [
      | inl e ↦ rw (e, set_brightness) v
      | inr (x, e) ↦ elim (Option-cases (truncate x)) [
        | inl f ↦ ground arith
        | inr (n, f) ↦ ground (arith, truncate_bounds x 0 100 n)
      ]
    ]

react-IsValid : (now : ℕ) (e : Environment) (l : Light) → IsValid l → IsValid (react now e l).1
unfolding react
react-IsValid now e l v = ground arith

-- a number that `number_within` lets through, truncated
number_within-truncate :
    (lo hi : ℕ) (v : Value) (e : Error) (x : Float) (n : ℤ)
    → number_within lo hi v e ≡ ok x
    → truncate x ≡ some n
    → (lo ≤ to_ℕ n) × (to_ℕ n ≤ hi)
unfolding number_within
number_within-truncate lo hi v e x n p q = truncate_bounds x lo hi n (ground arith, ground arith) q

automation_config-bounds :
    (payload : Dict Value) (a : Automation)
    → automation_config payload ≡ ok a
    → (10 ≤ a.illuminance_threshold_lux)
      × (a.illuminance_threshold_lux ≤ 500)
      × (5 ≤ a.no_presence_delay_seconds)
      × (a.no_presence_delay_seconds ≤ 600)
unfolding automation_config
automation_config-bounds payload a h = grind (arith, number_within-truncate)

set_automation_config-IsValid :
    (payload : Dict Value) (l : Light) → IsValid l → IsValid (set_automation_config payload l).1
unfolding set_automation_config
set_automation_config-IsValid payload l v = elim (Result-cases (automation_config payload)) [
  | inl (e, p) ↦ rw (p, set_automation_config) v
  | inr (a, p) ↦
      rw (p, set_automation_config) (ground (arith, automation_config-bounds payload a p))
]

-- No command, accepted or refused, takes a light out of the ranges of its brightness, threshold
-- and delay, or leaves it lit at brightness 0.
pub light_execute-IsValid :
    (now : ℕ) (action : String) (payload : Dict Value) (l : Light)
    → IsValid l
    → IsValid (execute now action payload l).1
unfolding execute
light_execute-IsValid now action payload l v = ground (
  arith,
  set_power-IsValid now payload l v,
  set_brightness-IsValid now payload l v,
  set_automation_config-IsValid payload l v,
)

-- A tick keeps a light within its ranges and does not leave it lit at brightness 0.
pub light_tick-IsValid :
    (device : Device) (c : Context) (l : Light) → IsValid l → IsValid (tick device c l).1
unfolding tick
light_tick-IsValid device c l v =
    elim (Option-cases (find_first "environment" (some device.room_id) c)) [
      | inl none_there ↦ ground arith
      | inr (sensor, found) ↦ elim (Option-cases (as_environment sensor.detail)) [
        | inl no_readings ↦ ground arith
        | inr (e, read) ↦ ground (arith, react-IsValid c.clock e l v)
      ]
    ]
