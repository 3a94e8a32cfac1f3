-- ===== src/Drivers/Environment.antt =====
-- `EnvironmentDriver` of VirtualGateway/devcontrol_gateway/drivers.py. Python's float arithmetic,
-- `math.sin` and the random noise are the parameter `Floats`; the formulas are the source's.
pub mod Readings
use dev_control_open_harmony.Prelude.{
  ℕ, String, Bool, true, false, Option, none, some, List, [], ◌∷◌, ◌==◌, ◌&&◌, ◌||◌, not, leb,
  if◌then◌else◌, contains, same_set,
}
use dev_control_open_harmony.Numbers.{ℤ, pos, negsuc, Float, finite, of_ℕ, less}
use dev_control_open_harmony.Errors.{Result, ok, raise, refusal, python, key_error, invalid_command}
use dev_control_open_harmony.Storage.{record_environment}
use dev_control_open_harmony.Device.{Device, Environment, AirConditioner, Detail, base_device}
use dev_control_open_harmony.Context.{Context, find_first}
use dev_control_open_harmony.Drivers.Base.{Category}

pub record Floats : Type 0 where
  pub add : Float → Float → Float
  pub sub : Float → Float → Float
  pub mul : Float → Float → Float
  pub div : Float → Float → Float
  pub sin : Float → Float
  -- `round(x, 1)`
  pub round_tenth : Float → Float
  -- the float nearest to n / (d + 1), as a decimal literal is read
  pub literal : ℤ → ℕ → Float
  -- `random.uniform(a, b)`, as drawn for a device at a time
  pub uniform : ℕ → String → Float → Float → Float

unfoldable pub create_categories : List Category
create_categories = record { id = "environment"; title = "环境"; icon = "≈"; home_only = false } ∷ []

unfoldable pub make : ℕ → String → String → String → Float → Float → Float → Device
unfolding base_device
make now device_id name room_id temperature humidity illuminance =
    base_device now device_id name room_id "environment" (some "environment") (
      Detail.environment (record {
        temperature_celsius = temperature;
        humidity_percent = humidity;
        illuminance_lux = illuminance;
        presence = true;
        data_valid = true;
        manual_injection_until = 0;
      }))

unfoldable pub create_devices : Floats → ℕ → List Device
unfolding make
create_devices f now =
    make now "env-living-01" "客厅环境传感器" "living" (of_ℕ 24) (of_ℕ 55) (of_ℕ 80)
    ∷ make now "env-master-01" "主卧环境传感器" "masterBedroom" (f.literal (pos 234) 9) (of_ℕ 52)
        (of_ℕ 130)
    ∷ make now "env-bedroom-01" "次卧环境传感器" "bedroom" (f.literal (pos 242) 9) (of_ℕ 54) (of_ℕ 95)
    ∷ []

abbrev pub registration_capabilities : List String
registration_capabilities =
    "reportTemperature" ∷ "reportHumidity" ∷ "reportIlluminance" ∷ "reportPresence" ∷ []

-- `sensor["presence"] = False`
abbrev nobody_there : Detail → Detail
nobody_there (Detail.environment e) = Detail.environment (record e { presence = false })
nobody_there d = d

unfoldable pub attest_registration :
    ℕ → String → String → String → String → List String → Result Device
unfolding make
attest_registration now device_id name room_id category_id capabilities =
    if not (category_id == "environment") || not (same_set capabilities registration_capabilities)
    then raise (refusal invalid_command "环境监测器必须声明 environment 分类及完整的受支持上报能力")
    else (let sensor = make now device_id name room_id (of_ℕ 24) (of_ℕ 62) (of_ℕ 95) in
        ok (record sensor { detail = nobody_there sensor.detail; removable = true }))

abbrev pub as_air_conditioner : Detail → Option AirConditioner
as_air_conditioner (Detail.air_conditioner a) = some a
as_air_conditioner _ = none

-- What the air conditioner of the room, if it runs, does to the two targets.
unfoldable pub steer : AirConditioner → Float × Float → Float × Float
steer a (temperature, humidity) = if not a.power then (temperature, humidity) else (
  (if contains ("cool" ∷ "heat" ∷ "auto" ∷ []) a.mode
      then finite a.target_temperature_celsius 0
      else temperature),
  (if a.mode == "dry" then of_ℕ 50 else humidity),
)

unfoldable pub targets : Device → Context → Float × Float → Result (Float × Float)
unfolding steer
targets device c free = elim (find_first "airConditioner" (some device.room_id) c) [
  | none ↦ ok free
  | some found ↦ if not found.online then ok free else elim (as_air_conditioner found.detail) [
    | none ↦ raise (python key_error)
    | some a ↦ ok (steer a free)
  ]
]

-- `not (t < -10 or t > 45 or h < 0 or h > 100)`
unfoldable pub readings_plausible : Float → Float → Bool
readings_plausible t h =
    not
      (less t (finite (negsuc 9) 0) || (less (of_ℕ 45) t || (less h (of_ℕ 0) || less (of_ℕ 100) h)))

module _ (f : Floats) where
  open f use {add, sub, mul, div, sin, round_tenth, literal, uniform}

  -- `time.time()`, in seconds
  abbrev seconds : ℕ → Float
  seconds now = literal (pos now) 999

  abbrev negated : ℕ → ℕ → Float
  negated n d = sub (of_ℕ 0) (literal (pos n) d)

  -- Where the readings drift to with no air conditioner at work.
  abbrev free_targets : ℕ → Float × Float
  free_targets now =
      let phase = div (seconds now) (of_ℕ 180) in
      (
        add (of_ℕ 24) (mul (sin phase) (literal (pos 4) 9)),
        add (of_ℕ 55) (mul (sin (div phase (of_ℕ 2))) (literal (pos 15) 9)),
      )

  -- `max(0.0, x)`
  abbrev at_least_zero : Float → Float
  at_least_zero x = if less (of_ℕ 0) x then x else of_ℕ 0

  abbrev drift : ℕ → String → Float × Float → Environment → Environment
  drift now device_id (temperature, humidity) e = record e {
    temperature_celsius = round_tenth (
        add
          (add e.temperature_celsius
            (mul (sub temperature e.temperature_celsius) (literal (pos 8) 99)))
          (uniform now device_id (negated 2 99) (literal (pos 2) 99)));
    humidity_percent = round_tenth (
        add (add e.humidity_percent (mul (sub humidity e.humidity_percent) (literal (pos 6) 99)))
          (uniform now device_id (negated 5 99) (literal (pos 5) 99)));
    illuminance_lux =
        round_tenth
          (at_least_zero (add (of_ℕ 120) (mul (sin (div (seconds now) (of_ℕ 60))) (of_ℕ 80))));
  }

  -- The first block of `tick`: the readings move, unless injected ones are held.
  unfoldable pub sample : Device → Context → Environment → Result (Bool × Environment)
  sample device c e =
      if device.online && leb e.manual_injection_until c.clock
      then elim (targets device c (free_targets c.clock)) [
        | raise x ↦ raise x
        | ok goal ↦ ok (true, drift c.clock device.id goal e)
      ]
      else ok (false, e)

unfoldable pub log_readings : Device → Environment → Context → Context
unfolding record_environment
log_readings device e c =
    if device.online
    then record c {
      storage =
          record_environment
            (record {
              timestamp_ms = c.clock;
              device_id = device.id;
              temperature_celsius = e.temperature_celsius;
              humidity_percent = e.humidity_percent;
              illuminance_lux = e.illuminance_lux;
              presence = e.presence;
            })
            c.storage;
    }
    else c

abbrev same_bool : Bool → Bool → Bool
same_bool true b = b
same_bool false b = not b

-- The last block of `tick`.
unfoldable pub revalidate : Bool × Environment → Bool × Environment
revalidate (changed, e) =
    let valid = readings_plausible e.temperature_celsius e.humidity_percent in
    if same_bool valid e.data_valid then (changed, e) else (true, record e { data_valid = valid })

unfoldable pub tick : Floats → Device → Environment → Context → Result Bool × Environment × Context
unfolding sample revalidate
tick f device e c = elim (sample f device c e) [
  | raise x ↦ (raise x, e, c)
  | ok (moved, sampled) ↦
      let (changed, e') = revalidate (moved, sampled) in
      (ok changed, e', log_readings device sampled c)
]
