-- ===== src/Examples/Drivers.antt =====
-- The theorems about lights, air conditioners and sensors, on concrete devices.
use dev_control_open_harmony.Prelude.{
  ◌≤◌, ℕ, true, false, ◌≡◌, refl, none, some, [], ◌∷◌, arith, contains,
}
use dev_control_open_harmony.Numbers.{pos, of_ℕ}
use dev_control_open_harmony.Value.{Value, integer, boolean}
use dev_control_open_harmony.Errors.{is_ok, ok}
use dev_control_open_harmony.Dict.{Dict}
use dev_control_open_harmony.Adapters.{
  NormalizedAcCommand, haier_sim, bare_command, encode, is_among, is_settable,
}
use dev_control_open_harmony.Device.{Device, Detail, Light, Environment, AirConditioner}
use dev_control_open_harmony.Drivers
use dev_control_open_harmony.Drivers.Environment.{Floats, readings_plausible}
use dev_control_open_harmony.Drivers.Light.{new_light, react}
use dev_control_open_harmony.Drivers.Light.Invariant.{
  IsValid as LightIsValid, light_execute-IsValid,
}
use dev_control_open_harmony.Drivers.Light.Switching.{manual_override}
use dev_control_open_harmony.Drivers.AirConditioner.Encoding.{encode-range}
use dev_control_open_harmony.Drivers.AirConditioner.Effects.{IsValid as AirConditionerIsValid}
use dev_control_open_harmony.Examples.Base.{at, device, floats}

abbrev lamp : Light
lamp = record {
  power = false;
  brightness = 60;
  last_non_zero_brightness = 60;
  automation = record {
    enabled = true;
    illuminance_threshold_lux = 100;
    no_presence_delay_seconds = 60;
    manual_override_until = none;
  };
  no_presence_since = none;
}

lamp-IsValid : LightIsValid lamp
lamp-IsValid = ground arith

abbrev power_on : Dict Value
power_on = ("power", boolean true) ∷ []

light_execute-IsValid_example : LightIsValid (Drivers.Light.execute 7 "setPower" power_on lamp).1
light_execute-IsValid_example = light_execute-IsValid 7 "setPower" power_on lamp lamp-IsValid

abbrev lamp_device : Device
lamp_device = device "light-living-01" (Detail.light lamp)

abbrev empty_room : Environment
empty_room = record {
  temperature_celsius = of_ℕ 24;
  humidity_percent = of_ℕ 55;
  illuminance_lux = of_ℕ 80;
  presence = false;
  data_valid = true;
  manual_injection_until = 30000;
}

abbrev lit : Light
lit = (Drivers.Light.execute 7 "setPower" power_on lamp).1

manual_override_example : react 200000 empty_room lit ≡ (ok false, lit)
unfolding Drivers.Light.execute Drivers.Light.set_power
manual_override_example =
    manual_override 7 "setPower" power_on lamp empty_room 200000 refl refl (omega arith)

abbrev warm : NormalizedAcCommand
warm = record (bare_command "setTemperature") { temperature = some (pos 30) }

warm_accepted : is_ok (encode haier_sim warm) ≡ true
unfolding encode is_settable
warm_accepted = refl

encode-range_example : (n : ℕ) × (warm.temperature ≡ some (pos n)) × (16 ≤ n) × (n ≤ 30)
encode-range_example = encode-range haier_sim warm refl warm_accepted

abbrev cooler : AirConditioner
cooler = record {
  brand = "haierSim";
  power = false;
  mode = "cool";
  target_temperature_celsius = pos 24;
  fan_speed = "auto";
  running = false;
  last_adapter_frame = "";
}

cooler-IsValid : AirConditionerIsValid cooler
unfolding is_among is_settable contains
cooler-IsValid = record {
  mode = refl;
  fan_speed = refl;
  temperature = refl;
  brand = refl;
  running = refl;
}

abbrev thirty_one : Dict Value
thirty_one = ("temperatureCelsius", integer (pos 31)) ∷ []

abbrev sensor_device : Device
sensor_device = device "env-living-01" (Detail.environment empty_room)

abbrev sensed : Environment
sensed = (Drivers.Environment.tick floats sensor_device empty_room (at 7)).1
