-- ===== src/Drivers/AirConditioner.antt =====
-- `AirConditionerDriver` of VirtualGateway/devcontrol_gateway/drivers.py. A command's value is
-- written before the adapter checks it, and stays written when the adapter refuses it.
pub mod Frames
pub mod Reading
pub mod Encoding
pub mod Effects
use dev_control_open_harmony.Prelude.{
  ℕ, String, Bool, true, false, Option, none, some, List, [], ◌∷◌, ◌==◌, ◌||◌, not, if◌then◌else◌,
  contains, same_set,
}
use dev_control_open_harmony.Numbers.{ℤ, pos}
use dev_control_open_harmony.Value.{Value, as_bool, as_text, as_int}
use dev_control_open_harmony.Errors.{
  Error, Result, ok, raise, refusal, refuse_if, or_raise, invalid_command,
}
use dev_control_open_harmony.Exec.{Exec, throw, lift, gets, ◌>>=◌, ◌>>◌}
use dev_control_open_harmony.Dict.{Dict, keys}
use dev_control_open_harmony.Adapters.{
  NormalizedAcCommand, bare_command, encode, get_adapter, adapters,
}
use dev_control_open_harmony.Device.{Device, AirConditioner, Detail, base_device}
use dev_control_open_harmony.Drivers.Base.{arg, modify}

unfoldable pub new_air_conditioner : String → ℤ → AirConditioner
new_air_conditioner brand temperature = record {
  brand = brand;
  power = false;
  mode = "auto";
  target_temperature_celsius = temperature;
  fan_speed = "auto";
  running = false;
  last_adapter_frame = "";
}

unfoldable pub make : ℕ → String → String → String → String → ℤ → Device
unfolding base_device new_air_conditioner
make now device_id name room_id brand temperature =
    base_device now device_id name room_id "airConditioner" (some "environment")
      (Detail.air_conditioner (new_air_conditioner brand temperature))

unfoldable pub create_devices : ℕ → List Device
unfolding make
create_devices now =
    make now "ac-living-01" "客厅空调" "living" "haierSim" (pos 24)
    ∷ make now "ac-master-01" "主卧空调" "masterBedroom" "greeSim" (pos 26)
    ∷ make now "ac-bedroom-01" "次卧空调" "bedroom" "mideaSim" (pos 25)
    ∷ []

abbrev pub registration_capabilities : List String
registration_capabilities =
    "setPower" ∷ "setMode" ∷ "setTemperature" ∷ "setFanSpeed" ∷ "setDehumidify" ∷ "setBrand" ∷ []

unfoldable pub attest_registration :
    ℕ → String → String → String → String → List String → Result Device
unfolding make
attest_registration now device_id name room_id category_id capabilities =
    if not (category_id == "environment") || not (same_set capabilities registration_capabilities)
    then raise (refusal invalid_command "空调必须声明 environment 分类及完整的受支持控制能力")
    else ok (record (make now device_id name room_id "generic" (pos 24)) { removable = true })

-- The `if` ladder of `execute`: it writes the value and returns the command for the adapter.
unfoldable pub set_power : Dict Value → Exec AirConditioner NormalizedAcCommand
unfolding arg
set_power payload = do
  power ← lift (or_raise (as_bool (arg "power" payload)) (refusal invalid_command "空调电源参数必须为布尔值"))
  modify (λ a. record a { power = power; running = power })
  lift (ok (record (bare_command "setPower") { power = some power }))

unfoldable pub set_mode : Dict Value → Exec AirConditioner NormalizedAcCommand
unfolding arg
set_mode payload = do
  mode ← lift (or_raise (as_text (arg "mode" payload)) (refusal invalid_command "空调模式参数无效"))
  modify (λ a. record a { mode = mode })
  lift (ok (record (bare_command "setMode") { mode = some mode }))

unfoldable pub set_temperature : Dict Value → Exec AirConditioner NormalizedAcCommand
unfolding arg
set_temperature payload = do
  temperature ←
      lift
        (or_raise (as_int (arg "temperatureCelsius" payload)) (refusal invalid_command "目标温度必须为整数"))
  modify (λ a. record a { target_temperature_celsius = temperature })
  lift (ok (record (bare_command "setTemperature") { temperature = some temperature }))

unfoldable pub set_fan_speed : Dict Value → Exec AirConditioner NormalizedAcCommand
unfolding arg
set_fan_speed payload = do
  fan_speed ←
      lift (or_raise (as_text (arg "fanSpeed" payload)) (refusal invalid_command "空调风速参数无效"))
  modify (λ a. record a { fan_speed = fan_speed })
  lift (ok (record (bare_command "setFanSpeed") { fan_speed = some fan_speed }))

unfoldable pub set_dehumidify : Dict Value → Exec AirConditioner NormalizedAcCommand
unfolding arg
set_dehumidify payload = do
  enabled ← lift (
      or_raise (as_bool (arg "enabled" payload))
        (refusal invalid_command "Invalid dehumidify switch"))
  modify (λ a. record a { mode = "dry"; power = enabled; running = enabled })
  lift (ok (record (bare_command "setMode") { mode = some "dry" }))

abbrev brand_error : Error
brand_error = refusal invalid_command "模拟品牌不受支持"

unfoldable pub set_brand : Dict Value → Exec AirConditioner NormalizedAcCommand
unfolding arg
set_brand payload = do
  brand ← lift (or_raise (as_text (arg "brand" payload)) brand_error)
  lift (refuse_if (not (contains (keys adapters) brand)) brand_error)
  modify (λ a. record a { brand = brand })
  power ← gets (λ a. a.power)
  lift (ok (record (bare_command "setPower") { power = some power }))

unfoldable pub apply_action : String → Dict Value → Exec AirConditioner NormalizedAcCommand
apply_action action payload =
    if action == "setPower"
    then set_power payload
    else if action == "setMode"
    then set_mode payload
    else if action == "setTemperature"
    then set_temperature payload
    else if action == "setFanSpeed"
    then set_fan_speed payload
    else if action == "setDehumidify"
    then set_dehumidify payload
    else if action == "setBrand"
    then set_brand payload
    else throw (refusal invalid_command "空调动作不受支持")

-- The last two lines of `execute`.
unfoldable pub send : NormalizedAcCommand → Exec AirConditioner (Unit {0})
send command = do
  brand ← gets (λ a. a.brand)
  adapter ← lift (get_adapter brand)
  frame ← lift (encode adapter command)
  modify (λ a. record a { last_adapter_frame = frame })

unfoldable pub execute : String → Dict Value → Exec AirConditioner (Unit {0})
execute action payload = do command ← apply_action action payload; send command
