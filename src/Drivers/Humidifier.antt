-- ===== src/Drivers/Humidifier.antt =====
-- `HumidifierDriver` of VirtualGateway/devcontrol_gateway/drivers.py
use dev_control_open_harmony.Prelude.{
  ℕ, String, true, false, some, List, [], ◌∷◌, ◌==◌, ◌||◌, not, if◌then◌else◌, same_set,
}
use dev_control_open_harmony.Numbers.{of_ℕ, less, round, to_ℕ}
use dev_control_open_harmony.Value.{Value, as_bool, as_number}
use dev_control_open_harmony.Errors.{
  Error, Result, ok, raise, refusal, refuse_if, or_raise, python, value_error, invalid_command,
}
use dev_control_open_harmony.Exec.{Exec, throw, lift, ◌>>=◌, ◌>>◌}
use dev_control_open_harmony.Dict.{Dict}
use dev_control_open_harmony.Device.{Device, Humidifier, Detail, base_device}
use dev_control_open_harmony.Drivers.Base.{arg, modify}

unfoldable pub make : ℕ → String → String → String → Device
unfolding base_device
make now device_id name room_id =
    base_device now device_id name room_id "humidifier" (some "environment")
      (Detail.humidifier (record { power = false; target_humidity_percent = 55 }))

unfoldable pub create_devices : ℕ → List Device
unfolding make
create_devices now = make now "humidifier-living-01" "客厅加湿器" "living" ∷ []

abbrev pub registration_capabilities : List String
registration_capabilities = "setPower" ∷ "setTargetHumidity" ∷ []

unfoldable pub attest_registration :
    ℕ → String → String → String → String → List String → Result Device
unfolding make
attest_registration now device_id name room_id category_id capabilities =
    if not (category_id == "environment") || not (same_set capabilities registration_capabilities)
    then raise (refusal invalid_command "加湿器必须声明 environment 分类及完整的受支持控制能力")
    else ok (record (make now device_id name room_id) { removable = true })

unfoldable pub set_power : Dict Value → Exec Humidifier (Unit {0})
unfolding arg
set_power payload = do
  power ← lift (or_raise (as_bool (arg "power" payload)) (refusal invalid_command "加湿器开关参数无效"))
  modify (λ h. record h { power = power })

abbrev target_error : Error
target_error = refusal invalid_command "目标湿度必须在35到75之间"

unfoldable pub set_target_humidity : Dict Value → Exec Humidifier (Unit {0})
unfolding arg
set_target_humidity payload = do
  target ← lift (or_raise (as_number (arg "targetHumidityPercent" payload)) target_error)
  lift (refuse_if (less target (of_ℕ 35) || less (of_ℕ 75) target) target_error)
  rounded ← lift (or_raise (round target) (python value_error))
  modify (λ h. record h { target_humidity_percent = to_ℕ rounded })

unfoldable pub execute : String → Dict Value → Exec Humidifier (Unit {0})
unfolding set_power set_target_humidity
execute action payload =
    if action == "setPower"
    then set_power payload
    else if action == "setTargetHumidity"
    then set_target_humidity payload
    else throw (refusal invalid_command "加湿器动作不受支持")
