-- ===== src/Drivers/BathHeater.antt =====
-- `BathHeaterDriver` of VirtualGateway/devcontrol_gateway/drivers.py
use dev_control_open_harmony.Prelude.{
  ℕ, String, some, List, [], ◌∷◌, ◌==◌, not, if◌then◌else◌, contains, false,
}
use dev_control_open_harmony.Value.{Value, as_bool, as_text}
use dev_control_open_harmony.Errors.{Error, refusal, refuse_if, or_raise, invalid_command}
use dev_control_open_harmony.Exec.{Exec, throw, lift, ◌>>=◌, ◌>>◌}
use dev_control_open_harmony.Dict.{Dict}
use dev_control_open_harmony.Device.{Device, BathHeater, Detail, base_device}
use dev_control_open_harmony.Drivers.Base.{arg, modify}

unfoldable pub create_devices : ℕ → List Device
unfolding base_device
create_devices now =
    base_device now "bath-heater-bathroom-01" "浴室智能浴霸" "bathroom" "bathHeater" (some "environment")
      (Detail.bath_heater (record { power = false; mode = "warm" }))
    ∷ []

abbrev pub modes : List String
modes = "warm" ∷ "ventilate" ∷ "dry" ∷ []

abbrev mode_error : Error
mode_error = refusal invalid_command "浴霸工作模式无效"

unfoldable pub set_power : Dict Value → Exec BathHeater (Unit {0})
unfolding arg
set_power payload = do
  power ← lift (or_raise (as_bool (arg "power" payload)) (refusal invalid_command "浴霸开关参数无效"))
  modify (λ b. record b { power = power })

unfoldable pub set_mode : Dict Value → Exec BathHeater (Unit {0})
unfolding arg
set_mode payload = do
  mode ← lift (or_raise (as_text (arg "mode" payload)) mode_error)
  lift (refuse_if (not (contains modes mode)) mode_error)
  modify (λ b. record b { mode = mode })

unfoldable pub execute : String → Dict Value → Exec BathHeater (Unit {0})
unfolding set_power set_mode
execute action payload =
    if action == "setPower"
    then set_power payload
    else if action == "setMode"
    then set_mode payload
    else throw (refusal invalid_command "浴霸动作不受支持")
