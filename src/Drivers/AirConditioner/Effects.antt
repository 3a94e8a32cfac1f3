-- ===== src/Drivers/AirConditioner/Effects.antt =====
-- The state that an accepted command leaves, and what a refused one writes all the same.
use dev_control_open_harmony.Prelude.{◌≡◌, String, true, false, some, arith, contains}
use dev_control_open_harmony.Numbers.{ℤ}
use dev_control_open_harmony.Value.{Value, as_int, as_text}
use dev_control_open_harmony.Errors.{ok, raise, refusal, invalid_command}
use dev_control_open_harmony.Exec.{Exec, ◌>>=◌}
use dev_control_open_harmony.Adapters.{NormalizedAcCommand}
use dev_control_open_harmony.Dict.{Dict, keys}
use dev_control_open_harmony.Adapters.{
  valid_modes, valid_fan_speeds, is_settable, is_among, validate, encode, adapters,
}
use dev_control_open_harmony.Device.{AirConditioner}
use dev_control_open_harmony.Drivers.Base.{arg}
use dev_control_open_harmony.Drivers.AirConditioner.{
  execute, apply_action, send, set_power, set_mode, set_temperature, set_fan_speed, set_dehumidify,
  set_brand,
}
use dev_control_open_harmony.Drivers.AirConditioner.Frames.{get_adapter-is_ok}

pub record IsValid (a : AirConditioner) : Type 0 where
  pub mode : is_among valid_modes (some a.mode) ≡ true
  pub fan_speed : is_among valid_fan_speeds (some a.fan_speed) ≡ true
  pub temperature : is_settable (some a.target_temperature_celsius) ≡ true
  pub brand : contains (keys adapters) a.brand ≡ true
  pub running : a.running ≡ a.power

module _ (payload : Dict Value) (a : AirConditioner) where
  -- a command that the adapter refuses: the value is written and the frame is not
  refused_mode :
      (m : String)
      → IsValid a
      → as_text (arg "mode" payload) ≡ some m
      → is_among valid_modes (some m) ≡ false
      → execute "setMode" payload a
        ≡ (raise (refusal invalid_command "空调模式不受支持"), record a { mode = m })
  unfolding execute apply_action set_mode send encode validate
  refused_mode m v p h = ground (arith, get_adapter-is_ok a.brand)

  -- A setTemperature command with an integer outside 16 to 30 to a valid air conditioner is
  -- refused, and all the same the integer is its new target temperature; nothing else changes.
  pub refused_temperature :
      (t : ℤ)
      → IsValid a
      → as_int (arg "temperatureCelsius" payload) ≡ some t
      → is_settable (some t) ≡ false
      → execute "setTemperature" payload a ≡ (
        raise (refusal invalid_command "目标温度必须在16到30摄氏度之间"),
        record a { target_temperature_celsius = t },
      )
  unfolding execute apply_action set_temperature send encode validate
  refused_temperature t v p h = ground (arith, get_adapter-is_ok a.brand)

-- A command that got through to the frame.
abbrev perform : Exec AirConditioner NormalizedAcCommand → Exec AirConditioner (Unit {0})
perform m = do command ← m; send command

abbrev Accepts : Exec AirConditioner NormalizedAcCommand → Type 0
Accepts m = (a : AirConditioner) → IsValid a → (perform m a).0 ≡ ok tt → IsValid (perform m a).1

module _ (payload : Dict Value) where
  accepted_power : Accepts (set_power payload)
  unfolding set_power send encode validate
  accepted_power a v h = ground (arith, get_adapter-is_ok a.brand)

  accepted_mode : Accepts (set_mode payload)
  unfolding set_mode send encode validate
  accepted_mode a v h = ground (arith, get_adapter-is_ok a.brand)

  accepted_temperature : Accepts (set_temperature payload)
  unfolding set_temperature send encode validate
  accepted_temperature a v h = ground (arith, get_adapter-is_ok a.brand)

  accepted_fan_speed : Accepts (set_fan_speed payload)
  unfolding set_fan_speed send encode validate
  accepted_fan_speed a v h = ground (arith, get_adapter-is_ok a.brand)

  accepted_dehumidify : Accepts (set_dehumidify payload)
  unfolding set_dehumidify send encode validate
  accepted_dehumidify a v h = ground (arith, get_adapter-is_ok a.brand)

  accepted_brand : Accepts (set_brand payload)
  unfolding set_brand send encode validate
  accepted_brand a v h = ground (arith, get_adapter-is_ok a.brand)

  -- An accepted command leaves a valid air conditioner valid: mode, fan speed, temperature and
  -- brand known to the adapters, running exactly if it is powered.
  pub air_conditioner_execute-IsValid :
      (action : String) (a : AirConditioner)
      → IsValid a
      → (execute action payload a).0 ≡ ok tt
      → IsValid (execute action payload a).1
  unfolding execute apply_action
  air_conditioner_execute-IsValid action a v h = ground (
    arith,
    accepted_power a v,
    accepted_mode a v,
    accepted_temperature a v,
    accepted_fan_speed a v,
    accepted_dehumidify a v,
    accepted_brand a v,
  )
