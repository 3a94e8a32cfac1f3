-- ===== src/Registry/Commands.antt =====
-- A command to one device: `_ensure_commandable` and `_execute_device` of
-- VirtualGateway/devcontrol_gateway/registry.py.
pub mod Rules
pub mod Invariant
pub mod Effects
pub mod Refusals
use dev_control_open_harmony.Prelude.{
  ℕ, ◌+◌, String, Bool, true, false, not, Option, none, some, ltb, nat_eq, if◌then◌else◌,
}
use dev_control_open_harmony.Value.{Value}
use dev_control_open_harmony.Errors.{
  Error, Result, ok, raise, refusal, device_offline, state_conflict, command_timeout,
  internal_error,
}
use dev_control_open_harmony.Exec.{Exec, ◌>>=◌, ◌>>◌}
use dev_control_open_harmony.Dict.{Dict}
use dev_control_open_harmony.Device.{Device}
use dev_control_open_harmony.Context.{Context}
use dev_control_open_harmony.Drivers.Base.{DeviceDriver}
use dev_control_open_harmony.Registry.{DeviceRegistry, save, find, driver_for, touch, public_device}

-- `expected_version is not None and expected_version != device["stateVersion"]`
abbrev pub is_stale : Option ℕ → Device → Bool
is_stale none device = false
is_stale (some expected) device = not (nat_eq expected device.state_version)

-- `time.sleep(delay_ms / 1000)`
abbrev pub sleep : ℕ → DeviceRegistry → DeviceRegistry
sleep delay_ms r = record r { context = record r.context { clock = r.clock + delay_ms } }

unfoldable pub ensure_commandable : Device → Option ℕ → Exec DeviceRegistry Device
unfolding save
ensure_commandable device expected_version r =
    if not device.online
    then (raise (refusal device_offline "目标设备当前离线"), r)
    else if is_stale expected_version device
    then (raise (refusal state_conflict "设备状态版本已更新，请刷新后重试"), r)
    else if ltb 5000 device.command_delay_ms
    then (raise (refusal command_timeout "设备响应超过5秒超时限制"), r)
    else if device.fail_next_command
    then (
      raise (refusal internal_error "设备模拟器注入了一次命令故障"),
      save (record device { fail_next_command = false }) (sleep device.command_delay_ms r),
    )
    else (ok device, sleep device.command_delay_ms r)

-- The driver works on the device of the dict and on the registry as its context: what it wrote
-- stays, also beside an error.
abbrev pub written : Device × Context → DeviceRegistry → DeviceRegistry
written (device, context) r = save device (record r { context = context })

abbrev pub settle : {A : Type 0} → Result A × (Device × Context) → Exec DeviceRegistry (A × Device)
settle (raise e, s) r = (raise e, written s r)
settle (ok a, s) r = (ok (a, s.0), written s r)

unfoldable pub run_execute :
    DeviceDriver → Device → String → Dict Value → Exec DeviceRegistry (Unit {0} × Device)
unfolding save
run_execute driver device action payload r =
    settle (driver.execute action payload (device, r.context)) r

-- `_execute_device` as far as the driver goes.
unfoldable pub perform :
    String → String → Dict Value → Option ℕ → Exec DeviceRegistry (Unit {0} × Device)
unfolding find ensure_commandable driver_for run_execute
perform device_id action payload expected_version = do
  found ← find device_id
  device ← ensure_commandable found expected_version
  driver ← driver_for device
  run_execute driver device action payload

-- The rest: the version moves on, and the device is returned as the API shows it.
unfoldable pub conclude : Unit {0} × Device → Exec DeviceRegistry (Dict Value)
unfolding touch
conclude (_, executed) = do touched ← touch executed; (λ r. (public_device r touched, r))

unfoldable pub execute_device :
    String → String → Dict Value → Option ℕ → Exec DeviceRegistry (Dict Value)
unfolding perform conclude
execute_device device_id action payload expected_version =
    perform device_id action payload expected_version >>= conclude
