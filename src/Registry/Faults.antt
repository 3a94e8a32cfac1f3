-- ===== src/Registry/Faults.antt =====
-- `inject_fault` and `inject_environment` of VirtualGateway/devcontrol_gateway/registry.py.
use dev_control_open_harmony.Prelude.{
  ℕ, ◌+◌, String, Bool, true, false, Option, none, some, ◌||◌, ◌&&◌, leb, if◌then◌else◌, is_some,
}
use dev_control_open_harmony.Numbers.{Float}
use dev_control_open_harmony.Value.{Value}
use dev_control_open_harmony.Errors.{refusal, python, key_error, or_raise, invalid_command}
use dev_control_open_harmony.Exec.{Exec, lift, ◌>>=◌}
use dev_control_open_harmony.Dict.{Dict}
use dev_control_open_harmony.Device.{Device, Environment, Detail}
use dev_control_open_harmony.Context.{find_first, record_alert}
use dev_control_open_harmony.Drivers.Light.{as_environment}
use dev_control_open_harmony.Registry.{DeviceRegistry, find, touch, public_device}

-- `FaultRequest` of models.py: what is None is not injected.
pub record FaultRequest : Type 0 where
  pub online : Option Bool
  pub jammed : Option Bool
  pub battery_percent : Option ℕ
  pub command_delay_ms : Option ℕ
  pub fail_next_command : Option Bool

abbrev pub or_old {ℓ} : {A : Type ℓ} → Option A → A → A
or_old none old = old
or_old (some new) old = new

-- The keys that only a door lock has.
abbrev fault_detail : FaultRequest → Detail → Detail
fault_detail q (Detail.door_lock k) = Detail.door_lock (record k {
  jammed = or_old q.jammed k.jammed;
  battery_percent = or_old q.battery_percent k.battery_percent;
})
fault_detail q d = d

abbrev pub has_lock : Detail → Bool
has_lock (Detail.door_lock k) = true
has_lock d = false

abbrev pub set_faults : FaultRequest → Device → Device
set_faults q device = record device {
  online = or_old q.online device.online;
  command_delay_ms = or_old q.command_delay_ms device.command_delay_ms;
  fail_next_command = or_old q.fail_next_command device.fail_next_command;
  detail = fault_detail q device.detail;
}

-- `changed`: a value is given whose key the device has
abbrev pub injects : FaultRequest → Device → Bool
injects q device =
    is_some q.online
    || (is_some q.command_delay_ms
        || (is_some q.fail_next_command
            || (has_lock device.detail && (is_some q.jammed || is_some q.battery_percent))))

-- `device.get("batteryPercent", 100) <= 20`
abbrev pub is_low : Detail → Bool
is_low (Detail.door_lock k) = leb k.battery_percent 20
is_low d = false

abbrev alert_if_low : Device → DeviceRegistry → DeviceRegistry
alert_if_low device r =
    if is_low device.detail
    then record r { context = record_alert device.id "warning" "LOW_BATTERY" "门锁电量低于20%" r.context }
    else r

unfoldable pub inject_fault : String → FaultRequest → Exec DeviceRegistry (Dict Value)
unfolding find touch record_alert public_device
inject_fault device_id q = do
  device ← find device_id
  if injects q device
      then (do
        touched ← touch (set_faults q device)
        (λ r. let r' = alert_if_low touched r in (public_device r' touched, r')))
      else (λ r. (public_device r device, r))

-- `EnvironmentInjection` of models.py.
pub record EnvironmentInjection : Type 0 where
  pub temperature_celsius : Option Float
  pub humidity_percent : Option Float
  pub illuminance_lux : Option Float
  pub presence : Option Bool

-- The injected readings hold for thirty seconds.
abbrev pub inject : ℕ → EnvironmentInjection → Environment → Environment
inject now q e = record e {
  temperature_celsius = or_old q.temperature_celsius e.temperature_celsius;
  humidity_percent = or_old q.humidity_percent e.humidity_percent;
  illuminance_lux = or_old q.illuminance_lux e.illuminance_lux;
  presence = or_old q.presence e.presence;
  manual_injection_until = now + 30000;
}

-- A device of the type `environment` has an environment's keys.
unfoldable pub inject_environment : EnvironmentInjection → Exec DeviceRegistry (Dict Value)
unfolding find_first touch public_device
inject_environment q = do
  found ← (λ r.
      (or_raise (find_first "environment" none r.context) (refusal invalid_command "环境传感器不存在"), r))
  e ← lift (or_raise (as_environment found.detail) (python key_error))
  touched ← (λ r. touch (record found { detail = Detail.environment (inject r.clock q e) }) r)
  (λ r. (public_device r touched, r))
