-- ===== src/Composition.antt =====
-- VirtualGateway/devcontrol_gateway/composition.py: the built-in families, each as a driver. A driver
-- that is handed a device of another family finds its keys missing.
pub mod Lawful
pub mod Answers
use dev_control_open_harmony.Prelude.{
  ℕ, String, Bool, true, false, Option, none, some, List, [], ◌∷◌,
}
use dev_control_open_harmony.Value.{Value}
use dev_control_open_harmony.Errors.{Result, ok, raise, refusal, python, key_error, invalid_command}
use dev_control_open_harmony.Exec.{Exec, throw, pure}
use dev_control_open_harmony.Dict.{Dict}
use dev_control_open_harmony.Device
use dev_control_open_harmony.Device.{Device, Detail}
use dev_control_open_harmony.Context.{Context}
use dev_control_open_harmony.Drivers.Base.{DeviceDriver, Category}
use dev_control_open_harmony.Drivers
use dev_control_open_harmony.Drivers.Environment.{Floats, as_air_conditioner}
use dev_control_open_harmony.Drivers.Light.{as_environment}

abbrev pub as_light : Detail → Option Device.Light
as_light (Detail.light x) = some x
as_light _ = none

abbrev pub as_bath_heater : Detail → Option Device.BathHeater
as_bath_heater (Detail.bath_heater x) = some x
as_bath_heater _ = none

abbrev pub as_humidifier : Detail → Option Device.Humidifier
as_humidifier (Detail.humidifier x) = some x
as_humidifier _ = none

abbrev pub as_door_lock : Detail → Option Device.DoorLock
as_door_lock (Detail.door_lock x) = some x
as_door_lock _ = none

abbrev pub as_curtain : Detail → Option Device.Curtain
as_curtain (Detail.curtain x) = some x
as_curtain _ = none

-- A method of a family on the family's part of a device, if the device has it.
run_on :
    {F A : Type 0}
    → (F → Detail)
    → (Device → F → Context → Result A × F × Context)
    → Option F
    → Exec (Device × Context) A
run_on inject method none s = (raise (python key_error), s)
run_on inject method (some x) (d, c) =
    let (r, x', c') = method d x c in (r, (record d { detail = inject x' }, c'))

module _ {F A : Type 0} (project : Detail → Option F) (inject : F → Detail) where
  -- A method of a family that may use the context.
  unfoldable pub with_context :
      (Device → F → Context → Result A × F × Context) → Exec (Device × Context) A
  unfolding run_on
  with_context method s = run_on inject method (project s.0.detail) s

  -- A method that does not change the context.
  unfoldable pub alone : (Device → Context → Exec F A) → Exec (Device × Context) A
  unfolding with_context
  alone method = with_context (λ d x c. let (r, x') = method d c x in (r, x', c))

-- `DeviceDriver.execute`, `attest_registration` and `tick`, where a family has none of its own
abbrev pub no_commands : String → Dict Value → Exec (Device × Context) (Unit {0})
no_commands action payload = throw (refusal invalid_command "该设备不接受控制命令")

abbrev pub no_registration : ℕ → String → String → String → String → List String → Result Device
no_registration now device_id name room_id category_id capabilities =
    raise (refusal invalid_command "该设备类型暂不支持二维码注册")

abbrev pub no_tick : Exec (Device × Context) Bool
no_tick = pure false

unfoldable pub light_driver : DeviceDriver
light_driver = record {
  device_type = "light";
  tick_priority = 30;
  requires_category = true;
  create_categories = Drivers.Light.create_categories;
  create_devices = Drivers.Light.create_devices;
  execute = λ action payload.
      alone as_light Detail.light (λ d c. Drivers.Light.execute c.clock action payload);
  attest_registration = Drivers.Light.attest_registration;
  tick = alone as_light Detail.light Drivers.Light.tick;
}

unfoldable pub environment_driver : Floats → DeviceDriver
environment_driver f = record {
  device_type = "environment";
  tick_priority = 10;
  requires_category = true;
  create_categories = Drivers.Environment.create_categories;
  create_devices = Drivers.Environment.create_devices f;
  execute = no_commands;
  attest_registration = Drivers.Environment.attest_registration;
  tick = with_context as_environment Detail.environment (Drivers.Environment.tick f);
}

unfoldable pub humidifier_driver : DeviceDriver
humidifier_driver = record {
  device_type = "humidifier";
  tick_priority = 24;
  requires_category = true;
  create_categories = [];
  create_devices = Drivers.Humidifier.create_devices;
  execute = λ action payload.
      alone as_humidifier Detail.humidifier (λ d c. Drivers.Humidifier.execute action payload);
  attest_registration = Drivers.Humidifier.attest_registration;
  tick = no_tick;
}

unfoldable pub bath_heater_driver : DeviceDriver
bath_heater_driver = record {
  device_type = "bathHeater";
  tick_priority = 25;
  requires_category = true;
  create_categories = [];
  create_devices = Drivers.BathHeater.create_devices;
  execute = λ action payload.
      alone as_bath_heater Detail.bath_heater (λ d c. Drivers.BathHeater.execute action payload);
  attest_registration = no_registration;
  tick = no_tick;
}

unfoldable pub air_conditioner_driver : DeviceDriver
air_conditioner_driver = record {
  device_type = "airConditioner";
  tick_priority = 20;
  requires_category = true;
  create_categories = [];
  create_devices = Drivers.AirConditioner.create_devices;
  execute = λ action payload.
      alone as_air_conditioner Detail.air_conditioner
        (λ d c. Drivers.AirConditioner.execute action payload);
  attest_registration = Drivers.AirConditioner.attest_registration;
  tick = no_tick;
}

-- `tick` of a door lock does not raise
unfoldable pub door_lock_driver : DeviceDriver
door_lock_driver = record {
  device_type = "doorLock";
  tick_priority = 40;
  requires_category = false;
  create_categories = [];
  create_devices = Drivers.DoorLock.create_devices;
  execute = λ action payload.
      with_context as_door_lock Detail.door_lock
        (λ d. Drivers.DoorLock.execute d.id action payload);
  attest_registration = no_registration;
  tick =
      with_context as_door_lock Detail.door_lock
        (λ d k c. let (changed, k', c') = Drivers.DoorLock.tick d k c in (ok changed, k', c'));
}

unfoldable pub curtain_driver : DeviceDriver
curtain_driver = record {
  device_type = "curtain";
  tick_priority = 50;
  requires_category = true;
  create_categories = Drivers.Curtain.create_categories;
  create_devices = Drivers.Curtain.create_devices;
  execute = λ action payload.
      alone as_curtain Detail.curtain (λ d c. Drivers.Curtain.execute action payload);
  attest_registration = no_registration;
  tick =
      alone as_curtain Detail.curtain
        (λ d c x. let (changed, x') = Drivers.Curtain.tick d x in (ok changed, x'));
}

unfoldable pub default_drivers : Floats → List DeviceDriver
unfolding with_context alone light_driver environment_driver humidifier_driver bath_heater_driver
    air_conditioner_driver door_lock_driver curtain_driver
default_drivers f =
    light_driver
    ∷ environment_driver f
    ∷ humidifier_driver
    ∷ bath_heater_driver
    ∷ air_conditioner_driver
    ∷ door_lock_driver
    ∷ curtain_driver
    ∷ []
