-- ===== src/Composition/Lawful.antt =====
-- The contract between a driver and the registry, and that the built-in drivers keep it.
use dev_control_open_harmony.Prelude.{String, Option, none, some, ◌≡◌, refl, arith, inl, inr, All}
use dev_control_open_harmony.Value.{Value}
use dev_control_open_harmony.Errors.{Result, Result-cases}
use dev_control_open_harmony.Exec.{Exec}
use dev_control_open_harmony.Dict.{Dict}
use dev_control_open_harmony.Device
use dev_control_open_harmony.Device.{Device, Detail, OnlyDetail}
use dev_control_open_harmony.Context.{Context}
use dev_control_open_harmony.Drivers.Base.{DeviceDriver}
use dev_control_open_harmony.Drivers.Environment
use dev_control_open_harmony.Drivers.Environment.{Floats, sample, log_readings, revalidate}
use dev_control_open_harmony.Drivers.DoorLock
use dev_control_open_harmony.Context.{record_alert}
use dev_control_open_harmony.Composition.{
  run_on, with_context, alone, light_driver, environment_driver, humidifier_driver,
  bath_heater_driver, air_conditioner_driver, door_lock_driver, curtain_driver, default_drivers,
}

-- A method leaves alone what the registry owns: the common part of its device, the other devices
-- and the clock.
pub record Keeps (before after : Device × Context) : Type 0 where
  pub device : OnlyDetail before.0 after.0
  pub devices : after.1.devices ≡ before.1.devices
  pub clock : after.1.clock ≡ before.1.clock

pub record Lawful (driver : DeviceDriver) : Type 0 where
  pub executes :
      (action : String) (payload : Dict Value) (s : Device × Context)
      → Keeps s (driver.execute action payload s).1
  pub ticks : (s : Device × Context) → Keeps s (driver.tick s).1

module _ {F A : Type 0} (project : Detail → Option F) (inject : F → Detail) where
  run_on-Keeps :
      (method : Device → F → Context → Result A × F × Context)
      → ((d : Device) (x : F) (c : Context)
          → ((method d x c).2.devices ≡ c.devices) × ((method d x c).2.clock ≡ c.clock))
      → (o : Option F) (s : Device × Context) → Keeps s (run_on inject method o s).1
  unfolding run_on
  run_on-Keeps method same none s = record { device = refl; devices = refl; clock = refl }
  run_on-Keeps method same (some x) (d, c) = record {
    device = refl;
    devices = (same d x c).0;
    clock = (same d x c).1;
  }

  with_context-Keeps :
      (method : Device → F → Context → Result A × F × Context)
      → ((d : Device) (x : F) (c : Context)
          → ((method d x c).2.devices ≡ c.devices) × ((method d x c).2.clock ≡ c.clock))
      → (s : Device × Context) → Keeps s (with_context project inject method s).1
  unfolding with_context
  with_context-Keeps method same s = run_on-Keeps method same (project s.0.detail) s

  alone-Keeps :
      (method : Device → Context → Exec F A) (s : Device × Context)
      → Keeps s (alone project inject method s).1
  unfolding alone
  alone-Keeps method = with_context-Keeps _ (λ d x c. (refl, refl))

nothing-Keeps : (s : Device × Context) → Keeps s s
nothing-Keeps s = record { device = refl; devices = refl; clock = refl }

pub light_driver-Lawful : Lawful light_driver
unfolding light_driver
light_driver-Lawful = record {
  executes = λ action payload. alone-Keeps _ _ _;
  ticks = alone-Keeps _ _ _;
}

humidifier_driver-Lawful : Lawful humidifier_driver
unfolding humidifier_driver
humidifier_driver-Lawful = record {
  executes = λ action payload. alone-Keeps _ _ _;
  ticks = nothing-Keeps;
}

bath_heater_driver-Lawful : Lawful bath_heater_driver
unfolding bath_heater_driver
bath_heater_driver-Lawful = record {
  executes = λ action payload. alone-Keeps _ _ _;
  ticks = nothing-Keeps;
}

air_conditioner_driver-Lawful : Lawful air_conditioner_driver
unfolding air_conditioner_driver
air_conditioner_driver-Lawful = record {
  executes = λ action payload. alone-Keeps _ _ _;
  ticks = nothing-Keeps;
}

curtain_driver-Lawful : Lawful curtain_driver
unfolding curtain_driver
curtain_driver-Lawful = record {
  executes = λ action payload. alone-Keeps _ _ _;
  ticks = alone-Keeps _ _ _;
}

door_lock_execute :
    (id action : String) (payload : Dict Value) (k : Device.DoorLock) (c : Context)
    → ((DoorLock.execute id action payload k c).2.devices ≡ c.devices)
      × ((DoorLock.execute id action payload k c).2.clock ≡ c.clock)
unfolding DoorLock.execute record_alert
door_lock_execute id action payload k c = ground arith

door_lock_tick :
    (d : Device) (k : Device.DoorLock) (c : Context)
    → ((DoorLock.tick d k c).2.devices ≡ c.devices) × ((DoorLock.tick d k c).2.clock ≡ c.clock)
unfolding DoorLock.tick DoorLock.auto_lock_audit
door_lock_tick d k c = ground arith

door_lock_driver-Lawful : Lawful door_lock_driver
unfolding door_lock_driver
door_lock_driver-Lawful = record {
  executes =
      λ action payload. with_context-Keeps _ _ _ (λ d. door_lock_execute d.id action payload);
  ticks = with_context-Keeps _ _ _ door_lock_tick;
}

environment_tick :
    (f : Floats) (d : Device) (e : Device.Environment) (c : Context)
    → ((Environment.tick f d e c).2.devices ≡ c.devices)
      × ((Environment.tick f d e c).2.clock ≡ c.clock)
unfolding Environment.tick log_readings
environment_tick f d e c = elim (Result-cases (sample f d c e)) [
  | inl (x, p) ↦ rw (p, Environment.tick) (refl, refl)
  | inr (r, p) ↦ rw (p, Environment.tick) (ground arith)
]

environment_driver-Lawful : (f : Floats) → Lawful (environment_driver f)
unfolding environment_driver
environment_driver-Lawful f = record {
  executes = λ action payload. nothing-Keeps;
  ticks = with_context-Keeps _ _ _ (environment_tick f);
}

-- Every built-in driver changes nothing of its device but the entries of its family, no other
-- device and not the clock, in execute and in tick, whether the method succeeds or raises.
pub default_drivers-Lawful : (f : Floats) → All Lawful (default_drivers f)
unfolding default_drivers
default_drivers-Lawful f = (
  light_driver-Lawful,
  (
    environment_driver-Lawful f,
    (
      humidifier_driver-Lawful,
      (
        bath_heater_driver-Lawful,
        (air_conditioner_driver-Lawful, (door_lock_driver-Lawful, (curtain_driver-Lawful, tt))),
      ),
    ),
  ),
)
