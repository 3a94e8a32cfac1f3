-- ===== src/Registry/Ticks.antt =====
-- `tick` of VirtualGateway/devcontrol_gateway/registry.py: every device in the order of its driver's
-- priority, devices of one priority in the order of the dict.
pub mod Invariant
pub mod Order
use dev_control_open_harmony.Prelude.{
  ℕ, String, Bool, true, false, Option, none, some, List, [], ◌∷◌, leb, if◌then◌else◌, map, ◌++◌,
}
use dev_control_open_harmony.Value.{Value}
use dev_control_open_harmony.Errors.{Result, ok, raise}
use dev_control_open_harmony.Exec.{Exec, ◌>>=◌, ◌>>◌}
use dev_control_open_harmony.Dict.{Dict, values}
use dev_control_open_harmony.Device.{Device}
use dev_control_open_harmony.Drivers.Base.{DeviceDriver}
use dev_control_open_harmony.Registry.{DeviceRegistry, save, find, driver_for, touch, public_device}
use dev_control_open_harmony.Registry.Commands.{settle}

-- The sort keys, which are computed before the sort.
unfoldable pub priorities : List Device → Exec DeviceRegistry (List (ℕ × String))
unfolding driver_for
priorities [] r = (ok [], r)
priorities (device ∷ rest) r =
    (driver_for device >>= λ driver.
    priorities rest >>= λ others. λ s. (ok ((driver.tick_priority, device.id) ∷ others), s))
      r

abbrev pub insert_by_priority : ℕ × String → List (ℕ × String) → List (ℕ × String)
insert_by_priority e [] = e ∷ []
insert_by_priority e (f ∷ fs) =
    let rest = insert_by_priority e fs in if leb e.0 f.0 then e ∷ f ∷ fs else f ∷ rest

unfoldable pub sort_by_priority : List (ℕ × String) → List (ℕ × String)
sort_by_priority [] = []
sort_by_priority (e ∷ es) = insert_by_priority e (sort_by_priority es)

unfoldable pub run_tick : DeviceDriver → Device → Exec DeviceRegistry (Bool × Device)
unfolding save
run_tick driver device r = settle (driver.tick (device, r.context)) r

-- `if driver.tick(...)`: the device is touched and reported.
abbrev pub report : Bool × Device → Exec DeviceRegistry (List (Dict Value))
report (false, device) r = (ok [], r)
report (true, device) r =
    (touch device >>= λ touched. λ s.
        let seen = public_device s touched in
        (elim seen [ ok public ↦ ok (public ∷ []) | raise e ↦ raise e ], s))
      r

unfoldable pub tick_device : String → Exec DeviceRegistry (List (Dict Value))
unfolding find driver_for run_tick touch public_device
tick_device device_id = do
  device ← find device_id
  driver ← driver_for device
  ticked ← run_tick driver device
  report ticked

unfoldable pub tick_all : List String → Exec DeviceRegistry (List (Dict Value))
unfolding tick_device
tick_all [] r = (ok [], r)
tick_all (device_id ∷ rest) r =
    (tick_device device_id >>= λ changed.
    tick_all rest >>= λ others. λ s. (ok (changed ++ others), s))
      r

unfoldable pub tick : Exec DeviceRegistry (List (Dict Value))
unfolding priorities sort_by_priority tick_all
tick r =
    (priorities (values r.devices) >>= λ keyed. tick_all (map (λ e. e.1) (sort_by_priority keyed)))
      r
