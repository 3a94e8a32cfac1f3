-- ===== src/Registry/Creation.antt =====
-- `DeviceRegistry(storage, default_drivers())` of VirtualGateway/devcontrol_gateway/service.py.
use dev_control_open_harmony.Composition.Lawful.{default_drivers-Lawful, Lawful}
use dev_control_open_harmony.Drivers.Base.{Category, DeviceDriver}
use dev_control_open_harmony.Device.{Device}
use dev_control_open_harmony.Registry.Commands.Invariant.{category_known, Entry, WellFormed}
use dev_control_open_harmony.Prelude.{
  ℕ, String, Bool, true, ◌≡◌, refl, [], ◌∷◌, All, arith, ◌==◌, ◌&&◌, is_some, eq_iff,
}
use dev_control_open_harmony.Errors.{ok}
use dev_control_open_harmony.Dict.{Dict, get}
use dev_control_open_harmony.Storage.{GatewayStorage}
use dev_control_open_harmony.Drivers
use dev_control_open_harmony.Drivers.Environment.{Floats}
use dev_control_open_harmony.Composition.{default_drivers}
use dev_control_open_harmony.Registry.{DeviceRegistry, create, register_drivers}

abbrev is_entry : Dict Category → Dict DeviceDriver → String × Device → Bool
is_entry cats drvs (id, d) =
    id == d.id && (category_known cats d.category_id && is_some (get d.device_type drvs))

are_entries : Dict Category → Dict DeviceDriver → Dict Device → Bool
are_entries cats drvs [] = true
are_entries cats drvs (e ∷ es) = is_entry cats drvs e && are_entries cats drvs es

are_entries-All :
    (cats : Dict Category) (drvs : Dict DeviceDriver) (ds : Dict Device)
    → are_entries cats drvs ds ≡ true
    → All (Entry cats drvs) ds
unfolding are_entries
are_entries-All cats drvs [] h = tt
are_entries-All cats drvs ((id, d) ∷ es) h =
    let head : (id == d.id) ≡ true = ground arith in
    (
      (ground (arith, eq_iff id d.id), record { category = ground arith; driver = ground arith }),
      are_entries-All cats drvs es (ground arith),
    )

checked-WellFormed :
    (r : DeviceRegistry)
    → All (λ e. Lawful e.1) r.drivers
    → are_entries r.categories r.drivers r.devices ≡ true
    → WellFormed r
checked-WellFormed r lawful h = record {
  devices = are_entries-All r.categories r.drivers r.devices h;
  lawful = lawful;
}

-- Building the registry from the built-in drivers succeeds over any database and at any time, and
-- gives a well-formed registry.
pub create-WellFormed :
    (f : Floats) (storage : GatewayStorage) (now : ℕ)
    → (r : DeviceRegistry) × (create storage now (default_drivers f) ≡ ok r) × WellFormed r
unfolding create register_drivers are_entries default_drivers Drivers.Light.create_categories
    Drivers.Light.create_devices Drivers.Environment.create_categories
    Drivers.Environment.create_devices Drivers.Humidifier.create_devices
    Drivers.BathHeater.create_devices Drivers.AirConditioner.create_devices
    Drivers.DoorLock.create_devices Drivers.Curtain.create_categories Drivers.Curtain.create_devices
create-WellFormed f storage now = (_, refl, checked-WellFormed _ (default_drivers-Lawful f) refl)
