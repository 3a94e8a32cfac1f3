-- ===== src/Registry/Commands/Invariant.antt =====
-- The invariant of the registry, and that a command to a device keeps it.
use dev_control_open_harmony.Prelude.{
  ℕ, String, Bool, true, ◌≡◌, refl, Option, none, some, All, sym, is_some,
}
use mathlib.Core.Path.{subst, subst₂}
use dev_control_open_harmony.Value.{Value}
use dev_control_open_harmony.Errors.{ok-injective}
use dev_control_open_harmony.Dict.{Dict, get, put}
use dev_control_open_harmony.Dict.Laws.{All-put, All-get}
use dev_control_open_harmony.Device.{Device, OnlyDetail}
use dev_control_open_harmony.Drivers.Base.{DeviceDriver, Category}
use dev_control_open_harmony.Composition.Lawful.{Lawful}
use dev_control_open_harmony.Registry.{DeviceRegistry, touch, public_device}
use dev_control_open_harmony.Registry.Commands.{perform, conclude, execute_device}
use dev_control_open_harmony.Registry.Commands.Rules.{
  Ensures, Ensures-bind, Holds, save-Holds, perform-Ensures,
}

abbrev pub category_known : Dict Category → Option String → Bool
category_known cats none = true
category_known cats (some id) = is_some (get id cats)

-- A device's category and driver are registered.
pub record Known (cats : Dict Category) (drvs : Dict DeviceDriver) (d : Device) : Type 0 where
  pub category : category_known cats d.category_id ≡ true
  pub driver : is_some (get d.device_type drvs) ≡ true

abbrev pub Entry : Dict Category → Dict DeviceDriver → String × Device → Type 0
Entry cats drvs (id, d) = (id ≡ d.id) × Known cats drvs d

-- Devices stand under their own ids, with their categories and drivers registered; the drivers
-- keep their contract.
pub record WellFormed (r : DeviceRegistry) : Type 0 where
  pub devices : All (Entry r.categories r.drivers) r.devices
  pub lawful : All (λ e. Lawful e.1) r.drivers

module _ (cats : Dict Category) (drvs : Dict DeviceDriver) where
  pub Known-detail : (d e : Device) → OnlyDetail d e → Known cats drvs d → Known cats drvs e
  Known-detail d e p k =
      subst (Known cats drvs) p (record { category = k.category; driver = k.driver })

  pub Entry-put :
      (d : Device) (ds : Dict Device)
      → Known cats drvs d
      → All (Entry cats drvs) ds
      → All (Entry cats drvs) (put d.id d ds)
  Entry-put d ds k h = All-put (Entry cats drvs) d.id d ds (refl, k) h

  pub Entry-get :
      (id : String) (ds : Dict Device) (d : Device)
      → All (Entry cats drvs) ds
      → get id ds ≡ some d
      → Entry cats drvs (id, d)
  Entry-get id ds d h e = All-get (Entry cats drvs) id ds h e

  abbrev pub Kept : DeviceRegistry → Type 0
  Kept = Holds cats drvs (All (Entry cats drvs))

  module _ (lawful : All (λ e. Lawful e.1) drvs) where
    pub perform-Kept :
        (id action : String) (payload : Dict Value) (v : Option ℕ)
        → Ensures Kept (λ x. Known cats drvs x.1) (perform id action payload v)
    perform-Kept id action payload v =
        perform-Ensures cats drvs lawful (All (Entry cats drvs)) (Known cats drvs) Entry-put
          Known-detail id action payload v
          λ ds d h e.
            let k = (Entry-get id ds d h e).1 in
            (k, record { category = k.category; driver = k.driver })

    pub touch-Kept : (d : Device) → Known cats drvs d → Ensures Kept (Known cats drvs) (touch d)
    unfolding touch
    touch-Kept d k = record {
      keeps = λ r p.
          save-Holds cats drvs lawful (All (Entry cats drvs)) (Known cats drvs) Entry-put
            Known-detail _ r (record { category = k.category; driver = k.driver }) p;
      returns = λ r a p e.
          subst (Known cats drvs) (ok-injective e)
            (record { category = k.category; driver = k.driver });
    }

    pub conclude-Kept :
        (x : Unit {0} × Device) → Known cats drvs x.1 → Ensures Kept (λ _. Unit {0}) (conclude x)
    unfolding conclude
    conclude-Kept (_, d) k =
        Ensures-bind (touch d) (λ t r. (public_device r t, r)) (touch-Kept d k)
          λ t kt. record { keeps = λ r p. p; returns = λ r a p e. tt }

    pub execute_device-Kept :
        (id action : String) (payload : Dict Value) (v : Option ℕ)
        → Ensures Kept (λ _. Unit {0}) (execute_device id action payload v)
    unfolding execute_device
    execute_device-Kept id action payload v =
        Ensures-bind _ _ (perform-Kept id action payload v) conclude-Kept

pub WellFormed-Kept : (r : DeviceRegistry) → WellFormed r → Kept r.categories r.drivers r
WellFormed-Kept r w = record { categories = refl; drivers = refl; devices = w.devices }

pub Kept-WellFormed :
    (cats : Dict Category) (drvs : Dict DeviceDriver) (r : DeviceRegistry)
    → All (λ e. Lawful e.1) drvs
    → Kept cats drvs r
    → WellFormed r
Kept-WellFormed cats drvs r l k = record {
  devices = subst₂ (λ c d. All (Entry c d) r.devices) (sym k.categories) (sym k.drivers) k.devices;
  lawful = subst (All (λ e. Lawful e.1)) (sym k.drivers) l;
}

-- A command to a device keeps the registry well-formed, on every path, and changes neither the
-- registered categories nor the drivers.
pub execute_device-WellFormed :
    (id action : String) (payload : Dict Value) (v : Option ℕ) (r : DeviceRegistry)
    → WellFormed r
    → WellFormed (execute_device id action payload v r).1
      × ((execute_device id action payload v r).1.categories ≡ r.categories)
      × ((execute_device id action payload v r).1.drivers ≡ r.drivers)
execute_device-WellFormed id action payload v r w =
    let k =
      (execute_device-Kept r.categories r.drivers w.lawful id action payload v).keeps r
        (WellFormed-Kept r w) in
    (Kept-WellFormed r.categories r.drivers _ w.lawful k, k.categories, k.drivers)
