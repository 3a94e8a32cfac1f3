-- ===== src/Registry/Commands/Effects.antt =====
-- What a command to one device does to the dict of devices, as a client can see it.
use dev_control_open_harmony.Prelude.{
  ℕ, ◌+◌, String, true, ◌≡◌, refl, Option, none, some, arith, All, sym, ap, eq_iff, ◌∙◌,
  if◌then◌else◌,
}
use mathlib.Core.Path.{subst}
use dev_control_open_harmony.Value.{Value}
use dev_control_open_harmony.Errors.{Result, ok, raise, is_ok}
use dev_control_open_harmony.Exec.{continue}
use dev_control_open_harmony.Dict.{Dict, get, put, remove}
use dev_control_open_harmony.Dict.Laws.{get-put, remove-put}
use dev_control_open_harmony.Device.{Device, OnlyDetail}
use dev_control_open_harmony.Device.View.{public_items}
use dev_control_open_harmony.Drivers.Base.{DeviceDriver, Category}
use dev_control_open_harmony.Composition.Lawful.{Lawful}
use dev_control_open_harmony.Registry.{DeviceRegistry, save, touch, public_device, with_category}
use dev_control_open_harmony.Registry.Commands.{perform, conclude, execute_device}
use dev_control_open_harmony.Registry.Commands.Rules.{Ensures, Holds, perform-Ensures}
use dev_control_open_harmony.Registry.Commands.Invariant.{
  Known, Entry, WellFormed, category_known, Known-detail, Entry-put, Entry-get,
}

abbrev pub version_of : Option Device → Option ℕ
version_of none = none
version_of (some d) = some d.state_version

with_category-is_ok :
    (cats : Dict Category) (o : Option String) (public : Dict Value)
    → category_known cats o ≡ true
    → is_ok (with_category cats o public) ≡ true
unfolding with_category
with_category-is_ok cats none public h = refl
with_category-is_ok cats (some id) public h = ground arith

-- A device whose category is registered has a public view.
pub public_device-is_ok :
    (r : DeviceRegistry) (d : Device)
    → category_known r.categories d.category_id ≡ true
    → is_ok (public_device r d) ≡ true
unfolding public_device
public_device-is_ok r d h =
    ground (arith, with_category-is_ok r.categories d.category_id (public_items d) h)

-- The dict as it was, but for the device of the command, which still has its version.
record Only (cats : Dict Category) (drvs : Dict DeviceDriver) (id : String) (v : ℕ)
    (before ds : Dict Device) : Type 0 where
  entries : All (Entry cats drvs) ds
  others : remove id ds ≡ remove id before
  version : version_of (get id ds) ≡ some v

record Own (cats : Dict Category) (drvs : Dict DeviceDriver) (id : String) (v : ℕ) (d : Device)
    : Type 0 where
  known : Known cats drvs d
  same_id : d.id ≡ id
  version : d.state_version ≡ v

-- What a command does: with success the version is one more, with an error it is what it was; the
-- other devices are untouched either way.
pub record Outcome (id : String) (v : ℕ) (before : Dict Device)
    (t : Result (Dict Value) × DeviceRegistry) : Type 0 where
  pub version : version_of (get id t.1.devices) ≡ some (if is_ok t.0 then v + 1 else v)
  pub others : remove id t.1.devices ≡ remove id before

module _ (cats : Dict Category) (drvs : Dict DeviceDriver) (id : String) (v : ℕ)
    (before : Dict Device) where
  Own-detail : (d e : Device) → OnlyDetail d e → Own cats drvs id v d → Own cats drvs id v e
  Own-detail d e p o = record {
    known = Known-detail cats drvs d e p o.known;
    same_id = sym (ap (λ (x : Device). x.id) p) ∙ o.same_id;
    version = sym (ap (λ (x : Device). x.state_version) p) ∙ o.version;
  }

  put_same : (d : Device) (ds : Dict Device) → d.id ≡ id → remove id (put d.id d ds) ≡ remove id ds
  put_same d ds same =
      subst (λ k. remove id (put k d ds) ≡ remove id ds) (sym same) (remove-put id d ds)

  Only-put :
      (d : Device) (ds : Dict Device)
      → Own cats drvs id v d
      → Only cats drvs id v before ds
      → Only cats drvs id v before (put d.id d ds)
  Only-put d ds o h = record {
    entries = Entry-put cats drvs d ds o.known h.entries;
    others = put_same d ds o.same_id ∙ h.others;
    version =
        ap version_of (get-put d.id id d ds) ∙ ground (arith, o.same_id, o.version, eq_iff d.id id);
  }

  perform-Only :
      (lawful : All (λ e. Lawful e.1) drvs) (action : String) (payload : Dict Value)
      (expected : Option ℕ)
      → Ensures
          (Holds cats drvs (Only cats drvs id v before))
          (λ x. Own cats drvs id v x.1)
          (perform id action payload expected)
  perform-Only lawful action payload expected =
      perform-Ensures cats drvs lawful (Only cats drvs id v before) (Own cats drvs id v) Only-put
        Own-detail id action payload expected
        λ ds d h e.
          let entry = Entry-get cats drvs id ds d h.entries e in
          let same_version : d.state_version ≡ v = ground (arith, h.version) in
          (
            record { known = entry.1; same_id = sym entry.0; version = same_version },
            record {
              known = record { category = entry.1.category; driver = entry.1.driver };
              same_id = sym entry.0;
              version = same_version;
            },
          )

  conclude-Outcome :
      (x : Unit {0} × Device) (r : DeviceRegistry)
      → Holds cats drvs (Only cats drvs id v before) r
      → Own cats drvs id v x.1
      → Outcome id v before (conclude x r)
  unfolding conclude touch save
  conclude-Outcome (_, d) r h o =
      let touched : Device = record d {
        state_version = d.state_version + 1;
        updated_at = r.clock;
      } in
      let seen =
        public_device-is_ok (save touched r) touched (
          subst (λ c. category_known c d.category_id ≡ true) (sym h.categories) o.known.category) in
      let own = get-put d.id id touched r.devices in
      record {
        version = ap version_of own ∙ ground (arith, seen, o.same_id, o.version, eq_iff d.id id);
        others = put_same touched r.devices o.same_id ∙ h.devices.others;
      }

  outcome :
      (t : Result (Unit {0} × Device)) (r : DeviceRegistry)
      → Holds cats drvs (Only cats drvs id v before) r
      → ((x : Unit {0} × Device) → t ≡ ok x → Own cats drvs id v x.1)
      → Outcome id v before (continue t conclude r)
  outcome (raise e) r h o = record { version = h.devices.version; others = h.devices.others }
  outcome (ok x) r h o = conclude-Outcome x r h (o x refl)

-- In a well-formed registry a command to a device raises its version by one with success and
-- leaves its version with an error, and either way all other devices are as they were, in their
-- order.
pub execute_device-Outcome :
    (id action : String) (payload : Dict Value) (expected : Option ℕ) (r : DeviceRegistry)
    (d : Device)
    → WellFormed r
    → get id r.devices ≡ some d
    → Outcome id d.state_version r.devices (execute_device id action payload expected r)
unfolding execute_device
execute_device-Outcome id action payload expected r d w found =
    let e =
      perform-Only r.categories r.drivers id d.state_version r.devices w.lawful action payload
        expected in
    let start : Holds r.categories r.drivers
        (Only r.categories r.drivers id d.state_version r.devices) r =
      record {
        categories = refl;
        drivers = refl;
        devices = record { entries = w.devices; others = refl; version = ap version_of found };
      } in
    outcome r.categories r.drivers id d.state_version r.devices _ _ (e.keeps r start)
      (λ x q. e.returns r x start q)
