-- ===== src/Examples/Registry.antt =====
-- The theorems about the registry, on a small home.
use dev_control_open_harmony.Prelude.{
  true, false, ◌≡◌, refl, none, some, [], ◌∷◌, ◌++◌, same_set, sorted, List, String,
}
use dev_control_open_harmony.Value.{Value, boolean}
use dev_control_open_harmony.Errors.{Result, ok, raise, is_ok, or_else}
use dev_control_open_harmony.Dict.{Dict, get, put}
use dev_control_open_harmony.Storage.{initialize, SceneResult}
use dev_control_open_harmony.Device.{Device}
use dev_control_open_harmony.Drivers
use dev_control_open_harmony.Drivers.Light
use dev_control_open_harmony.Composition.{light_driver, alone, default_drivers}
use dev_control_open_harmony.Composition.Lawful.{light_driver-Lawful}
use dev_control_open_harmony.Composition.Answers.{light-AnswersFor}
use dev_control_open_harmony.Registry.{
  DeviceRegistry, create, create_room, save, public_device, find,
}
use dev_control_open_harmony.Registry.Commands.{execute_device, perform, ensure_commandable}
use dev_control_open_harmony.Registry.Commands.Invariant.{WellFormed, execute_device-WellFormed}
use dev_control_open_harmony.Registry.Commands.Effects.{Outcome, execute_device-Outcome}
use dev_control_open_harmony.Registry.Commands.Refusals.{no_lost_update}
use dev_control_open_harmony.Registry.Scenes.{execute, Action, run_actions, execute_scene_actions}
use dev_control_open_harmony.Registry.Scenes.Invariant.{execute-WellFormed}
use dev_control_open_harmony.Registry.Ticks.{tick}
use dev_control_open_harmony.Registry.Ticks.Invariant.{tick-WellFormed}
use dev_control_open_harmony.Registry.Creation.{create-WellFormed}
use dev_control_open_harmony.Registry.Rooms.{Distinct, create_room-Distinct}
use dev_control_open_harmony.Registry.Provisioning.{
  Registration, register_provisioned, remove_provisioned, attest, admit,
}
use dev_control_open_harmony.Registry.Provisioning.Laws.{register-remove, register-register}
use dev_control_open_harmony.Examples.Base.{floats, at}

abbrev pub lamp_device : Device
lamp_device = Drivers.Light.make 0 "light-living-01" "客厅主灯" "living" 60

-- a home with a living room and a lamp
abbrev pub home : DeviceRegistry
home = record {
  context = record (at 1000) { devices = ("light-living-01", lamp_device) ∷ [] };
  categories =
      ("lighting", record { id = "lighting"; title = "照明"; icon = "L"; home_only = false }) ∷ [];
  drivers = ("light", light_driver) ∷ [];
  rooms = ("living", record { id = "living"; name = "客厅"; selectable = true }) ∷ [];
}

pub home-WellFormed : WellFormed home
unfolding get Drivers.Light.make
home-WellFormed = record {
  devices = ((refl, record { category = refl; driver = refl }), tt);
  lawful = (light_driver-Lawful, tt);
}

abbrev pub power_on : Dict Value
power_on = ("power", boolean true) ∷ []

abbrev lit : Result (Dict Value) × DeviceRegistry
lit = execute_device "light-living-01" "setPower" power_on (some 1) home

execute_device-WellFormed_example :
    WellFormed lit.1 × (lit.1.categories ≡ home.categories) × (lit.1.drivers ≡ home.drivers)
execute_device-WellFormed_example =
    execute_device-WellFormed "light-living-01" "setPower" power_on (some 1) home home-WellFormed

execute_device-Outcome_example : Outcome "light-living-01" 1 home.devices lit
unfolding get Drivers.Light.make
execute_device-Outcome_example =
    execute_device-Outcome "light-living-01" "setPower" power_on (some 1) home lamp_device
      home-WellFormed refl

is_lit : is_ok lit.0 ≡ true
unfolding execute_device Drivers.Light.make light_driver alone Drivers.Light.execute
    Drivers.Light.set_power public_device
is_lit = refl

no_lost_update_example :
    (is_ok (execute_device "light-living-01" "setPower" [] (some 1) lit.1).0 ≡ false)
    × ((execute_device "light-living-01" "setPower" [] (some 1) lit.1).1 ≡ lit.1)
unfolding get
no_lost_update_example =
    no_lost_update "light-living-01" "setPower" "setPower" power_on [] 1 home lamp_device
      home-WellFormed refl is_lit

execute-WellFormed_example : WellFormed (execute "scene-away" "executeAway" [] none home).1
execute-WellFormed_example =
    execute-WellFormed "scene-away" "executeAway" [] none home home-WellFormed

tick-WellFormed_example : WellFormed (tick home).1
tick-WellFormed_example = tick-WellFormed home home-WellFormed

create-WellFormed_example :
    (r : DeviceRegistry) × (create initialize 5 (default_drivers floats) ≡ ok r) × WellFormed r
create-WellFormed_example = create-WellFormed floats initialize 5

create_room-Distinct_example :
    Distinct (create_room "study" "书房" home).1.rooms
    × ((create_room "study" "书房" home).1.rooms ≡ (elim (create_room "study" "书房" home).0 [
      | ok room ↦ home.rooms ++ ("study", room) ∷ []
      | raise e ↦ home.rooms
    ]))
create_room-Distinct_example = create_room-Distinct "study" "书房" home (refl, tt, tt)

abbrev request : Registration
request = record {
  device_id = "light-new-01";
  name = "新灯";
  room_id = "living";
  device_type = "light";
  category_id = "lighting";
  capabilities = "setPower" ∷ "setBrightness" ∷ "setAutomationConfig" ∷ [];
}

abbrev new_lamp : Device
new_lamp = record (Drivers.Light.make 1000 "light-new-01" "新灯" "living" 60) {
  removable = true;
  registration_capabilities =
      some (sorted ("setPower" ∷ "setBrightness" ∷ "setAutomationConfig" ∷ []));
}

attested : attest request home ≡ ok new_lamp
unfolding attest light_driver Drivers.Light.attest_registration same_set
attested = refl

abbrev shown : Dict Value
shown = or_else [] (register_provisioned request home).0

registered : (register_provisioned request home).0 ≡ ok shown
unfolding register_provisioned attest light_driver Drivers.Light.attest_registration same_set
    public_device admit save get put
registered = refl

register-remove_example :
    remove_provisioned "light-new-01" (register_provisioned request home).1 ≡ (ok shown, home)
unfolding get
register-remove_example =
    register-remove request home new_lamp shown (light-AnswersFor, tt) attested refl registered

register-register_example :
    register_provisioned request (register_provisioned request home).1
    ≡ (ok shown, (register_provisioned request home).1)
unfolding get
register-register_example =
    register-register request home new_lamp shown (light-AnswersFor, tt) attested refl registered

abbrev dark : List (String × List Action)
dark = ("light-living-01", ("setPower", []) ∷ []) ∷ ("nowhere", ("setPower", []) ∷ []) ∷ []

abbrev reported : List SceneResult
reported = or_else [] (execute_scene_actions dark home).0

returned : (execute_scene_actions dark home).0 ≡ ok reported
unfolding execute_scene_actions run_actions execute_device Drivers.Light.make light_driver alone
    Drivers.Light.execute Drivers.Light.set_power public_device find perform ensure_commandable
returned = refl
