-- ===== src/Registry/Scenes.antt =====
-- `execute` and the scenes of VirtualGateway/devcontrol_gateway/registry.py.
pub mod Invariant
pub mod Report
use dev_control_open_harmony.Prelude.{
  ℕ, String, Bool, true, false, not, Option, none, some, List, [], ◌∷◌, ◌++◌, ◌==◌, if◌then◌else◌,
}
use dev_control_open_harmony.Numbers.{pos}
use dev_control_open_harmony.Value.{Value, boolean, integer, text}
use dev_control_open_harmony.Errors.{
  Error, Result, ok, raise, gateway, python, refusal, invalid_command,
}
use dev_control_open_harmony.Exec.{Exec, ◌>>=◌, ◌>>◌}
use dev_control_open_harmony.Dict.{Dict, get, values}
use dev_control_open_harmony.Storage.{SceneResult}
use dev_control_open_harmony.Device.{Device}
use dev_control_open_harmony.Registry.{DeviceRegistry, find}
use dev_control_open_harmony.Registry.Commands.{execute_device}

abbrev pub Action : Type 0
Action = String × Dict Value

-- The inner loop: each action is sent with the version that the device has at that moment.
unfoldable pub run_actions : String → List Action → Exec DeviceRegistry (Unit {0})
unfolding find
run_actions device_id [] r = (ok tt, r)
run_actions device_id ((action, payload) ∷ rest) r =
    let first : Exec DeviceRegistry (Dict Value) = (do
      device ← find device_id
      execute_device device_id action payload (some device.state_version)) in
    (first >>= λ _. run_actions device_id rest) r

-- `try: ... except GatewayError`; any other exception ends the scene.
abbrev pub outcome : String → Result (Unit {0}) → Result SceneResult
outcome device_id (ok _) = ok (record { device_id = device_id; success = true; error_code = none })
outcome device_id (raise (gateway e)) =
    ok (record { device_id = device_id; success = false; error_code = some e.code })
outcome device_id (raise (python e)) = raise (python e)

abbrev pub attempt : String → Exec DeviceRegistry (Unit {0}) → Exec DeviceRegistry SceneResult
attempt device_id m r = let (result, r') = m r in (outcome device_id result, r')

unfoldable pub execute_scene_actions :
    List (String × List Action) → Exec DeviceRegistry (List SceneResult)
unfolding run_actions
execute_scene_actions [] r = (ok [], r)
execute_scene_actions ((device_id, actions) ∷ rest) r =
    (attempt device_id (run_actions device_id actions) >>= λ result.
    execute_scene_actions rest >>= λ results. λ s. (ok (result ∷ results), s))
      r

abbrev pub action_by_type : Dict Action
action_by_type =
    ("light", ("setPower", ("power", boolean false) ∷ []))
    ∷ ("airConditioner", ("setPower", ("power", boolean false) ∷ []))
    ∷ ("bathHeater", ("setPower", ("power", boolean false) ∷ []))
    ∷ ("humidifier", ("setPower", ("power", boolean false) ∷ []))
    ∷ ("doorLock", ("lock", []))
    ∷ ("curtain", ("close", []))
    ∷ []

-- The devices that the scene knows an action for, in the order of the dict.
unfoldable pub away_actions : List Device → List (String × List Action)
unfolding get
away_actions [] = []
away_actions (device ∷ rest) =
    let others = away_actions rest in
    elim (get device.device_type action_by_type) [
      | none ↦ others
      | some action ↦ (device.id, action ∷ []) ∷ others
    ]

unfoldable pub execute_away : Exec DeviceRegistry (List SceneResult)
unfolding away_actions execute_scene_actions
execute_away r = execute_scene_actions (away_actions (values r.devices)) r

abbrev pub home_actions : List (String × List Action)
home_actions =
    ("light-living-01", ("setBrightness", ("brightness", integer (pos 70)) ∷ []) ∷ [])
    ∷ (
      "ac-living-01",
      ("setMode", ("mode", text "auto") ∷ [])
          ∷ ("setTemperature", ("temperatureCelsius", integer (pos 24)) ∷ [])
          ∷ ("setPower", ("power", boolean true) ∷ [])
          ∷ [],
    )
    ∷ ("door-entry-01", ("lock", []) ∷ [])
    ∷ []

unfoldable pub execute_home : Exec DeviceRegistry (List SceneResult)
unfolding execute_scene_actions
execute_home = execute_scene_actions home_actions

-- What `execute` returns: the public device, or the report of a scene.
pub record Executed : Type 0 where
  pub device : Option (Dict Value)
  pub details : Option (List SceneResult)

abbrev pub of_scene : List SceneResult → Exec DeviceRegistry Executed
of_scene results r = (ok (record { device = none; details = some results }), r)

abbrev pub scene_error : Error
scene_error = refusal invalid_command "场景动作不受支持"

unfoldable pub execute : String → String → Dict Value → Option ℕ → Exec DeviceRegistry Executed
unfolding execute_away execute_home
execute device_id action payload expected_version r =
    if device_id == "scene-away"
    then (if not (action == "executeAway")
        then (raise scene_error, r)
        else (execute_away >>= of_scene) r)
    else if device_id == "scene-home"
    then (if not (action == "executeHome")
        then (raise scene_error, r)
        else (execute_home >>= of_scene) r)
    else (execute_device device_id action payload expected_version >>= λ public.
          λ s. (ok (record { device = some public; details = none }), s))
        r
