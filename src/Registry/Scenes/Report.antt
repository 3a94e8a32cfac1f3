-- ===== src/Registry/Scenes/Report.antt =====
-- The report of a scene.
use dev_control_open_harmony.Prelude.{String, ◌≡◌, List, [], ◌∷◌, map, arith, inl, inr}
use dev_control_open_harmony.Errors.{Result, ok, raise, gateway, python, Result-cases}
use dev_control_open_harmony.Storage.{SceneResult}
use dev_control_open_harmony.Registry.{DeviceRegistry}
use dev_control_open_harmony.Registry.Scenes.{Action, run_actions, outcome, execute_scene_actions}

outcome-device :
    (id : String) (t : Result (Unit {0})) (result : SceneResult)
    → outcome id t ≡ ok result
    → result.device_id ≡ id
outcome-device id (ok _) result h = ground arith
outcome-device id (raise (gateway e)) result h = ground arith
outcome-device id (raise (python e)) result h = ground arith

-- A scene that no exception but a GatewayError interrupts reports exactly its devices, in its
-- order, whether their commands succeed or are refused.
pub execute_scene_actions_report :
    (scene : List (String × List Action)) (r : DeviceRegistry) (results : List SceneResult)
    → (execute_scene_actions scene r).0 ≡ ok results
    → map (λ result. result.device_id) results ≡ map (λ e. e.0) scene
unfolding execute_scene_actions
execute_scene_actions_report [] r results h = ground arith
execute_scene_actions_report ((id, actions) ∷ rest) r results h =
    let t = run_actions id actions r in
    elim (Result-cases (outcome id t.0)) [
      | inl (e, failed) ↦ ground arith
      | inr (result, done) ↦ elim (Result-cases (execute_scene_actions rest t.1).0) [
        | inl (e, failed) ↦ ground arith
        | inr (others, reported) ↦ ground (
          arith,
          outcome-device id t.0 result done,
          execute_scene_actions_report rest t.1 others reported,
        )
      ]
    ]
