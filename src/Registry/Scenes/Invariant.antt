-- ===== src/Registry/Scenes/Invariant.antt =====
-- A command that `execute` takes, to a device or a scene, keeps the registry well-formed.
use dev_control_open_harmony.Prelude.{
  ℕ, String, Bool, true, false, Option, none, some, All, List, [], ◌∷◌, ◌==◌, not, if◌then◌else◌,
}
use dev_control_open_harmony.Value.{Value}
use dev_control_open_harmony.Errors.{Result, ok, raise}
use dev_control_open_harmony.Exec.{Exec, ◌>>=◌}
use dev_control_open_harmony.Dict.{Dict, values}
use dev_control_open_harmony.Drivers.Base.{DeviceDriver, Category}
use dev_control_open_harmony.Composition.Lawful.{Lawful}
use dev_control_open_harmony.Storage.{SceneResult}
use dev_control_open_harmony.Registry.{DeviceRegistry, find}
use dev_control_open_harmony.Registry.Commands.{execute_device}
use dev_control_open_harmony.Registry.Commands.Rules.{Ensures, Ensures-bind, find-Ensures}
use dev_control_open_harmony.Registry.Commands.Invariant.{
  Known, Entry, Kept, Known-detail, Entry-put, WellFormed, WellFormed-Kept, Kept-WellFormed,
  execute_device-Kept,
}
use dev_control_open_harmony.Registry.Scenes.{
  Action, run_actions, attempt, execute_scene_actions, execute_away, execute_home, away_actions,
  home_actions, Executed, execute, of_scene, scene_error,
}

-- it keeps the registry's invariant, whatever it returns
abbrev pub Preserves :
    {A : Type 0} → Dict Category → Dict DeviceDriver → Exec DeviceRegistry A → Type 0
Preserves cats drvs m = Ensures (Kept cats drvs) (λ _. Unit {0}) m

module _ (cats : Dict Category) (drvs : Dict DeviceDriver)
    (lawful : All (λ e. Lawful e.1) drvs) where
  pub same_registry-Preserves :
      {A : Type 0} (f : DeviceRegistry → Result A) → Preserves cats drvs (λ r. (f r, r))
  same_registry-Preserves f = record { keeps = λ r p. p; returns = λ r a p e. tt }

  pub find-Preserves : (id : String) → Preserves cats drvs (find id)
  find-Preserves id =
      find-Ensures cats drvs lawful (All (Entry cats drvs)) (Known cats drvs) (Entry-put cats drvs)
        (Known-detail cats drvs) id (λ ds d h e. tt)

  run_actions-Preserves :
      (id : String) (actions : List Action) → Preserves cats drvs (run_actions id actions)
  unfolding run_actions
  run_actions-Preserves id [] = record { keeps = λ r p. p; returns = λ r a p e. tt }
  run_actions-Preserves id ((action, payload) ∷ rest) =
      Ensures-bind
        (find id >>= λ device. execute_device id action payload (some device.state_version))
        (λ _. run_actions id rest)
        (Ensures-bind (find id)
          (λ device. execute_device id action payload (some device.state_version))
          (find-Preserves id)
          (λ device _.
            execute_device-Kept cats drvs lawful id action payload (some device.state_version)))
        (λ _ _. run_actions-Preserves id rest)

  attempt-Preserves :
      (id : String) (m : Exec DeviceRegistry (Unit {0}))
      → Preserves cats drvs m
      → Preserves cats drvs (attempt id m)
  attempt-Preserves id m h = record { keeps = h.keeps; returns = λ r a p e. tt }

  execute_scene_actions-Preserves :
      (scene : List (String × List Action)) → Preserves cats drvs (execute_scene_actions scene)
  unfolding execute_scene_actions
  execute_scene_actions-Preserves [] = record { keeps = λ r p. p; returns = λ r a p e. tt }
  execute_scene_actions-Preserves ((id, actions) ∷ rest) =
      Ensures-bind (attempt id (run_actions id actions))
        (λ result. execute_scene_actions rest >>= λ results. λ s. (ok (result ∷ results), s))
        (attempt-Preserves id (run_actions id actions) (run_actions-Preserves id actions))
        (λ result _.
          Ensures-bind (execute_scene_actions rest) (λ results. λ s. (ok (result ∷ results), s))
            (execute_scene_actions-Preserves rest)
            (λ results _. same_registry-Preserves (λ _. ok (result ∷ results))))

  execute_away-Preserves : Preserves cats drvs execute_away
  unfolding execute_away
  execute_away-Preserves = record {
    keeps = λ r p. (execute_scene_actions-Preserves (away_actions (values r.devices))).keeps r p;
    returns = λ r a p e. tt;
  }

  execute_home-Preserves : Preserves cats drvs execute_home
  unfolding execute_home
  execute_home-Preserves = execute_scene_actions-Preserves home_actions

  pub if-Preserves :
      {A : Type 0} (b : Bool) (m n : Exec DeviceRegistry A)
      → Preserves cats drvs m
      → Preserves cats drvs n
      → Preserves cats drvs (λ r. if b then m r else n r)
  if-Preserves true m n p q = p
  if-Preserves false m n p q = q

  abbrev refused : Exec DeviceRegistry Executed
  refused r = (raise scene_error, r)

  module _ (id action : String) (payload : Dict Value) (v : Option ℕ) where
    abbrev to_device : Exec DeviceRegistry Executed
    to_device = execute_device id action payload v >>= λ public.
        λ s. (ok (record { device = some public; details = none }), s)

    scene-Preserves :
        (expected : String) (scene : Exec DeviceRegistry (List SceneResult))
        → Preserves cats drvs scene
        → Preserves cats drvs
            (λ r. if not (action == expected) then refused r else (scene >>= of_scene) r)
    scene-Preserves expected scene h =
        if-Preserves (not (action == expected)) refused (scene >>= of_scene)
          (same_registry-Preserves (λ _. raise scene_error))
          (Ensures-bind scene of_scene h (λ results _.
            same_registry-Preserves (λ _. ok (record { device = none; details = some results }))))

    to_device-Preserves : Preserves cats drvs to_device
    to_device-Preserves =
        Ensures-bind (execute_device id action payload v)
          (λ public. λ s. (ok (record { device = some public; details = none }), s))
          (execute_device-Kept cats drvs lawful id action payload v)
          (λ public _.
            same_registry-Preserves (λ _. ok (record { device = some public; details = none })))

    pub execute-Preserves : Preserves cats drvs (execute id action payload v)
    unfolding execute
    execute-Preserves =
        if-Preserves (id == "scene-away")
          (λ r. if not (action == "executeAway") then refused r else (execute_away >>= of_scene) r)
          (λ r.
            if id == "scene-home"
            then (if not (action == "executeHome")
                then refused r
                else (execute_home >>= of_scene) r)
            else to_device r)
          (scene-Preserves "executeAway" execute_away execute_away-Preserves)
          (if-Preserves (id == "scene-home")
            (λ r.
              if not (action == "executeHome") then refused r else (execute_home >>= of_scene) r)
            to_device (scene-Preserves "executeHome" execute_home execute_home-Preserves)
            to_device-Preserves)

-- Any command to a device or a scene leaves a well-formed registry well-formed.
pub execute-WellFormed :
    (id action : String) (payload : Dict Value) (v : Option ℕ) (r : DeviceRegistry)
    → WellFormed r
    → WellFormed (execute id action payload v r).1
execute-WellFormed id action payload v r w = Kept-WellFormed r.categories r.drivers _ w.lawful (
    (execute-Preserves r.categories r.drivers w.lawful id action payload v).keeps r
      (WellFormed-Kept r w))
