-- ===== src/Service/Invariant.antt =====
-- Whatever message arrives, the registry of the service stays well-formed.
use mathlib.Core.Path.{subst}
use dev_control_open_harmony.Prelude.{
  ℕ, String, ◌≡◌, refl, Option, none, some, All, List, [], ◌∷◌, if_rule, if◌then◌else◌, is_some,
  ltb, sym,
}
use dev_control_open_harmony.Value.{Value}
use dev_control_open_harmony.Errors.{Result, ok, raise, ◌>>=◌ as ◌>>=?◌}
use dev_control_open_harmony.Exec.{Exec, lift, ◌>>=◌}
use dev_control_open_harmony.Dict.{Dict}
use dev_control_open_harmony.Drivers.Base.{DeviceDriver, Category}
use dev_control_open_harmony.Composition.Lawful.{Lawful}
use dev_control_open_harmony.Storage.{SceneResult}
use dev_control_open_harmony.Registry.{DeviceRegistry, find, public_device, drain_alerts}
use dev_control_open_harmony.Registry.Scenes.{execute}
use dev_control_open_harmony.Registry.Commands.Rules.{Ensures-bind}
use dev_control_open_harmony.Registry.Commands.Invariant.{
  Kept, WellFormed, WellFormed-Kept, Kept-WellFormed,
}
use dev_control_open_harmony.Registry.Scenes.Invariant.{
  Preserves, same_registry-Preserves, find-Preserves, if-Preserves, execute-Preserves,
}
use dev_control_open_harmony.Sessions.{ClientSession}
use dev_control_open_harmony.Service.Windows.{lookup}
use dev_control_open_harmony.Payload.{Cipher, SecureCommandEnvelope, decrypt_payload}
use dev_control_open_harmony.Service.{
  CommandResult, Event, GatewayService, cache_key, nonce_key, prune_security_windows, cache_result,
  audit, refuse, perform, admit, answer, process_command, attempt, report, scene_events,
  device_events, state_event, success_result, timestamp_window_ms, distance, caught, with_alerts,
}

module _ (cats : Dict Category) (drvs : Dict DeviceDriver)
    (lawful : All (λ e. Lawful e.1) drvs) where
  unchanged : {A : Type 0} (f : DeviceRegistry → Result A) → Preserves cats drvs (λ r. (f r, r))
  unchanged f = same_registry-Preserves cats drvs lawful f

  scene_events-Preserves : (details : List SceneResult) → Preserves cats drvs (scene_events details)
  unfolding scene_events
  scene_events-Preserves [] = unchanged (λ _. ok [])
  scene_events-Preserves (item ∷ rest) =
      if-Preserves cats drvs lawful item.success _ (scene_events rest)
        (Ensures-bind (find item.device_id) _ (find-Preserves cats drvs lawful item.device_id)
          (λ changed _. record {
            keeps = λ s p.
                (Ensures-bind (lift (public_device s changed >>=? state_event s.clock))
                    (λ event. scene_events rest >>= λ events. λ t. (ok (event ∷ events), t))
                    (unchanged (λ _. public_device s changed >>=? state_event s.clock))
                    (λ event _.
                      Ensures-bind (scene_events rest) (λ events. λ t. (ok (event ∷ events), t))
                        (scene_events-Preserves rest)
                        (λ events _. unchanged (λ _. ok (event ∷ events))))).keeps
                  s p;
            returns = λ s a p e. tt;
          }))
        (scene_events-Preserves rest)

  device_events-Preserves :
      (details : Option (List SceneResult)) → Preserves cats drvs (device_events details)
  unfolding device_events
  device_events-Preserves none = unchanged (λ _. ok [])
  device_events-Preserves (some details) = scene_events-Preserves details

  report_of-Preserves :
      (e : SecureCommandEnvelope) (device : Option (Dict Value))
      (details : Option (List SceneResult))
      → Preserves cats drvs (report e (record { device = device; details = details }))
  unfolding report
  report_of-Preserves e (some device) details = record { keeps = λ r p. p; returns = λ r a p x. tt }
  report_of-Preserves e none details = record {
    keeps = λ r p.
        (Ensures-bind (device_events details)
            (λ events. λ s. (
              ok (
                success_result r.clock e (record { device = none; details = details }) none,
                events,
              ),
              s,
            ))
            (device_events-Preserves details)
            (λ events _. record { keeps = λ s q. q; returns = λ s a q x. tt })).keeps
          r p;
    returns = λ r a p x. tt;
  }

  module _ (c : Cipher) (session : ClientSession) (e : SecureCommandEnvelope) where
    run : Exec DeviceRegistry (CommandResult × List Event)
    run = lift (decrypt_payload c session.data_key e) >>= λ payload.
        execute e.device_id e.action payload e.expected_state_version >>= report e

    run-Preserves : Preserves cats drvs run
    unfolding run
    run-Preserves =
        Ensures-bind (lift (decrypt_payload c session.data_key e)) _
          (unchanged (λ _. decrypt_payload c session.data_key e))
          (λ payload _.
            Ensures-bind (execute e.device_id e.action payload e.expected_state_version) (report e)
              (execute-Preserves cats drvs lawful e.device_id e.action payload
                e.expected_state_version)
              (λ executed _. report_of-Preserves e executed.device executed.details))

    caught-state : (t : Result (CommandResult × List Event) × DeviceRegistry) → (caught e t).1 ≡ t.1
    caught-state (ok answer, r) = refl
    caught-state (raise error, r) = refl

    attempt-Kept :
        (r : DeviceRegistry) → Kept cats drvs r → Kept cats drvs (attempt c session e r).1
    unfolding attempt run
    attempt-Kept r p = subst (Kept cats drvs) (sym (caught-state (run r))) (run-Preserves.keeps r p)

    abbrev KeptBy : (CommandResult × List Event) × GatewayService → Type 0
    KeptBy t = Kept cats drvs t.1.devices

    refuse-Kept :
        (message : String) (g : GatewayService)
        → Kept cats drvs g.devices
        → KeptBy (refuse c session e message g)
    unfolding refuse audit cache_result
    refuse-Kept message g p = record {
      categories = p.categories;
      drivers = p.drivers;
      devices = p.devices;
    }

    perform-Kept : (g : GatewayService) → Kept cats drvs g.devices → KeptBy (perform c session e g)
    unfolding perform with_alerts audit cache_result drain_alerts
    perform-Kept g p =
        let k = attempt-Kept g.devices p in
        record { categories = k.categories; drivers = k.drivers; devices = k.devices }

    admit-Kept : (g : GatewayService) → Kept cats drvs g.devices → KeptBy (admit c session e g)
    unfolding admit
    admit-Kept g p =
        let used = is_some (lookup (nonce_key c session e) g.nonce_cache) in
        let late = refuse c session e "命令时间戳超出允许的30秒窗口" g in
        let reused = refuse c session e "检测到重复 nonce" g in
        let performed = perform c session e g in
        if_rule KeptBy (ltb timestamp_window_ms (distance g.devices.clock e.timestamp)) late
          (if used then reused else performed) (λ _. refuse-Kept "命令时间戳超出允许的30秒窗口" g p)
          (λ _.
            if_rule KeptBy used reused performed (λ _. refuse-Kept "检测到重复 nonce" g p)
              (λ _. perform-Kept g p))

    answer-Kept :
        (o : Option (ℕ × CommandResult)) (g : GatewayService)
        → Kept cats drvs g.devices
        → KeptBy (answer c session e o g)
    unfolding answer
    answer-Kept (some _) g p = p
    answer-Kept none g p = admit-Kept g p

-- Whatever message arrives, process_command leaves the registry well-formed: devices stand under
-- their own ids, their categories and drivers are registered, the drivers are lawful.
pub process_command-WellFormed :
    (c : Cipher) (session : ClientSession) (e : SecureCommandEnvelope) (g : GatewayService)
    → WellFormed g.devices
    → WellFormed (process_command c session e g).1.devices
unfolding process_command answer prune_security_windows
process_command-WellFormed c session e g w =
    let r = g.devices in
    Kept-WellFormed r.categories r.drivers _ w.lawful (
      answer-Kept r.categories r.drivers w.lawful c session e
        (lookup (cache_key c session e) (prune_security_windows g).result_cache)
        (prune_security_windows g) (WellFormed-Kept r w))
