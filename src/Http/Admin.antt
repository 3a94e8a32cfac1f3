-- ===== src/Http/Admin.antt =====
-- The maintenance routes of `create_admin_app`, VirtualGateway/devcontrol_gateway/app.py, and one round of
-- `_telemetry_loop`, VirtualGateway/devcontrol_gateway/service.py.
use dev_control_open_harmony.Prelude.{
  ℕ, ◌-◌, ◌/◌, String, not, Option, none, some, List, [], ◌∷◌, map, length, ◌==◌, ◌≡◌, ap,
}
use dev_control_open_harmony.Numbers.{Float}
use dev_control_open_harmony.Value.{Value}
use dev_control_open_harmony.Errors.{Error, Result, ok, raise, refuse_if}
use dev_control_open_harmony.Exec.{continue, Exec, lift, gets, pure, ◌>>=◌, ◌>>◌}
use dev_control_open_harmony.Dict.{Dict}
use dev_control_open_harmony.Storage.{
  AuditLog, AlertRow, get_logs, get_alerts, prune_environment_history,
}
use dev_control_open_harmony.Registry.{snapshot, drain_alerts}
use dev_control_open_harmony.Registry.Faults.{
  FaultRequest, EnvironmentInjection, inject_fault, inject_environment,
}
use dev_control_open_harmony.Registry.Ticks.{tick}
use dev_control_open_harmony.Sessions.{Primitives, rotate_if_expired}
use dev_control_open_harmony.Validation.Requests.{DeviceIdentityDeclaration}
use dev_control_open_harmony.Certificates.{Authority, issue}
use dev_control_open_harmony.Service.{alert}
use dev_control_open_harmony.Http.Routes.{
  App, wall, on_sessions, on_devices, broadcast, broadcast_change, changed, unauthorized,
}
use dev_control_open_harmony.Http.Briefing.{Note, build_gateway_briefing}

-- `require_admin`
unfoldable pub require_admin : String → Option String → Result (Unit {0})
require_admin admin_token none = raise (unauthorized "维护令牌无效")
require_admin admin_token (some token) =
    refuse_if (not (token == admin_token)) (unauthorized "维护令牌无效")

pub record Dashboard : Type 0 where
  pub server_time : ℕ
  pub code : String
  pub expires_in_seconds : ℕ
  pub devices : List (Dict Value)
  pub logs : List AuditLog
  pub alerts : List AlertRow
  pub briefing : List Note

module _ (p : Primitives) (admin_token : String) (token : Option String) where
  abbrev pub expires_in : ℕ → App → ℕ
  expires_in now app = (app.sessions.pairing_expires_at - now) / 1000

  -- The code, after its rotation if it has expired, and the seconds that it is valid for.
  unfoldable pub pairing_code_route : ℕ → Exec App (String × ℕ)
  unfolding require_admin rotate_if_expired
  pairing_code_route now = lift (require_admin admin_token token) >>= λ _.
      on_sessions (rotate_if_expired p now) >>= λ _.
      gets (λ app. (app.sessions.pairing_code, expires_in now app))

  unfoldable pub dashboard_route : (ℕ → Float → String) → ℕ → Exec App Dashboard
  unfolding require_admin rotate_if_expired get_logs get_alerts build_gateway_briefing
  dashboard_route show now = lift (require_admin admin_token token) >>= λ _.
      (λ app. (snapshot app.service.devices, app)) >>= λ devices.
      on_sessions (rotate_if_expired p now) >>= λ _. gets (λ app.
        let storage = app.service.devices.storage in
        let logs = (get_logs none 20 storage).items in
        let alerts = get_alerts 20 storage in
        let seconds = expires_in now app in
        record {
          server_time = wall app;
          code = app.sessions.pairing_code;
          expires_in_seconds = seconds;
          devices = devices;
          logs = logs;
          alerts = alerts;
          briefing = build_gateway_briefing show devices (length alerts) (length logs) seconds;
        })

  unfoldable pub fault_route : String → FaultRequest → Exec App (Dict Value)
  unfolding require_admin inject_fault broadcast_change drain_alerts
  fault_route device_id body = lift (require_admin admin_token token) >>= λ _.
      on_devices (inject_fault device_id body) >>= λ device. broadcast_change p device >>= λ _.
      on_devices drain_alerts >>= λ alerts.
      broadcast (map (λ a. changed (alert a)) alerts) >>= λ _. pure device

  unfoldable pub provision_route : Authority → DeviceIdentityDeclaration → Exec App String
  unfolding require_admin issue
  provision_route a body = lift (require_admin admin_token token) >>= λ _. lift (issue a body)

  unfoldable pub environment_route : EnvironmentInjection → Exec App (Dict Value)
  unfolding require_admin inject_environment broadcast_change
  environment_route body = lift (require_admin admin_token token) >>= λ _.
      on_devices (inject_environment body) >>= λ device.
      broadcast_change p device >>= λ _. pure device

  refused :
      {A : Type 0} (next : Unit {0} → Exec App A) (app : App) (error : Error)
      → require_admin admin_token token ≡ raise error
      → continue (require_admin admin_token token) next app ≡ (raise error, app)
  refused next app error h = ap (λ r. continue r next app) h

  -- Without the token nothing is done.
  pub admin_closed :
      (a : Authority) (d : DeviceIdentityDeclaration) (q : FaultRequest) (e : EnvironmentInjection)
      (device_id : String) (show : ℕ → Float → String) (now : ℕ) (app : App) (error : Error)
      → require_admin admin_token token ≡ raise error
      → (pairing_code_route now app ≡ (raise error, app))
        × (dashboard_route show now app ≡ (raise error, app))
        × (fault_route device_id q app ≡ (raise error, app))
        × (provision_route a d app ≡ (raise error, app))
        × (environment_route e app ≡ (raise error, app))
  unfolding pairing_code_route dashboard_route fault_route provision_route environment_route
  admin_closed a d q e device_id show now app error h = (
    refused _ app error h,
    refused _ app error h,
    refused _ app error h,
    refused _ app error h,
    refused _ app error h,
  )

abbrev pub seven_days_ms : ℕ
seven_days_ms = 604800000

unfoldable pub broadcast_changes : Primitives → List (Dict Value) → Exec App (Unit {0})
unfolding broadcast_change
broadcast_changes p [] = pure tt
broadcast_changes p (d ∷ ds) = broadcast_change p d >> broadcast_changes p ds

-- One round of the loop, after its sleep.
unfoldable pub telemetry_round : Primitives → Exec App (Unit {0})
unfolding tick broadcast_changes prune_environment_history
telemetry_round p = on_devices tick >>= λ changed_devices.
    broadcast_changes p changed_devices >>= λ _. λ app. (
      ok tt,
      record app {
        service = record app.service {
          devices = record app.service.devices {
            context = record app.service.devices.context {
              storage =
                  prune_environment_history (wall app - seven_days_ms) app.service.devices.storage;
            };
          };
        };
      },
    )
