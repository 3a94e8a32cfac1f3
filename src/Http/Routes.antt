-- ===== src/Http/Routes.antt =====
-- The routes of `create_app`, VirtualGateway/devcontrol_gateway/app.py: who may call them, what they do
-- to the gateway, and what they broadcast. FastAPI has validated the parameters of a route before.
pub mod Access
use Prim.Native.Char.{code}
use dev_control_open_harmony.Prelude.{
  ℕ, String, Bool, true, false, not, Option, none, some, List, [], ◌∷◌, ◌++◌, ◌==◌, nat_eq,
  if◌then◌else◌, map,
}
use dev_control_open_harmony.Numbers.{ℤ, pos, negsuc}
use dev_control_open_harmony.Value.{Value, boolean, as_bool}
use dev_control_open_harmony.Errors.{
  Error, Result, ok, raise, gateway, python, auth_failed, key_error, refuse_if, or_raise, ErrorCode,
  GatewayError, ◌>>=◌ as ◌>>=?◌,
}
use dev_control_open_harmony.Exec.{Exec, lift, gets, pure, ◌>>=◌}
use dev_control_open_harmony.Dict.{Dict, get}
use dev_control_open_harmony.Ascii.{codes, strip}
use dev_control_open_harmony.Storage.{
  LogPage, AlertRow, EnvironmentRow, get_logs, get_alerts, get_environment_history,
}
use dev_control_open_harmony.Registry.{DeviceRegistry, Room, snapshot, rooms_snapshot}
use dev_control_open_harmony.Registry.Provisioning.{Registration}
use dev_control_open_harmony.Sessions.{
  Primitives, SessionRegistry, ClientSession, PairResponse, authenticate, pair,
}
use dev_control_open_harmony.Payload.{Cipher, SecureCommandEnvelope}
use dev_control_open_harmony.Validation.Requests.{
  PairRequest, RoomCreateRequest, DeviceRegistrationRequest,
}
use dev_control_open_harmony.Certificates.{Authority, verify}
use dev_control_open_harmony.Service.{
  GatewayService, Event, CommandResult, process_command, state_event,
}
use dev_control_open_harmony.Service.Management.{
  create_room_audited, register_device, delete_device,
}

-- The events that a front end broadcasts.
pub data Broadcast : Type 0 where
  changed : Event → Broadcast
  room_created : Room → Broadcast
  device_removed : (timestamp : ℕ) (device_id : Value) → Broadcast

-- The gateway behind the routes, and what was broadcast so far, the first event first.
pub record App : Type 0 where
  pub sessions : SessionRegistry
  pub service : GatewayService
  pub sent : List Broadcast

abbrev pub wall : App → ℕ
wall app = app.service.devices.clock

-- An operation of the sessions, or of the devices.
abbrev pub on_sessions : {A : Type 0} → Exec SessionRegistry A → Exec App A
on_sessions m app = let (a, s) = m app.sessions in (a, record app { sessions = s })

abbrev pub on_devices : {A : Type 0} → Exec DeviceRegistry A → Exec App A
on_devices m app =
    let (a, r) = m app.service.devices in
    (a, record app { service = record app.service { devices = r } })

abbrev pub broadcast : List Broadcast → Exec App (Unit {0})
broadcast events app = (ok tt, record app { sent = app.sent ++ events })

abbrev pub unauthorized : String → Error
unauthorized message = gateway (record {
  code = auth_failed;
  message = message;
  status_code = 401;
  retry_after_seconds = none;
})

-- `s[len(prefix):]` if `s.startswith(prefix)`
unfoldable pub after_prefix : List ℕ → String → Option String
after_prefix [] s = some s
after_prefix (c ∷ cs) String.[] = none
after_prefix (c ∷ cs) (String.◌∷◌ d s) =
    let rest = after_prefix cs s in if nat_eq (code d) c then rest else none

unfoldable pub bearer : Option String → Option String
unfolding after_prefix
bearer none = none
bearer (some s) = after_prefix (codes "Bearer ") s

-- `_extract_bearer`
unfoldable pub extract_bearer : Option String → Result String
unfolding bearer strip
extract_bearer authorization =
    or_raise (bearer authorization) (unauthorized "缺少客户端 Bearer 凭据") >>=? λ rest.
    let credential = strip rest in
    refuse_if (credential == "") (unauthorized "客户端凭据为空") >>=? λ _. ok credential

module _ (p : Primitives) where
  unfoldable pub require_session : Option String → Exec App ClientSession
  unfolding extract_bearer authenticate
  require_session authorization = lift (extract_bearer authorization) >>= λ credential.
      λ app. on_sessions (authenticate p (wall app) credential) app

  -- `source` is the address of the client, `now` the monotonic time.
  unfoldable pub pair_route : ℕ → String → PairRequest → Exec App PairResponse
  unfolding pair
  pair_route now source body app =
      on_sessions (pair p now (wall app) source body.client_id body.pairing_code) app

  unfoldable pub devices_route : Option String → Exec App (ℕ × List (Dict Value))
  unfolding require_session
  devices_route authorization = require_session authorization >>= λ _.
      λ app. (snapshot app.service.devices >>=? λ devices. ok (wall app, devices), app)

  unfoldable pub rooms_route : Option String → Exec App (List Room)
  unfolding require_session
  rooms_route authorization =
      require_session authorization >>= λ _. gets (λ app. rooms_snapshot app.service.devices)

  unfoldable pub create_room_route : Option String → RoomCreateRequest → Exec App Room
  unfolding require_session create_room_audited
  create_room_route authorization body = require_session authorization >>= λ session.
      on_devices (create_room_audited session body.room_id body.name) >>= λ room.
      broadcast (room_created room ∷ []) >>= λ _. pure room

  abbrev pub registration_of : DeviceRegistrationRequest → Registration
  registration_of body = record {
    device_id = body.identity.device_id;
    name = body.identity.device_name;
    room_id = body.room_id;
    device_type = body.identity.device_type;
    category_id = body.identity.category_id;
    capabilities = body.identity.capabilities;
  }

  -- `gateway.state_event(device)`, broadcast
  unfoldable pub broadcast_change : Dict Value → Exec App (Unit {0})
  unfolding state_event
  broadcast_change device app =
      (lift (state_event (wall app) device) >>= λ event. broadcast (changed event ∷ [])) app

  abbrev online_of : Option Value → Option Bool
  online_of none = none
  online_of (some v) = as_bool v

  -- The answer is the device's `online`.
  unfoldable pub register_route :
      Authority → Option String → DeviceRegistrationRequest → Exec App (String × Bool)
  unfolding require_session register_device verify broadcast_change get
  register_route a authorization body = require_session authorization >>= λ session.
      on_devices (register_device (λ _. verify a body) session (registration_of body)) >>= λ device.
      broadcast_change device >>= λ _.
      lift (or_raise (online_of (get "online" device)) (python key_error)) >>= λ online.
      pure (body.identity.device_id, online)

  unfoldable pub delete_route : Option String → String → Exec App Value
  unfolding require_session delete_device get
  delete_route authorization device_id = require_session authorization >>= λ session.
      on_devices (delete_device session device_id) >>= λ removed.
      lift (or_raise (get "id" removed) (python key_error)) >>= λ id.
      λ app. (broadcast (device_removed (wall app) id ∷ []) >>= λ _. pure id) app

  unfoldable pub logs_route : Option String → Option ℕ → ℕ → Exec App (LogPage × List AlertRow)
  unfolding require_session get_logs get_alerts
  logs_route authorization cursor limit = require_session authorization >>= λ _. gets (λ app.
      let storage = app.service.devices.storage in
      (get_logs cursor limit storage, get_alerts limit storage))

  -- `to or now_ms()`; before the epoch no reading was taken
  abbrev pub until : ℕ → Option ℤ → Option ℕ
  until now none = some now
  until now (some (pos n)) = some (if nat_eq n 0 then now else n)
  until now (some (negsuc n)) = none

  abbrev since : ℤ → ℕ
  since (pos n) = n
  since (negsuc n) = 0

  unfoldable pub history_route :
      Option String → String → ℤ → Option ℤ → ℕ → Exec App (List EnvironmentRow)
  unfolding require_session get_environment_history
  history_route authorization device_id from to limit = require_session authorization >>= λ _.
      gets (λ app. elim (until (wall app) to) [
        | none ↦ []
        | some end ↦
            get_environment_history device_id (since from) end limit app.service.devices.storage
      ])

  -- The command of a session, and the broadcast of its events.
  unfoldable pub run_command :
      Cipher → SecureCommandEnvelope → ClientSession → Exec App CommandResult
  unfolding process_command
  run_command c body session app =
      let ((result, events), service) = process_command c session body app.service in
      (ok result, record app { service = service; sent = app.sent ++ map changed events })

  unfoldable pub commands_route :
      Cipher → Option String → SecureCommandEnvelope → Exec App CommandResult
  unfolding require_session run_command
  commands_route c authorization body = require_session authorization >>= run_command c body
