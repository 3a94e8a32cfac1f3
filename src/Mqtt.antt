-- ===== src/Mqtt.antt =====
-- `MqttBridge` of VirtualGateway/devcontrol_gateway/mqtt_transport.py: its life cycle, the messages that
-- it takes from the broker and those that it publishes.
pub mod Commands
pub mod Lifecycle
use dev_control_open_harmony.Prelude.{
  ℕ, ◌+◌, String, Bool, true, false, not, ◌&&◌, ◌||◌, Option, none, some, List, [], ◌∷◌, ◌++◌, map,
  concat, ltb, nat_eq, length, ◌==◌, if◌then◌else◌,
}
use dev_control_open_harmony.Value.{Value, text, as_text}
use dev_control_open_harmony.Errors.{Result, ok, raise, ◌>>=◌ as ◌>>=?◌}
use dev_control_open_harmony.Dict.{Dict, get}
use dev_control_open_harmony.Base64.{Bytes}
use dev_control_open_harmony.Sessions.{Primitives, ClientSession, authenticate}
use dev_control_open_harmony.Payload.{Cipher, SecureCommandEnvelope, as_object}
use dev_control_open_harmony.Registry.{snapshot}
use dev_control_open_harmony.Registry.Provisioning.{is_text}
use dev_control_open_harmony.Validation.{Pydantic, text_of, ◌>>=◌}
use dev_control_open_harmony.Validation.Requests.{secure_command_envelope}
use dev_control_open_harmony.Service.{
  Event, state_changed, alert, CommandResult, process_command, state_event,
}
use dev_control_open_harmony.Service.Sinks.{add_sink, remove_sink}
use dev_control_open_harmony.Http.Routes.{
  App, Broadcast, changed, room_created, device_removed, wall, on_sessions,
}

-- What a message carries: a result or an event, as JSON.
pub data Body : Type 0 where
  result : CommandResult → Body
  event : Broadcast → Body

pub record Published : Type 0 where
  pub topic : String
  pub body : Body
  pub qos : ℕ
  pub retain : Bool

abbrev pub command_topic : String → String
command_topic prefix = concat (prefix ∷ "/commands" ∷ [])

abbrev pub results_topic : String → ClientSession → String
results_topic prefix session =
    concat (prefix ∷ "/clients/" ∷ session.credential_digest ∷ "/results" ∷ [])

abbrev pub state_topic : String → String → String
state_topic prefix device_id = concat (prefix ∷ "/devices/" ∷ device_id ∷ "/state" ∷ [])

abbrev pub type_of : Broadcast → String
type_of (changed (state_changed timestamp device_id version device)) = "state.changed"
type_of (changed (alert a)) = "alert.raised"
type_of (room_created room) = "room.created"
type_of (device_removed timestamp device_id) = "device.removed"

-- `event["deviceId"]` of a changed state, if it is there and not empty
abbrev pub changed_device : Broadcast → Option String
changed_device (changed (state_changed timestamp device_id version device)) =
    as_text device_id >>= λ id. if id == "" then none else some id
changed_device _ = none

abbrev state_messages : String → Broadcast → Option String → List Published
state_messages prefix e none = []
state_messages prefix e (some id) =
    record { topic = state_topic prefix id; body = event e; qos = 1; retain = true } ∷ []

-- `publish_event`; none of these events is a heartbeat, which alone goes with qos 0
unfoldable pub publish_event : String → Broadcast → List Published
publish_event prefix e =
    record {
      topic = concat (prefix ∷ "/events/" ∷ type_of e ∷ []);
      body = event e;
      qos = 1;
      retain = false;
    }
    ∷ state_messages prefix e (changed_device e)

abbrev pub publish_events : String → List Broadcast → List Published
publish_events prefix [] = []
publish_events prefix (e ∷ es) = publish_event prefix e ++ publish_events prefix es

-- The states that are published when the broker accepts the connection.
unfoldable pub retained : String → ℕ → List (Dict Value) → Result (List Published)
unfolding get state_event
retained prefix now [] = ok []
retained prefix now (device ∷ devices) = state_event now device >>=? λ e.
    retained prefix now devices >>=? λ others. ok (
      record {
        topic = state_topic prefix (id_of (text_of (get "id" device)));
        body = event (changed e);
        qos = 1;
        retain = true;
      }
      ∷ others)
  where
    id_of : Option String → String
    id_of none = ""
    id_of (some id) = id

-- `_on_connect`, after the subscription to the command topic
unfoldable pub on_connect : String → ℕ → App → Result (List Published)
unfolding retained
on_connect prefix code app =
    if nat_eq code 0 then (snapshot app.service.devices >>=? retained prefix (wall app)) else ok []

-- The gateway, and the messages published so far.
pub record Bridged : Type 0 where
  pub app : App
  pub published : List Published

module _ (p : Primitives) (c : Cipher) (pydantic : Pydantic) (loads : Bytes → Option Value)
    (prefix : String) (max_bytes : ℕ) where
  -- The credential and the command of a wrapper.
  unfoldable pub wrapper : Bytes → Option (String × Value)
  unfolding as_object get
  wrapper payload = loads payload >>= as_object >>= λ raw.
      if not (is_text (text_of (get "protocolVersion" raw)) "1.0")
      then none
      else (text_of (get "credential" raw) >>= λ credential.
          get "command" raw >>= λ command. as_object command >>= λ _. some (credential, command))

  -- The command of a session, its result and its events.
  unfoldable pub execute : ClientSession → Option SecureCommandEnvelope → Bridged → Bridged
  unfolding process_command publish_event
  execute session none b = b
  execute session (some e) b =
      let ((outcome, events), service) = process_command c session e b.app.service in
      let sent = map changed events in
      record {
        app = record b.app { service = service; sent = b.app.sent ++ sent };
        published =
            (b.published
              ++ record {
                topic = results_topic prefix session;
                body = result outcome;
                qos = 1;
                retain = false;
              }
                ∷ [])
            ++ publish_events prefix sent;
      }

  unfoldable pub admitted : Result ClientSession × App → Value → Bridged → Bridged
  unfolding secure_command_envelope execute
  admitted (raise e, app) command b = record b { app = app }
  admitted (ok session, app) command b =
      execute session (secure_command_envelope pydantic command) (record b { app = app })

  unfoldable pub unwrapped : Option (String × Value) → Bridged → Bridged
  unfolding authenticate secure_command_envelope execute
  unwrapped none b = b
  unwrapped (some (credential, command)) b =
      admitted (on_sessions (authenticate p (wall b.app) credential) b.app) command b

  unfoldable pub handle_message : Bytes → Bridged → Bridged
  unfolding wrapper authenticate secure_command_envelope execute
  handle_message payload b =
      if ltb max_bytes (length payload) then b else unwrapped (wrapper payload) b

  -- `_on_message`: `is_open` tells that the event loop is there and not closed.
  unfoldable pub on_message : Bool → Bytes → Bridged → Bridged
  unfolding handle_message
  on_message is_open payload b =
      if ltb max_bytes (length payload)
      then b
      else if not is_open
      then b
      else handle_message payload b
