-- ===== src/Examples/Broker.antt =====
-- The theorems about the MQTT bridge and the settings.
use dev_control_open_harmony.Prelude.{◌≡◌, refl, true, false, none, some, List, [], ◌∷◌, ◌++◌, all}
use dev_control_open_harmony.Numbers.{pos, of_ℕ}
use dev_control_open_harmony.Value.{Value, text, object, field, end}
use dev_control_open_harmony.Errors.{ok, raise}
use dev_control_open_harmony.Service.{CommandResult}
use dev_control_open_harmony.Http.Routes.{Broadcast, commands_route}
use dev_control_open_harmony.Mqtt.{
  Bridged, handle_message, result, results_topic, publish_events, wrapper,
}
use dev_control_open_harmony.Mqtt.Commands.{handle_message-commands_route}
use dev_control_open_harmony.Mqtt.Lifecycle.{
  Bridge, Call, start_call, stop_call, call_all, IsConsistent, call_all-IsConsistent,
}
use dev_control_open_harmony.Service.Sinks.{has}
use dev_control_open_harmony.Config.{Host, GatewayConfig, validate}
use dev_control_open_harmony.Config.Validation.{is_level, validate-levels}
use dev_control_open_harmony.QrCode.{split}
use dev_control_open_harmony.Examples.Transports.{
  app, primitives, session, cipher, envelope, command, pydantic, refusal, accepted, bearer,
  valid_command,
}

abbrev bridged : Bridged
bridged = record { app = app; published = [] }

abbrev wrapped : Value
wrapped = object (
    field "protocolVersion" (text "1.0")
      (field "credential" (text "AAAA") (field "command" command end)))

unwraps :
    wrapper primitives cipher pydantic (λ b. some wrapped) "home" 1024 (123 ∷ [])
    ≡ some ("AAAA", command)
unfolding wrapper
unwraps = refl

handle_message-commands_route_example :
    (outcome : CommandResult) × (sent : List Broadcast) × ((commands_route primitives cipher
        (some "Bearer AAAA")
        envelope
        app).0
      ≡ ok outcome)
    × ((handle_message primitives cipher pydantic
          (λ b. some wrapped)
          "home"
          1024
          (123 ∷ [])
          bridged).app
        ≡ (commands_route primitives cipher (some "Bearer AAAA") envelope app).1)
    × ((commands_route primitives cipher (some "Bearer AAAA") envelope app).1.sent ≡ [] ++ sent)
    × ((handle_message primitives cipher pydantic
          (λ b. some wrapped)
          "home"
          1024
          (123 ∷ [])
          bridged).published
        ≡ ([]
            ++ record {
              topic = results_topic "home" session;
              body = result outcome;
              qos = 1;
              retain = false;
            }
              ∷ [])
          ++ publish_events "home" sent)
handle_message-commands_route_example =
    handle_message-commands_route primitives cipher pydantic (λ b. some wrapped) "home" 1024
      (123 ∷ []) bridged "AAAA" command refl unwraps session (some "Bearer AAAA") envelope bearer
      accepted valid_command

abbrev host : Host
host = record {
  int_of = λ s. none;
  float_of = λ s. none;
  lower = λ s. s;
  token_urlsafe = "token";
  is_file = λ s. true;
  with_name = λ p n. n;
}

abbrev settings : GatewayConfig
settings = record {
  host = "0.0.0.0";
  port = pos 8443;
  admin_host = "127.0.0.1";
  admin_port = pos 18444;
  tls_cert = "certs/gateway.crt";
  tls_key = "certs/gateway.key";
  database = "data/devcontrol.db";
  provisioning_signing_key = none;
  initial_pairing_code = none;
  credential_ttl_seconds = pos 86400;
  admin_token = "token";
  telemetry_interval_seconds = of_ℕ 2;
  enable_background_tasks = true;
  mqtt_enabled = true;
  mqtt_host = "broker";
  mqtt_port = pos 8883;
  mqtt_ca = "certs/mqtt-ca.crt";
  mqtt_client_cert = none;
  mqtt_client_key = none;
  mqtt_username = "gateway";
  mqtt_password = "secret";
  mqtt_topic_prefix = "devcontrol/v1";
  max_transport_message_bytes = pos 65536;
}

settings_valid : validate host settings ≡ ok tt
unfolding validate
settings_valid = refl

validate-levels_example : all is_level (split b'/' "devcontrol/v1") ≡ true
validate-levels_example = validate-levels host settings settings_valid refl

abbrev bridge : Bridge
bridge = record { started = false; looping = false; sinks = 7 ∷ [] }

abbrev calls : List Call
calls =
    start_call (raise refusal) ∷ start_call (ok tt) ∷ start_call (ok tt) ∷ stop_call (ok tt) ∷ []

bridge-IsConsistent : IsConsistent 3 bridge
unfolding IsConsistent has
bridge-IsConsistent = (refl, refl)

call_all-IsConsistent_example : IsConsistent 3 (call_all host settings 3 calls bridge)
call_all-IsConsistent_example =
    call_all-IsConsistent host settings 3 calls bridge bridge-IsConsistent
