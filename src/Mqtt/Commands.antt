-- ===== src/Mqtt/Commands.antt =====
-- What a message from the broker does to the gateway.
use dev_control_open_harmony.Prelude.{
  ℕ, ◌<◌, ◌≡◌, ap, sym, ◌∙◌, String, Option, some, List, length, false, arith, ltb, if◌then◌else◌,
  map, [], ◌∷◌, ◌++◌, lt→ltb,
}
use dev_control_open_harmony.Value.{Value}
use dev_control_open_harmony.Errors.{Error, ok, raise}
use dev_control_open_harmony.Base64.{Bytes}
use dev_control_open_harmony.Sessions.{Primitives, ClientSession, authenticate}
use dev_control_open_harmony.Payload.{Cipher, SecureCommandEnvelope}
use dev_control_open_harmony.Validation.{Pydantic}
use dev_control_open_harmony.Validation.Requests.{secure_command_envelope}
use dev_control_open_harmony.Service.{CommandResult, process_command}
use dev_control_open_harmony.Http.Routes.{
  Broadcast, changed, wall, on_sessions, extract_bearer, commands_route, run_command,
}
use dev_control_open_harmony.Http.Socket.{checked, require_session-ok}
use dev_control_open_harmony.Exec.{continue}
use dev_control_open_harmony.Mqtt.{
  Bridged, result, results_topic, publish_events, wrapper, admitted, unwrapped, execute,
  handle_message,
}

module _ (p : Primitives) (c : Cipher) (pydantic : Pydantic) (loads : Bytes → Option Value)
    (prefix : String) (max_bytes : ℕ) (payload : Bytes) (b : Bridged) where
  oversized :
      max_bytes < length payload → handle_message p c pydantic loads prefix max_bytes payload b ≡ b
  unfolding handle_message
  oversized big = ground (arith, lt→ltb max_bytes (length payload) big)

  in_bounds :
      ltb max_bytes (length payload) ≡ false
      → handle_message p c pydantic loads prefix max_bytes payload b
        ≡ unwrapped p c pydantic loads prefix max_bytes
            (wrapper p c pydantic loads prefix max_bytes payload)
            b
  unfolding handle_message
  in_bounds small =
      ap
        (λ t.
          if t
          then b
          else unwrapped p c pydantic loads prefix max_bytes
              (wrapper p c pydantic loads prefix max_bytes payload) b)
        small

  module _ (credential : String) (command : Value) (small : ltb max_bytes (length payload) ≡ false)
      (read : wrapper p c pydantic loads prefix max_bytes payload
        ≡ some (credential, command)) where
    called :
        handle_message p c pydantic loads prefix max_bytes payload b
        ≡ admitted p c pydantic loads prefix max_bytes
            (on_sessions (authenticate p (wall b.app) credential) b.app)
            command
            b
    unfolding unwrapped
    called = in_bounds small ∙ ap (λ o. unwrapped p c pydantic loads prefix max_bytes o b) read

    -- A message of nobody does nothing.
    pub unauthenticated :
        (e : Error)
        → (authenticate p (wall b.app) credential b.app.sessions).0 ≡ raise e
        → ((handle_message p c pydantic loads prefix max_bytes payload b).app.service
            ≡ b.app.service)
          × ((handle_message p c pydantic loads prefix max_bytes payload b).app.sent ≡ b.app.sent)
          × ((handle_message p c pydantic loads prefix max_bytes payload b).published ≡ b.published)
    unfolding admitted
    unauthenticated e h =
        let handled : handle_message p c pydantic loads prefix max_bytes payload b ≡ record b {
          app = record b.app {
            sessions = (authenticate p (wall b.app) credential b.app.sessions).1;
          };
        } =
          called
          ∙ ap
              (λ r.
                admitted p c pydantic loads prefix max_bytes
                  (
                    r,
                    record b.app {
                      sessions = (authenticate p (wall b.app) credential b.app.sessions).1;
                    },
                  )
                  command b)
              h in
        (
          ap (λ x. x.app.service) handled,
          ap (λ x. x.app.sent) handled,
          ap (λ x. x.published) handled,
        )

    -- A message of allowed size from the broker with a valid command and a credential that
    -- authenticates does to the gateway what the HTTPS route does, publishes the result of the
    -- route on the topic of the session that sent it, and then each event of the route.
    pub handle_message-commands_route :
        (session : ClientSession) (authorization : Option String) (e : SecureCommandEnvelope)
        → extract_bearer authorization ≡ ok credential
        → (authenticate p (wall b.app) credential b.app.sessions).0 ≡ ok session
        → secure_command_envelope pydantic command ≡ some e
        → (outcome : CommandResult) × (events : List Broadcast) × ((commands_route p c authorization
              e b.app).0
            ≡ ok outcome)
          × ((handle_message p c pydantic loads prefix max_bytes payload b).app
              ≡ (commands_route p c authorization e b.app).1)
          × ((commands_route p c authorization e b.app).1.sent ≡ b.app.sent ++ events)
          × ((handle_message p c pydantic loads prefix max_bytes payload b).published
              ≡ (b.published
                  ++ record {
                    topic = results_topic prefix session;
                    body = result outcome;
                    qos = 1;
                    retain = false;
                  }
                    ∷ [])
                ++ publish_events prefix events)
    unfolding commands_route run_command execute admitted
    handle_message-commands_route session authorization e bearer valid valid_command =
        let ((outcome, events), service) = process_command c session e b.app.service in
        let routed = require_session-ok p credential b.app session valid authorization bearer in
        let handled : handle_message p c pydantic loads prefix max_bytes payload b
            ≡ execute p c pydantic loads prefix max_bytes session (some e) b =
          called
          ∙ ap (λ r. admitted p c pydantic loads prefix max_bytes r command b)
              (checked p credential b.app session valid)
          ∙ ap (λ o. execute p c pydantic loads prefix max_bytes session o b) valid_command in
        (
          outcome,
          map changed events,
          ap (λ r. (continue r.0 (run_command p c e) r.1).0) routed,
          ap (λ x. x.app) handled ∙ ap (λ r. (continue r.0 (run_command p c e) r.1).1) (sym routed),
          ap (λ r. (continue r.0 (run_command p c e) r.1).1.sent) routed,
          ap (λ x. x.published) handled,
        )
