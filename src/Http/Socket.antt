-- ===== src/Http/Socket.antt =====
-- The WebSocket of VirtualGateway/devcontrol_gateway/app.py: the connection's check, and one turn of its
-- loop for what arrives before the session's time is over.
use dev_control_open_harmony.Prelude.{
  ℕ, String, Bool, true, false, Option, none, some, ◌++◌, map, ◌≡◌, ap, sym, ◌∙◌, inl, inr,
  Option-cases, arith,
}
use dev_control_open_harmony.Value.{Value, text}
use dev_control_open_harmony.Errors.{Result, ok, raise}
use dev_control_open_harmony.Exec.{continue}
use dev_control_open_harmony.Dict.{Dict, get}
use dev_control_open_harmony.Base64.{base64url_decode}
use dev_control_open_harmony.Sessions.{
  Primitives, SessionRegistry, ClientSession, authenticate, remaining_ms,
}
use dev_control_open_harmony.Sessions
use dev_control_open_harmony.Payload.{Cipher, SecureCommandEnvelope, as_object}
use dev_control_open_harmony.Validation.{Pydantic}
use dev_control_open_harmony.Validation.Requests.{secure_command_envelope}
use dev_control_open_harmony.Service.{CommandResult, process_command}
use dev_control_open_harmony.Http.Routes.{
  App, wall, on_sessions, changed, extract_bearer, require_session, commands_route, run_command,
}

-- What arrives: nothing in time, the end of the connection, or a JSON value.
pub data Arrival : Type 0 where
  timeout gone : Arrival
  frame : Value → Arrival

-- What the turn comes to: the connection is closed with code 4401, or has ended, or goes on after a
-- result or after the refusal of a frame (its time and message id).
pub data Outcome : Type 0 where
  closed ended : Outcome
  answered : CommandResult → Outcome
  invalid_command : ℕ → Value → Outcome

-- The check before the connection is accepted.
unfoldable pub connect : Primitives → Option String → App → Bool × App
unfolding extract_bearer authenticate
connect p authorization app = elim (extract_bearer authorization) [
  | raise e ↦ (false, app)
  | ok credential ↦
      let (checked, app') = on_sessions (authenticate p (wall app) credential) app in
      elim checked [ raise e ↦ (false, app') | ok session ↦ (true, app') ]
]

-- `raw.get("messageId", "") if isinstance(raw, dict) else ""`
unfoldable pub message_id_of : Option (Dict Value) → Value
unfolding get
message_id_of none = text ""
message_id_of (some d) = elim (get "messageId" d) [ none ↦ text "" | some v ↦ v ]

-- A refusal closes the connection.
abbrev pub resume :
    Result ClientSession × App → (ClientSession → App → Outcome × App) → Outcome × App
resume (raise e, app) next = (closed, app)
resume (ok session, app) next = next session app

module _ (p : Primitives) (c : Cipher) (pydantic : Pydantic) (credential : String) where
  -- What is done with a frame, once the credential was checked again.
  -- What is done with a frame, by the envelope that it holds.
  unfoldable pub performed_by :
      ClientSession → App → Value → Option SecureCommandEnvelope → Outcome × App
  unfolding process_command as_object get message_id_of
  performed_by session app raw none =
      (invalid_command (wall app) (message_id_of (as_object raw)), app)
  performed_by session app raw (some e) =
      let ((result, events), service) = process_command c session e app.service in
      (answered result, record app { service = service; sent = app.sent ++ map changed events })

  unfoldable pub perform : Value → ClientSession → App → Outcome × App
  unfolding secure_command_envelope
  perform raw session app = performed_by session app raw (secure_command_envelope pydantic raw)

  unfoldable pub receive : Value → App → Outcome × App
  unfolding authenticate perform
  receive raw app = resume (on_sessions (authenticate p (wall app) credential) app) (perform raw)

  unfoldable pub arrive : Arrival → ClientSession → App → Outcome × App
  unfolding receive
  arrive timeout session app = (closed, app)
  arrive gone session app = (ended, app)
  arrive (frame raw) session app = receive raw app

  unfoldable pub turn : Arrival → App → Outcome × App
  unfolding authenticate receive
  turn arrival app =
      resume (on_sessions (authenticate p (wall app) credential) app) (arrive arrival)

-- A credential that is accepted leaves the sessions as they are.
pub authenticate-ok :
    (p : Primitives) (now : ℕ) (credential : String) (r : SessionRegistry) (session : ClientSession)
    → (authenticate p now credential r).0 ≡ ok session
    → (authenticate p now credential r).1 ≡ r
unfolding authenticate Sessions.admit
authenticate-ok p now credential r session h = elim (Option-cases (base64url_decode credential)) [
  | inl unread ↦ absurd (ground arith)
  | inr read ↦ elim (Option-cases (get (p.sha256_hex read.0) r.sessions)) [
    | inl unknown ↦ absurd (ground arith)
    | inr known ↦ ground arith
  ]
]

module _ (p : Primitives) (credential : String) (app : App) (session : ClientSession)
    (valid : (authenticate p (wall app) credential app.sessions).0 ≡ ok session) where
  -- The check of an accepted credential changes nothing.
  pub checked : on_sessions (authenticate p (wall app) credential) app ≡ (ok session, app)
  checked = λ i. (
    valid i,
    record app { sessions = authenticate-ok p (wall app) credential app.sessions session valid i },
  )

  pub require_session-ok :
      (authorization : Option String)
      → extract_bearer authorization ≡ ok credential
      → require_session p authorization app ≡ (ok session, app)
  unfolding require_session
  require_session-ok authorization bearer =
      ap (λ r. continue r (λ found. λ a. on_sessions (authenticate p (wall a) found) a) app) bearer
      ∙ checked

  -- A valid command that arrives over the WebSocket with a credential that authenticates gets the
  -- result that the HTTPS route gives for its envelope, and leaves the same gateway and the same
  -- broadcasts.
  pub turn-commands_route :
      (c : Cipher) (pydantic : Pydantic) (authorization : Option String) (raw : Value)
      (e : SecureCommandEnvelope)
      → extract_bearer authorization ≡ ok credential
      → secure_command_envelope pydantic raw ≡ some e
      → (result : CommandResult) × ((commands_route p c authorization e app).0 ≡ ok result)
        × (turn p c pydantic credential (frame raw) app
            ≡ (answered result, (commands_route p c authorization e app).1))
  unfolding turn receive perform commands_route run_command performed_by arrive
  turn-commands_route c pydantic authorization raw e bearer read =
      let called = require_session-ok authorization bearer in
      let result = (process_command c session e app.service).0.0 in
      let after = (run_command p c e session app).1 in
      let performed : perform p c pydantic credential raw session app ≡ (answered result, after) =
        ap (performed_by p c pydantic credential session app raw) read in
      (
        result,
        ap (λ r. (continue r.0 (run_command p c e) r.1).0) called,
        ap (λ r. resume r (arrive p c pydantic credential (frame raw))) checked
            ∙ ap (λ r. resume r (perform p c pydantic credential raw)) checked
            ∙ performed
            ∙ ap (λ r. (answered result, (continue r.0 (run_command p c e) r.1).1)) (sym called),
      )
