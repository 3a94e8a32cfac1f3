-- ===== src/Examples/Transports.antt =====
-- The theorems about the HTTP front end: request bodies, event streams, routes, WebSocket.
use dev_control_open_harmony.Prelude.{
  ℕ, ◌≤◌, ◌≡◌, refl, true, false, Option, none, some, List, [], ◌∷◌, ◌++◌,
}
use dev_control_open_harmony.Numbers.{ℤ, pos}
use dev_control_open_harmony.Value.{Value, text, integer, object, field, end}
use dev_control_open_harmony.Errors.{Error, ok, raise}
use dev_control_open_harmony.Base64.{base64url_decode}
use dev_control_open_harmony.Sessions.{Primitives, SessionRegistry, ClientSession, authenticate}
use dev_control_open_harmony.Sessions as Sessions
use dev_control_open_harmony.Payload.{Cipher, SecureCommandEnvelope}
use dev_control_open_harmony.Validation.{Pydantic}
use dev_control_open_harmony.Validation.Requests.{
  secure_command_envelope, DeviceRegistrationRequest, RoomCreateRequest,
}
use dev_control_open_harmony.Certificates.{Authority}
use dev_control_open_harmony.Service.{CommandResult}
use dev_control_open_harmony.Http.BodyLimit.{Scope, Message, request, other, guard, complete}
use dev_control_open_harmony.Http.BodyLimit.Bounds.{
  body_of, has_end, is_waiting, guard-complete, guard-ends,
}
use dev_control_open_harmony.Http.Stream.Queue.{offer_all, newest, offer_all-newest}
use dev_control_open_harmony.Http.Routes.{
  App, wall, extract_bearer, require_session, unauthorized, commands_route,
}
use dev_control_open_harmony.Http.Socket.{turn, frame, answered, turn-commands_route}
use dev_control_open_harmony.Examples.Registry.{home}

abbrev post : Scope
post = record { kind = "http"; path = "/api/v1/pair"; method = "POST"; headers = [] }

abbrev parts : List Message
parts = request (1 ∷ 2 ∷ []) true ∷ other ∷ request (3 ∷ []) false ∷ other ∷ []

guarded : guard (λ s. none) 1024 post parts ≡ complete (1 ∷ 2 ∷ 3 ∷ []) (other ∷ [])
unfolding guard
guarded = refl

guard-complete_example :
    (taken : List Message) × (parts ≡ taken ++ other ∷ [])
    × ((1 ∷ 2 ∷ 3 ∷ []) ≡ body_of taken)
    × (3 ≤ 1024)
guard-complete_example =
    guard-complete (λ s. none) 1024 post parts (1 ∷ 2 ∷ 3 ∷ []) (other ∷ []) guarded

ends : has_end parts ≡ true
unfolding has_end
ends = refl

guard-ends_example : is_waiting (guard (λ s. none) 2 post parts) ≡ false
guard-ends_example = guard-ends (λ s. none) 2 post parts ends

abbrev events : List ℕ
events = 1 ∷ 2 ∷ 3 ∷ []

offer_all-newest_example : offer_all [] events ≡ newest events
offer_all-newest_example = offer_all-newest events

abbrev pub primitives : Primitives
primitives = record {
  sha256_hex = λ b. "digest";
  isdigit = λ s. true;
  pairing_code = λ n. "654321";
  credential_bytes = λ n. 7 ∷ [];
  data_key_bytes = λ n. 7 ∷ [];
}

abbrev pub session : ClientSession
session = record {
  client_id = "phone";
  credential_digest = "digest";
  data_key = [];
  issued_at = 0;
  expires_at = 100000;
}

abbrev pub app : App
app = record {
  sessions = record {
    credential_ttl_ms = 1000;
    pairing_code = "123456";
    pairing_expires_at = 300000;
    attempts = [];
    sessions = ("digest", session) ∷ [];
    codes_drawn = 0;
    credentials_drawn = 0;
  };
  service = record { devices = home; result_cache = []; nonce_cache = []; monotonic = 77 };
  sent = [];
}

abbrev pub cipher : Cipher
cipher = record {
  dumps = λ v. [];
  loads = λ b. none;
  encrypt = λ key nonce plain aad. plain;
  decrypt = λ key nonce sealed aad. some sealed;
}

abbrev authority : Authority
authority = record {
  sign = λ m. (1, 2);
  verifies = λ m s. false;
  sha256_hex = λ m. "";
  dumps = λ v. [];
  loads = λ b. none;
}

abbrev registration : DeviceRegistrationRequest
registration = record {
  identity = record {
    device_id = "LAMP-01";
    device_name = "Lamp";
    device_type = "light";
    category_id = "lighting";
    capabilities = [];
  };
  room_id = "living";
  gateway_proof = "";
}

abbrev room : RoomCreateRequest
room = record { room_id = "attic"; name = "Attic" }

abbrev pub envelope : SecureCommandEnvelope
envelope = record {
  message_id = "message-000000001";
  device_id = "light-living-01";
  timestamp = pos 1500;
  action = "setPower";
  expected_state_version = none;
  nonce = "AAAAAAAAAAAAAAAA";
  ciphertext = "AAAA";
  auth_tag = "AAAAAAAAAAAAAAAAAAAAAA";
}

abbrev pub command : Value
command = object (
    field "messageId" (text "message-000000001") (
      field "deviceId" (text "light-living-01") (
        field "timestamp" (integer (pos 1500)) (
          field "action" (text "setPower") (
            field "nonce" (text "AAAAAAAAAAAAAAAA") (
              field "ciphertext" (text "AAAA")
                (field "authTag" (text "AAAAAAAAAAAAAAAAAAAAAA") end)))))))

abbrev int_of : Value → Option ℤ
int_of (integer n) = some n
int_of _ = none

abbrev pub pydantic : Pydantic
pydantic = record {
  int_of = int_of;
  float_of = λ v. none;
  bool_of = λ v. none;
  is_decimal = λ c. true;
}

pub valid_command : secure_command_envelope pydantic command ≡ some envelope
unfolding secure_command_envelope
valid_command = refl

pub bearer : extract_bearer (some "Bearer AAAA") ≡ ok "AAAA"
unfolding extract_bearer
bearer = refl

pub accepted : (authenticate primitives (wall app) "AAAA" app.sessions).0 ≡ ok session
unfolding authenticate base64url_decode Sessions.admit
accepted = refl

turn-commands_route_example :
    (outcome : CommandResult) × ((commands_route primitives cipher
        (some "Bearer AAAA")
        envelope
        app).0
      ≡ ok outcome)
    × (turn primitives cipher pydantic "AAAA" (frame command) app ≡ (
      answered outcome,
      (commands_route primitives cipher (some "Bearer AAAA") envelope app).1,
    ))
turn-commands_route_example =
    turn-commands_route primitives "AAAA" app session accepted cipher pydantic (some "Bearer AAAA")
      command envelope bearer valid_command

nobody : (require_session primitives none app).0 ≡ raise (unauthorized "缺少客户端 Bearer 凭据")
unfolding require_session
nobody = refl

abbrev pub refusal : Error
refusal = unauthorized "缺少客户端 Bearer 凭据"

abbrev refused_app : App
refused_app = (require_session primitives none app).1
