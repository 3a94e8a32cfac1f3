-- ===== src/Validation/Requests.antt =====
-- The request models of VirtualGateway/devcontrol_gateway/models.py, each read from a JSON value. The
-- fields are read in the order of the model; pydantic reports all that fail, here the first ends it.
use dev_control_open_harmony.Prelude.{
  ℕ, String, Bool, not, ◌&&◌, Option, none, some, List, [], ◌∷◌, leb, all, if◌then◌else◌,
}
use dev_control_open_harmony.Numbers.{ℤ, pos, negsuc, Float, less, of_ℕ, finite}
use dev_control_open_harmony.Value.{Value}
use dev_control_open_harmony.Dict.{Dict, get, remove}
use dev_control_open_harmony.Ascii.{codes, is_base64url, strip}
use dev_control_open_harmony.Payload.{SecureCommandEnvelope, as_object}
use dev_control_open_harmony.Registry.Provisioning.{is_text}
use dev_control_open_harmony.Registry.Faults.{FaultRequest, EnvironmentInjection}
use dev_control_open_harmony.Validation.{
  Pydantic, is_identifier, is_device_id, is_device_name, is_compact_jws, are_capabilities,
  has_length, ◌>>=◌, require, only_keys, text_field, literal_field, optional_field, texts_field,
  text_of,
}

pub record PairRequest : Type 0 where
  pub pairing_code : String
  pub client_id : String

unfoldable pub pair_request : Pydantic → Value → Option PairRequest
unfolding as_object only_keys literal_field text_field has_length
pair_request p v = as_object v >>= λ d.
    require (only_keys ("protocolVersion" ∷ "pairingCode" ∷ "clientId" ∷ []) d) >>= λ _.
    literal_field "protocolVersion" "1.0" d >>= λ _.
    text_field "pairingCode" (λ s. has_length 6 6 s && all p.is_decimal (codes s)) d >>= λ code.
    text_field "clientId" (has_length 8 128) d >>= λ client_id.
    some (record { pairing_code = code; client_id = client_id })

pub record DeviceIdentityDeclaration : Type 0 where
  pub device_id : String
  pub device_name : String
  pub device_type : String
  pub category_id : String
  pub capabilities : List String

-- The fields of `DeviceIdentityDeclaration`.
unfoldable pub identity_declaration : Dict Value → Option DeviceIdentityDeclaration
unfolding literal_field text_field texts_field has_length
identity_declaration d = literal_field "protocolVersion" "1.0" d >>= λ _.
    text_field "deviceId" (λ s. has_length 3 64 s && is_device_id s) d >>= λ device_id.
    text_field "deviceName" (λ s. has_length 1 64 s && is_device_name s) d >>= λ device_name.
    text_field "deviceType" (λ s. has_length 1 64 s && is_identifier s) d >>= λ device_type.
    text_field "categoryId" (λ s. has_length 1 64 s && is_identifier s) d >>= λ category_id.
    texts_field "capabilities" are_capabilities d >>= λ capabilities. some (record {
      device_id = device_id;
      device_name = device_name;
      device_type = device_type;
      category_id = category_id;
      capabilities = capabilities;
    })

abbrev identity_keys : List String
identity_keys =
    "protocolVersion" ∷ "deviceId" ∷ "deviceName" ∷ "deviceType" ∷ "categoryId" ∷ "capabilities"
    ∷ []

-- `DeviceProvisionRequest`
unfoldable pub provision_request : Value → Option DeviceIdentityDeclaration
unfolding as_object only_keys identity_declaration
provision_request v =
    as_object v >>= λ d. require (only_keys identity_keys d) >>= λ _. identity_declaration d

pub record DeviceRegistrationRequest : Type 0 where
  pub identity : DeviceIdentityDeclaration
  pub room_id : String
  pub gateway_proof : String

-- `require_and_strip_schema`
unfoldable pub require_and_strip_schema : Value → Option (Dict Value)
unfolding as_object get remove
require_and_strip_schema v = as_object v >>= λ d.
    require (is_text (text_of (get "schema" d)) "devcontrol.device-registration") >>= λ _.
    some (remove "schema" d)

unfoldable pub registration_request : Value → Option DeviceRegistrationRequest
unfolding require_and_strip_schema only_keys identity_declaration literal_field text_field
    has_length
registration_request v = require_and_strip_schema v >>= λ d.
    require (only_keys ("roomId" ∷ "gatewayProofFormat" ∷ "gatewayProof" ∷ identity_keys) d)
    >>= λ _. identity_declaration d >>= λ identity.
        text_field "roomId" (λ s. has_length 1 64 s && is_identifier s) d >>= λ room_id.
        literal_field "gatewayProofFormat" "jws" d >>= λ _.
        text_field "gatewayProof" (λ s. has_length 25 4096 s && is_compact_jws s) d >>= λ proof.
        some (record { identity = identity; room_id = room_id; gateway_proof = proof })

pub record RoomCreateRequest : Type 0 where
  pub room_id : String
  pub name : String

unfoldable pub room_create_request : Value → Option RoomCreateRequest
unfolding as_object only_keys text_field has_length strip
room_create_request v = as_object v >>= λ d. require (only_keys ("roomId" ∷ "name" ∷ []) d) >>= λ _.
    text_field "roomId" (λ s. has_length 1 64 s && is_identifier s) d >>= λ room_id.
    text_field "name" (λ s. has_length 1 64 s && is_device_name s) d >>= λ name.
    some (record { room_id = room_id; name = strip name })

-- `base64url_only`
unfoldable pub base64url_only : String → Bool
unfolding is_base64url
base64url_only s = all is_base64url (codes s)

abbrev within : ℕ → ℕ → ℤ → Option ℕ
within low high (pos n) = if leb low n && leb n high then some n else none
within low high (negsuc n) = none

abbrev not_negative : ℤ → Option ℕ
not_negative (pos n) = some n
not_negative (negsuc n) = none

unfoldable pub secure_command_envelope : Pydantic → Value → Option SecureCommandEnvelope
unfolding as_object only_keys literal_field text_field optional_field has_length base64url_only get
secure_command_envelope p v = as_object v >>= λ d.
    require (
      only_keys
        ("protocolVersion" ∷ "messageId" ∷ "deviceId" ∷ "timestamp" ∷ "type" ∷ "action"
          ∷ "expectedStateVersion" ∷ "nonce" ∷ "ciphertext" ∷ "authTag" ∷ [])
        d)
    >>= λ _. literal_field "protocolVersion" "1.0" d >>= λ _.
        text_field "messageId" (λ s. has_length 16 128 s && base64url_only s) d >>= λ message_id.
        text_field "deviceId" (has_length 3 128) d >>= λ device_id.
        get "timestamp" d >>= p.int_of >>= λ timestamp.
        literal_field "type" "command.request" d >>= λ _.
        text_field "action" (has_length 1 64) d >>= λ action.
        optional_field "expectedStateVersion" (λ w. p.int_of w >>= not_negative) d >>= λ version.
        text_field "nonce" (λ s. has_length 16 32 s && base64url_only s) d >>= λ nonce.
        text_field "ciphertext" (λ s. has_length 1 32768 s && base64url_only s) d >>= λ ciphertext.
        text_field "authTag" (λ s. has_length 16 32 s && base64url_only s) d >>= λ tag.
        some (record {
          message_id = message_id;
          device_id = device_id;
          timestamp = timestamp;
          action = action;
          expected_state_version = version;
          nonce = nonce;
          ciphertext = ciphertext;
          auth_tag = tag;
        })

unfoldable pub fault_request : Pydantic → Value → Option FaultRequest
unfolding as_object only_keys optional_field
fault_request p v = as_object v >>= λ d.
    require (
      only_keys ("online" ∷ "jammed" ∷ "batteryPercent" ∷ "commandDelayMs" ∷ "failNextCommand" ∷ [])
        d)
    >>= λ _. optional_field "online" p.bool_of d >>= λ online.
        optional_field "jammed" p.bool_of d >>= λ jammed.
        optional_field "batteryPercent" (λ w. p.int_of w >>= within 0 100) d >>= λ battery.
        optional_field "commandDelayMs" (λ w. p.int_of w >>= within 0 30000) d >>= λ delay.
        optional_field "failNextCommand" p.bool_of d >>= λ fails. some (record {
          online = online;
          jammed = jammed;
          battery_percent = battery;
          command_delay_ms = delay;
          fail_next_command = fails;
        })

-- `ge=low, le=high`; NaN is neither
abbrev float_within : Float → Float → Float → Option Float
float_within low high Float.nan = none
float_within low high x = if not (less x low) && not (less high x) then some x else none

unfoldable pub environment_injection : Pydantic → Value → Option EnvironmentInjection
unfolding as_object only_keys optional_field less
environment_injection p v = as_object v >>= λ d.
    require
      (only_keys ("temperatureCelsius" ∷ "humidityPercent" ∷ "illuminanceLux" ∷ "presence" ∷ []) d)
    >>= λ _.
        optional_field "temperatureCelsius"
          (λ w. p.float_of w >>= float_within (finite (negsuc 49) 0) (of_ℕ 80)) d
        >>= λ temperature.
            optional_field "humidityPercent"
              (λ w. p.float_of w >>= float_within (of_ℕ 0) (of_ℕ 100)) d
            >>= λ humidity.
                optional_field "illuminanceLux"
                  (λ w. p.float_of w >>= float_within (of_ℕ 0) (of_ℕ 100000)) d
                >>= λ illuminance. optional_field "presence" p.bool_of d >>= λ presence.
                    some (record {
                      temperature_celsius = temperature;
                      humidity_percent = humidity;
                      illuminance_lux = illuminance;
                      presence = presence;
                    })
