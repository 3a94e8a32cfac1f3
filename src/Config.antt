-- ===== src/Config.antt =====
-- `GatewayConfig` of VirtualGateway/devcontrol_gateway/config.py: the settings, read from the
-- environment's variables, and their validation. Paths are texts.
pub mod Validation
use Prim.Native.Char.{code}
use Prim.Native.String.{◌++◌ as ◌<>◌}
use dev_control_open_harmony.Prelude.{
  ℕ, ◌*◌, String, Bool, true, false, not, ◌&&◌, ◌||◌, Option, none, some, List, [], ◌∷◌, ◌==◌, leb,
  nat_eq, length, if◌then◌else◌, all, contains, is_some,
}
use dev_control_open_harmony.Numbers.{ℤ, pos, int_lt, Float}
use dev_control_open_harmony.Errors.{
  Error, Result, ok, raise, python, value_error, refuse_if, or_raise, ◌>>=◌, ◌>>◌,
}
use dev_control_open_harmony.Dict.{Dict, get}
use dev_control_open_harmony.Ascii.{codes, is_letter, is_digit, strip}

-- What the settings take from outside: Python's `int` and `float` of a text and `str.lower`, a random
-- token, the files that exist, `Path.with_name`.
pub record Host : Type 0 where
  pub int_of : String → Option ℤ
  pub float_of : String → Option Float
  pub lower : String → String
  pub token_urlsafe : String
  pub is_file : String → Bool
  pub with_name : String → String → String

pub record GatewayConfig : Type 0 where
  pub host : String
  pub port : ℤ
  pub admin_host : String
  pub admin_port : ℤ
  pub tls_cert : String
  pub tls_key : String
  pub database : String
  pub provisioning_signing_key : Option String
  pub initial_pairing_code : Option String
  pub credential_ttl_seconds : ℤ
  pub admin_token : String
  pub telemetry_interval_seconds : Float
  pub enable_background_tasks : Bool
  pub mqtt_enabled : Bool
  pub mqtt_host : String
  pub mqtt_port : ℤ
  pub mqtt_ca : String
  pub mqtt_client_cert : Option String
  pub mqtt_client_key : Option String
  pub mqtt_username : String
  pub mqtt_password : String
  pub mqtt_topic_prefix : String
  pub max_transport_message_bytes : ℤ

-- `os.getenv(name, default)`
unfoldable pub getenv : Dict String → String → String → String
unfolding get
getenv env name default = elim (get name env) [ none ↦ default | some s ↦ s ]

-- `_optional_path`
abbrev pub optional_path : Option String → Option String
optional_path none = none
optional_path (some s) = if s == "" then none else some s

abbrev number : Option ℤ → Result ℤ
number o = or_raise o (python value_error)

unfoldable pub from_env : Host → Dict String → Result GatewayConfig
unfolding getenv get contains
from_env h env = number (h.int_of (getenv env "DEVCONTROL_PORT" "8443")) >>= λ port.
    number (h.int_of (getenv env "DEVCONTROL_ADMIN_PORT" "18444")) >>= λ admin_port.
    number (h.int_of (getenv env "DEVCONTROL_CREDENTIAL_TTL_SECONDS" "86400")) >>= λ ttl.
    or_raise (h.float_of (getenv env "DEVCONTROL_TELEMETRY_INTERVAL" "2")) (python value_error)
    >>= λ interval. number (h.int_of (getenv env "DEVCONTROL_MQTT_PORT" "8883")) >>= λ mqtt_port.
        number (h.int_of (getenv env "DEVCONTROL_MAX_TRANSPORT_MESSAGE_BYTES" "65536")) >>= λ limit.
        ok (record {
          host = getenv env "DEVCONTROL_HOST" "0.0.0.0";
          port = port;
          admin_host = "127.0.0.1";
          admin_port = admin_port;
          tls_cert = getenv env "DEVCONTROL_TLS_CERT" "certs/gateway.crt";
          tls_key = getenv env "DEVCONTROL_TLS_KEY" "certs/gateway.key";
          database = getenv env "DEVCONTROL_DATABASE" "data/devcontrol.db";
          provisioning_signing_key = optional_path (get "DEVCONTROL_PROVISIONING_SIGNING_KEY" env);
          initial_pairing_code = get "DEVCONTROL_INITIAL_PAIRING_CODE" env;
          credential_ttl_seconds = ttl;
          admin_token = getenv env "DEVCONTROL_ADMIN_TOKEN" h.token_urlsafe;
          telemetry_interval_seconds = interval;
          enable_background_tasks = true;
          mqtt_enabled =
              contains ("1" ∷ "true" ∷ "yes" ∷ [])
                (h.lower (getenv env "DEVCONTROL_MQTT_ENABLED" "false"));
          mqtt_host = getenv env "DEVCONTROL_MQTT_HOST" "";
          mqtt_port = mqtt_port;
          mqtt_ca = getenv env "DEVCONTROL_MQTT_CA" "certs/mqtt-ca.crt";
          mqtt_client_cert = optional_path (get "DEVCONTROL_MQTT_CLIENT_CERT" env);
          mqtt_client_key = optional_path (get "DEVCONTROL_MQTT_CLIENT_KEY" env);
          mqtt_username = getenv env "DEVCONTROL_MQTT_USERNAME" "";
          mqtt_password = getenv env "DEVCONTROL_MQTT_PASSWORD" "";
          mqtt_topic_prefix = getenv env "DEVCONTROL_MQTT_TOPIC_PREFIX" "devcontrol/v1";
          max_transport_message_bytes = limit;
        })

unfoldable pub provisioning_key_path : Host → GatewayConfig → String
provisioning_key_path h c = elim c.provisioning_signing_key [
  | some path ↦ path
  | none ↦ h.with_name c.database "device_provisioning.key"
]

-- `low <= n <= high`
abbrev pub is_between : ℕ → ℕ → ℤ → Bool
is_between low high n = not (int_lt n (pos low)) && not (int_lt (pos high) n)

-- `[A-Za-z0-9_/-]`
unfoldable pub is_topic_character : ℕ → Bool
unfolding is_letter is_digit
is_topic_character c = is_letter c || is_digit c || nat_eq c b'_' || nat_eq c b'/' || nat_eq c b'-'

-- `[A-Za-z0-9][A-Za-z0-9_/-]{0,126}`
unfoldable pub is_topic_prefix : List ℕ → Bool
unfolding is_letter is_digit is_topic_character
is_topic_prefix [] = false
is_topic_prefix (c ∷ cs) =
    (is_letter c || is_digit c) && (all is_topic_character cs && leb (length cs) 126)

-- `s.endswith("/") or "//" in s`
unfoldable pub has_empty_level : List ℕ → Bool
has_empty_level [] = false
has_empty_level (c ∷ []) = nat_eq c b'/'
has_empty_level (c ∷ d ∷ cs) = (nat_eq c b'/' && nat_eq d b'/') || has_empty_level (d ∷ cs)

abbrev is_missing : Host → Option String → Bool
is_missing h none = false
is_missing h (some path) = not (h.is_file path)

abbrev invalid : Error
invalid = python value_error

abbrev pub uses_mtls : GatewayConfig → Bool
uses_mtls c = is_some c.mqtt_client_cert && is_some c.mqtt_client_key

abbrev pub uses_password : GatewayConfig → Bool
uses_password c = not (c.mqtt_username == "") && not (c.mqtt_password == "")

abbrev same_bool : Bool → Bool → Bool
same_bool true b = b
same_bool false b = not b

unfoldable pub validate_mqtt : Host → GatewayConfig → Result (Unit {0})
unfolding strip is_topic_prefix has_empty_level
validate_mqtt h c =
    refuse_if (strip c.mqtt_host == "") invalid
    >> refuse_if (not (is_between 1 65535 c.mqtt_port)) invalid
    >> refuse_if (not (h.is_file c.mqtt_ca)) invalid
    >> refuse_if (not (same_bool (is_some c.mqtt_client_cert) (is_some c.mqtt_client_key))) invalid
    >> refuse_if (uses_mtls c && is_missing h c.mqtt_client_cert) invalid
    >> refuse_if (uses_mtls c && is_missing h c.mqtt_client_key) invalid
    >> refuse_if (not (uses_mtls c) && not (uses_password c)) invalid
    >> refuse_if (not (is_topic_prefix (codes c.mqtt_topic_prefix))) invalid
    >> refuse_if (has_empty_level (codes c.mqtt_topic_prefix)) invalid

unfoldable pub validate : Host → GatewayConfig → Result (Unit {0})
unfolding validate_mqtt
validate h c =
    refuse_if (not (int_lt (pos 0) c.credential_ttl_seconds)) invalid
    >> refuse_if (not (is_between 1024 (1024 * 1024) c.max_transport_message_bytes)) invalid
    >> (if c.mqtt_enabled then validate_mqtt h c else ok tt)
