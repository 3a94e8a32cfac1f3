-- ===== src/Payload.antt =====
-- The encrypted commands: `SecureCommandEnvelope` of VirtualGateway/devcontrol_gateway/models.py,
-- `canonical_aad` and `decrypt_payload` of VirtualGateway/devcontrol_gateway/security.py.
use dev_control_open_harmony.Prelude.{ℕ, String, not, Option, none, some, [], ◌++◌, nat_eq, length}
use dev_control_open_harmony.Numbers.{ℤ, pos}
use dev_control_open_harmony.Value.{Value, null, integer, text, object, Fields, end, field}
use dev_control_open_harmony.Errors.{
  Error, Result, refusal, refuse_if, or_raise, ◌>>=◌ as ◌>>=?◌, replay_detected,
}
use dev_control_open_harmony.Dict.{Dict, put}
use dev_control_open_harmony.Base64.{Bytes, base64url_decode}

-- `SecureCommandEnvelope`; `protocolVersion` and `type` are constants.
pub record SecureCommandEnvelope : Type 0 where
  pub message_id : String
  pub device_id : String
  pub timestamp : ℤ
  pub action : String
  pub expected_state_version : Option ℕ
  pub nonce : String
  pub ciphertext : String
  pub auth_tag : String

-- What decryption takes from outside: JSON, AES-GCM. A `none` is an exception that
-- `decrypt_payload` catches.
pub record Cipher : Type 0 where
  pub dumps : Value → Bytes
  pub loads : Bytes → Option Value
  -- the key, the nonce, the text, the associated data
  pub encrypt : Bytes → Bytes → Bytes → Bytes → Bytes
  pub decrypt : Bytes → Bytes → Bytes → Bytes → Option Bytes

abbrev pub version_value : Option ℕ → Value
version_value none = null
version_value (some n) = integer (pos n)

unfoldable pub canonical_aad : Cipher → SecureCommandEnvelope → Bytes
canonical_aad c e = c.dumps (
    object (
      field "protocolVersion" (text "1.0") (
        field "messageId" (text e.message_id) (
          field "deviceId" (text e.device_id) (
            field "timestamp" (integer e.timestamp) (
              field "type" (text "command.request") (
                field "action" (text e.action)
                  (field "expectedStateVersion" (version_value e.expected_state_version) end))))))))

-- The dict of a JSON object: of two fields of one name the later counts.
unfoldable pub dict_of : Fields → Dict Value → Dict Value
unfolding put
dict_of end d = d
dict_of (field name value rest) d = dict_of rest (put name value d)

unfoldable pub as_object : Value → Option (Dict Value)
unfolding dict_of
as_object (object fields) = some (dict_of fields [])
as_object _ = none

abbrev pub unreadable : Error
unreadable = refusal replay_detected "命令认证失败，消息可能已被篡改或重放"

unfoldable pub decrypt_payload : Cipher → Bytes → SecureCommandEnvelope → Result (Dict Value)
unfolding canonical_aad
decrypt_payload c key e = or_raise (base64url_decode e.nonce) unreadable >>=? λ nonce.
    refuse_if (not (nat_eq (length nonce) 12)) unreadable >>=? λ _.
    or_raise (base64url_decode e.ciphertext) unreadable >>=? λ ciphertext.
    or_raise (base64url_decode e.auth_tag) unreadable >>=? λ tag.
    refuse_if (not (nat_eq (length tag) 16)) unreadable >>=? λ _.
    or_raise (c.decrypt key nonce (ciphertext ++ tag) (canonical_aad c e)) unreadable
    >>=? λ plaintext.
        or_raise (c.loads plaintext) unreadable >>=? λ value. or_raise (as_object value) unreadable
