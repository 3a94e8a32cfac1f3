-- ===== src/Certificates.antt =====
-- `DeviceProvisioningAuthority` of VirtualGateway/devcontrol_gateway/security.py: static certificates of
-- device identities, signed as compact JWS, and their verification when a device is registered.
pub mod Integers
pub mod Verification
pub mod Genuine
use Prim.Native.String.{◌++◌ as ◌<>◌}
use dev_control_open_harmony.Prelude.{
  ℕ, zero, suc, ◌+◌, ◌*◌, ◌/◌, ◌%◌, String, Bool, true, false, not, ◌&&◌, ◌||◌, Option, none, some,
  List, [], ◌∷◌, ◌++◌, ltb, nat_eq, length, take, drop,
}
use dev_control_open_harmony.Value.{Value, text, array, object, field, end}
use dev_control_open_harmony.Errors.{
  Error, Result, ok, raise, gateway, python, overflow_error, device_proof_invalid, refuse_if,
  or_raise, ◌>>=◌ as ◌>>=?◌,
}
use dev_control_open_harmony.Dict.{Dict, get}
use dev_control_open_harmony.Ascii.{codes, split_once}
use dev_control_open_harmony.Base64.{Bytes, base64url_encode, base64url_decode}
use dev_control_open_harmony.Payload.{as_object}
use dev_control_open_harmony.Registry.Provisioning.{is_text, same_texts}
use dev_control_open_harmony.Validation.{◌>>=◌, text_of, as_texts}
use dev_control_open_harmony.Validation.Requests.{
  DeviceIdentityDeclaration, DeviceRegistrationRequest,
}
use dev_control_open_harmony.Validation.Rendering.{array_of}

-- What the authority takes from outside: ECDSA under its key, a signature being the pair (r, s);
-- SHA-256; JSON texts in UTF-8, where a `none` is an error that `verify` catches.
pub record Authority : Type 0 where
  pub sign : Bytes → ℕ × ℕ
  pub verifies : Bytes → ℕ × ℕ → Bool
  pub sha256_hex : Bytes → String
  pub dumps : Value → Bytes
  pub loads : Bytes → Option Value

-- 256 ** width
unfoldable pub capacity : ℕ → ℕ
capacity zero = 1
capacity (suc width) = 256 * capacity width

-- `n.to_bytes(width, "big")`, where it is big enough
unfoldable pub big_endian : ℕ → ℕ → Bytes
big_endian zero n = []
big_endian (suc width) n = big_endian width (n / 256) ++ (n % 256) ∷ []

unfoldable pub to_bytes : ℕ → ℕ → Result Bytes
unfolding big_endian capacity
to_bytes width n = refuse_if (not (ltb n (capacity width))) (python overflow_error) >>=? λ _.
    ok (big_endian width n)

-- `int.from_bytes(bytes, "big")`, after the number that was read before
unfoldable pub from_bytes : ℕ → Bytes → ℕ
from_bytes before [] = before
from_bytes before (b ∷ bs) = from_bytes (before * 256 + b) bs

abbrev pub header : Value
header = object (
    field "alg" (text "ES256")
      (field "kid" (text "local-device-provisioner") (field "typ" (text "JWT") end)))

abbrev pub claims : DeviceIdentityDeclaration → Value
claims d = object (
    field "iss" (text "devcontrol-virtual-gateway") (
      field "aud" (text "devcontrol.device-registration") (
        field "certificateType" (text "device-identity-v1") (
          field "deviceId" (text d.device_id) (
            field "deviceName" (text d.device_name) (
              field "deviceType" (text d.device_type) (
                field "categoryId" (text d.category_id)
                  (field "capabilities" (array (array_of d.capabilities)) end))))))))

abbrev pub signed_part : Authority → DeviceIdentityDeclaration → String
signed_part a d =
    base64url_encode (a.dumps header) <> ("." <> base64url_encode (a.dumps (claims d)))

unfoldable pub issue : Authority → DeviceIdentityDeclaration → Result String
unfolding to_bytes
issue a d =
    let signature = a.sign (codes (signed_part a d)) in
    to_bytes 32 signature.0 >>=? λ r. to_bytes 32 signature.1 >>=? λ s. ok (
      base64url_encode (a.dumps header)
      <> ("." <> (base64url_encode (a.dumps (claims d)) <> ("." <> base64url_encode (r ++ s)))))

-- `_decode_object`
unfoldable pub decode_object : Authority → String → Option (Dict Value)
unfolding as_object
decode_object a segment = base64url_decode segment >>= a.loads >>= as_object

abbrev pub invalid : String → Error
invalid message = gateway (record {
  code = device_proof_invalid;
  message = message;
  status_code = 401;
  retry_after_seconds = none;
})

abbrev pub is_absent_or : String → Option Value → Bool
is_absent_or expected none = true
is_absent_or expected (some v) = is_text (text_of (some v)) expected

abbrev pub texts_at : Option Value → Option (List String)
texts_at none = none
texts_at (some v) = as_texts v

abbrev pub equal_texts : Option (List String) → List String → Bool
equal_texts none ys = false
equal_texts (some xs) ys = same_texts xs ys

-- The claims belong to this gateway.
unfoldable pub is_own : Dict Value → Bool
unfolding get
is_own c =
    is_text (text_of (get "iss" c)) "devcontrol-virtual-gateway"
    && (is_text (text_of (get "aud" c)) "devcontrol.device-registration"
        && is_absent_or "device-identity-v1" (get "certificateType" c))

-- The claims name the device that is to be registered.
unfoldable pub names : Dict Value → DeviceIdentityDeclaration → Bool
unfolding get
names c d =
    is_text (text_of (get "deviceId" c)) d.device_id
    && (is_text (text_of (get "deviceName" c)) d.device_name
        && (is_text (text_of (get "deviceType" c)) d.device_type
            && (is_text (text_of (get "categoryId" c)) d.category_id
                && equal_texts (texts_at (get "capabilities" c)) d.capabilities)))

pub record Segments : Type 0 where
  pub signed : String
  pub header_fields : Dict Value
  pub claim_fields : Dict Value
  pub signature : Bytes

-- `registration.gatewayProof.split(".", 2)`, decoded
unfoldable pub segments : Authority → String → Option Segments
unfolding split_once decode_object
segments a proof = split_once b'.' proof >>= λ p. split_once b'.' p.1 >>= λ q.
    decode_object a p.0 >>= λ header_fields. decode_object a q.0 >>= λ claim_fields.
    base64url_decode q.1 >>= λ signature. some (record {
      signed = p.0 <> ("." <> q.0);
      header_fields = header_fields;
      claim_fields = claim_fields;
      signature = signature;
    })

unfoldable pub is_supported : Dict Value → Bool
unfolding get
is_supported h = is_text (text_of (get "alg" h)) "ES256" && is_text (text_of (get "typ" h)) "JWT"

unfoldable pub is_signed : Authority → Segments → Bool
unfolding from_bytes
is_signed a s =
    a.verifies (codes s.signed)
      (from_bytes 0 (take 32 s.signature), from_bytes 0 (drop 32 s.signature))

-- The fingerprint of the certificate.
unfoldable pub verify : Authority → DeviceRegistrationRequest → Result String
unfolding segments is_supported is_signed is_own names
verify a r = or_raise (segments a r.gateway_proof) (invalid "设备认证证明格式无效") >>=? λ s.
    refuse_if (not (is_supported s.header_fields)) (invalid "设备认证证明算法不受支持") >>=? λ _.
    refuse_if (not (nat_eq (length s.signature) 64)) (invalid "设备认证证明签名无效") >>=? λ _.
    refuse_if (not (is_signed a s)) (invalid "设备认证证明签名无效") >>=? λ _.
    refuse_if (not (is_own s.claim_fields)) (invalid "设备身份证书不属于当前网关") >>=? λ _.
    refuse_if (not (names s.claim_fields r.identity)) (invalid "设备身份证书与二维码声明不一致") >>=? λ _.
    ok (a.sha256_hex (codes r.gateway_proof))
