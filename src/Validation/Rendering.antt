-- ===== src/Validation/Rendering.antt =====
-- Device registrations as the JSON objects that clients send, and which of them are valid.
use dev_control_open_harmony.Prelude.{
  ap, ◌≡◌, refl, String, Bool, ◌&&◌, none, some, List, [], ◌∷◌, arith, if◌then◌else◌,
}
use dev_control_open_harmony.Value.{
  Value, Values, nil, cons, text, array, object, Fields, end, field,
}
use dev_control_open_harmony.Dict.{get, remove, put}
use dev_control_open_harmony.Payload.{as_object}
use dev_control_open_harmony.Validation.{
  is_identifier, is_device_id, is_device_name, is_compact_jws, are_capabilities, has_length,
  text_field, literal_field, texts_field, only_keys, texts_of, ◌>>=◌,
}
use dev_control_open_harmony.Validation.Requests.{
  DeviceIdentityDeclaration, DeviceRegistrationRequest, identity_declaration, registration_request,
  require_and_strip_schema, provision_request,
}

abbrev pub array_of : List String → Values
array_of [] = nil
array_of (s ∷ ss) = cons (text s) (array_of ss)

pub texts_of-array_of : (ss : List String) → texts_of (array_of ss) ≡ some ss
texts_of-array_of [] = refl
texts_of-array_of (s ∷ ss) = ap (λ o. o >>= λ rest. some (s ∷ rest)) (texts_of-array_of ss)

abbrev pub identity_fields : DeviceIdentityDeclaration → Fields → Fields
identity_fields i rest = field "protocolVersion" (text "1.0") (
    field "deviceId" (text i.device_id) (
      field "deviceName" (text i.device_name) (
        field "deviceType" (text i.device_type) (
          field "categoryId" (text i.category_id)
            (field "capabilities" (array (array_of i.capabilities)) rest)))))

abbrev pub provision_json : DeviceIdentityDeclaration → Value
provision_json i = object (identity_fields i end)

abbrev pub manifest_fields : DeviceIdentityDeclaration → String → Fields
manifest_fields i proof = field "schema" (text "devcontrol.device-registration") (
    identity_fields i
      (field "gatewayProofFormat" (text "jws") (field "gatewayProof" (text proof) end)))

abbrev pub registration_json : DeviceRegistrationRequest → Value
registration_json r =
    object (field "roomId" (text r.room_id) (manifest_fields r.identity r.gateway_proof))

unfoldable pub is_valid_identity : DeviceIdentityDeclaration → Bool
is_valid_identity i =
    (has_length 3 64 i.device_id && is_device_id i.device_id)
    && ((has_length 1 64 i.device_name && is_device_name i.device_name)
        && ((has_length 1 64 i.device_type && is_identifier i.device_type)
            && ((has_length 1 64 i.category_id && is_identifier i.category_id)
                && are_capabilities i.capabilities)))

unfoldable pub is_valid_proof : String → Bool
is_valid_proof proof = has_length 25 4096 proof && is_compact_jws proof

unfoldable pub is_valid_registration : DeviceRegistrationRequest → Bool
unfolding is_valid_identity is_valid_proof
is_valid_registration r =
    is_valid_identity r.identity
    && ((has_length 1 64 r.room_id && is_identifier r.room_id) && is_valid_proof r.gateway_proof)

pub provision_request-provision_json :
    (i : DeviceIdentityDeclaration)
    → provision_request (provision_json i) ≡ (if is_valid_identity i then some i else none)
unfolding provision_request identity_declaration is_valid_identity as_object text_field
    literal_field texts_field only_keys get put
provision_request-provision_json i = ground (arith, texts_of-array_of i.capabilities)

-- A registration that is sent as a JSON object is read back as it was if its fields satisfy the
-- patterns and the limits, and is refused otherwise.
pub registration_request-registration_json :
    (r : DeviceRegistrationRequest)
    → registration_request (registration_json r)
      ≡ (if is_valid_registration r then some r else none)
unfolding registration_request identity_declaration is_valid_identity is_valid_registration
    is_valid_proof as_object text_field literal_field texts_field only_keys get put remove
    require_and_strip_schema
registration_request-registration_json r = ground (arith, texts_of-array_of r.identity.capabilities)
