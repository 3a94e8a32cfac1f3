-- ===== src/Examples/Certificates.antt =====
-- The theorems about certificates and requests, with toy signatures and texts.
use dev_control_open_harmony.Prelude.{
  ◌<◌, ◌≡◌, refl, String, Bool, true, false, ◌&&◌, Option, none, some, [], ◌∷◌, ◌==◌, nat_eq, All,
  arith, if◌then◌else◌,
}
use dev_control_open_harmony.Value.{Value, text, object, array, cons, nil, field, end, Fields}
use dev_control_open_harmony.Errors.{ok}
use dev_control_open_harmony.Base64.{Bytes, base64url_decode, base64url_encode}
use dev_control_open_harmony.Ascii.{codes}
use dev_control_open_harmony.Base64.RoundTrip.{base64url_decode-encode}
use dev_control_open_harmony.Validation.Requests.{
  DeviceIdentityDeclaration, DeviceRegistrationRequest, registration_request,
}
use dev_control_open_harmony.Validation.Rendering.{
  registration_json, is_valid_registration, registration_request-registration_json,
}
use dev_control_open_harmony.Certificates.{Authority, header, claims, issue, verify, capacity}
use dev_control_open_harmony.Certificates.Verification.{verify-issue}
use dev_control_open_harmony.Certificates.Genuine.{Genuine, verify-genuine, one_identity}
use dev_control_open_harmony.QrCode.{Arguments, Tools, Reply, manifest}
use dev_control_open_harmony.QrCode.Manifest.{registration_request-manifest, identity_of}
use dev_control_open_harmony.Validation.{is_identifier}

abbrev lamp : DeviceIdentityDeclaration
lamp = record {
  device_id = "LAMP-01";
  device_name = "Lamp";
  device_type = "light";
  category_id = "lighting";
  capabilities = "setPower" ∷ [];
}

abbrev is_header : Value → Bool
is_header (object (field name value rest)) = name == "alg"
is_header _ = false

abbrev tag_of : Bool → Bytes
tag_of true = 1 ∷ []
tag_of false = 2 ∷ []

tag_bytes : (b : Bool) → All (λ n. n < 256) (tag_of b)
tag_bytes true = (omega arith, tt)
tag_bytes false = (omega arith, tt)

abbrev toy_loads : Bytes → Option Value
toy_loads [] = none
toy_loads (b ∷ bs) = if nat_eq b 1 then some header else some (claims lamp)

abbrev toy : Authority
toy = record {
  sign = λ m. (1, 2);
  verifies = λ m s. nat_eq s.0 1 && nat_eq s.1 2;
  sha256_hex = λ m. "fingerprint";
  dumps = λ v. tag_of (is_header v);
  loads = toy_loads;
}

small : (1 < capacity 32) × (2 < capacity 32)
unfolding capacity
small = (omega arith, omega arith)

verify-issue_example :
    (certificate : String) × (issue toy lamp ≡ ok certificate)
    × (verify toy (record { identity = lamp; room_id = "living"; gateway_proof = certificate })
        ≡ ok "fingerprint")
verify-issue_example =
    verify-issue toy lamp "living" (λ m. refl) (λ m. small) (λ v. tag_bytes (is_header v)) refl refl

-- the certificate of the lamp, and two requests with it
abbrev certified :
    (certificate : String) × (issue toy lamp ≡ ok certificate)
    × (verify toy (record { identity = lamp; room_id = "living"; gateway_proof = certificate })
        ≡ ok "fingerprint")
certified =
    verify-issue toy lamp "living" (λ m. refl) (λ m. small) (λ v. tag_bytes (is_header v)) refl refl

abbrev in_living : DeviceRegistrationRequest
in_living = record { identity = lamp; room_id = "living"; gateway_proof = certified.0 }

abbrev in_bedroom : DeviceRegistrationRequest
in_bedroom = record { identity = lamp; room_id = "bedroom"; gateway_proof = certified.0 }

verify-genuine_example :
    Genuine toy certified.0 lamp × ("fingerprint" ≡ toy.sha256_hex (codes certified.0))
verify-genuine_example = verify-genuine toy in_living "fingerprint" certified.2

bedroom_verified : verify toy in_bedroom ≡ ok "fingerprint"
unfolding verify
bedroom_verified = certified.2

one_identity_example : in_living.identity ≡ in_bedroom.identity
one_identity_example =
    one_identity toy in_living in_bedroom "fingerprint" "fingerprint" refl certified.2
      bedroom_verified

registration_request-registration_json_example :
    registration_request (registration_json in_living)
    ≡ (if is_valid_registration in_living then some in_living else none)
registration_request-registration_json_example = registration_request-registration_json in_living

base64url_decode-encode_example :
    base64url_decode (base64url_encode (255 ∷ 0 ∷ 62 ∷ 7 ∷ [])) ≡ some (255 ∷ 0 ∷ 62 ∷ 7 ∷ [])
base64url_decode-encode_example =
    base64url_decode-encode (255 ∷ 0 ∷ 62 ∷ 7 ∷ [])
      (omega arith, (omega arith, (omega arith, (omega arith, tt))))

abbrev arguments : Arguments
arguments = record {
  device_id_text = "LAMP-01";
  device_name_text = "Lamp";
  device_type = "light";
  category_id = "lighting";
  capabilities_text = "setPower, setBrightness";
  gateway_proof = some "AAAAAAAA.BBBBBBBB.CCCCCCCC";
  admin_url = "";
  admin_token = none;
  uri_wrapper = false;
}

abbrev tools : Tools
tools = record {
  post = λ url token body. Reply.unavailable;
  dumps = λ v. "{}";
  loads = λ s. none;
  quote = λ s. s;
}

abbrev packed : Fields
packed = field "schema" (text "devcontrol.device-registration") (
    field "protocolVersion" (text "1.0") (
      field "deviceId" (text "LAMP-01") (
        field "deviceName" (text "Lamp") (
          field "deviceType" (text "light") (
            field "categoryId" (text "lighting") (
              field "capabilities"
                (array (cons (text "setPower") (cons (text "setBrightness") nil)))
                (field "gatewayProofFormat" (text "jws")
                  (field "gatewayProof" (text "AAAAAAAA.BBBBBBBB.CCCCCCCC") end))))))))

packs : manifest tools arguments ≡ ok packed
unfolding manifest
packs = refl

living : is_identifier "living" ≡ true
unfolding is_identifier
living = refl

registration_request-manifest_example :
    (proof : String) × (registration_request (object (field "roomId" (text "living") packed))
      ≡ some
          (record { identity = identity_of arguments; room_id = "living"; gateway_proof = proof }))
registration_request-manifest_example =
    registration_request-manifest tools arguments "living" packed living packs
