-- ===== src/QrCode.antt =====
-- QRgeneration/generate_device_qr.py: the tool that packs a device's declaration and its certificate
-- into the text of a QR code. A `ValueError` is a raise of `value_error`.
pub mod Manifest
use Prim.Native.Char.{Char, code}
use Prim.Native.String.{◌++◌ as ◌<>◌}
use package.text.Mathlib.Text.{starts_with}
use dev_control_open_harmony.Prelude.{
  ℕ, String, Bool, true, false, not, ◌&&◌, ◌||◌, Option, none, some, List, [], ◌∷◌, ◌==◌, ltb, leb,
  nat_eq, length, if◌then◌else◌, filter, map,
}
use dev_control_open_harmony.Value.{Value, text, array, object, Fields, field, end, as_text}
use dev_control_open_harmony.Errors.{
  Result, ok, raise, python, value_error, refuse_if, or_raise, ◌>>=◌ as ◌>>=?◌, Error,
}
use dev_control_open_harmony.Dict.{get}
use dev_control_open_harmony.Ascii.{codes, strip}
use dev_control_open_harmony.Payload.{as_object}
use dev_control_open_harmony.Validation.{
  ◌>>=◌, is_identifier, is_device_id, is_device_name, is_compact_jws, distinct, text_of,
}
use dev_control_open_harmony.Validation.Rendering.{array_of}

abbrev invalid : Error
invalid = python value_error

unfoldable pub identifier : String → Result String
unfolding is_identifier
identifier value = refuse_if (not (is_identifier value)) invalid >>=? λ _. ok value

unfoldable pub device_id : String → Result String
unfolding is_device_id
device_id value = refuse_if (not (is_device_id value)) invalid >>=? λ _. ok value

unfoldable pub device_name : String → Result String
unfolding is_device_name
device_name value = refuse_if (not (is_device_name value)) invalid >>=? λ _. ok value

-- The pieces of a text, from those of the text without its first character.
abbrev pub attach : ℕ → Char → List String → List String
attach separator c [] = []
attach separator c (piece ∷ pieces) =
    if nat_eq (code c) separator then "" ∷ piece ∷ pieces else String.◌∷◌ c piece ∷ pieces

-- `value.split(separator)`, for a separator of one character
unfoldable pub split : ℕ → String → List String
split separator String.[] = "" ∷ []
split separator (String.◌∷◌ c s) = attach separator c (split separator s)

unfoldable pub identifiers : List String → Result (List String)
unfolding identifier
identifiers [] = ok []
identifiers (s ∷ ss) = identifier s >>=? λ t. identifiers ss >>=? λ ts. ok (t ∷ ts)

-- `[item.strip() for item in value.split(",") if item.strip()]`
unfoldable pub items : String → List String
unfolding split strip
items value = filter (λ s. not (s == "")) (map strip (split b',' value))

unfoldable pub capabilities : String → Result (List String)
unfolding items distinct identifiers
capabilities value =
    let values = items value in
    refuse_if (not (leb 1 (length values) && leb (length values) 32)) invalid >>=? λ _.
    refuse_if (not (distinct values)) invalid >>=? λ _. identifiers values

unfoldable pub compact_jws : String → Result String
unfolding is_compact_jws
compact_jws value =
    refuse_if (ltb 4096 (length (codes value)) || not (is_compact_jws value)) invalid >>=? λ _.
    ok value

pub record Arguments : Type 0 where
  pub device_id_text : String
  pub device_name_text : String
  pub device_type : String
  pub category_id : String
  pub capabilities_text : String
  pub gateway_proof : Option String
  pub admin_url : String
  pub admin_token : Option String
  pub uri_wrapper : Bool

-- What the provisioning endpoint answers: an HTTP error, no connection, a body that is not UTF-8, or
-- a text.
pub data Reply : Type 0 where
  http_error unavailable undecodable : Reply
  answered : String → Reply

-- What the tool takes from outside: the request to the endpoint (its address, token and body), JSON
-- texts, `urllib.parse.quote`.
pub record Tools : Type 0 where
  pub post : String → String → String → Reply
  pub dumps : Value → String
  pub loads : String → Option Value
  pub quote : String → String

abbrev pub given : Option String → Bool
given none = false
given (some s) = not (s == "")

abbrev pub text_or_empty : Option String → String
text_or_empty none = ""
text_or_empty (some s) = s

-- `reply["gatewayProof"]`, and that it is a text
abbrev pub proof_of : Option Value → Option String
proof_of reply = reply >>= as_object >>= λ d. text_of (get "gatewayProof" d)

unfoldable pub read_reply : Tools → Reply → Result String
unfolding compact_jws get as_object
read_reply t (answered raw) = or_raise (proof_of (t.loads raw)) invalid >>=? compact_jws
read_reply t _ = raise invalid

unfoldable pub is_safe_url : String → Bool
is_safe_url url =
    starts_with url "http://127.0.0.1:"
    || starts_with url "http://localhost:"
    || starts_with url "https://"

unfoldable pub issue_gateway_proof : Tools → Arguments → Fields → Result String
unfolding compact_jws read_reply is_safe_url
issue_gateway_proof t args declaration =
    if given args.gateway_proof
    then compact_jws (text_or_empty args.gateway_proof)
    else (refuse_if (not (given args.admin_token)) invalid >>=? λ _.
        refuse_if (not (is_safe_url args.admin_url)) invalid >>=? λ _.
        read_reply t
          (t.post args.admin_url (text_or_empty args.admin_token) (t.dumps (object declaration))))

-- The fields of the declaration, checked in the order of the source, before `rest`.
unfoldable pub declared : Arguments → Result (Fields → Fields)
unfolding device_id device_name identifier capabilities
declared args = device_id args.device_id_text >>=? λ id.
    device_name args.device_name_text >>=? λ name. identifier args.device_type >>=? λ type.
    identifier args.category_id >>=? λ category. capabilities args.capabilities_text >>=? λ ids.
    ok (λ rest. field "protocolVersion" (text "1.0") (
      field "deviceId" (text id) (
        field "deviceName" (text name) (
          field "deviceType" (text type) (
            field "categoryId" (text category)
              (field "capabilities" (array (array_of ids)) rest))))))

-- The fields of a declaration with its certificate.
abbrev pub certified : (Fields → Fields) → String → Fields
certified declaration proof =
    field "schema" (text "devcontrol.device-registration") (
      declaration (field "gatewayProofFormat" (text "jws") (field "gatewayProof" (text proof) end)))

unfoldable pub certify : Tools → Arguments → (Fields → Fields) → Result Fields
unfolding issue_gateway_proof
certify t args declaration =
    issue_gateway_proof t args (declaration end) >>=? λ proof. ok (certified declaration proof)

unfoldable pub manifest : Tools → Arguments → Result Fields
unfolding declared certify
manifest t args = declared args >>=? certify t args

unfoldable pub payload : Tools → Arguments → Fields → String
payload t args fields =
    let json = t.dumps (object fields) in
    if args.uri_wrapper then "devcontrol://register?payload=" <> t.quote json else json

-- The exit code 2, or the text of the QR code and exit code 0.
pub data Outcome : Type 0 where
  refused : Outcome
  created : String → Outcome

unfoldable pub main : Tools → Arguments → Outcome
unfolding manifest payload
main t args = elim (manifest t args) [
  | raise e ↦ refused
  | ok fields ↦
      let result = payload t args fields in
      if ltb 8192 (length (codes result)) then refused else created result
]
