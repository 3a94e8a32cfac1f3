-- ===== src/Signing.antt =====
-- `SigningAdminService` of SigningAdmin/signing_admin/service.py: project CAs, gateway certificates, the
-- rotation of roots. A file is what its PEM text holds; a `SigningAdminError` is a `value_error`.
pub mod Operations
pub mod Issue
pub mod Rotation
use dev_control_open_harmony.Prelude.{
  ℕ, ◌+◌, ◌*◌, ◌-◌, min, String, Bool, true, false, not, ◌&&◌, ◌||◌, Option, none, some, List, [],
  ◌∷◌, ◌++◌, ◌==◌, leb, ltb, nat_eq, length, all, contains, concat, is_some, if◌then◌else◌,
}
use dev_control_open_harmony.Errors.{
  Error, Result, ok, raise, python, value_error, refuse_if, or_raise, ◌>>=◌ as ◌>>=?◌,
}
use dev_control_open_harmony.Exec.{Exec, lift, pure, gets, ◌>>=◌, ◌>>◌}
use dev_control_open_harmony.Dict.{Dict, get, put}
use dev_control_open_harmony.Ascii.{strip}

pub data San : Type 0 where
  dns ip other_name : String → San

-- Times are seconds. `basic_constraints` and `key_cert_sign` are what those extensions say, if there.
pub record Certificate : Type 0 where
  pub subject : String
  pub issuer : String
  pub public_key : String
  pub serial_number : ℕ
  pub not_before : ℕ
  pub not_after : ℕ
  pub basic_constraints : Option Bool
  pub key_cert_sign : Option Bool
  pub sans : List San
  pub signed_with : String

pub record Request : Type 0 where
  pub subject : String
  pub public_key : String
  pub is_p256 : Bool
  pub is_signature_valid : Bool
  pub requested_sans : Option (List San)

-- A private key and the password that its file is encrypted with.
pub record PrivateKey : Type 0 where
  pub public_half : String
  pub is_p256_key : Bool
  pub locked_with : String

pub data Content : Type 0 where
  bundle : List Certificate → Content
  csr : Request → Content
  private_key : PrivateKey → Content
  other_content : Content

abbrev pub Files : Type 0
Files = Dict Content

-- The machine: paths, the clock, the X.509 library's fingerprints, its random keys and numbers.
pub record Machine : Type 0 where
  pub resolve_path : String → String
  pub is_within_workspace : String → Bool
  pub is_dir : String → Bool
  pub now : ℕ
  pub fingerprint : Certificate → String
  pub new_public_key : String
  pub new_serial : ℕ

abbrev pub failure : Error
failure = python value_error

abbrev pub require : Bool → Exec Files (Unit {0})
require holds = lift (refuse_if (not holds) failure)

unfoldable pub write : String → Content → Exec Files (Unit {0})
unfolding put
write path content files = (ok tt, put path content files)

abbrev pub days : ℕ → ℕ
days n = n * 86400

module _ (m : Machine) where
  unfoldable pub exists : Files → String → Bool
  unfolding get
  exists files path = is_some (get path files) || m.is_dir path

  -- `_require_output_available`
  unfoldable pub output_available : Bool → String → Files → Bool
  unfolding exists
  output_available overwrite path files =
      (overwrite || not (exists files path)) && not (m.is_dir path)

  unfoldable pub require_output : Bool → String → Exec Files (Unit {0})
  unfolding output_available
  require_output overwrite path files = require (output_available overwrite path files) files

  -- `_require_existing_file`
  unfoldable pub existing : String → Files → Result Content
  unfolding get
  existing path files = or_raise (get path files) failure

  abbrev pub certificates_in : Content → Option (List Certificate)
  certificates_in (bundle []) = none
  certificates_in (bundle (c ∷ cs)) = some (c ∷ cs)
  certificates_in _ = none

  -- `_read_certificate_bundle`
  unfoldable pub read_certificate_bundle : String → Files → Result (List Certificate)
  unfolding existing
  read_certificate_bundle path files =
      existing path files >>=? λ content. or_raise (certificates_in content) failure

  -- The end of an operation that writes nothing before it has succeeded.
  unfoldable pub write_if_ok : {A : Type 0} → String → (A → Content) → Result A → Exec Files A
  unfolding write
  write_if_ok path content (raise e) files = (raise e, files)
  write_if_ok path content (ok a) files = (write path (content a) >>= λ _. pure a) files

  -- `_require_ca_certificate`
  unfoldable pub is_ca_certificate : Certificate → Bool
  is_ca_certificate c = is_true c.basic_constraints && is_true c.key_cert_sign
    where
      is_true : Option Bool → Bool
      is_true none = false
      is_true (some b) = b

  -- `_pem_bundle`: the first certificate of each fingerprint, after those that were `seen`
  unfoldable pub distinct_certificates : List String → List Certificate → List Certificate
  unfolding contains
  distinct_certificates seen [] = []
  distinct_certificates seen (c ∷ cs) =
      let known = contains seen (m.fingerprint c) in
      let rest = distinct_certificates (if known then seen else m.fingerprint c ∷ seen) cs in
      if known then rest else c ∷ rest

  unfoldable pub pem_bundle : List Certificate → Result (List Certificate)
  unfolding distinct_certificates
  pem_bundle cs = elim (distinct_certificates [] cs) [
    | [] ↦ raise failure
    | ◌∷◌ c rest ↦ ok (c ∷ rest)
  ]

  abbrev pub is_allowed : San → Bool
  is_allowed (dns name) = true
  is_allowed (ip address) = true
  is_allowed (other_name name) = false

  -- `_gateway_san`
  unfoldable pub gateway_san : Request → Option (List San)
  gateway_san r = elim r.requested_sans [
    | none ↦ none
    | some entries ↦
        if leb 1 (length entries) && (leb (length entries) 16 && all is_allowed entries)
        then some entries
        else none
  ]
