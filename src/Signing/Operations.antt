-- ===== src/Signing/Operations.antt =====
-- The operations of `SigningAdminService`, SigningAdmin/signing_admin/service.py.
use dev_control_open_harmony.Prelude.{
  ℕ, ◌+◌, ◌-◌, min, String, Bool, true, false, not, ◌&&◌, Option, none, some, List, [], ◌∷◌, ◌++◌,
  ◌==◌, leb, all, concat, length, if◌then◌else◌,
}
use dev_control_open_harmony.Errors.{Result, ok, refuse_if, or_raise, ◌>>=◌ as ◌>>=?◌}
use dev_control_open_harmony.Exec.{Exec, pure, ◌>>=◌, ◌>>◌}
use dev_control_open_harmony.Dict.{put}
use dev_control_open_harmony.Ascii.{strip}
use dev_control_open_harmony.Signing.{
  Machine, San, Certificate, Request, PrivateKey, Content, Files, failure, require, write, days,
  output_available, require_output, existing, read_certificate_bundle, write_if_ok,
  is_ca_certificate, pem_bundle, gateway_san, bundle, csr, private_key,
}

module _ (m : Machine) where
  abbrev ca_certificate : String → ℕ → Certificate
  ca_certificate name valid_days = record {
    subject = name;
    issuer = name;
    public_key = m.new_public_key;
    serial_number = m.new_serial;
    not_before = m.now - 300;
    not_after = m.now + days valid_days;
    basic_constraints = some true;
    key_cert_sign = some true;
    sans = [];
    signed_with = m.new_public_key;
  }

  -- The password is looked at after the certificate was written.
  unfoldable pub initialize_project_ca :
      String → String → String → ℕ → String → Bool → Exec Files Certificate
  unfolding require_output put strip
  initialize_project_ca issuer_root app_ca_path common_name valid_days password overwrite =
      let directory = m.resolve_path issuer_root in
      let target = m.resolve_path app_ca_path in
      let certificate_path = concat (directory ∷ "/project-ca.crt" ∷ []) in
      let key_path = concat (directory ∷ "/project-ca.key" ∷ []) in
      let certificate = ca_certificate (strip common_name) valid_days in
      require (leb 365 valid_days && leb valid_days 7300)
      >> require (not (strip common_name == ""))
      >> require (not (m.is_within_workspace directory))
      >> require_output m overwrite certificate_path
      >> require_output m overwrite key_path
      >> require_output m overwrite target
      >> write certificate_path (bundle (certificate ∷ []))
      >> require (not (password == ""))
      >> write key_path (
          private_key
            (record { public_half = m.new_public_key; is_p256_key = true; locked_with = password }))
      >> write target (bundle (certificate ∷ []))
      >> pure certificate

  abbrev pub as_csr : Content → Option Request
  as_csr (csr r) = some r
  as_csr _ = none

  abbrev pub unlocked : String → Content → Option PrivateKey
  unlocked password (private_key k) =
      if not (password == "") && k.locked_with == password then some k else none
  unlocked password _ = none

  abbrev pub only_one : List Certificate → Option Certificate
  only_one (c ∷ []) = some c
  only_one _ = none

  abbrev pub gateway_certificate : Request → List San → Certificate → PrivateKey → ℕ → Certificate
  gateway_certificate r san ca k expires_at = record {
    subject = r.subject;
    issuer = ca.subject;
    public_key = r.public_key;
    serial_number = m.new_serial;
    not_before = m.now - 300;
    not_after = expires_at;
    basic_constraints = some false;
    key_cert_sign = some false;
    sans = san;
    signed_with = k.public_half;
  }

  -- The certificate for a request, once the files are read.
  unfoldable pub approve : ℕ → String → Request → List Certificate → Content → Result Certificate
  unfolding gateway_san is_ca_certificate
  approve valid_days password r cas key_file =
      refuse_if (not r.is_signature_valid) failure >>=? λ _.
      refuse_if (not r.is_p256) failure >>=? λ _. or_raise (gateway_san m r) failure >>=? λ san.
      or_raise (only_one cas) failure >>=? λ ca.
      refuse_if (not (is_ca_certificate m ca)) failure >>=? λ _.
      or_raise (unlocked password key_file) failure >>=? λ k.
      refuse_if (not k.is_p256_key) failure >>=? λ _.
      refuse_if (not (ca.public_key == k.public_half)) failure >>=? λ _.
      let expires_at = min (m.now + days valid_days) ca.not_after in
      refuse_if (leb expires_at m.now) failure >>=? λ _.
      ok (gateway_certificate r san ca k expires_at)

  unfoldable pub approve_files :
      String → String → String → String → String → ℕ → Bool → Files → Result Certificate
  unfolding existing output_available read_certificate_bundle approve
  approve_files csr_path ca_path key_path password output_path valid_days overwrite files =
      refuse_if (not (leb 1 valid_days && leb valid_days 397)) failure >>=? λ _.
      existing m (m.resolve_path csr_path) files >>=? λ csr_file.
      existing m (m.resolve_path ca_path) files >>=? λ _.
      existing m (m.resolve_path key_path) files >>=? λ key_file.
      refuse_if (not (output_available m overwrite (m.resolve_path output_path) files)) failure
      >>=? λ _. or_raise (as_csr csr_file) failure >>=? λ r.
          read_certificate_bundle m (m.resolve_path ca_path) files >>=? λ cas.
          approve valid_days password r cas key_file

  unfoldable pub sign_gateway_csr :
      String → String → String → String → String → ℕ → Bool → Exec Files Certificate
  unfolding approve_files write_if_ok
  sign_gateway_csr csr_path ca_path key_path password output_path valid_days overwrite files =
      write_if_ok m (m.resolve_path output_path) (λ c. bundle (c ∷ []))
        (approve_files csr_path ca_path key_path password output_path valid_days overwrite files)
        files

  unfoldable pub bundle_of : List Certificate → Result (List Certificate)
  unfolding is_ca_certificate pem_bundle
  bundle_of cs = refuse_if (not (all (is_ca_certificate m) cs)) failure >>=? λ _. pem_bundle m cs

  unfoldable pub staged : String → String → String → Bool → Files → Result (List Certificate)
  unfolding output_available read_certificate_bundle bundle_of
  staged existing_path new_path app_path overwrite files =
      refuse_if (not (output_available m overwrite (m.resolve_path app_path) files)) failure
      >>=? λ _. read_certificate_bundle m (m.resolve_path existing_path) files >>=? λ old.
          read_certificate_bundle m (m.resolve_path new_path) files >>=? λ new.
          bundle_of (old ++ new)

  -- `len(_read_certificate_bundle(target_file))`
  unfoldable pub certificate_count : String → Exec Files ℕ
  unfolding read_certificate_bundle
  certificate_count path files =
      (read_certificate_bundle m path files >>=? λ cs. ok (length cs), files)

  -- The answer is the number of certificates in the file that was written.
  unfoldable pub stage_root_ca_rotation : String → String → String → Bool → Exec Files ℕ
  unfolding staged write_if_ok certificate_count
  stage_root_ca_rotation existing_path new_path app_path overwrite files =
      (write_if_ok m (m.resolve_path app_path) bundle
            (staged existing_path new_path app_path overwrite files)
          >>= λ _. certificate_count (m.resolve_path app_path))
        files

  -- The certificates that were read, and those of the bundle.
  unfoldable pub finalized :
      String → String → Bool → Files → Result (List Certificate × List Certificate)
  unfolding output_available read_certificate_bundle bundle_of
  finalized new_path app_path overwrite files =
      refuse_if (not (output_available m overwrite (m.resolve_path app_path) files)) failure
      >>=? λ _. read_certificate_bundle m (m.resolve_path new_path) files >>=? λ new.
          bundle_of new >>=? λ cs. ok (new, cs)

  -- The answer is the number of certificates that were read.
  unfoldable pub finalize_root_ca_rotation : String → String → Bool → Exec Files ℕ
  unfolding finalized write_if_ok
  finalize_root_ca_rotation new_path app_path overwrite files =
      (write_if_ok m (m.resolve_path app_path) (λ p. bundle p.1)
            (finalized new_path app_path overwrite files)
          >>= λ p. pure (length p.0))
        files
