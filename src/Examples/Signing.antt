-- ===== src/Examples/Signing.antt =====
-- The theorems about the signing administration, on a workspace with two roots and a request.
use dev_control_open_harmony.Prelude.{
  ◌≤◌, ◌≡◌, refl, String, true, false, ◌||◌, some, List, [], ◌∷◌, ◌++◌, map, length, All,
}
use dev_control_open_harmony.Errors.{ok}
use dev_control_open_harmony.Dict.{get}
use dev_control_open_harmony.Validation.{distinct}
use dev_control_open_harmony.Signing.{
  Machine, Certificate, PrivateKey, Request, Files, dns, csr, bundle, private_key, existing,
}
use dev_control_open_harmony.Signing.Operations.{
  sign_gateway_csr, stage_root_ca_rotation, gateway_certificate,
}
use dev_control_open_harmony.Signing.Issue.{IsCa, IsIssued, sign_gateway_csr-IsIssued}
use dev_control_open_harmony.Signing.Rotation.{has_fingerprint, stage_root_ca_rotation-bundle}

abbrev machine : Machine
machine = record {
  resolve_path = λ p. p;
  is_within_workspace = λ p. false;
  is_dir = λ p. false;
  now = 1000000;
  fingerprint = λ c. c.public_key;
  new_public_key = "new";
  new_serial = 5;
}

abbrev root : String → Certificate
root key = record {
  subject = key;
  issuer = key;
  public_key = key;
  serial_number = 1;
  not_before = 0;
  not_after = 2000000;
  basic_constraints = some true;
  key_cert_sign = some true;
  sans = [];
  signed_with = key;
}

abbrev asked : Request
asked = record {
  subject = "gateway";
  public_key = "gateway";
  is_p256 = true;
  is_signature_valid = true;
  requested_sans = some (dns "gateway.local" ∷ []);
}

abbrev files : Files
files =
    ("gateway.csr", csr asked)
    ∷ ("ca.crt", bundle (root "old" ∷ []))
    ∷ (
      "ca.key",
      private_key (record { public_half = "old"; is_p256_key = true; locked_with = "secret" }),
    )
    ∷ ("next.crt", bundle (root "next" ∷ []))
    ∷ []

abbrev key : PrivateKey
key = record { public_half = "old"; is_p256_key = true; locked_with = "secret" }

abbrev issued : Certificate
issued = gateway_certificate machine asked (dns "gateway.local" ∷ []) (root "old") key 2000000

signs :
    (sign_gateway_csr machine "gateway.csr" "ca.crt" "ca.key" "secret" "out.crt" 90 false files).0
    ≡ ok issued
unfolding sign_gateway_csr
signs = refl

sign_gateway_csr-IsIssued_example :
    ((r : Request) × (ca : Certificate) × (k : PrivateKey) × (existing machine "gateway.csr" files
        ≡ ok (csr r))
      × (existing machine "ca.crt" files ≡ ok (bundle (ca ∷ [])))
      × (existing machine "ca.key" files ≡ ok (private_key k))
      × (k.locked_with ≡ "secret")
      × (issued.signed_with ≡ k.public_half)
      × (90 ≤ 397)
      × IsIssued machine 90 r ca issued)
    × (get "out.crt"
          (sign_gateway_csr machine "gateway.csr" "ca.crt" "ca.key" "secret" "out.crt" 90 false
            files).1
        ≡ some (bundle (issued ∷ [])))
sign_gateway_csr-IsIssued_example =
    sign_gateway_csr-IsIssued machine "gateway.csr" "ca.crt" "ca.key" "secret" "out.crt" 90 false
      files issued signs

stages : (stage_root_ca_rotation machine "ca.crt" "next.crt" "trust.crt" false files).0 ≡ ok 2
unfolding stage_root_ca_rotation
stages = refl

stage_root_ca_rotation-bundle_example :
    (cs : List Certificate) × (get "trust.crt"
        (stage_root_ca_rotation machine "ca.crt" "next.crt" "trust.crt" false files).1
      ≡ some (bundle cs))
    × (2 ≡ length cs)
    × (old : List Certificate) × (new : List Certificate) × (existing machine "ca.crt" files
        ≡ ok (bundle old))
    × (existing machine "next.crt" files ≡ ok (bundle new))
    × (has_fingerprint machine "next" cs
        ≡ (has_fingerprint machine "next" old || has_fingerprint machine "next" new))
    × (distinct (map machine.fingerprint cs) ≡ true)
    × All IsCa (old ++ new)
stage_root_ca_rotation-bundle_example =
    stage_root_ca_rotation-bundle machine "ca.crt" "next.crt" "trust.crt" false files 2 "next"
      stages
