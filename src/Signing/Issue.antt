-- ===== src/Signing/Issue.antt =====
-- The certificates that the signing administration issues for gateways.
use mathlib.Core.Path.{subst}
use mathlib.Core.Option.{some-injective}
use dev_control_open_harmony.Prelude.{
  ℕ, ◌+◌, ◌≤◌, ◌<◌, ◌≡◌, refl, ap, sym, eq_iff, ◌∙◌, min, String, Bool, true, false, some, List, [],
  ◌∷◌, arith, leb, length, Option-cases, inl, inr, all,
}
use dev_control_open_harmony.Errors.{Result, ok, raise, Result-cases, >>=-eq-ok, or_raise-eq-ok}
use dev_control_open_harmony.Dict.{get}
use dev_control_open_harmony.Dict.Laws.{get-put}
use dev_control_open_harmony.Signing.{
  Machine, csr, private_key, other_content, San, Certificate, Request, Content, Files, csr, bundle,
  days, failure, existing, gateway_san, is_allowed, read_certificate_bundle, certificates_in,
  is_ca_certificate, PrivateKey, write_if_ok, write,
}
use dev_control_open_harmony.Signing.Operations.{
  approve, approve_files, gateway_certificate, only_one, unlocked, sign_gateway_csr, as_csr,
}

-- What is certified for a request under a CA.
unfoldable pub IsIssued : Machine → ℕ → Request → Certificate → Certificate → Type 0
IsIssued m valid_days r ca c =
    (m.now < c.not_after)
    × (c.not_after ≤ m.now + days valid_days)
    × (c.not_after ≤ ca.not_after)
    × (ca.basic_constraints ≡ some true)
    × (ca.key_cert_sign ≡ some true)
    × (c.issuer ≡ ca.subject)
    × (c.signed_with ≡ ca.public_key)
    × (c.public_key ≡ r.public_key)
    × (c.basic_constraints ≡ some false)
    × (r.requested_sans ≡ some c.sans)
    × (length c.sans ≤ 16)
    × (all (is_allowed m) c.sans ≡ true)

gateway_san-ok :
    (m : Machine) (r : Request) (san : List San)
    → gateway_san m r ≡ some san
    → (r.requested_sans ≡ some san) × (length san ≤ 16) × (all (is_allowed m) san ≡ true)
unfolding gateway_san
gateway_san-ok m r san h = elim (Option-cases r.requested_sans) [
  | inl none_there ↦ absurd (ground arith)
  | inr there ↦
      let same : there.0 ≡ san = ground arith in
      subst (λ s. (r.requested_sans ≡ some s) × (length s ≤ 16) × (all (is_allowed m) s ≡ true))
        same (there.1, ground arith, ground arith)
]

only_one-ok :
    (m : Machine) (cas : List Certificate) (ca : Certificate)
    → only_one m cas ≡ some ca
    → cas ≡ ca ∷ []
only_one-ok m [] ca h = absurd (ground arith)
only_one-ok m (c ∷ []) ca h = ap (λ x. x ∷ []) (some-injective c ca h)
only_one-ok m (c ∷ d ∷ cs) ca h = absurd (ground arith)

-- A root that may sign certificates.
abbrev pub IsCa : Certificate → Type 0
IsCa c = (c.basic_constraints ≡ some true) × (c.key_cert_sign ≡ some true)

pub is_ca_certificate-IsCa : (m : Machine) (c : Certificate) → is_ca_certificate m c ≡ true → IsCa c
unfolding is_ca_certificate
is_ca_certificate-IsCa m c h = ground arith

unlocked-ok :
    (m : Machine) (password : String) (content : Content) (k : PrivateKey)
    → unlocked m password content ≡ some k
    → (content ≡ private_key k) × (k.locked_with ≡ password)
unlocked-ok m password (csr q) k h = absurd (ground arith)
unlocked-ok m password (bundle cs) k h = absurd (ground arith)
unlocked-ok m password other_content k h = absurd (ground arith)
unlocked-ok m password (private_key j) k h =
    let same : j ≡ k = ground arith in
    (
      ap private_key same,
      ap (λ i. i.locked_with) (sym same) ∙ (eq_iff j.locked_with password).0 (ground arith),
    )

approve-IsIssued :
    (m : Machine) (valid_days : ℕ) (password : String) (r : Request) (cas : List Certificate)
    (key_file : Content) (c : Certificate)
    → approve m valid_days password r cas key_file ≡ ok c
    → (ca : Certificate) × (k : PrivateKey) × (cas ≡ ca ∷ [])
      × (key_file ≡ private_key k)
      × (k.locked_with ≡ password)
      × (c.signed_with ≡ k.public_half)
      × IsIssued m valid_days r ca c
unfolding approve IsIssued
approve-IsIssued m valid_days password r cas key_file c h = elim (Option-cases (gateway_san m r)) [
  | inl no_san ↦ absurd (ground arith)
  | inr san ↦ elim (Option-cases (only_one m cas)) [
    | inl no_ca ↦ absurd (ground arith)
    | inr ca ↦ elim (Option-cases (unlocked m password key_file)) [
      | inl locked ↦ absurd (ground arith)
      | inr key ↦
          let expires = min (m.now + days valid_days) ca.0.not_after in
          let same : gateway_certificate m r san.0 ca.0 key.0 expires ≡ c = ground arith in
          let alive : leb expires m.now ≡ false = ground arith in
          let (is_ca, may_sign) = is_ca_certificate-IsCa m ca.0 (ground arith) in
          let matching : ca.0.public_key ≡ key.0.public_half =
            (eq_iff ca.0.public_key key.0.public_half).0 (ground arith) in
          let (found, unlocks) = unlocked-ok m password key_file key.0 key.1 in
          let (asked, few, plain) = gateway_san-ok m r san.0 san.1 in
          (
            ca.0,
            key.0,
            only_one-ok m cas ca.0 ca.1,
            found,
            unlocks,
            ap (λ d. d.signed_with) (sym same),
            subst (IsIssued m valid_days r ca.0) same (
              ground arith,
              ground arith,
              ground arith,
              is_ca,
              may_sign,
              refl,
              sym matching,
              refl,
              refl,
              asked,
              few,
              plain,
            ),
          )
    ]
  ]
]

as_csr-ok :
    (m : Machine) (content : Content) (r : Request) → as_csr m content ≡ some r → content ≡ csr r
as_csr-ok m (csr q) r h = ap csr (some-injective q r h)
as_csr-ok m (bundle cs) r h = absurd (ground arith)
as_csr-ok m (private_key k) r h = absurd (ground arith)
as_csr-ok m other_content r h = absurd (ground arith)

certificates_in-ok :
    (m : Machine) (content : Content) (cs : List Certificate)
    → certificates_in m content ≡ some cs
    → content ≡ bundle cs
certificates_in-ok m (csr q) cs h = absurd (ground arith)
certificates_in-ok m (bundle []) cs h = absurd (ground arith)
certificates_in-ok m (bundle (d ∷ ds)) cs h = ap bundle (some-injective (d ∷ ds) cs h)
certificates_in-ok m (private_key k) cs h = absurd (ground arith)
certificates_in-ok m other_content cs h = absurd (ground arith)

pub read_certificate_bundle-ok :
    (m : Machine) (path : String) (files : Files) (cs : List Certificate)
    → read_certificate_bundle m path files ≡ ok cs
    → existing m path files ≡ ok (bundle cs)
unfolding read_certificate_bundle
read_certificate_bundle-ok m path files cs h =
    let (content, found, held) = >>=-eq-ok (existing m path files) _ h in
    found ∙ ap ok (certificates_in-ok m content cs (or_raise-eq-ok _ failure held))

pub write_if_ok-ok :
    {A : Type 0} (m : Machine) (path : String) (content : A → Content) (result : Result A)
    (files : Files) (a : A)
    → (write_if_ok m path content result files).0 ≡ ok a
    → result ≡ ok a
unfolding write_if_ok write
write_if_ok-ok m path content (raise e) files a h = h
write_if_ok-ok m path content (ok b) files a h = h

pub write_if_ok-written :
    {A : Type 0} (m : Machine) (path : String) (content : A → Content) (result : Result A)
    (files : Files) (a : A)
    → (write_if_ok m path content result files).0 ≡ ok a
    → get path (write_if_ok m path content result files).1 ≡ some (content a)
unfolding write_if_ok write
write_if_ok-written m path content (raise e) files a h = cc
write_if_ok-written m path content (ok b) files a h =
    ground (arith, get-put path path (content b) files, eq_iff path path)

approve_files-IsIssued :
    (m : Machine) (csr_path ca_path key_path password output_path : String) (valid_days : ℕ)
    (overwrite : Bool) (files : Files) (c : Certificate)
    → approve_files m csr_path ca_path key_path password output_path valid_days overwrite files
      ≡ ok c
    → (r : Request) × (ca : Certificate) × (k : PrivateKey) × (existing m
          (m.resolve_path csr_path)
          files
        ≡ ok (csr r))
      × (existing m (m.resolve_path ca_path) files ≡ ok (bundle (ca ∷ [])))
      × (existing m (m.resolve_path key_path) files ≡ ok (private_key k))
      × (k.locked_with ≡ password)
      × (c.signed_with ≡ k.public_half)
      × (valid_days ≤ 397)
      × IsIssued m valid_days r ca c
unfolding approve_files
approve_files-IsIssued m csr_path ca_path key_path password output_path valid_days overwrite files c
      h =
    let csr_read = existing m (m.resolve_path csr_path) files in
    let ca_read = existing m (m.resolve_path ca_path) files in
    let key_read = existing m (m.resolve_path key_path) files in
    let cas_read = read_certificate_bundle m (m.resolve_path ca_path) files in
    elim (Result-cases csr_read) [
      | inl no_csr ↦ absurd (ground arith)
      | inr csr_file ↦ elim (Result-cases ca_read) [
        | inl no_ca ↦ absurd (ground arith)
        | inr ca_file ↦ elim (Result-cases key_read) [
          | inl no_key ↦ absurd (ground arith)
          | inr key_file ↦ elim (Option-cases (as_csr m csr_file.0)) [
            | inl no_request ↦ absurd (ground arith)
            | inr r ↦ elim (Result-cases cas_read) [
              | inl no_bundle ↦ absurd (ground arith)
              | inr cas ↦
                  let approved : approve m valid_days password r.0 cas.0 key_file.0 ≡ ok c =
                    ground arith in
                  let (ca, k, one, is_key, unlocks, signed, issued) =
                    approve-IsIssued m valid_days password r.0 cas.0 key_file.0 c approved in
                  (
                    r.0,
                    ca,
                    k,
                    csr_file.1 ∙ ap ok (as_csr-ok m csr_file.0 r.0 r.1),
                    read_certificate_bundle-ok m (m.resolve_path ca_path) files cas.0 cas.1
                        ∙ ap (λ cs. ok (bundle cs)) one,
                    key_file.1 ∙ ap ok is_key,
                    unlocks,
                    signed,
                    ground arith,
                    issued,
                  )
            ]
          ]
        ]
      ]
    ]

-- A certificate that is signed for a gateway is what the output file then holds; it is for the
-- public key and the names of the request file, signed with the key of the key file, which the
-- password opens and which is the key of the one certificate of the CA file, a CA that may sign
-- certificates; it is no CA itself, and is valid beyond now, for 397 days at most, and no longer
-- than the CA.
pub sign_gateway_csr-IsIssued :
    (m : Machine) (csr_path ca_path key_path password output_path : String) (valid_days : ℕ)
    (overwrite : Bool) (files : Files) (c : Certificate)
    → (sign_gateway_csr m csr_path ca_path key_path password output_path valid_days overwrite
        files).0
      ≡ ok c
    → ((r : Request) × (ca : Certificate) × (k : PrivateKey) × (existing m
            (m.resolve_path csr_path)
            files
          ≡ ok (csr r))
        × (existing m (m.resolve_path ca_path) files ≡ ok (bundle (ca ∷ [])))
        × (existing m (m.resolve_path key_path) files ≡ ok (private_key k))
        × (k.locked_with ≡ password)
        × (c.signed_with ≡ k.public_half)
        × (valid_days ≤ 397)
        × IsIssued m valid_days r ca c)
      × (get
            (m.resolve_path output_path)
            (sign_gateway_csr m csr_path ca_path key_path password output_path valid_days overwrite
              files).1
          ≡ some (bundle (c ∷ [])))
unfolding sign_gateway_csr
sign_gateway_csr-IsIssued m csr_path ca_path key_path password output_path valid_days overwrite
      files c h =
    let output = m.resolve_path output_path in
    let approved =
      approve_files m csr_path ca_path key_path password output_path valid_days overwrite files in
    (
      approve_files-IsIssued m csr_path ca_path key_path password output_path valid_days overwrite
          files c (write_if_ok-ok m output (λ d. bundle (d ∷ [])) approved files c h),
      write_if_ok-written m output (λ d. bundle (d ∷ [])) approved files c h,
    )
