-- ===== src/QrCode/Manifest.antt =====
-- The QR tool and the gateway agree: what the tool packs, the gateway's model reads.
use mathlib.Core.Path.{subst}
use dev_control_open_harmony.Prelude.{
  ℕ, suc, ◌+◌, ◌≡◌, refl, sym, ap, ◌∙◌, String, Bool, true, false, ◌&&◌, some, List, [], ◌∷◌,
  length, arith, leb, all, if◌then◌else◌, length-append, Option-cases, inl, inr,
}
use dev_control_open_harmony.Value.{Fields, object, field, text, end}
use dev_control_open_harmony.Errors.{
  ok, raise, python, value_error, >>=-eq-ok, ok-injective, ◌>>=◌ as ◌>>=?◌,
}
use dev_control_open_harmony.Validation.{
  is_identifier, identifier_codes, is_device_id, device_id_codes, is_device_name, is_compact_jws,
  is_segment, are_capabilities, has_length,
}
use dev_control_open_harmony.Validation.Requests.{DeviceIdentityDeclaration, registration_request}
use dev_control_open_harmony.Validation.Rendering.{
  identity_fields, manifest_fields, is_valid_identity, is_valid_proof, is_valid_registration,
  registration_request-registration_json,
}
use dev_control_open_harmony.Ascii.{codes, split_once}
use dev_control_open_harmony.Ascii.Pieces.{codes-split_once}
use dev_control_open_harmony.QrCode.{
  Arguments, Tools, Reply, identifier, identifiers, device_id, device_name, items, capabilities,
  compact_jws, declared, issue_gateway_proof, read_reply, manifest, certify, proof_of,
  text_or_empty,
}

-- A pattern bounds the length of what it matches.
identifier-length :
    (cs : List ℕ) → identifier_codes cs ≡ true → (leb 1 (length cs) && leb (length cs) 64) ≡ true
unfolding identifier_codes
identifier-length [] h = ground arith
identifier-length (c ∷ cs) h = ground arith

device_id-length :
    (cs : List ℕ) → device_id_codes cs ≡ true → (leb 3 (length cs) && leb (length cs) 64) ≡ true
unfolding device_id_codes
device_id-length [] h = ground arith
device_id-length (c ∷ cs) h = ground arith

split-length :
    (s : String) (p : String × String)
    → split_once b'.' s ≡ some p
    → length (codes s) ≡ length (codes p.0) + suc (length (codes p.1))
split-length s p h =
    ap length (codes-split_once b'.' s p h) ∙ length-append (codes p.0) (b'.' ∷ codes p.1)

is_compact_jws-length : (s : String) → is_compact_jws s ≡ true → leb 25 (length (codes s)) ≡ true
unfolding is_compact_jws is_segment
is_compact_jws-length s h = elim (Option-cases (split_once b'.' s)) [
  | inl whole ↦ absurd (ground arith)
  | inr p ↦ elim (Option-cases (split_once b'.' p.0.1)) [
    | inl whole ↦ absurd (ground arith)
    | inr q ↦ ground (arith, split-length s p.0 p.1, split-length p.0.1 q.0 q.1)
  ]
]

identifiers-all :
    (ss : List String)
    → identifiers ss ≡ (if all is_identifier ss then ok ss else raise (python value_error))
unfolding identifiers identifier
identifiers-all [] = refl
identifiers-all (s ∷ ss) = ground (arith, identifiers-all ss)

abbrev pub identity_of : Arguments → DeviceIdentityDeclaration
identity_of args = record {
  device_id = args.device_id_text;
  device_name = args.device_name_text;
  device_type = args.device_type;
  category_id = args.category_id;
  capabilities = items args.capabilities_text;
}

declared-identity :
    (args : Arguments)
    → declared args ≡ (
        if is_valid_identity (identity_of args)
        then ok (identity_fields (identity_of args))
        else raise (python value_error))
unfolding declared is_valid_identity device_id device_name identifier capabilities are_capabilities
    has_length is_identifier is_device_id is_device_name
declared-identity args = ground (
  arith,
  identifiers-all (items args.capabilities_text),
  identifier-length (codes args.device_type),
  identifier-length (codes args.category_id),
  device_id-length (codes args.device_id_text),
)

compact_jws-valid :
    (value proof : String) → compact_jws value ≡ ok proof → is_valid_proof proof ≡ true
unfolding compact_jws is_valid_proof has_length
compact_jws-valid value proof h =
    let same : value ≡ proof = ground arith in
    subst (λ s. (has_length 25 4096 s && is_compact_jws s) ≡ true) same
      (ground (arith, is_compact_jws-length value))

read_reply-valid :
    (t : Tools) (reply : Reply) (proof : String)
    → read_reply t reply ≡ ok proof
    → is_valid_proof proof ≡ true
unfolding read_reply
read_reply-valid t Reply.http_error proof h = absurd (ground arith)
read_reply-valid t Reply.unavailable proof h = absurd (ground arith)
read_reply-valid t Reply.undecodable proof h = absurd (ground arith)
read_reply-valid t (Reply.answered raw) proof h = elim (Option-cases (proof_of (t.loads raw))) [
  | inl missing ↦ absurd (ground arith)
  | inr found ↦ compact_jws-valid found.0 proof (ground arith)
]

issue-valid :
    (t : Tools) (args : Arguments) (d : Fields) (proof : String)
    → issue_gateway_proof t args d ≡ ok proof
    → is_valid_proof proof ≡ true
unfolding issue_gateway_proof
issue-valid t args d proof h =
    let url = args.admin_url in
    let reply = t.post url (text_or_empty args.admin_token) (t.dumps (object d)) in
    ground (
      arith,
      compact_jws-valid (text_or_empty args.gateway_proof) proof,
      read_reply-valid t reply proof,
    )

-- The manifest, by whether its declaration is valid.
manifest_by :
    (t : Tools) (args : Arguments) (valid : Bool) (fields : Fields)
    → ((if valid then ok (identity_fields (identity_of args)) else raise (python value_error))
        >>=? certify t args)
      ≡ ok fields
    → (proof : String) × (valid ≡ true)
      × (is_valid_proof proof ≡ true)
      × (manifest_fields (identity_of args) proof ≡ fields)
unfolding certify
manifest_by t args false fields h = absurd (ground arith)
manifest_by t args true fields h =
    let declaration = identity_fields (identity_of args) end in
    let (proof, issued, packed) = >>=-eq-ok (issue_gateway_proof t args declaration) _ h in
    (proof, refl, issue-valid t args declaration proof issued, ok-injective packed)

-- Whatever manifest the QR tool makes, the gateway accepts it once a room identifier is added, and
-- reads from it the device that the arguments of the tool describe.
pub registration_request-manifest :
    (t : Tools) (args : Arguments) (room_id : String) (fields : Fields)
    → is_identifier room_id ≡ true
    → manifest t args ≡ ok fields
    → (proof : String) × (registration_request (object (field "roomId" (text room_id) fields))
        ≡ some (record { identity = identity_of args; room_id = room_id; gateway_proof = proof }))
unfolding manifest is_valid_registration is_identifier has_length
registration_request-manifest t args room_id fields here h =
    let (proof, valid, signed, packed) =
      manifest_by t args (is_valid_identity (identity_of args)) fields
        (ap (λ r. r >>=? certify t args) (sym (declared-identity args)) ∙ h) in
    (
      proof,
      ap (λ fs. registration_request (object (field "roomId" (text room_id) fs))) (sym packed)
          ∙ registration_request-registration_json
              (record { identity = identity_of args; room_id = room_id; gateway_proof = proof })
          ∙ ground (arith, identifier-length (codes room_id)),
    )
