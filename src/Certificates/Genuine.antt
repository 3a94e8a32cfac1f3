-- ===== src/Certificates/Genuine.antt =====
-- What an accepted device certificate proves, and with which error another is refused.
use Prim.Native.String.{◌++◌ as ◌<>◌}
use mathlib.Core.Path.{ap₂}
use mathlib.Core.Option.{some-injective}
use dev_control_open_harmony.Prelude.{
  ◌≡◌, refl, sym, ap, ◌∙◌, String, Bool, ◌&&◌, true, Option, none, some, List, [], ◌∷◌, arith,
  eq_iff, Option-cases, inl, inr, ◌⊎◌, ◌++◌, length, take, drop,
}
use dev_control_open_harmony.Value.{Value, null, boolean, integer, real, text, array, object}
use dev_control_open_harmony.Errors.{Error, ok, raise, code_of, device_proof_invalid}
use dev_control_open_harmony.Dict.{Dict, get}
use dev_control_open_harmony.Ascii.{codes, split_once}
use dev_control_open_harmony.Ascii.Pieces.{codes-split_once}
use dev_control_open_harmony.Base64.{Bytes, base64url_decode}
use dev_control_open_harmony.Registry.Provisioning.{is_text, same_texts}
use dev_control_open_harmony.Validation.{text_of}
use dev_control_open_harmony.Validation.Requests.{
  DeviceIdentityDeclaration, DeviceRegistrationRequest,
}
use dev_control_open_harmony.Certificates.{
  Authority, Segments, is_supported, is_absent_or, decode_object, from_bytes, is_own, names,
  segments, is_signed, verify, equal_texts, texts_at,
}

pub verify-raise :
    (a : Authority) (r : DeviceRegistrationRequest) (e : Error)
    → verify a r ≡ raise e
    → code_of e ≡ some device_proof_invalid
unfolding verify
verify-raise a r e h = ground arith

checked :
    (a : Authority) (r : DeviceRegistrationRequest) (fingerprint : String)
    → verify a r ≡ ok fingerprint
    → (s : Segments) × (segments a r.gateway_proof ≡ some s)
      × (is_supported s.header_fields ≡ true)
      × (length s.signature ≡ 64)
      × (is_signed a s ≡ true)
      × (is_own s.claim_fields ≡ true)
      × (names s.claim_fields r.identity ≡ true)
      × (fingerprint ≡ a.sha256_hex (codes r.gateway_proof))
unfolding verify
checked a r fingerprint h = elim (Option-cases (segments a r.gateway_proof)) [
  | inl unread ↦ absurd (ground arith)
  | inr read ↦ (
    read.0,
    read.1,
    ground arith,
    ground arith,
    ground arith,
    ground arith,
    ground arith,
    ground arith,
  )
]

-- The claims of this gateway about a device.
pub record Claims (c : Dict Value) (d : DeviceIdentityDeclaration) : Type 0 where
  pub issuer : get "iss" c ≡ some (text "devcontrol-virtual-gateway")
  pub audience : get "aud" c ≡ some (text "devcontrol.device-registration")
  pub kind :
      (get "certificateType" c ≡ none)
      ⊎ (get "certificateType" c ≡ some (text "device-identity-v1"))
  pub device_id : get "deviceId" c ≡ some (text d.device_id)
  pub device_name : get "deviceName" c ≡ some (text d.device_name)
  pub device_type : get "deviceType" c ≡ some (text d.device_type)
  pub category_id : get "categoryId" c ≡ some (text d.category_id)
  pub capabilities : texts_at (get "capabilities" c) ≡ some d.capabilities

-- A compact JWS of this gateway about a device.
pub record Genuine (a : Authority) (proof : String) (d : DeviceIdentityDeclaration) : Type 0 where
  pub header_text : String
  pub claim_text : String
  pub signature_text : String
  pub header_fields : Dict Value
  pub claim_fields : Dict Value
  pub signature : Bytes
  pub three :
      codes proof ≡ codes header_text ++ b'.' ∷ (codes claim_text ++ b'.' ∷ codes signature_text)
  pub header_decoded : decode_object a header_text ≡ some header_fields
  pub claims_decoded : decode_object a claim_text ≡ some claim_fields
  pub signature_decoded : base64url_decode signature_text ≡ some signature
  pub algorithm : get "alg" header_fields ≡ some (text "ES256")
  pub kind : get "typ" header_fields ≡ some (text "JWT")
  pub long : length signature ≡ 64
  pub signed :
      a.verifies
        (codes (header_text <> ("." <> claim_text)))
        (from_bytes 0 (take 32 signature), from_bytes 0 (drop 32 signature))
      ≡ true
  pub claims : Claims claim_fields d

same_text : (o : Option String) (s t : String) → is_text o s ≡ true → is_text o t ≡ true → s ≡ t
same_text none s t hs ht = absurd (ground arith)
same_text (some u) s t hs ht = sym ((eq_iff u s).0 hs) ∙ (eq_iff u t).0 ht

same_texts-eq : (xs ys : List String) → same_texts xs ys ≡ true → xs ≡ ys
same_texts-eq [] [] h = refl
same_texts-eq [] (y ∷ ys) h = absurd (ground arith)
same_texts-eq (x ∷ xs) [] h = absurd (ground arith)
same_texts-eq (x ∷ xs) (y ∷ ys) h =
    ap₂ (λ z zs. z ∷ zs) ((eq_iff x y).0 (ground arith)) (same_texts-eq xs ys (ground arith))

equal_texts-eq :
    (o : Option (List String)) (xs ys : List String)
    → equal_texts o xs ≡ true
    → equal_texts o ys ≡ true
    → xs ≡ ys
equal_texts-eq none xs ys hx hy = absurd (ground arith)
equal_texts-eq (some zs) xs ys hx hy = sym (same_texts-eq zs xs hx) ∙ same_texts-eq zs ys hy

is_text-text : (o : Option Value) (s : String) → is_text (text_of o) s ≡ true → o ≡ some (text s)
is_text-text none s h = absurd (ground arith)
is_text-text (some (text t)) s h = ap (λ u. some (text u)) ((eq_iff t s).0 h)
is_text-text (some null) s h = absurd (ground arith)
is_text-text (some (boolean b)) s h = absurd (ground arith)
is_text-text (some (integer n)) s h = absurd (ground arith)
is_text-text (some (real x)) s h = absurd (ground arith)
is_text-text (some (array vs)) s h = absurd (ground arith)
is_text-text (some (object fs)) s h = absurd (ground arith)

equal_texts-some :
    (o : Option (List String)) (xs : List String) → equal_texts o xs ≡ true → o ≡ some xs
equal_texts-some none xs h = absurd (ground arith)
equal_texts-some (some zs) xs h = ap some (same_texts-eq zs xs h)

is_absent_or-cases :
    (s : String) (o : Option Value) → is_absent_or s o ≡ true → (o ≡ none) ⊎ (o ≡ some (text s))
is_absent_or-cases s none h = inl refl
is_absent_or-cases s (some v) h = inr (is_text-text (some v) s h)

both_true : (b c : Bool) → (b && c) ≡ true → (b ≡ true) × (c ≡ true)
both_true b c h = (ground arith, ground arith)

claimed :
    (c : Dict Value) (d : DeviceIdentityDeclaration)
    → is_own c ≡ true
    → names c d ≡ true
    → Claims c d
unfolding is_own names
claimed c d own named =
    let (issuer, own_rest) = both_true _ _ own in
    let (audience, kind) = both_true _ _ own_rest in
    let (device_id, named_1) = both_true _ _ named in
    let (device_name, named_2) = both_true _ _ named_1 in
    let (device_type, named_3) = both_true _ _ named_2 in
    let (category_id, capabilities) = both_true _ _ named_3 in
    record {
      issuer = is_text-text _ _ issuer;
      audience = is_text-text _ _ audience;
      kind = is_absent_or-cases _ _ kind;
      device_id = is_text-text _ _ device_id;
      device_name = is_text-text _ _ device_name;
      device_type = is_text-text _ _ device_type;
      category_id = is_text-text _ _ category_id;
      capabilities = equal_texts-some _ _ capabilities;
    }

names-identity :
    (c : Dict Value) (d e : DeviceIdentityDeclaration) → names c d ≡ true → names c e ≡ true → d ≡ e
unfolding names
names-identity c d e hd he = λ i. record {
  device_id =
      same_text (text_of (get "deviceId" c)) d.device_id e.device_id (ground arith) (ground arith)
        i;
  device_name =
      same_text (text_of (get "deviceName" c)) d.device_name e.device_name (ground arith)
        (ground arith) i;
  device_type =
      same_text (text_of (get "deviceType" c)) d.device_type e.device_type (ground arith)
        (ground arith) i;
  category_id =
      same_text (text_of (get "categoryId" c)) d.category_id e.category_id (ground arith)
        (ground arith) i;
  capabilities =
      equal_texts-eq (texts_at (get "capabilities" c)) d.capabilities e.capabilities (ground arith)
        (ground arith) i;
}

-- Two registrations that are both verified with the same certificate declare the same identity,
-- field by field.
pub one_identity :
    (a : Authority) (r q : DeviceRegistrationRequest) (f g : String)
    → r.gateway_proof ≡ q.gateway_proof
    → verify a r ≡ ok f
    → verify a q ≡ ok g
    → r.identity ≡ q.identity
one_identity a r q f g same hr hq =
    let (s, read_s, supported_s, long_s, signed_s, own_s, names_s, print_s) = checked a r f hr in
    let (t, read_t, supported_t, long_t, signed_t, own_t, names_t, print_t) = checked a q g hq in
    let one : s ≡ t = some-injective s t (sym read_s ∙ ap (segments a) same ∙ read_t) in
    names-identity s.claim_fields r.identity q.identity names_s
      (ap (λ u. names u.claim_fields q.identity) one ∙ names_t)

-- Where the segments come from.
split :
    (a : Authority) (proof : String) (d : DeviceIdentityDeclaration) (s : Segments)
    → segments a proof ≡ some s
    → is_supported s.header_fields ≡ true
    → length s.signature ≡ 64
    → is_signed a s ≡ true
    → is_own s.claim_fields ≡ true
    → names s.claim_fields d ≡ true
    → Genuine a proof d
unfolding segments is_supported is_signed
split a proof d s read supported long signed own named =
    elim (Option-cases (split_once b'.' proof)) [
      | inl no_dot ↦ absurd (ground arith)
      | inr (p, first) ↦ elim (Option-cases (split_once b'.' p.1)) [
        | inl one_dot ↦ absurd (ground arith)
        | inr (q, second) ↦ elim (Option-cases (decode_object a p.0)) [
          | inl no_header ↦ absurd (ground arith)
          | inr (head, header_read) ↦ elim (Option-cases (decode_object a q.0)) [
            | inl no_claims ↦ absurd (ground arith)
            | inr (body, claims_read) ↦ elim (Option-cases (base64url_decode q.1)) [
              | inl no_signature ↦ absurd (ground arith)
              | inr (bytes, signature_read) ↦
                  let parts : Segments = record {
                    signed = p.0 <> ("." <> q.0);
                    header_fields = head;
                    claim_fields = body;
                    signature = bytes;
                  } in
                  let same : s ≡ parts = ground arith in
                  let algorithm_known : is_supported head ≡ true =
                    ap (λ t. is_supported t.header_fields) (sym same) ∙ supported in
                  record {
                    header_text = p.0;
                    claim_text = q.0;
                    signature_text = q.1;
                    header_fields = head;
                    claim_fields = body;
                    signature = bytes;
                    three =
                        codes-split_once b'.' proof p first
                        ∙ ap (λ cs. codes p.0 ++ b'.' ∷ cs) (codes-split_once b'.' p.1 q second);
                    header_decoded = header_read;
                    claims_decoded = claims_read;
                    signature_decoded = signature_read;
                    algorithm = is_text-text (get "alg" head) "ES256" (ground arith);
                    kind = is_text-text (get "typ" head) "JWT" (ground arith);
                    long = ap (λ t. length t.signature) (sym same) ∙ long;
                    signed = ap (is_signed a) (sym same) ∙ signed;
                    claims =
                        claimed body d (ap (λ t. is_own t.claim_fields) (sym same) ∙ own)
                          (ap (λ t. names t.claim_fields d) (sym same) ∙ named);
                  }
            ]
          ]
        ]
      ]
    ]

-- A registration is verified only if its certificate is three base64url texts between dots: a
-- header of ES256 and JWT; claims whose issuer is the gateway, whose audience is the device
-- registration, whose certificate type, if it is there, is the one of a device identity, and which
-- name the declared device field by field; and 64 bytes that are a signature of the first two
-- texts. The answer is the hash of the certificate.
pub verify-genuine :
    (a : Authority) (r : DeviceRegistrationRequest) (fingerprint : String)
    → verify a r ≡ ok fingerprint
    → Genuine a r.gateway_proof r.identity × (fingerprint ≡ a.sha256_hex (codes r.gateway_proof))
verify-genuine a r fingerprint h =
    let (s, read, supported, long, signed, own, named, print) = checked a r fingerprint h in
    (split a r.gateway_proof r.identity s read supported long signed own named, print)
