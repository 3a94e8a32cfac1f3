-- ===== src/Certificates/Verification.antt =====
-- What the verification of a device certificate accepts, and with which error it refuses.
use Prim.Native.String.{◌++◌ as ◌<>◌}
use Prim.Native.String.append
use mathlib.Core.Path.{ap₂}
use dev_control_open_harmony.Prelude.{
  ℕ, ◌+◌, ◌<◌, ◌≡◌, refl, sym, ap, ◌∙◌, String, true, some, List, [], ◌∷◌, ◌++◌, All, All-append,
  length, length-append, take, drop, arith, eq_iff,
}
use dev_control_open_harmony.Value.{Value, object}
use dev_control_open_harmony.Errors.{ok}
use dev_control_open_harmony.Dict.{Dict, get, put}
use dev_control_open_harmony.Ascii.{codes, split_once}
use dev_control_open_harmony.Ascii.Pieces.{split_once-append}
use dev_control_open_harmony.Base64.{base64url_encode, Bytes}
use dev_control_open_harmony.Base64.RoundTrip.{base64url_decode-encode, encode-no_dot}
use dev_control_open_harmony.Payload.{as_object, dict_of}
use dev_control_open_harmony.Registry.Provisioning.{same_texts}
use dev_control_open_harmony.Validation.{◌>>=◌}
use dev_control_open_harmony.Validation.Requests.{DeviceIdentityDeclaration}
use dev_control_open_harmony.Validation.Rendering.{texts_of-array_of}
use dev_control_open_harmony.Certificates.{
  Authority, Segments, capacity, to_bytes, big_endian, from_bytes, header, claims, signed_part,
  issue, decode_object, is_own, names, segments, is_supported, is_signed, verify,
}
use dev_control_open_harmony.Certificates.Integers.{
  length-big_endian, big_endian-bytes, from_bytes-big_endian,
}

take-append : (xs ys : Bytes) → take (length xs) (xs ++ ys) ≡ xs
take-append [] ys = refl
take-append (x ∷ xs) ys = ap (λ zs. x ∷ zs) (take-append xs ys)

drop-append : (xs ys : Bytes) → drop (length xs) (xs ++ ys) ≡ ys
drop-append [] ys = refl
drop-append (x ∷ xs) ys = drop-append xs ys

same_texts_refl : (ss : List String) → same_texts ss ss ≡ true
same_texts_refl [] = refl
same_texts_refl (s ∷ ss) = ground (arith, eq_iff s s, same_texts_refl ss)

dot : (s : String) → "." <> s ≡ String.◌∷◌ "." s
dot s = append.cons "." "" s ∙ ap (String.◌∷◌ ".") (append.nil s)

dict_of_fields : Value → Dict Value
unfolding dict_of
dict_of_fields (object fields) = dict_of fields []
dict_of_fields _ = []

split_dot :
    (bytes : Bytes) (t : String)
    → All (λ b. b < 256) bytes
    → split_once b'.' (base64url_encode bytes <> ("." <> t)) ≡ some (base64url_encode bytes, t)
split_dot bytes t small =
    ap (λ u. split_once b'.' (base64url_encode bytes <> u)) (dot t)
    ∙ split_once-append "." (base64url_encode bytes) t (encode-no_dot bytes small)

decode_object-encode :
    (a : Authority) (v : Value)
    → All (λ b. b < 256) (a.dumps v)
    → a.loads (a.dumps v) ≡ some v
    → decode_object a (base64url_encode (a.dumps v)) ≡ as_object v
unfolding decode_object
decode_object-encode a v small parsed =
    ap (λ o. o >>= a.loads >>= as_object) (base64url_decode-encode (a.dumps v) small)
    ∙ ap (λ o. o >>= as_object) parsed

to_bytes-ok : (width n : ℕ) → n < capacity width → to_bytes width n ≡ ok (big_endian width n)
unfolding to_bytes
to_bytes-ok width n fits = ground arith

module _ (a : Authority) (d : DeviceIdentityDeclaration) (room_id : String)
    (signed : (m : Bytes) → a.verifies m (a.sign m) ≡ true)
    (small : (m : Bytes) → ((a.sign m).0 < capacity 32) × ((a.sign m).1 < capacity 32))
    (are_bytes : (v : Value) → All (λ b. b < 256) (a.dumps v))
    (header_parsed : a.loads (a.dumps header) ≡ some header)
    (claims_parsed : a.loads (a.dumps (claims d)) ≡ some (claims d)) where
  -- what the authority signs, and the two halves of the signature
  message : Bytes
  message = codes (signed_part a d)

  first_half : Bytes
  first_half = big_endian 32 (a.sign message).0

  second_half : Bytes
  second_half = big_endian 32 (a.sign message).1

  halves-bytes : All (λ b. b < 256) (first_half ++ second_half)
  unfolding first_half second_half
  halves-bytes = All-append _ _ _ (big_endian-bytes 32 _) (big_endian-bytes 32 _)

  proof : String
  proof =
      base64url_encode (a.dumps header)
      <> ("."
          <> (base64url_encode (a.dumps (claims d))
              <> ("." <> base64url_encode (first_half ++ second_half))))

  issue-ok : issue a d ≡ ok proof
  unfolding issue proof message first_half second_half
  issue-ok = rw (
    to_bytes-ok 32 (a.sign (codes (signed_part a d))).0,
    (small _).0,
    to_bytes-ok 32 (a.sign (codes (signed_part a d))).1,
    (small _).1,
  )

  parts : Segments
  parts = record {
    signed = signed_part a d;
    header_fields = dict_of_fields header;
    claim_fields = dict_of_fields (claims d);
    signature = first_half ++ second_half;
  }

  segments-proof : segments a proof ≡ some parts
  unfolding segments proof parts as_object put dict_of_fields
  segments-proof = rw (
    split_dot (a.dumps header),
    are_bytes header,
    split_dot (a.dumps (claims d)),
    are_bytes (claims d),
    decode_object-encode a header,
    header_parsed,
    decode_object-encode a (claims d),
    claims_parsed,
    base64url_decode-encode,
    halves-bytes,
  )

  fits_first : (bs cs : Bytes) → length bs ≡ 32 → take 32 (bs ++ cs) ≡ bs
  fits_first bs cs e = ap (λ n. take n (bs ++ cs)) (sym e) ∙ take-append bs cs

  fits_second : (bs cs : Bytes) → length bs ≡ 32 → drop 32 (bs ++ cs) ≡ cs
  fits_second bs cs e = ap (λ n. drop n (bs ++ cs)) (sym e) ∙ drop-append bs cs

  first_read : from_bytes 0 (take 32 (first_half ++ second_half)) ≡ (a.sign message).0
  unfolding first_half
  first_read =
      ap (from_bytes 0) (fits_first first_half second_half (length-big_endian 32 _))
      ∙ from_bytes-big_endian 32 (a.sign message).0 (small message).0

  second_read : from_bytes 0 (drop 32 (first_half ++ second_half)) ≡ (a.sign message).1
  unfolding first_half second_half
  second_read =
      ap (from_bytes 0) (fits_second first_half second_half (length-big_endian 32 _))
      ∙ from_bytes-big_endian 32 (a.sign message).1 (small message).1

  is_signed-parts : is_signed a parts ≡ true
  unfolding is_signed parts message
  is_signed-parts = ap₂ (λ r s. a.verifies message (r, s)) first_read second_read ∙ signed message

  length-signature : length (first_half ++ second_half) ≡ 64
  unfolding first_half second_half
  length-signature = length-append _ _ ∙ ap₂ ◌+◌ (length-big_endian 32 _) (length-big_endian 32 _)

  names-parts : names (dict_of_fields (claims d)) d ≡ true
  unfolding names dict_of_fields put get
  names-parts = ground (
    arith,
    eq_iff d.device_id d.device_id,
    eq_iff d.device_name d.device_name,
    eq_iff d.device_type d.device_type,
    eq_iff d.category_id d.category_id,
    texts_of-array_of d.capabilities,
    same_texts_refl d.capabilities,
  )

  -- If signatures verify, r and s have 32 bytes, and the JSON of the header and of the claims
  -- parses back, then issue succeeds on a declaration, and verify accepts the registration of that
  -- device in any room with the certificate, and returns its fingerprint.
  pub verify-issue :
      (certificate : String) × (issue a d ≡ ok certificate)
      × (verify a (record { identity = d; room_id = room_id; gateway_proof = certificate })
          ≡ ok (a.sha256_hex (codes certificate)))
  unfolding verify is_own is_supported parts dict_of_fields put get
  verify-issue =
      (proof, issue-ok, simp (segments-proof, is_signed-parts, length-signature, names-parts))
