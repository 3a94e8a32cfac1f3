-- ===== src/Sealing.antt =====
-- `encrypt_payload` of VirtualGateway/devcontrol_gateway/security.py, the counterpart of `decrypt_payload`.
use dev_control_open_harmony.Prelude.{
  ℕ, zero, suc, ◌-◌, ◌≤◌, ◌<◌, ◌≡◌, String, some, [], ◌∷◌, length, take, drop, All,
  take-append-drop, length-drop, arith,
}
use dev_control_open_harmony.Value.{Value, text, object, Fields, field, end}
use dev_control_open_harmony.Errors.{Result, ok, python, value_error, or_raise, ◌>>=◌}
use dev_control_open_harmony.Dict.{Dict}
use dev_control_open_harmony.Base64.{Bytes, base64url_encode, base64url_decode}
use dev_control_open_harmony.Base64.RoundTrip.{base64url_decode-encode}
use dev_control_open_harmony.Payload.{
  Cipher, SecureCommandEnvelope, canonical_aad, decrypt_payload, as_object,
}
use dev_control_open_harmony.Validation.{Pydantic}
use dev_control_open_harmony.Validation.Requests.{secure_command_envelope}

-- The three fields of a command that are sealed.
pub record Sealed : Type 0 where
  pub nonce : String
  pub ciphertext : String
  pub auth_tag : String

abbrev pub with_fields : Fields → Fields → Fields
with_fields end rest = rest
with_fields (field name value fields) rest = field name value (with_fields fields rest)

-- `b"0" * 16`
abbrev pub zeros : Bytes
zeros =
    b'0' ∷ b'0' ∷ b'0' ∷ b'0' ∷ b'0' ∷ b'0' ∷ b'0' ∷ b'0' ∷ b'0' ∷ b'0' ∷ b'0' ∷ b'0' ∷ b'0' ∷ b'0'
    ∷ b'0' ∷ b'0' ∷ []

-- The sealed fields for an envelope, whose own nonce, ciphertext and tag do not count.
unfoldable pub seal : Cipher → Bytes → Value → SecureCommandEnvelope → Bytes → Sealed
unfolding canonical_aad
seal c key payload e nonce_bytes =
    let sealed = c.encrypt key nonce_bytes (c.dumps payload) (canonical_aad c e) in
    record {
      nonce = base64url_encode nonce_bytes;
      ciphertext = base64url_encode (take (length sealed - 16) sealed);
      auth_tag = base64url_encode (drop (length sealed - 16) sealed);
    }

-- `nonce_bytes` is what `secrets.token_bytes(12)` draws; a header that pydantic refuses raises.
unfoldable pub encrypt_payload : Cipher → Pydantic → Bytes → Value → Fields → Bytes → Result Sealed
unfolding secure_command_envelope seal
encrypt_payload c pydantic key payload header nonce_bytes =
    or_raise
      (secure_command_envelope pydantic (
        object (
          with_fields header (
            field "nonce" (text (base64url_encode nonce_bytes)) (
              field "ciphertext" (text "placeholder")
                (field "authTag" (text (base64url_encode zeros)) end))))))
      (python value_error)
    >>= λ e. or_raise (base64url_decode e.nonce) (python value_error) >>= λ nonce.
        ok (seal c key payload e nonce)

abbrev pub sealed_envelope : SecureCommandEnvelope → Sealed → SecureCommandEnvelope
sealed_envelope e s = record e { nonce = s.nonce; ciphertext = s.ciphertext; auth_tag = s.auth_tag }

All-take : (n : ℕ) (bs : Bytes) → All (λ b. b < 256) bs → All (λ b. b < 256) (take n bs)
All-take zero bs h = tt
All-take (suc n) [] h = tt
All-take (suc n) (b ∷ bs) h = (h.0, All-take n bs h.1)

All-drop : (n : ℕ) (bs : Bytes) → All (λ b. b < 256) bs → All (λ b. b < 256) (drop n bs)
All-drop zero bs h = h
All-drop (suc n) [] h = tt
All-drop (suc n) (b ∷ bs) h = All-drop n bs h.1

-- What the cipher makes of the payload.
unfoldable pub encrypted : Cipher → Bytes → Bytes → Value → SecureCommandEnvelope → Bytes
unfolding canonical_aad
encrypted c key nonce payload e = c.encrypt key nonce (c.dumps payload) (canonical_aad c e)

module _ (c : Cipher) (key nonce : Bytes) (payload : Value) (d : Dict Value)
    (e : SecureCommandEnvelope) (is_nonce : length nonce ≡ 12)
    (nonce_bytes : All (λ b. b < 256) nonce)
    (are_bytes : All (λ b. b < 256) (encrypted c key nonce payload e))
    (is_tagged : 16 ≤ length (encrypted c key nonce payload e))
    (decrypts : c.decrypt key nonce (encrypted c key nonce payload e) (canonical_aad c e)
      ≡ some (c.dumps payload))
    (parsed : c.loads (c.dumps payload) ≡ some payload)
    (is_object : as_object payload ≡ some d) where
  sealed_bytes : Bytes
  sealed_bytes = encrypted c key nonce payload e

  -- How many bytes come before the tag.
  body : ℕ
  body = length sealed_bytes - 16

  length-tag : length (drop body sealed_bytes) ≡ 16
  unfolding body sealed_bytes
  length-tag = omega (arith, length-drop body sealed_bytes, is_tagged)

  -- If the nonce has 12 bytes, the cipher decrypts what it encrypted with a tag of 16 bytes, and
  -- the JSON of the payload parses back, then decrypt_payload reads from the sealed envelope the
  -- object that was sealed.
  pub decrypt_payload-seal :
      decrypt_payload c key (sealed_envelope e (seal c key payload e nonce)) ≡ ok d
  unfolding decrypt_payload seal canonical_aad encrypted body sealed_bytes
  decrypt_payload-seal = rw (
    base64url_decode-encode nonce nonce_bytes,
    is_nonce,
    base64url_decode-encode (take body sealed_bytes) (All-take body sealed_bytes are_bytes),
    base64url_decode-encode (drop body sealed_bytes) (All-drop body sealed_bytes are_bytes),
    length-tag,
    take-append-drop body sealed_bytes,
    decrypts,
    parsed,
    is_object,
  )
