-- ===== src/Examples/Sealing.antt =====
-- The theorem about sealed payloads, with a toy cipher.
use dev_control_open_harmony.Prelude.{
  all, ltb, ◌<◌, ◌≤◌, ◌≡◌, refl, true, none, some, [], ◌∷◌, ◌++◌, All, length, arith, drop,
}
use dev_control_open_harmony.Numbers.{pos}
use dev_control_open_harmony.Value.{Value, object, boolean, field, end}
use dev_control_open_harmony.Errors.{ok}
use dev_control_open_harmony.Dict.{put}
use dev_control_open_harmony.Base64.{Bytes}
use dev_control_open_harmony.Payload.{
  Cipher, SecureCommandEnvelope, decrypt_payload, as_object, canonical_aad,
}
use dev_control_open_harmony.Sealing.{seal, sealed_envelope, decrypt_payload-seal, encrypted}

abbrev sixteen : Bytes
sixteen = 0 ∷ 0 ∷ 0 ∷ 0 ∷ 0 ∷ 0 ∷ 0 ∷ 0 ∷ 0 ∷ 0 ∷ 0 ∷ 0 ∷ 0 ∷ 0 ∷ 0 ∷ 0 ∷ []

abbrev twelve : Bytes
twelve = 9 ∷ 0 ∷ 0 ∷ 0 ∷ 0 ∷ 0 ∷ 0 ∷ 0 ∷ 0 ∷ 0 ∷ 0 ∷ 0 ∷ []

abbrev switch_on : Value
switch_on = object (field "power" (boolean true) end)

-- a cipher that puts the tag in front
abbrev cipher : Cipher
cipher = record {
  dumps = λ v. 123 ∷ 125 ∷ [];
  loads = λ b. some switch_on;
  encrypt = λ key nonce plain aad. sixteen ++ plain;
  decrypt = λ key nonce sealed aad. some (drop 16 sealed);
}

abbrev envelope : SecureCommandEnvelope
envelope = record {
  message_id = "message-000000001";
  device_id = "LAMP-01";
  timestamp = pos 1500;
  action = "setPower";
  expected_state_version = none;
  nonce = "";
  ciphertext = "";
  auth_tag = "";
}

bytes_below : (bs : Bytes) → all (λ b. ltb b 256) bs ≡ true → All (λ b. b < 256) bs
bytes_below [] h = tt
bytes_below (b ∷ bs) h = (ground arith, bytes_below bs (ground arith))

sealed_below : All (λ b. b < 256) (encrypted cipher [] twelve switch_on envelope)
unfolding encrypted
sealed_below = bytes_below (sixteen ++ 123 ∷ 125 ∷ []) refl

sealed_tagged : 16 ≤ length (encrypted cipher [] twelve switch_on envelope)
unfolding encrypted
sealed_tagged = omega arith

opens :
    cipher.decrypt [] twelve
      (encrypted cipher [] twelve switch_on envelope)
      (canonical_aad cipher envelope)
    ≡ some (cipher.dumps switch_on)
unfolding encrypted
opens = refl

is_object : as_object switch_on ≡ some (("power", boolean true) ∷ [])
unfolding as_object put
is_object = refl

decrypt_payload-seal_example :
    decrypt_payload cipher [] (sealed_envelope envelope (seal cipher [] switch_on envelope twelve))
    ≡ ok (("power", boolean true) ∷ [])
decrypt_payload-seal_example =
    decrypt_payload-seal cipher [] twelve switch_on (("power", boolean true) ∷ []) envelope refl
      (bytes_below twelve refl) sealed_below sealed_tagged opens refl is_object
