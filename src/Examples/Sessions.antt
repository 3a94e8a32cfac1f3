-- ===== src/Examples/Sessions.antt =====
-- The theorems about pairing, with concrete codes, keys and clocks.
use dev_control_open_harmony.Prelude.{
  ◌+◌, ◌≤◌, true, false, ◌≡◌, refl, none, [], ◌∷◌, arith, ◌==◌, leb, if◌then◌else◌,
}
use dev_control_open_harmony.Ascii.{is_ascii}
use dev_control_open_harmony.Errors.{ok, raise, auth_failed}
use dev_control_open_harmony.Sessions.{
  Primitives, SessionRegistry, PairResponse, pair, authenticate, attempt_of, error, new_session,
  response, lock_ms, rotate_if_expired, rotate_pairing_code, new_pairing_code, check_code,
  right_code,
}
use dev_control_open_harmony.Sessions.Lockout.{wrong_guesses_lock, guess_all, last_time}
use dev_control_open_harmony.Sessions.Pairing.{pair-code, pair-authenticate}

abbrev primitives : Primitives
primitives = record {
  sha256_hex = λ b. "digest";
  isdigit = λ s. true;
  pairing_code = λ n. "654321";
  credential_bytes = λ n. 7 ∷ [];
  data_key_bytes = λ n. 7 ∷ [];
}

abbrev waiting : SessionRegistry
waiting = record {
  credential_ttl_ms = 1000;
  pairing_code = "123456";
  pairing_expires_at = 300000;
  attempts = [];
  sessions = [];
  codes_drawn = 0;
  credentials_drawn = 0;
}

wrong_guesses_lock_example :
    (attempt_of "tablet" (
      guess_all primitives 0 "tablet" "guest"
        ((1, "1") ∷ (2, "2") ∷ (3, "3") ∷ (4, "4") ∷ (5, "5") ∷ [])
        waiting)).locked_until
    ≡ last_time primitives 0 "tablet" "guest" 1 ((2, "2") ∷ (3, "3") ∷ (4, "4") ∷ (5, "5") ∷ [])
      + lock_ms
unfolding attempt_of is_ascii
wrong_guesses_lock_example =
    wrong_guesses_lock primitives 0 "tablet" "guest" 1 "1"
      ((2, "2") ∷ (3, "3") ∷ (4, "4") ∷ (5, "5") ∷ []) waiting refl (ground arith)

abbrev locked : SessionRegistry
locked = record waiting {
  attempts = ("tablet", record { failures = 0; locked_until = 600005 }) ∷ [];
}

abbrev answer : PairResponse
answer = response primitives (new_session primitives 50 "phone" waiting) waiting

paired : (pair primitives 10 50 "phone" "phone" "123456" waiting).0 ≡ ok answer
unfolding pair rotate_if_expired check_code right_code rotate_pairing_code new_pairing_code
    attempt_of is_ascii
paired = refl

pair-code_example :
    (("123456" == (rotate_if_expired primitives 10 waiting).1.pairing_code) ≡ true)
    × ((attempt_of "phone" (rotate_if_expired primitives 10 waiting).1).locked_until ≤ 10)
    × (((pair primitives 10 50 "phone" "phone" "123456" waiting).1.pairing_code
          == (rotate_if_expired primitives 10 waiting).1.pairing_code)
        ≡ false)
pair-code_example = pair-code primitives 10 50 "phone" "phone" "123456" waiting answer paired

pair-authenticate_example :
    (authenticate primitives 60 answer.credential
      (pair primitives 10 50 "phone" "phone" "123456" waiting).1).0
    ≡ (if leb answer.expires_at 60
        then raise (error auth_failed "客户端凭据已过期，请重新配对" 401 none)
        else ok (new_session primitives 50 "phone" (rotate_if_expired primitives 10 waiting).1))
pair-authenticate_example =
    pair-authenticate primitives 10 50 "phone" "phone" "123456" waiting answer
      (λ n. (omega arith, tt)) paired 60
