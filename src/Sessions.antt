-- ===== src/Sessions.antt =====
-- `SessionRegistry` of VirtualGateway/devcontrol_gateway/security.py: pairing by a short code, and the
-- sessions that pairing opens. Times of the monotonic clock and of the wall clock are milliseconds.
pub mod Pairing
pub mod Lockout
use Prim.Native.String.{count}
use dev_control_open_harmony.Prelude.{
  ℕ, zero, suc, ◌+◌, ◌-◌, ◌*◌, ◌/◌, max, String, Bool, true, false, not, Option, none, some, List,
  [], ◌∷◌, ◌==◌, ◌&&◌, ◌||◌, ltb, leb, nat_eq, if◌then◌else◌,
}
use dev_control_open_harmony.Errors.{
  Error, Result, ok, raise, gateway, python, value_error, runtime_error, type_error, auth_failed,
  rate_limited, ErrorCode,
}
use dev_control_open_harmony.Ascii.{codes, is_ascii}
use dev_control_open_harmony.Exec.{Exec, lift, ◌>>=◌, ◌>>◌}
use dev_control_open_harmony.Base64.{Bytes, base64url_encode, base64url_decode}
use dev_control_open_harmony.Dict.{Dict, get, put, remove}

-- What the session registry takes from outside: hashing, `str.isdigit`, the random
-- numbers. `pairing_code` and the two draws of 32 bytes are numbered by the draws before them.
pub record Primitives : Type 0 where
  pub sha256_hex : Bytes → String
  -- `str.isdigit`
  pub isdigit : String → Bool
  pub pairing_code : ℕ → String
  pub credential_bytes : ℕ → Bytes
  pub data_key_bytes : ℕ → Bytes

pub record ClientSession : Type 0 where
  pub client_id : String
  pub credential_digest : String
  pub data_key : Bytes
  pub issued_at : ℕ
  pub expires_at : ℕ

pub record PairAttempt : Type 0 where
  pub failures : ℕ
  pub locked_until : ℕ

abbrev pub no_attempt : PairAttempt
no_attempt = record { failures = 0; locked_until = 0 }

pub record SessionRegistry : Type 0 where
  pub credential_ttl_ms : ℕ
  pub pairing_code : String
  pub pairing_expires_at : ℕ
  pub attempts : Dict PairAttempt
  pub sessions : Dict ClientSession
  pub codes_drawn : ℕ
  pub credentials_drawn : ℕ

pub record PairResponse : Type 0 where
  pub client_id : String
  pub credential : String
  pub data_key : String
  pub issued_at : ℕ
  pub expires_at : ℕ

abbrev pub pairing_lifetime_ms : ℕ
pairing_lifetime_ms = 300 * 1000

abbrev pub lock_ms : ℕ
lock_ms = 600 * 1000

abbrev pub max_failures : ℕ
max_failures = 5

-- `GatewayError(code, message, status, retry_after)`
abbrev pub error : ErrorCode → String → ℕ → Option ℕ → Error
error code message status retry_after = gateway (record {
  code = code;
  message = message;
  status_code = status;
  retry_after_seconds = retry_after;
})

-- `attempts.setdefault(source, PairAttempt())`
unfoldable pub attempt_of : String → SessionRegistry → PairAttempt
unfolding get
attempt_of source r = elim (get source r.attempts) [ none ↦ no_attempt | some a ↦ a ]

abbrev pub set_attempt : String → PairAttempt → SessionRegistry → SessionRegistry
set_attempt source a r = record r { attempts = put source a r.attempts }

-- `self.revoke(digest)`
abbrev pub revoke : String → SessionRegistry → SessionRegistry
revoke digest r = record r { sessions = remove digest r.sessions }

module _ (p : Primitives) where
  -- `_validate_pairing_code`: six digits
  abbrev pub is_pairing_code : String → Bool
  is_pairing_code code = nat_eq (count code) 6 && p.isdigit code

  abbrev drawn : SessionRegistry → SessionRegistry
  drawn r = record r { codes_drawn = r.codes_drawn + 1 }

  -- The loop of `_new_pairing_code`, with the rounds that are left.
  unfoldable pub new_pairing_code : ℕ → String → Exec SessionRegistry String
  new_pairing_code zero previous r = (raise (python runtime_error), r)
  new_pairing_code (suc rounds) previous r =
      let candidate = p.pairing_code r.codes_drawn in
      let more = new_pairing_code rounds previous (drawn r) in
      if not (is_pairing_code candidate)
      then (raise (python value_error), drawn r)
      else if not (candidate == previous)
      then (ok candidate, drawn r)
      else more

  abbrev set_code : ℕ → String → Exec SessionRegistry String
  set_code now code r =
      (ok code, record r { pairing_code = code; pairing_expires_at = now + pairing_lifetime_ms })

  unfoldable pub rotate_pairing_code : ℕ → Exec SessionRegistry String
  rotate_pairing_code now r = (new_pairing_code 16 r.pairing_code >>= set_code now) r

  unfoldable pub rotate_if_expired : ℕ → Exec SessionRegistry (Unit {0})
  rotate_if_expired now r =
      if leb r.pairing_expires_at now
      then (rotate_pairing_code now >>= λ _. λ s. (ok tt, s)) r
      else (ok tt, r)

  -- A wrong code: the attempt counts, and the fifth locks the source.
  unfoldable pub wrong_code : ℕ → String → Exec SessionRegistry PairResponse
  wrong_code now source r =
      let failures = (attempt_of source r).failures + 1 in
      if leb max_failures failures
      then (
        raise (error rate_limited "配对失败次数过多，来源已锁定10分钟" 429 (some 600)),
        set_attempt source (record { failures = 0; locked_until = now + lock_ms }) r,
      )
      else (
        raise (error auth_failed "配对码无效或已过期" 401 none),
        set_attempt source
            (record { failures = failures; locked_until = (attempt_of source r).locked_until }) r,
      )

  -- The right code: a session is stored, then the code is changed.
  abbrev pub new_session : ℕ → String → SessionRegistry → ClientSession
  new_session wall client_id r = record {
    client_id = client_id;
    credential_digest = p.sha256_hex (p.credential_bytes r.credentials_drawn);
    data_key = p.data_key_bytes r.credentials_drawn;
    issued_at = wall;
    expires_at = wall + r.credential_ttl_ms;
  }

  abbrev pub response : ClientSession → SessionRegistry → PairResponse
  response session r = record {
    client_id = session.client_id;
    credential = base64url_encode (p.credential_bytes r.credentials_drawn);
    data_key = base64url_encode session.data_key;
    issued_at = session.issued_at;
    expires_at = session.expires_at;
  }

  abbrev pub store_session : String → ClientSession → SessionRegistry → SessionRegistry
  store_session source session r = record (set_attempt source no_attempt r) {
    sessions = put session.credential_digest session r.sessions;
    credentials_drawn = r.credentials_drawn + 1;
  }

  unfoldable pub right_code : ℕ → ℕ → String → String → Exec SessionRegistry PairResponse
  right_code now wall source client_id r =
      let session = new_session wall client_id r in
      (rotate_pairing_code now >>= λ _. λ s. (ok (response session r), s))
        (store_session source session r)

  -- `compare_digest` raises a TypeError unless both texts are ASCII.
  abbrev pub comparable : String → String → Bool
  comparable a b = is_ascii (codes a) && is_ascii (codes b)

  -- `pair` once an expired code is changed.
  unfoldable pub check_code : ℕ → ℕ → String → String → String → Exec SessionRegistry PairResponse
  check_code now wall source client_id code r =
      let a = attempt_of source r in
      let noted = set_attempt source a r in
      if ltb now a.locked_until
      then (
        raise (
            error rate_limited "配对失败次数过多，请稍后重试" 429 (some (max 1 ((a.locked_until - now) / 1000)))),
        noted,
      )
      else if not (comparable code r.pairing_code)
      then (raise (python type_error), noted)
      else if not (code == r.pairing_code)
      then wrong_code now source noted
      else right_code now wall source client_id noted

  unfoldable pub pair : ℕ → ℕ → String → String → String → Exec SessionRegistry PairResponse
  pair now wall source client_id code =
      rotate_if_expired now >>= λ _. check_code now wall source client_id code

  -- `authenticate` once the session is looked up.
  unfoldable pub admit : ℕ → String → Option ClientSession → Exec SessionRegistry ClientSession
  unfolding remove
  admit wall digest none r = (raise (error auth_failed "客户端凭据无效或网关已重启" 401 none), r)
  admit wall digest (some session) r =
      if leb session.expires_at wall
      then (raise (error auth_failed "客户端凭据已过期，请重新配对" 401 none), revoke digest r)
      else (ok session, r)

  unfoldable pub authenticate : ℕ → String → Exec SessionRegistry ClientSession
  unfolding get
  authenticate wall credential r = elim (base64url_decode credential) [
    | none ↦ (raise (error auth_failed "客户端凭据无效" 401 none), r)
    | some bytes ↦ admit wall (p.sha256_hex bytes) (get (p.sha256_hex bytes) r.sessions) r
  ]

  -- `SessionRegistry(initial_pairing_code, ...)`, with a code given
  unfoldable pub create : ℕ → String → ℕ → Result SessionRegistry
  create now initial_pairing_code credential_ttl_seconds =
      if nat_eq credential_ttl_seconds 0 || not (is_pairing_code initial_pairing_code)
      then raise (python value_error)
      else ok (record {
        credential_ttl_ms = credential_ttl_seconds * 1000;
        pairing_code = initial_pairing_code;
        pairing_expires_at = now + pairing_lifetime_ms;
        attempts = [];
        sessions = [];
        codes_drawn = 0;
        credentials_drawn = 0;
      })

-- `remaining_seconds`, in milliseconds
abbrev pub remaining_ms : ℕ → ClientSession → ℕ
remaining_ms wall session = session.expires_at - wall
