-- ===== src/Sessions/Pairing.antt =====
-- What a successful pairing gives, and what it takes away.
use dev_control_open_harmony.Base64.RoundTrip.{base64url_decode-encode}
use dev_control_open_harmony.Prelude.{
  All, ◌<◌, ℕ, zero, suc, ◌+◌, ◌≤◌, ◌≡◌, ◌≢◌, refl, String, true, false, leb, none, arith, ◌==◌,
  eq_iff, if◌then◌else◌, inl, inr,
}
use dev_control_open_harmony.Errors.{ok, raise, Result-cases, auth_failed}
use dev_control_open_harmony.Dict.Laws.{get-put}
use dev_control_open_harmony.Sessions.{
  Primitives, SessionRegistry, PairResponse, attempt_of, new_pairing_code, rotate_pairing_code,
  rotate_if_expired, wrong_code, right_code, check_code, pair, admit, authenticate, new_session,
  store_session, set_attempt, response, error, is_pairing_code,
}

module _ (p : Primitives) where
  -- Drawing a code changes nothing but the number of draws.
  new_code-frame :
      (rounds : ℕ) (previous : String) (r : SessionRegistry)
      → ((new_pairing_code p rounds previous r).1.sessions ≡ r.sessions)
        × ((new_pairing_code p rounds previous r).1.attempts ≡ r.attempts)
        × ((new_pairing_code p rounds previous r).1.pairing_code ≡ r.pairing_code)
  unfolding new_pairing_code
  new_code-frame zero previous r = (refl, refl, refl)
  new_code-frame (suc rounds) previous r =
      ground (arith, new_code-frame rounds previous (record r { codes_drawn = r.codes_drawn + 1 }))

  -- A drawn code is a valid one, and another than the last.
  new_code-fresh :
      (rounds : ℕ) (previous : String) (r : SessionRegistry) (code : String)
      → (new_pairing_code p rounds previous r).0 ≡ ok code
      → ((code == previous) ≡ false) × (is_pairing_code p code ≡ true)
  unfolding new_pairing_code
  new_code-fresh zero previous r code h = ground arith
  new_code-fresh (suc rounds) previous r code h =
      ground
        (arith, new_code-fresh rounds previous (record r { codes_drawn = r.codes_drawn + 1 }) code)

  rotate-sessions :
      (now : ℕ) (r : SessionRegistry) → (rotate_pairing_code p now r).1.sessions ≡ r.sessions
  unfolding rotate_pairing_code
  rotate-sessions now r = ground (arith, new_code-frame 16 r.pairing_code r)

  rotate-fresh :
      (now : ℕ) (r : SessionRegistry) (code : String)
      → (rotate_pairing_code p now r).0 ≡ ok code
      → (((rotate_pairing_code p now r).1.pairing_code == r.pairing_code) ≡ false)
        × (is_pairing_code p (rotate_pairing_code p now r).1.pairing_code ≡ true)
  unfolding rotate_pairing_code
  rotate-fresh now r code h = ground (arith, new_code-fresh 16 r.pairing_code r code)

  module _ (now wall : ℕ) (source client_id code : String) (r : SessionRegistry)
      (a : PairResponse) where
    -- the registry once an expired code is changed
    abbrev current : SessionRegistry
    current = (rotate_if_expired p now r).1

    abbrev after : SessionRegistry
    after = (pair p now wall source client_id code r).1

    wrong_code-raises : (s : SessionRegistry) → (wrong_code p now source s).0 ≢ ok a
    unfolding wrong_code
    wrong_code-raises s h = ground arith

    abbrev stored : SessionRegistry → SessionRegistry
    stored s = store_session p source (new_session p wall client_id s) s

    right_code-code :
        (s : SessionRegistry)
        → (right_code p now wall source client_id s).0 ≡ ok a
        → ((right_code p now wall source client_id s).1.pairing_code == s.pairing_code) ≡ false
    unfolding right_code
    right_code-code s h = elim (Result-cases (rotate_pairing_code p now (stored s)).0) [
      | inl (e, q) ↦ ground arith
      | inr (c, q) ↦ ground (arith, rotate-fresh now (stored s) c q)
    ]

    check_code-code :
        (s : SessionRegistry)
        → (check_code p now wall source client_id code s).0 ≡ ok a
        → ((code == s.pairing_code) ≡ true)
          × ((attempt_of source s).locked_until ≤ now)
          × (((check_code p now wall source client_id code s).1.pairing_code == s.pairing_code)
              ≡ false)
    unfolding check_code
    check_code-code s h =
        let noted = set_attempt source (attempt_of source s) s in
        ground (arith, wrong_code-raises noted, right_code-code noted)

    -- Pairing succeeds only with the code in force and for a source that is not locked, and
    -- afterwards the code is another one.
    pub pair-code :
        (pair p now wall source client_id code r).0 ≡ ok a
        → ((code == current.pairing_code) ≡ true)
          × ((attempt_of source current).locked_until ≤ now)
          × ((after.pairing_code == current.pairing_code) ≡ false)
    unfolding pair
    pair-code h = ground (arith, check_code-code current)

    right_code-sessions :
        (s : SessionRegistry)
        → (right_code p now wall source client_id s).0 ≡ ok a
        → ((right_code p now wall source client_id s).1.sessions ≡ (stored s).sessions)
          × (a ≡ response p (new_session p wall client_id s) s)
    unfolding right_code
    right_code-sessions s h = ground (arith, rotate-sessions now (stored s))

    check_code-sessions :
        (s : SessionRegistry)
        → (check_code p now wall source client_id code s).0 ≡ ok a
        → ((check_code p now wall source client_id code s).1.sessions ≡ (stored s).sessions)
          × (a ≡ response p (new_session p wall client_id s) s)
    unfolding check_code
    check_code-sessions s h =
        let noted = set_attempt source (attempt_of source s) s in
        ground (arith, wrong_code-raises noted, right_code-sessions noted)

    -- If the credential bytes are numbers below 256, the credential of a successful pairing
    -- authenticates as the session that the pairing made until it expires, and is refused from
    -- then on.
    pub pair-authenticate :
        ((n : ℕ) → All (λ b. b < 256) (p.credential_bytes n))
        → (pair p now wall source client_id code r).0 ≡ ok a
        → (later : ℕ)
        → (authenticate p later a.credential after).0 ≡ (
            if leb a.expires_at later
            then raise (error auth_failed "客户端凭据已过期，请重新配对" 401 none)
            else ok (new_session p wall client_id current))
    unfolding pair authenticate admit
    pair-authenticate are_bytes h later =
        let bytes = p.credential_bytes current.credentials_drawn in
        let session = new_session p wall client_id current in
        ground (
          arith,
          check_code-sessions current,
          base64url_decode-encode bytes (are_bytes current.credentials_drawn),
          get-put (p.sha256_hex bytes) (p.sha256_hex bytes) session current.sessions,
          eq_iff (p.sha256_hex bytes) (p.sha256_hex bytes),
        )
