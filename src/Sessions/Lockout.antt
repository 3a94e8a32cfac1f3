-- ===== src/Sessions/Lockout.antt =====
-- Wrong codes, and the lock that the fifth one sets.
use dev_control_open_harmony.Prelude.{
  ℕ, suc, ◌+◌, ◌-◌, ◌/◌, max, ◌<◌, ◌≤◌, ◌≡◌, String, true, false, some, arith, ◌==◌, eq_iff, List,
  [], ◌∷◌, length, All, All-map,
}
use dev_control_open_harmony.Errors.{raise, rate_limited}
use dev_control_open_harmony.Dict.Laws.{get-put}
use dev_control_open_harmony.Sessions.{
  Primitives, SessionRegistry, PairAttempt, attempt_of, rotate_if_expired, wrong_code, check_code,
  comparable, pair, error, set_attempt, lock_ms,
}

attempt_of-set :
    (source : String) (a : PairAttempt) (r : SessionRegistry)
    → attempt_of source (set_attempt source a r) ≡ a
unfolding attempt_of
attempt_of-set source a r = ground (arith, get-put source source a r.attempts, eq_iff source source)

module _ (p : Primitives) (wall : ℕ) (source client_id : String) where
  -- While the code is in force, a locked source is refused with the time that is left, whatever
  -- code it sends; no session is opened and its attempts stay as they are.
  pub locked_refused :
      (now : ℕ) (code : String) (r : SessionRegistry)
      → now < r.pairing_expires_at
      → now < (attempt_of source r).locked_until
      → ((pair p now wall source client_id code r).0
          ≡ raise (
              error rate_limited "配对失败次数过多，请稍后重试" 429
                (some (max 1 (((attempt_of source r).locked_until - now) / 1000)))))
        × ((pair p now wall source client_id code r).1.sessions ≡ r.sessions)
        × (attempt_of source (pair p now wall source client_id code r).1 ≡ attempt_of source r)
  unfolding pair rotate_if_expired check_code
  locked_refused now code r fresh locked =
      ground (arith, attempt_of-set source (attempt_of source r) r)

  -- guesses at the code, with their times
  pub guess_all : List (ℕ × String) → SessionRegistry → SessionRegistry
  guess_all [] r = r
  guess_all ((now, code) ∷ rest) r = guess_all rest (pair p now wall source client_id code r).1

  abbrev pub last_time : ℕ → List (ℕ × String) → ℕ
  last_time t [] = t
  last_time t ((now, _) ∷ rest) = last_time now rest

  abbrev pub IsWrong : SessionRegistry → ℕ × String → Type 0
  IsWrong r (now, code) =
      (now < r.pairing_expires_at)
      × (comparable p code r.pairing_code ≡ true)
      × ((code == r.pairing_code) ≡ false)
      × ((attempt_of source r).locked_until ≤ now)

  wrong_guess :
      (now : ℕ) (code : String) (r : SessionRegistry)
      → IsWrong r (now, code)
      → (pair p now wall source client_id code r).1
        ≡ (wrong_code p now source (set_attempt source (attempt_of source r) r)).1
  unfolding pair rotate_if_expired check_code
  wrong_guess now code r w = ground arith

  -- a wrong guess before the fifth counts, and leaves the code and the lock as they are
  wrong_counts :
      (now : ℕ) (code : String) (r : SessionRegistry)
      → IsWrong r (now, code)
      → (attempt_of source r).failures + 1 < 5
      → let r' = (pair p now wall source client_id code r).1 in
        ((attempt_of source r').failures ≡ (attempt_of source r).failures + 1)
        × ((attempt_of source r').locked_until ≡ (attempt_of source r).locked_until)
        × (r'.pairing_code ≡ r.pairing_code)
        × (r'.pairing_expires_at ≡ r.pairing_expires_at)
  unfolding wrong_code
  wrong_counts now code r w few =
      let noted = set_attempt source (attempt_of source r) r in
      let a = attempt_of source noted in
      let counted : PairAttempt = record {
        failures = a.failures + 1;
        locked_until = a.locked_until;
      } in
      ground (
        arith,
        wrong_guess now code r w,
        attempt_of-set source (attempt_of source r) r,
        attempt_of-set source counted noted,
      )

  wrong_locks :
      (now : ℕ) (code : String) (r : SessionRegistry)
      → IsWrong r (now, code)
      → 5 ≤ (attempt_of source r).failures + 1
      → (attempt_of source (pair p now wall source client_id code r).1).locked_until ≡ now + lock_ms
  unfolding wrong_code
  wrong_locks now code r w many =
      let noted = set_attempt source (attempt_of source r) r in
      let locked : PairAttempt = record { failures = 0; locked_until = now + lock_ms } in
      ground (
        arith,
        wrong_guess now code r w,
        attempt_of-set source (attempt_of source r) r,
        attempt_of-set source locked noted,
      )

  still-IsWrong :
      (r r' : SessionRegistry) (g : ℕ × String)
      → (attempt_of source r').locked_until ≡ (attempt_of source r).locked_until
      → r'.pairing_code ≡ r.pairing_code
      → r'.pairing_expires_at ≡ r.pairing_expires_at
      → IsWrong r g
      → IsWrong r' g
  still-IsWrong r r' g l c e w = ground arith

  -- Wrong guesses in ASCII that bring the failures of a source to five, made while the code is in
  -- force and the source is not locked, lock the source until ten minutes after the last of them.
  pub wrong_guesses_lock :
      (now : ℕ) (code : String) (rest : List (ℕ × String)) (r : SessionRegistry)
      → (attempt_of source r).failures + suc (length rest) ≡ 5
      → All (IsWrong r) ((now, code) ∷ rest)
      → (attempt_of source (guess_all ((now, code) ∷ rest) r)).locked_until
        ≡ last_time now rest + lock_ms
  unfolding guess_all
  wrong_guesses_lock now code [] r count (w, _) = ground (arith, wrong_locks now code r w)
  wrong_guesses_lock now code ((next, code') ∷ rest) r count (w, ws) =
      let r' = (pair p now wall source client_id code r).1 in
      let few : (attempt_of source r).failures + 1 < 5 = ground arith in
      let step = wrong_counts now code r w few in
      wrong_guesses_lock next code' rest r' (ground (arith, step)) (
        All-map (IsWrong r) (IsWrong r') ((next, code') ∷ rest)
          (λ g. still-IsWrong r r' g step.1 step.2 step.3) ws)
