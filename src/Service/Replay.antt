-- ===== src/Service/Replay.antt =====
-- What `process_command` does with a command that it has seen, that is old, or that is forged.
use dev_control_open_harmony.Prelude.{
  ℕ, suc, ◌+◌, ◌⊎◌, ◌<◌, ◌≤◌, ◌≡◌, refl, String, true, false, ltb, Option, none, some, arith, List,
  [], ◌∷◌, is_some, inl, inr, sym, ap, if_rule, if◌then◌else◌,
}
use mathlib.Core.Path.{subst}
use dev_control_open_harmony.Errors.{
  Error, raise, GatewayError, replay_detected, is_ok, ErrorCode, Result-cases,
}
use dev_control_open_harmony.Storage.{record_audit, AuditLog, last_eight}
use dev_control_open_harmony.Registry.{DeviceRegistry, drain_alerts}
use dev_control_open_harmony.Service.History.{Arrival, passes, run, run-result, run-nonce}
use dev_control_open_harmony.Sessions.{ClientSession}
use dev_control_open_harmony.Service.Windows.{lookup, lookup-store, lookup-keep}
use dev_control_open_harmony.Payload.{Cipher, SecureCommandEnvelope, decrypt_payload, unreadable}
use dev_control_open_harmony.Service.{
  CommandResult, Event, GatewayService, cache_key, nonce_key, prune_security_windows, cache_result,
  audit, refuse, perform, admit, answer, process_command, idempotency_window_ms,
  timestamp_window_ms, distance, is_recent, attempt, with_alerts,
}

abbrev pub ap_code : Option GatewayError → Option ErrorCode
ap_code none = none
ap_code (some e) = some e.code

-- the newest row of the log records this command and its result
abbrev pub LogOf : ClientSession → SecureCommandEnvelope → CommandResult → List AuditLog → Type 0
LogOf session e result [] = ⊥
LogOf session e result (row ∷ _) =
    (row.client_id ≡ session.client_id)
    × (row.device_id ≡ e.device_id)
    × (row.action ≡ e.action)
    × (row.message_id_suffix ≡ last_eight e.message_id)
    × (row.success ≡ result.success)
    × (row.error_code ≡ ap_code result.error)
    × (row.details ≡ result.details)

module _ (c : Cipher) (session : ClientSession) where
  -- Whatever becomes of a command that is not in the cache, its result is, with the time.
  admit-caches :
      (e : SecureCommandEnvelope) (g : GatewayService)
      → lookup (cache_key c session e) (admit c session e g).1.result_cache
        ≡ some ((admit c session e g).1.monotonic, (admit c session e g).0.0)
  unfolding admit refuse perform with_alerts cache_result audit
  admit-caches e g = grind (arith, lookup-store)

  -- A message id that the same session sends again within 300 s of its answer, whatever else the
  -- second message holds, however old its timestamp is and whatever commands of any sessions and
  -- changes of the registry come in between, is answered with the first result and no events, and
  -- changes nothing of the registry.
  pub repeated_command :
      (e e' : SecureCommandEnvelope) (g : GatewayService) (between : List Arrival) (waited : ℕ)
      (devices : DeviceRegistry)
      → lookup (cache_key c session e) (prune_security_windows g).result_cache ≡ none
      → e'.message_id ≡ e.message_id
      → (run c between (process_command c session e g).1).monotonic + waited
        ≤ (process_command c session e g).1.monotonic + idempotency_window_ms
      → let first = process_command c session e g in
        let again = process_command c session e' (passes waited devices (run c between first.1)) in
        (again.0 ≡ (first.0.0, [])) × (again.1.devices ≡ devices)
  unfolding process_command answer prune_security_windows
  repeated_command e e' g between waited devices new same soon =
      let pruned = prune_security_windows g in
      let after = (admit c session e pruned).1 in
      let result = (admit c session e pruned).0.0 in
      let x : ℕ × CommandResult = (after.monotonic, result) in
      let stored = admit-caches e pruned in
      let first : process_command c session e g ≡ admit c session e pruned =
        ap (λ o. answer c session e o pruned) new in
      let soon' : (run c between after).monotonic + waited
          ≤ after.monotonic + idempotency_window_ms =
        subst (λ t. (run c between t.1).monotonic + waited ≤ t.1.monotonic + idempotency_window_ms)
          first soon in
      let held =
        run-result c between (cache_key c session e) x after stored (omega (arith, soon')) in
      let later = passes waited devices (run c between after) in
      let found =
        lookup-keep (λ (y : ℕ × CommandResult). is_recent later.monotonic y.0)
          (cache_key c session e) x later.result_cache held (ground (arith, soon')) in
      let again : process_command c session e' later
          ≡ ((result, []), prune_security_windows later) =
        ground (arith, found) in
      subst
        (λ t.
          let u = process_command c session e' (passes waited devices (run c between t.1)) in
          (u.0 ≡ (t.0.0, [])) × (u.1.devices ≡ devices))
        (sym first) (ap (λ t. t.0) again, ap (λ t. t.1.devices) again)

  -- decryption raises only one error
  decrypt-unreadable :
      (key : List ℕ) (e : SecureCommandEnvelope) (x : Error)
      → decrypt_payload c key e ≡ raise x
      → x ≡ unreadable
  unfolding decrypt_payload
  decrypt-unreadable key e x h = ground arith

  -- What a refused command leaves: the error, the devices as they were, one more audit log.
  pub record Refused (e : SecureCommandEnvelope) (g : GatewayService)
      (t : (CommandResult × List Event) × GatewayService) : Type 0 where
    pub success : t.0.0.success ≡ false
    pub code : ap_code t.0.0.error ≡ some replay_detected
    pub devices : t.1.devices.context.devices ≡ g.devices.context.devices
    pub rooms : t.1.devices.rooms ≡ g.devices.rooms
    pub logged : t.1.devices.storage.last_audit_id ≡ suc g.devices.storage.last_audit_id

  -- A command that is not in the result cache and whose timestamp is more than 30 s off, whose
  -- nonce was used in the last 300 s, or which does not decrypt under the key of its session is
  -- answered with REPLAY_DETECTED, leaves the devices and the rooms as they were, and is logged.
  pub replayed_command :
      (e : SecureCommandEnvelope) (g : GatewayService)
      → lookup (cache_key c session e) (prune_security_windows g).result_cache ≡ none
      → (timestamp_window_ms < distance g.devices.clock e.timestamp)
        ⊎ ((is_some (lookup (nonce_key c session e) (prune_security_windows g).nonce_cache) ≡ true)
            ⊎ (is_ok (decrypt_payload c session.data_key e) ≡ false))
      → Refused e g (process_command c session e g)
  unfolding process_command answer prune_security_windows admit refuse perform with_alerts attempt
      cache_result audit record_audit drain_alerts
  replayed_command e g new (inl late) = ground arith
  replayed_command e g new (inr (inl used)) = ground arith
  replayed_command e g new (inr (inr forged)) =
      elim (Result-cases (decrypt_payload c session.data_key e)) [
        | inl (x, q) ↦ ground (arith, decrypt-unreadable session.data_key e x q)
        | inr (y, q) ↦ ground arith
      ]

  -- A command that is not refused as a replay leaves its nonce in the cache.
  success-notes :
      (e : SecureCommandEnvelope) (g : GatewayService)
      → (admit c session e g).0.0.success ≡ true
      → lookup (nonce_key c session e) (admit c session e g).1.nonce_cache ≡ some g.monotonic
  unfolding admit refuse perform with_alerts cache_result audit
  success-notes e g h = grind (arith, lookup-store)

  nonce_kept :
      (e : SecureCommandEnvelope) (g : GatewayService)
      → lookup (cache_key c session e) (prune_security_windows g).result_cache ≡ none
      → (process_command c session e g).0.0.success ≡ true
      → lookup (nonce_key c session e) (process_command c session e g).1.nonce_cache
        ≡ some g.monotonic
  unfolding process_command answer prune_security_windows
  nonce_kept e g new success =
      let pruned = prune_security_windows g in
      let admitted : (admit c session e pruned).0.0.success ≡ true = ground arith in
      ground (arith, success-notes e pruned admitted)

  nonce_found :
      (e e' : SecureCommandEnvelope) (later : GatewayService) (t : ℕ)
      → e'.nonce ≡ e.nonce
      → lookup (nonce_key c session e) later.nonce_cache ≡ some t
      → later.monotonic ≤ t + idempotency_window_ms
      → is_some (lookup (nonce_key c session e') (prune_security_windows later).nonce_cache) ≡ true
  unfolding prune_security_windows
  nonce_found e e' later t same held soon =
      let recent : is_recent later.monotonic t ≡ true = ground arith in
      ground (
        arith,
        lookup-keep (is_recent later.monotonic) (nonce_key c session e) t later.nonce_cache held
            recent,
      )

  -- Once a command has succeeded, another message of the same session with the same nonce, not
  -- itself in the result cache, is refused as a replay when it arrives within 300 s of the first,
  -- whatever commands of any sessions and changes of the registry come in between.
  pub nonce_once :
      (e e' : SecureCommandEnvelope) (g : GatewayService) (between : List Arrival) (waited : ℕ)
      (devices : DeviceRegistry)
      → lookup (cache_key c session e) (prune_security_windows g).result_cache ≡ none
      → (process_command c session e g).0.0.success ≡ true
      → e'.nonce ≡ e.nonce
      → (run c between (process_command c session e g).1).monotonic + waited
        ≤ g.monotonic + idempotency_window_ms
      → let later = passes waited devices (run c between (process_command c session e g).1) in
        lookup (cache_key c session e') (prune_security_windows later).result_cache ≡ none
        → Refused e' later (process_command c session e' later)
  nonce_once e e' g between waited devices new success same soon new' =
      let first = (process_command c session e g).1 in
      let held =
        run-nonce c between (nonce_key c session e) g.monotonic first (nonce_kept e g new success)
          (omega (arith, soon)) in
      let later = passes waited devices (run c between first) in
      replayed_command e' later new' (inr (inl (nonce_found e e' later g.monotonic same held soon)))

  Logs : SecureCommandEnvelope → (CommandResult × List Event) × GatewayService → Type 0
  Logs e t = LogOf session e t.0.0 t.1.devices.storage.audit_logs

  refuse-Logs :
      (e : SecureCommandEnvelope) (message : String) (g : GatewayService)
      → Logs e (refuse c session e message g)
  unfolding Logs refuse audit record_audit cache_result
  refuse-Logs e message g = (refl, refl, refl, refl, refl, refl, refl)

  perform-Logs : (e : SecureCommandEnvelope) (g : GatewayService) → Logs e (perform c session e g)
  unfolding Logs perform with_alerts audit record_audit cache_result
  perform-Logs e g = (refl, refl, refl, refl, refl, refl, refl)

  admit-Logs : (e : SecureCommandEnvelope) (g : GatewayService) → Logs e (admit c session e g)
  unfolding admit
  admit-Logs e g =
      let used = is_some (lookup (nonce_key c session e) g.nonce_cache) in
      let late = refuse c session e "命令时间戳超出允许的30秒窗口" g in
      let reused = refuse c session e "检测到重复 nonce" g in
      let performed = perform c session e g in
      if_rule (Logs e) (ltb timestamp_window_ms (distance g.devices.clock e.timestamp)) late
        (if used then reused else performed) (λ _. refuse-Logs e "命令时间戳超出允许的30秒窗口" g)
        (λ _.
          if_rule (Logs e) used reused performed (λ _. refuse-Logs e "检测到重复 nonce" g)
            (λ _. perform-Logs e g))

  -- The newest row of the audit log records the client, device, action and message of a command
  -- that was not in the result cache, and the success, error code and details of its answer.
  pub newest_log :
      (e : SecureCommandEnvelope) (g : GatewayService)
      → lookup (cache_key c session e) (prune_security_windows g).result_cache ≡ none
      → let t = process_command c session e g in
        LogOf session e t.0.0 t.1.devices.storage.audit_logs
  unfolding process_command answer Logs
  newest_log e g new =
      let pruned = prune_security_windows g in
      subst (λ o. Logs e (answer c session e o pruned)) (sym new) (admit-Logs e pruned)
