-- ===== src/Service/History.antt =====
-- Runs of commands to the service (`process_command` of
-- VirtualGateway/devcontrol_gateway/service.py): what the two windows remember over a run.
use dev_control_open_harmony.Prelude.{
  ℕ, ◌+◌, ◌≤◌, ◌≡◌, false, some, List, [], ◌∷◌, arith, eq_iff, inl, inr, Bool-cases, true,
}
use dev_control_open_harmony.Registry.{DeviceRegistry}
use dev_control_open_harmony.Sessions.{ClientSession}
use dev_control_open_harmony.Payload.{Cipher, SecureCommandEnvelope}
use dev_control_open_harmony.Service.Windows.{
  Key, lookup, same_key, lookup-store_other, lookup-keep,
}
use dev_control_open_harmony.Service.{
  CommandResult, GatewayService, cache_key, nonce_key, prune_security_windows, cache_result, audit,
  refuse, perform, admit, answer, process_command, idempotency_window_ms, is_recent, with_alerts,
}

-- A command that arrives: how long after the last one, and what became of the registry meanwhile
-- by ticks, other routes, and changes of the wall clock.
pub record Arrival : Type 0 where
  pub waited : ℕ
  pub devices : DeviceRegistry
  pub session : ClientSession
  pub envelope : SecureCommandEnvelope

abbrev pub passes : ℕ → DeviceRegistry → GatewayService → GatewayService
passes waited devices g = record g { devices = devices; monotonic = g.monotonic + waited }

unfoldable pub run : Cipher → List Arrival → GatewayService → GatewayService
run c [] g = g
run c (a ∷ rest) g =
    run c rest (process_command c a.session a.envelope (passes a.waited a.devices g)).1

same_key-eq : (k j : Key) → same_key k j ≡ true → k ≡ j
same_key-eq (a, b) (c, d) h = ground (arith, eq_iff a c, eq_iff b d)

module _ (c : Cipher) (session : ClientSession) (e : SecureCommandEnvelope) where
  -- the monotonic clock does not run backwards
  process_command-monotonic :
      (g : GatewayService) → g.monotonic ≤ (process_command c session e g).1.monotonic
  unfolding process_command answer admit refuse perform prune_security_windows cache_result audit
  process_command-monotonic g = ground arith

  admit-keeps :
      (k : Key) (x : ℕ × CommandResult) (g : GatewayService)
      → same_key (cache_key c session e) k ≡ false
      → lookup k g.result_cache ≡ some x
      → lookup k (admit c session e g).1.result_cache ≡ some x
  unfolding admit refuse perform with_alerts cache_result audit
  admit-keeps k x g other there = grind (arith, lookup-store_other)

  -- A result stays in the cache, as it was, for 300 s.
  pub process_command-result :
      (k : Key) (x : ℕ × CommandResult) (g : GatewayService)
      → lookup k g.result_cache ≡ some x
      → g.monotonic ≤ x.0 + idempotency_window_ms
      → lookup k (process_command c session e g).1.result_cache ≡ some x
  unfolding process_command answer prune_security_windows
  process_command-result k x g there soon =
      let pruned = prune_security_windows g in
      let recent : is_recent g.monotonic x.0 ≡ true = ground arith in
      let kept =
        lookup-keep (λ (y : ℕ × CommandResult). is_recent g.monotonic y.0) k x g.result_cache there
          recent in
      elim (Bool-cases (same_key (cache_key c session e) k)) [
        | inl same ↦ ground (arith, kept, same_key-eq (cache_key c session e) k same)
        | inr other ↦ ground (arith, kept, admit-keeps k x pruned other kept)
      ]

  admit-notes :
      (k : Key) (t : ℕ) (g : GatewayService)
      → lookup k g.nonce_cache ≡ some t
      → lookup k (admit c session e g).1.nonce_cache ≡ some t
  unfolding admit refuse perform with_alerts cache_result audit
  admit-notes k t g there = elim (Bool-cases (same_key (nonce_key c session e) k)) [
    | inl same ↦ ground (arith, there, same_key-eq (nonce_key c session e) k same)
    | inr other ↦ grind (arith, lookup-store_other)
  ]

  -- A nonce stays in the cache, with its time, for 300 s.
  pub process_command-nonce :
      (k : Key) (t : ℕ) (g : GatewayService)
      → lookup k g.nonce_cache ≡ some t
      → g.monotonic ≤ t + idempotency_window_ms
      → lookup k (process_command c session e g).1.nonce_cache ≡ some t
  unfolding process_command answer prune_security_windows
  process_command-nonce k t g there soon =
      let pruned = prune_security_windows g in
      let kept = lookup-keep (is_recent g.monotonic) k t g.nonce_cache there (ground arith) in
      ground (arith, kept, admit-notes k t pruned kept)

pub run-monotonic :
    (c : Cipher) (between : List Arrival) (g : GatewayService)
    → g.monotonic ≤ (run c between g).monotonic
unfolding run
run-monotonic c [] g = omega arith
run-monotonic c (a ∷ rest) g =
    let arrived = passes a.waited a.devices g in
    let step = process_command-monotonic c a.session a.envelope arrived in
    omega (arith, step, run-monotonic c rest (process_command c a.session a.envelope arrived).1)

pub run-result :
    (c : Cipher) (between : List Arrival) (k : Key) (x : ℕ × CommandResult) (g : GatewayService)
    → lookup k g.result_cache ≡ some x
    → (run c between g).monotonic ≤ x.0 + idempotency_window_ms
    → lookup k (run c between g).result_cache ≡ some x
unfolding run
run-result c [] k x g there soon = there
run-result c (a ∷ rest) k x g there soon =
    let arrived = passes a.waited a.devices g in
    let next = (process_command c a.session a.envelope arrived).1 in
    let step = process_command-monotonic c a.session a.envelope arrived in
    let later = run-monotonic c rest next in
    run-result c rest k x next
      (process_command-result c a.session a.envelope k x arrived there (omega (arith, step, later)))
      soon

pub run-nonce :
    (c : Cipher) (between : List Arrival) (k : Key) (t : ℕ) (g : GatewayService)
    → lookup k g.nonce_cache ≡ some t
    → (run c between g).monotonic ≤ t + idempotency_window_ms
    → lookup k (run c between g).nonce_cache ≡ some t
unfolding run
run-nonce c [] k t g there soon = there
run-nonce c (a ∷ rest) k t g there soon =
    let arrived = passes a.waited a.devices g in
    let next = (process_command c a.session a.envelope arrived).1 in
    let step = process_command-monotonic c a.session a.envelope arrived in
    let later = run-monotonic c rest next in
    run-nonce c rest k t next
      (process_command-nonce c a.session a.envelope k t arrived there (omega (arith, step, later)))
      soon
