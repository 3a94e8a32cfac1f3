-- ===== src/Service.antt =====
-- `GatewayService` of VirtualGateway/devcontrol_gateway/service.py as far as it works on commands and
-- devices.
pub mod Sinks
pub mod Windows
pub mod Management
pub mod History
pub mod Replay
pub mod Invariant
use dev_control_open_harmony.Payload.{SecureCommandEnvelope, Cipher, decrypt_payload}
use dev_control_open_harmony.Prelude.{
  ℕ, zero, suc, ◌+◌, ◌-◌, ◌*◌, max, String, Bool, true, false, not, Option, none, some, List, [],
  ◌∷◌, ◌++◌, ◌==◌, ◌&&◌, ltb, leb, nat_eq, if◌then◌else◌, length, map, is_some,
}
use dev_control_open_harmony.Numbers.{ℤ, pos, negsuc}
use dev_control_open_harmony.Value.{Value, null, integer, text, object, Fields, end, field}
use dev_control_open_harmony.Errors.{
  Error, Result, ok, raise, gateway, python, GatewayError, ErrorCode, refusal, refuse_if, or_raise,
  ◌>>=◌ as ◌>>=?◌, ◌>>◌ as ◌>>?◌, replay_detected, internal_error, key_error,
}
use dev_control_open_harmony.Exec.{Exec, lift, continue, ◌>>=◌, ◌>>◌}
use dev_control_open_harmony.Dict.{Dict, get, put}
use dev_control_open_harmony.Storage.{SceneResult, record_audit}
use dev_control_open_harmony.Context.{AlertEvent}
use dev_control_open_harmony.Registry.{DeviceRegistry, find, public_device, drain_alerts}
use dev_control_open_harmony.Registry.Scenes.{Executed, execute}
use dev_control_open_harmony.Sessions.{ClientSession}
use dev_control_open_harmony.Base64.{Bytes}
use dev_control_open_harmony.Service.Windows.{Key, Window, lookup, store, keep}

-- `command.result`; `state_version` is there when a device was commanded with success.
pub record CommandResult : Type 0 where
  pub timestamp : ℕ
  pub message_id : String
  pub device_id : String
  pub action : String
  pub success : Bool
  pub error : Option GatewayError
  pub details : Option (List SceneResult)
  pub state_version : Option Value

pub data Event : Type 0 where
  state_changed : (timestamp : ℕ) (device_id state_version : Value) (device : Dict Value) → Event
  alert : AlertEvent → Event

pub record GatewayService : Type 0 where
  pub devices : DeviceRegistry
  pub result_cache : Window (ℕ × CommandResult)
  pub nonce_cache : Window ℕ
  -- `time.monotonic()` in milliseconds
  pub monotonic : ℕ

-- `state_event`
unfoldable pub state_event : ℕ → Dict Value → Result Event
unfolding get
state_event now device = or_raise (get "id" device) (python key_error) >>=? λ id.
    or_raise (get "stateVersion" device) (python key_error) >>=? λ version.
    ok (state_changed now id version device)

-- `t >= time.monotonic() - IDEMPOTENCY_WINDOW_SECONDS`
abbrev pub idempotency_window_ms : ℕ
idempotency_window_ms = 300 * 1000

abbrev pub is_recent : ℕ → ℕ → Bool
is_recent monotonic t = leb monotonic (t + idempotency_window_ms)

unfoldable pub prune_security_windows : GatewayService → GatewayService
unfolding keep
prune_security_windows g = record g {
  result_cache = keep (λ e. is_recent g.monotonic e.0) g.result_cache;
  nonce_cache = keep (is_recent g.monotonic) g.nonce_cache;
}

unfoldable pub cache_result : Key → CommandResult → GatewayService → GatewayService
unfolding store
cache_result key result g = record g {
  result_cache = store key (g.monotonic, result) g.result_cache;
}

abbrev pub error_result : ℕ → SecureCommandEnvelope → GatewayError → CommandResult
error_result now e error = record {
  timestamp = now;
  message_id = e.message_id;
  device_id = e.device_id;
  action = e.action;
  success = false;
  error = some error;
  details = none;
  state_version = none;
}

abbrev pub error_code_of : Option GatewayError → Option ErrorCode
error_code_of none = none
error_code_of (some e) = some e.code

-- `_audit`
unfoldable pub audit :
    ClientSession → SecureCommandEnvelope → CommandResult → GatewayService → GatewayService
unfolding record_audit
audit session e result g = record g {
  devices = record g.devices {
    context = record g.devices.context {
      storage =
          record_audit
            (record {
              timestamp_ms = g.devices.clock;
              client_id = session.client_id;
              device_id = e.device_id;
              action = e.action;
              success = result.success;
              error_code = error_code_of result.error;
              message_id = e.message_id;
              details = result.details;
            })
            g.devices.storage;
    };
  };
}

-- `abs(now_ms() - envelope.timestamp)`
abbrev pub distance : ℕ → ℤ → ℕ
distance now (pos n) = max (now - n) (n - now)
distance now (negsuc n) = now + suc n

abbrev pub timestamp_window_ms : ℕ
timestamp_window_ms = 30000

-- The body of the `try`, after decryption and execution.
abbrev pub success_result : ℕ → SecureCommandEnvelope → Executed → Option Value → CommandResult
success_result now e executed version = record {
  timestamp = now;
  message_id = e.message_id;
  device_id = e.device_id;
  action = e.action;
  success = true;
  error = none;
  details = executed.details;
  state_version = version;
}

unfoldable pub scene_events : List SceneResult → Exec DeviceRegistry (List Event)
unfolding find public_device state_event
scene_events [] r = (ok [], r)
scene_events (item ∷ rest) r =
    let others = scene_events rest in
    if item.success
    then (find item.device_id >>= λ changed. λ s.
          (lift (public_device s changed >>=? state_event s.clock) >>= λ event.
          others >>= λ events. λ t. (ok (event ∷ events), t))
            s)
        r
    else others r

unfoldable pub device_events : Option (List SceneResult) → Exec DeviceRegistry (List Event)
unfolding scene_events
device_events none r = (ok [], r)
device_events (some details) r = scene_events details r

unfoldable pub report :
    SecureCommandEnvelope → Executed → Exec DeviceRegistry (CommandResult × List Event)
unfolding get state_event scene_events
report e executed r = elim executed.device [
  | some device ↦ (
    or_raise (get "stateVersion" device) (python key_error) >>=? λ version.
        state_event r.clock device >>=? λ event.
        ok (success_result r.clock e executed (some version), event ∷ []),
    r,
  )
  | none ↦
      (device_events executed.details >>= λ events.
      λ s. (ok (success_result r.clock e executed none, events), s))
        r
]

-- `except GatewayError`, `except Exception`
abbrev pub as_gateway : Error → GatewayError
as_gateway (gateway e) = e
as_gateway (python e) = record {
  code = internal_error;
  message = "网关内部处理失败";
  status_code = 400;
  retry_after_seconds = none;
}

abbrev pub caught :
    SecureCommandEnvelope
    → Result (CommandResult × List Event) × DeviceRegistry
    → (CommandResult × List Event) × DeviceRegistry
caught e (ok answer, r) = (answer, r)
caught e (raise error, r) = ((error_result r.clock e (as_gateway error), []), r)

module _ (c : Cipher) (session : ClientSession) (e : SecureCommandEnvelope) where
  abbrev pub cache_key : Key
  cache_key = (session.credential_digest, e.message_id)

  abbrev pub nonce_key : Key
  nonce_key = (session.credential_digest, e.nonce)

  -- A command that is refused before it is decrypted.
  unfoldable pub refuse : String → GatewayService → (CommandResult × List Event) × GatewayService
  unfolding cache_result audit
  refuse message g =
      let error : GatewayError = record {
        code = replay_detected;
        message = message;
        status_code = 400;
        retry_after_seconds = none;
      } in
      let result = error_result g.devices.clock e error in
      ((result, []), audit session e result (cache_result cache_key result g))

  unfoldable pub attempt : DeviceRegistry → (CommandResult × List Event) × DeviceRegistry
  unfolding decrypt_payload execute report
  attempt r = caught e (
      (lift (decrypt_payload c session.data_key e) >>= λ payload.
      execute e.device_id e.action payload e.expected_state_version >>= report e)
        r)

  unfoldable pub with_alerts :
      (CommandResult × List Event) × DeviceRegistry → (CommandResult × List Event) × DeviceRegistry
  unfolding drain_alerts
  with_alerts ((result, events), r) =
      ((result, events ++ map alert r.pending_alerts), (drain_alerts r).1)

  -- The monotonic clock runs on while the command sleeps.
  abbrev pub elapsed : DeviceRegistry → GatewayService → GatewayService
  elapsed r g = record g { devices = r; monotonic = g.monotonic + (r.clock - g.devices.clock) }

  unfoldable pub perform : GatewayService → (CommandResult × List Event) × GatewayService
  unfolding attempt cache_result audit store drain_alerts
  perform g =
      let noted = record g { nonce_cache = store nonce_key g.monotonic g.nonce_cache } in
      let ((result, events), r) = with_alerts (attempt noted.devices) in
      ((result, events), audit session e result (cache_result cache_key result (elapsed r noted)))

  -- What follows the lookup in the cache.
  unfoldable pub admit : GatewayService → (CommandResult × List Event) × GatewayService
  unfolding refuse perform lookup
  admit g =
      if ltb timestamp_window_ms (distance g.devices.clock e.timestamp)
      then refuse "命令时间戳超出允许的30秒窗口" g
      else if is_some (lookup nonce_key g.nonce_cache)
      then refuse "检测到重复 nonce" g
      else perform g

  unfoldable pub answer :
      Option (ℕ × CommandResult) → GatewayService → (CommandResult × List Event) × GatewayService
  unfolding admit
  answer (some (_, result)) g = ((result, []), g)
  answer none g = admit g

  unfoldable pub process_command : GatewayService → (CommandResult × List Event) × GatewayService
  unfolding prune_security_windows lookup admit
  process_command g =
      let pruned = prune_security_windows g in answer (lookup cache_key pruned.result_cache) pruned
