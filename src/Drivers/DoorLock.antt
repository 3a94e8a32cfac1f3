-- ===== src/Drivers/DoorLock.antt =====
-- `DoorLockDriver` of VirtualGateway/devcontrol_gateway/drivers.py
pub mod AutoLock
use dev_control_open_harmony.Prelude.{
  ℕ, ◌+◌, ◌*◌, String, Bool, true, false, Option, none, some, List, [], ◌∷◌, ◌==◌, ◌&&◌, ◌||◌, not,
  leb, if◌then◌else◌,
}
use dev_control_open_harmony.Numbers.{pos, int_lt, to_ℕ}
use dev_control_open_harmony.Value.{Value, as_bool, as_int}
use dev_control_open_harmony.Errors.{
  Error, Result, ok, raise, refusal, refuse_if, or_raise, invalid_command, internal_error,
}
use dev_control_open_harmony.Exec.{Exec, throw, lift, ◌>>=◌, ◌>>◌}
use dev_control_open_harmony.Dict.{Dict}
use dev_control_open_harmony.Storage.{record_audit}
use dev_control_open_harmony.Device.{Device, DoorLock, Detail, base_device}
use dev_control_open_harmony.Context.{Context, record_alert}
use dev_control_open_harmony.Drivers.Base.{arg, modify}

unfoldable pub create_devices : ℕ → List Device
unfolding base_device
create_devices now =
    base_device now "door-entry-01" "入户门锁" "entry" "doorLock" none (
      Detail.door_lock (record {
        locked = true;
        jammed = false;
        battery_percent = 92;
        auto_lock_enabled = true;
        auto_lock_delay_seconds = 10;
        auto_lock_at = none;
      }))
    ∷ []

-- `int((time.time() + delay) * 1000)`, if auto lock is enabled
abbrev pub armed : ℕ → DoorLock → Option ℕ
armed now k =
    if k.auto_lock_enabled then some (now + k.auto_lock_delay_seconds * 1000) else k.auto_lock_at

abbrev delay_error : Error
delay_error = refusal invalid_command "自动上锁延时必须在5到60秒之间"

unfoldable pub set_auto_lock_config : Dict Value → Exec DoorLock (Unit {0})
unfolding arg
set_auto_lock_config payload = do
  enabled ← lift (or_raise (as_bool (arg "enabled" payload)) (refusal invalid_command "自动上锁开关参数无效"))
  delay ← lift (or_raise (as_int (arg "delaySeconds" payload)) delay_error)
  lift (refuse_if (int_lt delay (pos 5) || int_lt (pos 60) delay) delay_error)
  modify (λ k. record k { auto_lock_enabled = enabled; auto_lock_delay_seconds = to_ℕ delay })
  modify (λ k. if not enabled then record k { auto_lock_at = none } else k)

-- The ladder below the test for a jammed lock.
unfoldable pub operate : ℕ → String → Dict Value → Exec DoorLock (Unit {0})
unfolding set_auto_lock_config
operate now action payload =
    if action == "lock"
    then modify (λ k. record k { locked = true; auto_lock_at = none })
    else if action == "unlock"
    then modify (λ k. record k { locked = false; auto_lock_at = armed now k })
    else if action == "setAutoLockConfig"
    then set_auto_lock_config payload
    else throw (refusal invalid_command "门锁动作不受支持")

-- A jammed lock raises an alert beside the error.
unfoldable pub execute :
    String → String → Dict Value → DoorLock → Context → Result (Unit {0}) × DoorLock × Context
unfolding operate
execute device_id action payload k c =
    if k.jammed && (action == "lock" || action == "unlock")
    then (
      raise (refusal internal_error "门锁卡滞，无法完成操作"),
      k,
      record_alert device_id "critical" "DOOR_JAMMED" "门锁卡滞，操作被拒绝" c,
    )
    else (let (r, k') = operate c.clock action payload k in (r, k', c))

-- `auto_lock_at is not None and now_ms() >= auto_lock_at`
abbrev pub is_due : ℕ → Option ℕ → Bool
is_due now none = false
is_due now (some at) = leb at now

unfoldable pub auto_lock_audit : String → Context → Context
unfolding record_audit
auto_lock_audit device_id c = record c {
  storage =
      record_audit
        (record {
          timestamp_ms = c.clock;
          client_id = "gateway-rule";
          device_id = device_id;
          action = "autoLock";
          success = true;
          error_code = none;
          message_id = "auto-lock";
          details = none;
        })
        c.storage;
}

unfoldable pub tick : Device → DoorLock → Context → Bool × DoorLock × Context
tick device k c =
    if device.online && (not k.locked && (k.auto_lock_enabled && is_due c.clock k.auto_lock_at))
    then (true, record k { locked = true; auto_lock_at = none }, auto_lock_audit device.id c)
    else (false, k, c)
