-- ===== src/Registry/Commands/Refusals.antt =====
-- Commands that are turned down before the driver sees them.
use dev_control_open_harmony.Prelude.{
  ℕ, ◌<◌, ◌⊎◌, String, true, false, ◌≡◌, refl, Option, some, arith, if◌then◌else◌, Option-cases,
  Bool-cases, inl, inr, not,
}
use dev_control_open_harmony.Value.{Value}
use dev_control_open_harmony.Errors.{
  Error, raise, is_ok, refusal, device_offline, state_conflict, command_timeout,
}
use dev_control_open_harmony.Dict.{Dict, get}
use dev_control_open_harmony.Device.{Device}
use dev_control_open_harmony.Context
use dev_control_open_harmony.Registry.{DeviceRegistry, find}
use dev_control_open_harmony.Registry.Commands.{
  ensure_commandable, is_stale, perform, execute_device,
}
use dev_control_open_harmony.Registry.Commands.Invariant.{WellFormed}
use dev_control_open_harmony.Registry.Commands.Effects.{execute_device-Outcome}

-- the refusal of a command, by the first condition that fails
abbrev pub refusal_error : Option ℕ → Device → Error
refusal_error v d =
    if not d.online
    then refusal device_offline "目标设备当前离线"
    else if is_stale v d
    then refusal state_conflict "设备状态版本已更新，请刷新后重试"
    else refusal command_timeout "设备响应超过5秒超时限制"

abbrev pub IsRefused : Option ℕ → Device → Type 0
IsRefused v d = (d.online ≡ false) ⊎ ((is_stale v d ≡ true) ⊎ (5000 < d.command_delay_ms))

ensure_commandable-refused :
    (v : Option ℕ) (r : DeviceRegistry) (d : Device)
    → IsRefused v d
    → ensure_commandable d v r ≡ (raise (refusal_error v d), r)
unfolding ensure_commandable
ensure_commandable-refused v r d h = ground arith

-- A command to a device that is offline, that is not at the expected version, or whose delay is
-- over five seconds raises the error of the first of these that holds, and leaves the registry as
-- it was.
pub refused_command :
    (id action : String) (payload : Dict Value) (v : Option ℕ) (r : DeviceRegistry) (d : Device)
    → get id r.devices ≡ some d
    → IsRefused v d
    → execute_device id action payload v r ≡ (raise (refusal_error v d), r)
unfolding execute_device perform find Context.find
refused_command id action payload v r d found h =
    rw (found, ensure_commandable-refused v r d h) refl

-- Of two commands sent one after the other that expect the same version of a device, the second
-- fails and changes nothing when the first has succeeded.
pub no_lost_update :
    (id action action' : String) (payload payload' : Dict Value) (v : ℕ) (r : DeviceRegistry)
    (d : Device)
    → WellFormed r
    → get id r.devices ≡ some d
    → is_ok (execute_device id action payload (some v) r).0 ≡ true
    → let first = (execute_device id action payload (some v) r).1 in
      let second = execute_device id action' payload' (some v) first in
      (is_ok second.0 ≡ false) × (second.1 ≡ first)
no_lost_update id action action' payload payload' v r d w found success =
    let first = (execute_device id action payload (some v) r).1 in
    let moved = (execute_device-Outcome id action payload (some v) r d w found).version in
    elim (Bool-cases (is_stale (some v) d)) [
      | inl stale ↦
          ground (arith, refused_command id action payload (some v) r d found (inr (inl stale)))
      | inr fresh ↦ elim (Option-cases (get id first.devices)) [
        | inl gone ↦ ground (arith, moved)
        | inr (d', there) ↦
            let stale : is_stale (some v) d' ≡ true = ground (arith, moved) in
            ground
              (arith, refused_command id action' payload' (some v) first d' there (inr (inl stale)))
      ]
    ]
