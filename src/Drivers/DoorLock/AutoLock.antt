-- ===== src/Drivers/DoorLock/AutoLock.antt =====
-- The lock and its timer.
use dev_control_open_harmony.Prelude.{
  ◌+◌, ◌*◌, ◌≤◌, ◌≡◌, ◌≢◌, String, true, false, ◌||◌, leb, arith, ◌==◌, is_some, ◌&&◌, not,
}
use dev_control_open_harmony.Errors.{ok}
use dev_control_open_harmony.Value.{Value}
use dev_control_open_harmony.Dict.{Dict}
use dev_control_open_harmony.Device.{Device, DoorLock}
use dev_control_open_harmony.Context.{Context, record_alert}
use dev_control_open_harmony.Drivers.DoorLock.{execute, operate, set_auto_lock_config, tick}

-- The delay is within its range, and a running timer belongs to an open lock with auto lock on.
pub record IsValid (k : DoorLock) : Type 0 where
  pub delay_low : 5 ≤ k.auto_lock_delay_seconds
  pub delay_high : k.auto_lock_delay_seconds ≤ 60
  pub timer : (is_some k.auto_lock_at && (k.locked || not k.auto_lock_enabled)) ≡ false

-- Every command, accepted or refused, keeps the delay between 5 and 60 seconds and a running timer
-- with an open lock that has auto lock on.
pub door_lock_execute-IsValid :
    (id action : String) (payload : Dict Value) (k : DoorLock) (c : Context)
    → IsValid k
    → IsValid (execute id action payload k c).1
unfolding execute operate set_auto_lock_config
door_lock_execute-IsValid id action payload k c v = ground arith

pub door_lock_tick-IsValid :
    (d : Device) (k : DoorLock) (c : Context) → IsValid k → IsValid (tick d k c).1
unfolding tick
door_lock_tick-IsValid d k c v = ground arith

-- A jammed lock obeys neither lock nor unlock: the command raises, the lock stays as it is, and
-- one critical alert is recorded.
pub jammed_refuses :
    (id action : String) (payload : Dict Value) (k : DoorLock) (c : Context)
    → k.jammed ≡ true
    → (action == "lock" || action == "unlock") ≡ true
    → ((execute id action payload k c).1 ≡ k)
      × ((execute id action payload k c).2
          ≡ record_alert id "critical" "DOOR_JAMMED" "门锁卡滞，操作被拒绝" c)
      × ((execute id action payload k c).0 ≢ ok tt)
unfolding execute
jammed_refuses id action payload k c j a = ground arith

-- After unlocking an unjammed lock with auto lock on, the next tick of the online lock leaves it
-- locked exactly if the configured delay has passed since the command.
pub unlock_then_tick :
    (d : Device) (payload : Dict Value) (k : DoorLock) (opened later : Context)
    → k.jammed ≡ false
    → k.auto_lock_enabled ≡ true
    → d.online ≡ true
    → (tick d (execute d.id "unlock" payload k opened).1 later).1.locked
      ≡ leb (opened.clock + k.auto_lock_delay_seconds * 1000) later.clock
unfolding execute operate tick
unlock_then_tick d payload k opened later j a on = ground arith
