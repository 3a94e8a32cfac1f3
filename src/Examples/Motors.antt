-- ===== src/Examples/Motors.antt =====
-- The theorems about door locks and curtains, on concrete devices.
use dev_control_open_harmony.Prelude.{◌+◌, ◌*◌, true, false, ◌≡◌, refl, none, [], arith, leb}
use dev_control_open_harmony.Device.{Device, Detail, DoorLock, Curtain, stopped, closing}
use dev_control_open_harmony.Drivers
use dev_control_open_harmony.Drivers.DoorLock.AutoLock.{unlock_then_tick}
use dev_control_open_harmony.Drivers.Curtain.Motion.{IsValid as CurtainIsValid, ticks_arrive, ticks}
use dev_control_open_harmony.Drivers.Curtain.{distance}
use dev_control_open_harmony.Examples.Base.{at, device}

abbrev door : DoorLock
door = record {
  locked = true;
  jammed = false;
  battery_percent = 82;
  auto_lock_enabled = true;
  auto_lock_delay_seconds = 10;
  auto_lock_at = none;
}

abbrev door_device : Device
door_device = device "door-entry-01" (Detail.door_lock door)

unlock_then_tick_example :
    (Drivers.DoorLock.tick door_device
      (Drivers.DoorLock.execute "door-entry-01" "unlock" [] door (at 7)).1
      (at 10007)).1.locked
    ≡ leb (7 + 10 * 1000) 10007
unlock_then_tick_example = unlock_then_tick door_device [] door (at 7) (at 10007) refl refl refl

abbrev stuck : DoorLock
stuck = record door { jammed = true }

abbrev open_curtain : Curtain
open_curtain = record { position_percent = 100; target_position_percent = 35; movement = closing }

abbrev curtain_device : Device
curtain_device = device "curtain-living-01" (Detail.curtain open_curtain)

open_curtain-IsValid : CurtainIsValid open_curtain
open_curtain-IsValid = ground arith

abbrev moved : Curtain
moved = (Drivers.Curtain.tick curtain_device open_curtain).1

ticks_arrive_example :
    ((ticks 7 curtain_device open_curtain).position_percent ≡ 35)
    × ((ticks 7 curtain_device open_curtain).target_position_percent ≡ 35)
    × ((ticks 7 curtain_device open_curtain).movement ≡ stopped)
ticks_arrive_example =
    ticks_arrive 7 curtain_device open_curtain open_curtain-IsValid refl (omega arith)
