-- ===== src/Device.antt =====
-- The devices that the gateway simulates: the common part (`base_device` of
-- VirtualGateway/devcontrol_gateway/drivers.py) and one record for each family.
-- Times are milliseconds; `updated_at` is the time that `iso_now` renders.
pub mod View
use dev_control_open_harmony.Prelude.{ℕ, String, Bool, true, false, Option, none, some, List, ◌≡◌}
use dev_control_open_harmony.Numbers.{ℤ, Float}

pub record Automation : Type 0 where
  pub enabled : Bool
  pub illuminance_threshold_lux : ℕ
  pub no_presence_delay_seconds : ℕ
  pub manual_override_until : Option ℕ

pub record Light : Type 0 where
  pub power : Bool
  pub brightness : ℕ
  pub last_non_zero_brightness : ℕ
  pub automation : Automation
  pub no_presence_since : Option ℕ

pub record Environment : Type 0 where
  pub temperature_celsius : Float
  pub humidity_percent : Float
  pub illuminance_lux : Float
  pub presence : Bool
  pub data_valid : Bool
  pub manual_injection_until : ℕ

pub record AirConditioner : Type 0 where
  pub brand : String
  pub power : Bool
  pub mode : String
  pub target_temperature_celsius : ℤ
  pub fan_speed : String
  pub running : Bool
  pub last_adapter_frame : String

pub record BathHeater : Type 0 where
  pub power : Bool
  pub mode : String

pub record Humidifier : Type 0 where
  pub power : Bool
  pub target_humidity_percent : ℕ

pub record DoorLock : Type 0 where
  pub locked : Bool
  pub jammed : Bool
  pub battery_percent : ℕ
  pub auto_lock_enabled : Bool
  pub auto_lock_delay_seconds : ℕ
  pub auto_lock_at : Option ℕ

pub data Movement : Type 0 where
  stopped opening closing : Movement

pub record Curtain : Type 0 where
  pub position_percent : ℕ
  pub target_position_percent : ℕ
  pub movement : Movement

-- The entries of a device's dict that its family adds.
pub data Detail : Type 0 where
  light : Light → Detail
  environment : Environment → Detail
  air_conditioner : AirConditioner → Detail
  bath_heater : BathHeater → Detail
  humidifier : Humidifier → Detail
  door_lock : DoorLock → Detail
  curtain : Curtain → Detail

pub record Device : Type 0 where
  pub id : String
  pub name : String
  pub room_id : String
  pub device_type : String
  pub online : Bool
  pub state_version : ℕ
  pub updated_at : ℕ
  pub command_delay_ms : ℕ
  pub fail_next_command : Bool
  pub category_id : Option String
  pub removable : Bool
  pub registration_capabilities : Option (List String)
  pub detail : Detail

-- `base_device(...)`, with the keys that a family adds: a category or none, and the detail
unfoldable pub base_device : ℕ → String → String → String → String → Option String → Detail → Device
base_device now device_id name room_id device_type category_id detail = record {
  id = device_id;
  name = name;
  room_id = room_id;
  device_type = device_type;
  online = true;
  state_version = 1;
  updated_at = now;
  command_delay_ms = 0;
  fail_next_command = false;
  category_id = category_id;
  removable = false;
  registration_capabilities = none;
  detail = detail;
}

-- `e` differs from `d` in the entries of its family at most.
abbrev pub OnlyDetail : Device → Device → Type 0
OnlyDetail d e = record d { detail = e.detail } ≡ e
