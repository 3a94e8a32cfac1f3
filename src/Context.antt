-- ===== src/Context.antt =====
-- `DriverContext` of VirtualGateway/devcontrol_gateway/drivers.py, the part of the registry that a
-- driver may use, with the registry's implementation of it (registry.py). `clock` is `now_ms()`:
-- one operation reads one time, and only a command's delay moves it on.
use dev_control_open_harmony.Prelude.{
  ℕ, String, Bool, true, Option, none, some, List, [], ◌∷◌, ◌++◌, ◌==◌, ◌&&◌, if◌then◌else◌,
}
use dev_control_open_harmony.Errors.{Result, refusal, or_raise, invalid_command}
use dev_control_open_harmony.Dict.{Dict, values}
use dev_control_open_harmony.Dict as Dict
use dev_control_open_harmony.Storage
use dev_control_open_harmony.Storage.{GatewayStorage}
use dev_control_open_harmony.Device.{Device}

-- The `alert.raised` event.
pub record AlertEvent : Type 0 where
  pub timestamp : ℕ
  pub device_id : String
  pub severity : String
  pub code : String
  pub description : String

pub record Context : Type 0 where
  pub storage : GatewayStorage
  pub pending_alerts : List AlertEvent
  pub devices : Dict Device
  pub clock : ℕ

unfoldable pub find : String → Dict Device → Result Device
unfolding Dict.get
find device_id devices = or_raise (Dict.get device_id devices) (refusal invalid_command "目标设备不存在")

-- `room_id is None or device["roomId"] == room_id`
abbrev pub in_room : Option String → Device → Bool
in_room none d = true
in_room (some room) d = d.room_id == room

-- The first device of the type, and of the room if one is given.
unfoldable pub first_of_type : String → Option String → List Device → Option Device
first_of_type device_type room [] = none
first_of_type device_type room (d ∷ rest) =
    if d.device_type == device_type && in_room room d
    then some d
    else first_of_type device_type room rest

unfoldable pub find_first : String → Option String → Context → Option Device
unfolding first_of_type
find_first device_type room c = first_of_type device_type room (values c.devices)

-- An alert is stored and kept for the next broadcast.
unfoldable pub record_alert : String → String → String → String → Context → Context
unfolding Storage.record_alert
record_alert device_id severity code description c = record c {
  storage = Storage.record_alert c.clock device_id severity code description c.storage;
  pending_alerts =
      c.pending_alerts
      ++ record {
        timestamp = c.clock;
        device_id = device_id;
        severity = severity;
        code = code;
        description = description;
      }
        ∷ [];
}
