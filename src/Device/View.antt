-- ===== src/Device/View.antt =====
-- A device as the dict that the program keeps, with its private keys (those that begin with `_`),
-- and the part of it that the API shows (`public_device` of registry.py takes the private keys out).
use Prim.Native.String.{String}
use package.text.Mathlib.Text.{starts_with}
use dev_control_open_harmony.Prelude.{
  ℕ, Bool, true, false, not, Option, none, some, List, [], ◌∷◌, ◌++◌, filter, if◌then◌else◌,
}
use dev_control_open_harmony.Numbers.{pos}
use dev_control_open_harmony.Value.{
  Value, null, boolean, integer, real, text, array, object, Values, nil, cons, Fields, end, field,
}
use dev_control_open_harmony.Dict.{Dict}
use dev_control_open_harmony.Device.{
  Automation, Movement, Detail, Device, light, environment, air_conditioner, bath_heater,
  humidifier, door_lock, curtain, stopped, opening, closing,
}

abbrev pub natural : ℕ → Value
natural n = integer (pos n)

abbrev pub natural_or_null : Option ℕ → Value
natural_or_null none = null
natural_or_null (some n) = natural n

abbrev pub texts : List String → Values
texts [] = nil
texts (s ∷ rest) = cons (text s) (texts rest)

abbrev pub movement_text : Movement → String
movement_text stopped = "stopped"
movement_text opening = "opening"
movement_text closing = "closing"

automation_items : Automation → Fields
automation_items a = field "enabled" (boolean a.enabled) (
    field "illuminanceThresholdLux" (natural a.illuminance_threshold_lux) (
      field "noPresenceDelaySeconds" (natural a.no_presence_delay_seconds)
        (field "manualOverrideUntil" (natural_or_null a.manual_override_until) end)))

-- One control that a generic client shows, as a `controls` entry of the device.
pub record Control : Type 0 where
  pub id : String
  pub kind : String
  pub label : String
  pub action : String
  pub state_key : Option String
  pub payload_key : Option String
  pub options : List (String × String)
  pub range : Option (ℕ × ℕ)
  pub step : Option ℕ
  pub unit : Option String
  pub primary : Option Bool
  pub requires_confirmation : Option Bool

-- A control with the four keys that every control has.
abbrev pub plain_control : String → String → String → String → Control
plain_control id kind label action = record {
  id = id;
  kind = kind;
  label = label;
  action = action;
  state_key = none;
  payload_key = none;
  options = [];
  range = none;
  step = none;
  unit = none;
  primary = none;
  requires_confirmation = none;
}

unfoldable pub bath_heater_controls : List Control
bath_heater_controls =
    record (plain_control "power" "toggle" "开关" "setPower") {
      state_key = some "power";
      payload_key = some "power";
      primary = some true;
    }
    ∷ record (plain_control "mode" "enum" "工作模式" "setMode") {
      state_key = some "mode";
      payload_key = some "mode";
      options = ("warm", "暖风") ∷ ("ventilate", "换气") ∷ ("dry", "干燥") ∷ [];
    }
    ∷ []

unfoldable pub humidifier_controls : List Control
humidifier_controls =
    record (plain_control "power" "toggle" "开关" "setPower") {
      state_key = some "power";
      payload_key = some "power";
      primary = some true;
    }
    ∷ record (plain_control "targetHumidity" "slider" "目标湿度" "setTargetHumidity") {
      state_key = some "targetHumidityPercent";
      payload_key = some "targetHumidityPercent";
      range = some (35, 75);
      step = some 1;
      unit = some "%";
    }
    ∷ []

unfoldable pub curtain_controls : List Control
curtain_controls =
    record (plain_control "position" "slider" "开合度" "setPosition") {
      state_key = some "positionPercent";
      payload_key = some "positionPercent";
      range = some (0, 100);
      step = some 1;
      unit = some "%";
      primary = some true;
      requires_confirmation = some false;
    }
    ∷ plain_control "open" "button" "打开" "open"
    ∷ plain_control "stop" "button" "暂停" "stop"
    ∷ plain_control "close" "button" "关闭" "close"
    ∷ []

-- a key that is there only if the control has it
abbrev entry {ℓ} : {A : Type ℓ} → String → (A → Value) → Option A → Fields → Fields
entry key show none rest = rest
entry key show (some a) rest = field key (show a) rest

option_items : List (String × String) → Values
option_items [] = nil
option_items ((value, label) ∷ rest) =
    cons (object (field "value" (text value) (field "label" (text label) end))) (option_items rest)

options_entry : List (String × String) → Fields → Fields
unfolding option_items
options_entry [] rest = rest
options_entry (o ∷ os) rest = field "options" (array (option_items (o ∷ os))) rest

range_entry : Option (ℕ × ℕ) → Fields → Fields
range_entry none rest = rest
range_entry (some (minimum, maximum)) rest =
    field "minimum" (natural minimum) (field "maximum" (natural maximum) rest)

control_items : Control → Fields
unfolding options_entry range_entry
control_items c = field "id" (text c.id) (
    field "kind" (text c.kind) (
      field "label" (text c.label) (
        field "action" (text c.action) (
          entry "stateKey" text c.state_key (
            entry "payloadKey" text c.payload_key (
              options_entry c.options (
                range_entry c.range (
                  entry "step" natural c.step (
                    entry "unit" text c.unit (
                      entry "primary" boolean c.primary
                        (entry "requiresConfirmation" boolean c.requires_confirmation end)))))))))))

controls_value : List Control → Values
unfolding control_items
controls_value [] = nil
controls_value (c ∷ cs) = cons (object (control_items c)) (controls_value cs)

-- The keys that a family adds to the dict.
unfoldable pub detail_items : Detail → Dict Value
unfolding automation_items controls_value bath_heater_controls humidifier_controls curtain_controls
detail_items (light l) =
    ("power", boolean l.power)
    ∷ ("brightness", natural l.brightness)
    ∷ ("lastNonZeroBrightness", natural l.last_non_zero_brightness)
    ∷ ("automation", object (automation_items l.automation))
    ∷ ("_noPresenceSince", natural_or_null l.no_presence_since)
    ∷ []
detail_items (environment e) =
    ("temperatureCelsius", real e.temperature_celsius)
    ∷ ("humidityPercent", real e.humidity_percent)
    ∷ ("illuminanceLux", real e.illuminance_lux)
    ∷ ("presence", boolean e.presence)
    ∷ ("dataValid", boolean e.data_valid)
    ∷ ("_manualInjectionUntil", natural e.manual_injection_until)
    ∷ []
detail_items (air_conditioner a) =
    ("brand", text a.brand)
    ∷ ("power", boolean a.power)
    ∷ ("mode", text a.mode)
    ∷ ("targetTemperatureCelsius", integer a.target_temperature_celsius)
    ∷ ("fanSpeed", text a.fan_speed)
    ∷ ("running", boolean a.running)
    ∷ ("lastAdapterFrame", text a.last_adapter_frame)
    ∷ []
detail_items (bath_heater b) =
    ("state", object (field "power" (boolean b.power) (field "mode" (text b.mode) end)))
    ∷ ("controls", array (controls_value bath_heater_controls))
    ∷ []
detail_items (humidifier h) =
    (
      "state",
      object (
          field "power" (boolean h.power)
            (field "targetHumidityPercent" (natural h.target_humidity_percent) end)),
    )
    ∷ ("controls", array (controls_value humidifier_controls))
    ∷ []
detail_items (door_lock k) =
    ("locked", boolean k.locked)
    ∷ ("jammed", boolean k.jammed)
    ∷ ("batteryPercent", natural k.battery_percent)
    ∷ ("autoLockEnabled", boolean k.auto_lock_enabled)
    ∷ ("autoLockDelaySeconds", natural k.auto_lock_delay_seconds)
    ∷ ("autoLockAt", natural_or_null k.auto_lock_at)
    ∷ []
detail_items (curtain c) =
    (
      "state",
      object (
          field "positionPercent" (natural c.position_percent) (
            field "targetPositionPercent" (natural c.target_position_percent)
              (field "movement" (text (movement_text c.movement)) end))),
    )
    ∷ ("controls", array (controls_value curtain_controls))
    ∷ []

-- a key that `update` or an assignment put there
abbrev present {ℓ} : {A : Type ℓ} → String → (A → Value) → Option A → Dict Value
present key show none = []
present key show (some a) = (key, show a) ∷ []

-- The whole dict of a device. `_removable` is there only on a registered device.
unfoldable pub items : Device → Dict Value
unfolding detail_items
items d =
    ("id", text d.id)
    ∷ ("name", text d.name)
    ∷ ("roomId", text d.room_id)
    ∷ ("type", text d.device_type)
    ∷ ("online", boolean d.online)
    ∷ ("stateVersion", natural d.state_version)
    ∷ ("updatedAt", natural d.updated_at)
    ∷ ("_commandDelayMs", natural d.command_delay_ms)
    ∷ ("_failNextCommand", boolean d.fail_next_command)
    ∷ (present "_categoryId" text d.category_id
        ++ (detail_items d.detail
            ++ (present "_removable" boolean (if d.removable then some true else none)
                ++ present "_registrationCapabilities" (λ l. array (texts l))
                    d.registration_capabilities)))

-- `not key.startswith("_")`
abbrev pub is_public : String × Value → Bool
is_public e = not (starts_with e.0 "_")

unfoldable pub public_items : Device → Dict Value
unfolding items
public_items d = filter is_public (items d)
