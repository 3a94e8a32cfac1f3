-- ===== src/Drivers/Light.antt =====
-- `LightDriver` of VirtualGateway/devcontrol_gateway/drivers.py
pub mod Invariant
pub mod Switching
use dev_control_open_harmony.Prelude.{
  ℕ, ◌+◌, ◌*◌, max, String, Bool, true, false, Option, none, some, List, [], ◌∷◌, ◌==◌, ◌&&◌, ◌||◌,
  not, ltb, leb, nat_eq, if◌then◌else◌, same_set,
}
use dev_control_open_harmony.Numbers.{Float, of_ℕ, less, truncate, to_ℕ}
use dev_control_open_harmony.Value.{Value, as_bool, as_number}
use dev_control_open_harmony.Errors.{
  Error, Result, ok, raise, refusal, refuse_if, or_raise, python, value_error, key_error,
  invalid_command,
}
use dev_control_open_harmony.Errors.{◌>>=◌ as ◌>>=?◌}
use dev_control_open_harmony.Exec.{Exec, throw, lift, gets, ◌>>=◌, ◌>>◌}
use dev_control_open_harmony.Dict.{Dict}
use dev_control_open_harmony.Device.{Device, Light, Automation, Environment, Detail, base_device}
use dev_control_open_harmony.Context.{Context, find_first}
use dev_control_open_harmony.Drivers.Base.{Category, arg, modify}

unfoldable pub create_categories : List Category
create_categories = record { id = "lighting"; title = "灯光"; icon = "○"; home_only = false } ∷ []

-- A light that is off, with its automation off.
unfoldable pub new_light : ℕ → Light
new_light brightness = record {
  power = false;
  brightness = brightness;
  last_non_zero_brightness = brightness;
  automation = record {
    enabled = false;
    illuminance_threshold_lux = 100;
    no_presence_delay_seconds = 60;
    manual_override_until = none;
  };
  no_presence_since = none;
}

unfoldable pub make : ℕ → String → String → String → ℕ → Device
unfolding base_device new_light
make now device_id name room_id brightness =
    base_device now device_id name room_id "light" (some "lighting")
      (Detail.light (new_light brightness))

unfoldable pub create_devices : ℕ → List Device
unfolding make
create_devices now =
    make now "light-living-01" "客厅主灯" "living" 60
    ∷ make now "light-master-01" "主卧顶灯" "masterBedroom" 60
    ∷ make now "light-bedroom-01" "次卧阅读灯" "bedroom" 50
    ∷ []

abbrev pub required_capabilities : List String
required_capabilities = "setPower" ∷ "setBrightness" ∷ "setAutomationConfig" ∷ []

unfoldable pub attest_registration :
    ℕ → String → String → String → String → List String → Result Device
unfolding make
attest_registration now device_id name room_id category_id capabilities =
    if not (category_id == "lighting") || not (same_set capabilities required_capabilities)
    then raise (refusal invalid_command "灯光设备必须声明 lighting 分类及完整的受支持能力")
    else ok (record (make now device_id name room_id 60) { removable = true })

-- `int((now + 300) * 1000)`
abbrev pub override_until : ℕ → Option ℕ
override_until now = some (now + 300000)

abbrev overridden : ℕ → Light → Light
overridden now l = record l {
  automation = record l.automation { manual_override_until = override_until now };
}

unfoldable pub set_power : ℕ → Dict Value → Exec Light (Unit {0})
unfolding arg
set_power now payload = do
  power ← lift (or_raise (as_bool (arg "power" payload)) (refusal invalid_command "灯光电源参数必须为布尔值"))
  modify (λ l. record l { power = power })
  modify (λ l.
      if power && nat_eq l.brightness 0
      then record l { brightness = max 1 l.last_non_zero_brightness }
      else l)
  modify (overridden now)

abbrev pub brightness_error : Error
brightness_error = refusal invalid_command "亮度必须在0到100之间"

unfoldable pub set_brightness : ℕ → Dict Value → Exec Light (Unit {0})
unfolding arg
set_brightness now payload = do
  brightness ← lift (or_raise (as_number (arg "brightness" payload)) brightness_error)
  lift (refuse_if (less brightness (of_ℕ 0) || less (of_ℕ 100) brightness) brightness_error)
  truncated ← lift (or_raise (truncate brightness) (python value_error))
  modify (λ l. record l { brightness = to_ℕ truncated; power = ltb 0 (to_ℕ truncated) })
  modify (λ l.
      if ltb 0 (to_ℕ truncated) then record l { last_non_zero_brightness = to_ℕ truncated } else l)
  modify (overridden now)

-- A number between two bounds, as `isinstance` and two comparisons test it, and its `int()`.
unfoldable pub number_within : ℕ → ℕ → Value → Error → Result Float
number_within lo hi v e = or_raise (as_number v) e >>=? λ x.
    if less x (of_ℕ lo) || less (of_ℕ hi) x then raise e else ok x

-- The automation that the payload asks for: every test comes before the first `int()`.
unfoldable pub automation_config : Dict Value → Result Automation
unfolding arg
automation_config payload =
    or_raise (as_bool (arg "enabled" payload)) (refusal invalid_command "自动照明开关参数无效")
    >>=? λ enabled.
        number_within 10 500 (arg "illuminanceThresholdLux" payload)
          (refusal invalid_command "照度阈值必须在10到500 lx之间")
        >>=? λ threshold.
            number_within 5 600 (arg "noPresenceDelaySeconds" payload)
              (refusal invalid_command "无人延时必须在5到600秒之间")
            >>=? λ delay. or_raise (truncate threshold) (python value_error) >>=? λ whole_threshold.
                or_raise (truncate delay) (python value_error) >>=? λ whole_delay. ok (record {
                  enabled = enabled;
                  illuminance_threshold_lux = to_ℕ whole_threshold;
                  no_presence_delay_seconds = to_ℕ whole_delay;
                  manual_override_until = none;
                })

unfoldable pub set_automation_config : Dict Value → Exec Light (Unit {0})
set_automation_config payload = do
  automation ← lift (automation_config payload)
  modify (λ l. record l { automation = automation })
  modify (λ l. record l { no_presence_since = none })

unfoldable pub execute : ℕ → String → Dict Value → Exec Light (Unit {0})
execute now action payload =
    if action == "setPower"
    then set_power now payload
    else if action == "setBrightness"
    then set_brightness now payload
    else if action == "setAutomationConfig"
    then set_automation_config payload
    else throw (refusal invalid_command "灯光动作不受支持")

abbrev pub as_environment : Detail → Option Environment
as_environment (Detail.environment e) = some e
as_environment _ = none

-- `override_until is not None and now_ms() < override_until`
abbrev pub is_overridden : ℕ → Option ℕ → Bool
is_overridden now none = false
is_overridden now (some until) = ltb now until

-- `not environment["presence"]`, with the time since when nobody was seen
abbrev absence : ℕ → Option ℕ → Exec Light Bool
absence now none l = (ok false, record l { no_presence_since = some now })
absence now (some since) l =
    if l.power && leb (since + l.automation.no_presence_delay_seconds * 1000) now
    then (ok true, record l { power = false })
    else (ok false, l)

-- The rest of `tick`, once the readings of the room are there.
unfoldable pub react : ℕ → Environment → Exec Light Bool
react now e l =
    if is_overridden now l.automation.manual_override_until
    then (ok false, l)
    else if e.presence && less e.illuminance_lux (of_ℕ l.automation.illuminance_threshold_lux)
    then (if not l.power
        then (
          ok true,
          record l {
            no_presence_since = none;
            power = true;
            brightness = max 1 l.last_non_zero_brightness;
          },
        )
        else (ok false, record l { no_presence_since = none }))
    else if not e.presence
    then absence now l.no_presence_since l
    else (ok false, l)

-- The light of `device`, in its room.
unfoldable pub tick : Device → Context → Exec Light Bool
tick device c l =
    if not device.online || not l.automation.enabled
    then (ok false, l)
    else elim (find_first "environment" (some device.room_id) c) [
      | none ↦ (ok false, l)
      | some sensor ↦
          if not sensor.online then (ok false, l) else elim (as_environment sensor.detail) [
            | none ↦ (raise (python key_error), l)
            | some e ↦ react c.clock e l
          ]
    ]
