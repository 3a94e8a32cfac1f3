-- ===== src/Adapters.antt =====
-- VirtualGateway/devcontrol_gateway/adapters.py: the simulated air conditioner brands.
use dev_control_open_harmony.Prelude.{
  ℕ, String, Bool, false, Option, none, some, List, [], ◌∷◌, ◌==◌, ◌&&◌, ◌||◌, not, nat_eq,
  if◌then◌else◌, concat, contains, decimal,
}
use dev_control_open_harmony.Numbers.{ℤ, pos, negsuc, int_lt}
use dev_control_open_harmony.Errors.{
  Result, ok, ◌>>◌, refusal, refuse_if, or_raise, invalid_command,
}
use dev_control_open_harmony.Dict.{Dict, get}

abbrev pub valid_modes : List String
valid_modes = "auto" ∷ "cool" ∷ "heat" ∷ "dry" ∷ "fan" ∷ []

abbrev pub valid_fan_speeds : List String
valid_fan_speeds = "auto" ∷ "low" ∷ "medium" ∷ "high" ∷ []

pub record NormalizedAcCommand : Type 0 where
  pub action : String
  pub power : Option Bool
  pub mode : Option String
  pub temperature : Option ℤ
  pub fan_speed : Option String

-- `NormalizedAcCommand(action=action)`
abbrev pub bare_command : String → NormalizedAcCommand
bare_command action = record {
  action = action;
  power = none;
  mode = none;
  temperature = none;
  fan_speed = none;
}

-- `BrandAdapter` and its subclasses, which differ in `encode` alone
pub data BrandAdapter : Type 0 where
  generic haier_sim gree_sim midea_sim : BrandAdapter

-- `value in VALID`, where the value may be None
unfoldable pub is_among : List String → Option String → Bool
unfolding contains
is_among valid none = false
is_among valid (some s) = contains valid s

unfoldable pub is_settable : Option ℤ → Bool
is_settable none = false
is_settable (some t) = not (int_lt t (pos 16) || int_lt (pos 30) t)

unfoldable pub validate : NormalizedAcCommand → Result (Unit {0})
validate command = do
  refuse_if (command.action == "setMode" && not (is_among valid_modes command.mode))
      (refusal invalid_command "空调模式不受支持")
  refuse_if (command.action == "setTemperature" && not (is_settable command.temperature))
      (refusal invalid_command "目标温度必须在16到30摄氏度之间")
  refuse_if (command.action == "setFanSpeed" && not (is_among valid_fan_speeds command.fan_speed))
      (refusal invalid_command "空调风速不受支持")

-- `value or ''`
abbrev text_or_empty : Option String → String
text_or_empty none = ""
text_or_empty (some s) = s

unfoldable pub number_or_empty : Option ℤ → String
unfolding decimal
number_or_empty none = ""
number_or_empty (some (pos n)) = if nat_eq n 0 then "" else decimal n
number_or_empty (some (negsuc n)) = concat ("-" ∷ decimal (ℕ.suc n) ∷ [])

-- `command.power`, as a condition
abbrev is_on : Option Bool → Bool
is_on none = false
is_on (some b) = b

unfoldable pub frame : BrandAdapter → NormalizedAcCommand → String
unfolding number_or_empty
frame generic c = concat (
    "GENERIC_SIM|"
    ∷ c.action
    ∷ "|"
    ∷ text_or_empty c.mode
    ∷ "|"
    ∷ number_or_empty c.temperature
    ∷ "|"
    ∷ text_or_empty c.fan_speed
    ∷ [])
frame haier_sim c = concat (
    "HAIER_SIM|POWER="
    ∷ (if is_on c.power then "ON" else "OFF")
    ∷ "|MODE="
    ∷ text_or_empty c.mode
    ∷ "|TEMP="
    ∷ number_or_empty c.temperature
    ∷ "|FAN="
    ∷ text_or_empty c.fan_speed
    ∷ [])
frame gree_sim c = concat (
    "GREE_SIM|PWR:"
    ∷ (if is_on c.power then "1" else "0")
    ∷ "|MODE:"
    ∷ text_or_empty c.mode
    ∷ "|T:"
    ∷ number_or_empty c.temperature
    ∷ "|FAN:"
    ∷ text_or_empty c.fan_speed
    ∷ [])
frame midea_sim c = concat (
    "MIDEA_SIM|"
    ∷ (if is_on c.power then "ON" else "OFF")
    ∷ ";"
    ∷ text_or_empty c.mode
    ∷ ";"
    ∷ number_or_empty c.temperature
    ∷ ";"
    ∷ text_or_empty c.fan_speed
    ∷ [])

unfoldable pub encode : BrandAdapter → NormalizedAcCommand → Result String
unfolding validate
encode adapter command = do validate command; ok (frame adapter command)

abbrev pub adapters : Dict BrandAdapter
adapters =
    ("generic", generic)
    ∷ ("haierSim", haier_sim)
    ∷ ("greeSim", gree_sim)
    ∷ ("mideaSim", midea_sim)
    ∷ []

unfoldable pub get_adapter : String → Result BrandAdapter
unfolding get
get_adapter brand = or_raise (get brand adapters) (refusal invalid_command "未知的模拟空调品牌")
