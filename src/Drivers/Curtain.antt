-- ===== src/Drivers/Curtain.antt =====
-- `CurtainDriver` of VirtualGateway/devcontrol_gateway/drivers.py
pub mod Motion
use dev_control_open_harmony.Prelude.{
  ℕ, ◌+◌, ◌-◌, min, String, Bool, true, false, Option, none, some, List, [], ◌∷◌, ◌==◌, ◌||◌, not,
  ltb, nat_eq, if◌then◌else◌,
}
use dev_control_open_harmony.Numbers.{pos, int_lt, to_ℕ}
use dev_control_open_harmony.Value.{Value, as_int}
use dev_control_open_harmony.Errors.{Error, ok, refusal, refuse_if, or_raise, invalid_command}
use dev_control_open_harmony.Exec.{Exec, throw, lift, ◌>>=◌, ◌>>◌}
use dev_control_open_harmony.Dict.{Dict}
use dev_control_open_harmony.Device.{
  Device, Curtain, Detail, Movement, stopped, opening, closing, base_device,
}
use dev_control_open_harmony.Drivers.Base.{Category, arg, modify}

unfoldable pub create_categories : List Category
create_categories =
    record { id = "curtains"; title = "窗帘"; icon = "curtain"; home_only = false } ∷ []

unfoldable pub make : ℕ → String → String → String → Device
unfolding base_device
make now device_id name room_id =
    base_device now device_id name room_id "curtain" (some "curtains") (
      Detail.curtain
        (record { position_percent = 0; target_position_percent = 0; movement = stopped }))

unfoldable pub create_devices : ℕ → List Device
unfolding make
create_devices now =
    make now "curtain-living-01" "客厅智能窗帘" "living"
    ∷ make now "curtain-master-01" "主卧智能窗帘" "masterBedroom"
    ∷ make now "curtain-bedroom-01" "次卧智能窗帘" "bedroom"
    ∷ []

-- The end of `execute`: the new target, and the way to it.
unfoldable pub aim : ℕ → Curtain → Curtain
aim target c = record c {
  target_position_percent = target;
  movement =
      if ltb c.position_percent target
      then opening
      else if ltb target c.position_percent
      then closing
      else stopped;
}

abbrev position_error : Error
position_error = refusal invalid_command "窗帘开合度必须为0到100的整数"

unfoldable pub set_position : Dict Value → Exec Curtain (Unit {0})
unfolding arg aim
set_position payload = do
  target ← lift (or_raise (as_int (arg "positionPercent" payload)) position_error)
  lift (refuse_if (int_lt target (pos 0) || int_lt (pos 100) target) position_error)
  modify (aim (to_ℕ target))

unfoldable pub execute : String → Dict Value → Exec Curtain (Unit {0})
unfolding set_position
execute action payload =
    if action == "open"
    then modify (aim 100)
    else if action == "close"
    then modify (aim 0)
    else if action == "stop"
    then modify (λ c. aim c.position_percent c)
    else if action == "setPosition"
    then set_position payload
    else throw (refusal invalid_command "窗帘动作不受支持")

-- `abs(target - current)`
abbrev pub distance : Curtain → ℕ
distance c =
    (c.target_position_percent - c.position_percent)
    + (c.position_percent - c.target_position_percent)

abbrev arrived : Curtain → Curtain
arrived c =
    if nat_eq c.position_percent c.target_position_percent
    then record c { movement = stopped }
    else c

-- One step of a curtain that is not at its target.
unfoldable pub advance : Curtain → Curtain
advance c =
    let step = min 10 (distance c) in
    if ltb c.position_percent c.target_position_percent
    then arrived (record c { position_percent = c.position_percent + step; movement = opening })
    else arrived (record c { position_percent = c.position_percent - step; movement = closing })

abbrev pub is_stopped : Movement → Bool
is_stopped stopped = true
is_stopped _ = false

unfoldable pub tick : Device → Curtain → Bool × Curtain
unfolding advance
tick device c =
    if not device.online
    then (false, c)
    else if nat_eq c.position_percent c.target_position_percent
    then (if not (is_stopped c.movement)
        then (true, record c { movement = stopped })
        else (false, c))
    else (true, advance c)
