-- ===== src/Drivers/Controls.antt =====
-- The controls that the generic devices declare, against the commands that their drivers accept.
use dev_control_open_harmony.Prelude.{
  ℕ, ◌≡◌, String, Bool, true, false, ◌&&◌, Option, none, some, List, [], ◌∷◌, ◌==◌, leb,
  if◌then◌else◌, arith, All, contains, inl, inr, ◌⊎◌, refl,
}
use dev_control_open_harmony.Numbers.{pos, less, round}
use dev_control_open_harmony.Value.{Value, integer, boolean, text}
use dev_control_open_harmony.Errors.{ok}
use dev_control_open_harmony.Exec.{Exec}
use dev_control_open_harmony.Dict.{Dict}
use dev_control_open_harmony.Device.{Humidifier, BathHeater, Curtain}
use dev_control_open_harmony.Device.View.{
  Control, humidifier_controls, bath_heater_controls, curtain_controls,
}
use dev_control_open_harmony.Drivers.Base.{arg}
use dev_control_open_harmony.Drivers.Humidifier as HumidifierDriver
use dev_control_open_harmony.Drivers.BathHeater as BathHeaterDriver
use dev_control_open_harmony.Drivers.Curtain as CurtainDriver

abbrev is_option : List (String × String) → Value → Bool
is_option [] v = false
is_option ((value, _) ∷ rest) (text s) = if value == s then true else is_option rest (text s)
is_option (o ∷ rest) _ = false

abbrev is_within : Option (ℕ × ℕ) → Value → Bool
is_within (some (minimum, maximum)) (integer (pos n)) = leb minimum n && leb n maximum
is_within _ _ = false

abbrev is_bool : Value → Bool
is_bool (boolean b) = true
is_bool _ = false

-- The values that a client can choose on a control.
pub offered : Control → Value → Bool
offered c v =
    if c.kind == "toggle"
    then is_bool v
    else if c.kind == "enum"
    then is_option c.options v
    else if c.kind == "slider"
    then is_within c.range v
    else true

-- What the control sends when the client chose `v`.
abbrev pub payload_of : Control → Value → Dict Value
payload_of c v = elim c.payload_key [ none ↦ [] | some key ↦ (key, v) ∷ [] ]

-- Every value that the control offers is accepted by the driver, in every state.
abbrev pub Fits : {F : Type 0} → (String → Dict Value → Exec F (Unit {0})) → Control → Type 0
Fits {F} execute c =
    (v : Value) (s : F) → offered c v ≡ true → (execute c.action (payload_of c v) s).0 ≡ ok tt

power_fits :
    (v : Value) (s : Humidifier)
    → is_bool v ≡ true
    → (HumidifierDriver.execute "setPower" (("power", v) ∷ []) s).0 ≡ ok tt
unfolding HumidifierDriver.execute arg
power_fits (boolean b) s h = ground arith
power_fits _ s h = ground arith

target_fits :
    (v : Value) (s : Humidifier)
    → is_within (some (35, 75)) v ≡ true
    → (HumidifierDriver.execute "setTargetHumidity" (("targetHumidityPercent", v) ∷ []) s).0 ≡ ok tt
unfolding HumidifierDriver.execute arg less round
target_fits (integer (pos n)) s h = ground arith
target_fits _ s h = ground arith

pub humidifier_controls_fit : All (Fits HumidifierDriver.execute) humidifier_controls
unfolding humidifier_controls offered
humidifier_controls_fit = (power_fits, (target_fits, tt))

heat_fits :
    (v : Value) (s : BathHeater)
    → is_bool v ≡ true
    → (BathHeaterDriver.execute "setPower" (("power", v) ∷ []) s).0 ≡ ok tt
unfolding BathHeaterDriver.execute arg
heat_fits (boolean b) s h = ground arith
heat_fits _ s h = ground arith

position_fits :
    (v : Value) (s : Curtain)
    → is_within (some (0, 100)) v ≡ true
    → (CurtainDriver.execute "setPosition" (("positionPercent", v) ∷ []) s).0 ≡ ok tt
unfolding CurtainDriver.execute arg
position_fits (integer (pos n)) s h = ground arith
position_fits _ s h = ground arith

mode_fits :
    (v : Value) (s : BathHeater)
    → is_option (("warm", "暖风") ∷ ("ventilate", "换气") ∷ ("dry", "干燥") ∷ []) v ≡ true
    → (BathHeaterDriver.execute "setMode" (("mode", v) ∷ []) s).0 ≡ ok tt
unfolding BathHeaterDriver.execute arg contains
mode_fits (text m) s h = ground arith
mode_fits _ s h = ground arith

pub bath_heater_controls_fit : All (Fits BathHeaterDriver.execute) bath_heater_controls
unfolding bath_heater_controls offered
bath_heater_controls_fit = (heat_fits, (mode_fits, tt))

button_fits :
    (action : String)
    → (action == "open") ≡ true ⊎ ((action == "stop") ≡ true ⊎ (action == "close") ≡ true)
    → (s : Curtain) → (CurtainDriver.execute action [] s).0 ≡ ok tt
unfolding CurtainDriver.execute
button_fits action h s = ground arith

pub curtain_controls_fit : All (Fits CurtainDriver.execute) curtain_controls
unfolding curtain_controls offered
curtain_controls_fit = (
  position_fits,
  (
    (λ v s h. button_fits "open" (inl refl) s),
    (
      (λ v s h. button_fits "stop" (inr (inl refl)) s),
      ((λ v s h. button_fits "close" (inr (inr refl)) s), tt),
    ),
  ),
)
