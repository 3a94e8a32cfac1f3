-- ===== src/Composition/Answers.antt =====
-- What the built-in drivers answer to a registration.
use mathlib.Core.Path.{subst}
use dev_control_open_harmony.Prelude.{ℕ, String, true, ◌≡◌, List, All, arith, some, eq_iff, refl}
use dev_control_open_harmony.Errors.{ok, Result, raise, ok-injective}
use dev_control_open_harmony.Device.{Device}
use dev_control_open_harmony.Drivers.Base.{DeviceDriver}
use dev_control_open_harmony.Drivers
use dev_control_open_harmony.Drivers.Environment.{Floats}
use dev_control_open_harmony.Composition.{
  light_driver, environment_driver, humidifier_driver, bath_heater_driver, air_conditioner_driver,
  door_lock_driver, curtain_driver, default_drivers,
}

-- the device that was asked for: its identity, its place, in working order and removable
abbrev pub Asked : String → String → String → String → String → Device → Type 0
Asked family device_id name room_id category_id d =
    (d.id ≡ device_id)
    × (d.device_type ≡ family)
    × (d.name ≡ name)
    × (d.room_id ≡ room_id)
    × (d.category_id ≡ some category_id)
    × (d.online ≡ true)
    × (d.removable ≡ true)

abbrev pub IfOk : {A : Type 0} → (A → Type 0) → Result A → Type 0
IfOk P (ok a) = P a
IfOk P (raise e) = Unit

IfOk-intro : {A : Type 0} (P : A → Type 0) (m : Result A) → ((a : A) → m ≡ ok a → P a) → IfOk P m
IfOk-intro P (ok a) h = h a refl
IfOk-intro P (raise e) h = tt

pub IfOk-elim : {A : Type 0} (P : A → Type 0) (m : Result A) (a : A) → IfOk P m → m ≡ ok a → P a
IfOk-elim P (ok b) a p h = subst P (ok-injective h) p
IfOk-elim P (raise e) a p h = cc

abbrev pub AnswersFor : DeviceDriver → Type 0
AnswersFor driver =
    (now : ℕ) (device_id name room_id category_id : String) (capabilities : List String)
    → IfOk (Asked driver.device_type device_id name room_id category_id)
        (driver.attest_registration now device_id name room_id category_id capabilities)

pub light-AnswersFor : AnswersFor light_driver
unfolding light_driver Drivers.Light.attest_registration Drivers.Light.make
light-AnswersFor now id name room category caps =
    IfOk-intro (Asked light_driver.device_type id name room category)
      (light_driver.attest_registration now id name room category caps)
      λ d h. ground (arith, eq_iff category "lighting", eq_iff category "environment")

environment-AnswersFor : (f : Floats) → AnswersFor (environment_driver f)
unfolding environment_driver Drivers.Environment.attest_registration Drivers.Environment.make
environment-AnswersFor f now id name room category caps =
    IfOk-intro (Asked (environment_driver f).device_type id name room category)
      ((environment_driver f).attest_registration now id name room category caps)
      λ d h. ground (arith, eq_iff category "lighting", eq_iff category "environment")

humidifier-AnswersFor : AnswersFor humidifier_driver
unfolding humidifier_driver Drivers.Humidifier.attest_registration Drivers.Humidifier.make
humidifier-AnswersFor now id name room category caps =
    IfOk-intro (Asked humidifier_driver.device_type id name room category)
      (humidifier_driver.attest_registration now id name room category caps)
      λ d h. ground (arith, eq_iff category "lighting", eq_iff category "environment")

air_conditioner-AnswersFor : AnswersFor air_conditioner_driver
unfolding air_conditioner_driver Drivers.AirConditioner.attest_registration
    Drivers.AirConditioner.make
air_conditioner-AnswersFor now id name room category caps =
    IfOk-intro (Asked air_conditioner_driver.device_type id name room category)
      (air_conditioner_driver.attest_registration now id name room category caps)
      λ d h. ground (arith, eq_iff category "lighting", eq_iff category "environment")

bath_heater-AnswersFor : AnswersFor bath_heater_driver
unfolding bath_heater_driver
bath_heater-AnswersFor now id name room category caps = tt

door_lock-AnswersFor : AnswersFor door_lock_driver
unfolding door_lock_driver
door_lock-AnswersFor now id name room category caps = tt

curtain-AnswersFor : AnswersFor curtain_driver
unfolding curtain_driver
curtain-AnswersFor now id name room category caps = tt

-- A built-in driver that accepts a registration answers with the device that was asked for: with its
-- identifier, family, name, room and category, online and removable.
pub default_drivers-AnswersFor : (f : Floats) → All AnswersFor (default_drivers f)
unfolding default_drivers
default_drivers-AnswersFor f = (
  light-AnswersFor,
  (
    environment-AnswersFor f,
    (
      humidifier-AnswersFor,
      (
        bath_heater-AnswersFor,
        (air_conditioner-AnswersFor, (door_lock-AnswersFor, (curtain-AnswersFor, tt))),
      ),
    ),
  ),
)
