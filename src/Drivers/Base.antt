-- ===== src/Drivers/Base.antt =====
-- `DeviceDriver` of VirtualGateway/devcontrol_gateway/drivers.py: the interface of a device family,
-- and what the drivers share.
use dev_control_open_harmony.Prelude.{ℕ, String, Bool, none, some, List}
use dev_control_open_harmony.Value.{Value, null}
use dev_control_open_harmony.Errors.{Result, ok}
use dev_control_open_harmony.Exec.{Exec}
use dev_control_open_harmony.Dict.{Dict, get}
use dev_control_open_harmony.Device.{Device}
use dev_control_open_harmony.Context.{Context}

pub record Category : Type 0 where
  pub id : String
  pub title : String
  pub icon : String
  pub home_only : Bool

-- A driver's methods. A method returns the device and the context as it leaves them, beside an
-- error too; `create_devices` and `attest_registration` read the clock.
pub record DeviceDriver : Type 0 where
  pub device_type : String
  pub tick_priority : ℕ
  pub requires_category : Bool
  pub create_categories : List Category
  pub create_devices : ℕ → List Device
  pub execute : String → Dict Value → Exec (Device × Context) (Unit {0})
  pub attest_registration : ℕ → String → String → String → String → List String → Result Device
  pub tick : Exec (Device × Context) Bool

-- `payload.get(key)`; a missing key and a null answer alike to every `isinstance`
unfoldable pub arg : String → Dict Value → Value
unfolding get
arg key payload = elim (get key payload) [ none ↦ null | some v ↦ v ]

abbrev pub modify {ℓ} : {S : Type ℓ} → (S → S) → S → Result (Unit {0}) × S
modify f s = (ok tt, f s)
