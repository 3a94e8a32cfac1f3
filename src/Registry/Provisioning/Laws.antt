-- ===== src/Registry/Provisioning/Laws.antt =====
-- A device that is registered and removed again, and one that is registered twice.
use mathlib.Core.Path.{subst}
use dev_control_open_harmony.Composition.Answers.{AnswersFor, Asked, IfOk-elim}
use dev_control_open_harmony.Prelude.{
  String, Bool, true, false, ◌≡◌, refl, none, some, arith, List, [], ◌∷◌, eq_iff, All, sorted, ◌∙◌,
  ap, sym, not,
}
use dev_control_open_harmony.Value.{Value}
use dev_control_open_harmony.Errors.{
  Error, Result, ok, or_raise, refuse_if, >>=-eq-ok, or_raise-eq-ok, ok-injective, refusal,
  invalid_command, internal_error, ◌>>=◌ as ◌>>=?◌,
}
use dev_control_open_harmony.Dict.{Dict, get}
use dev_control_open_harmony.Dict.Laws.{get-put, remove-put_absent, All-get}
use dev_control_open_harmony.Device.{Device}
use dev_control_open_harmony.Drivers.Base.{DeviceDriver}
use dev_control_open_harmony.Context
use dev_control_open_harmony.Registry.{DeviceRegistry, save, find}
use dev_control_open_harmony.Registry.Provisioning.{
  Registration, attest, admit, is_attested, is_same_registration, register_provisioned,
  remove_provisioned, same_texts, selectable,
}

same_texts_refl : (xs : List String) → same_texts xs xs ≡ true
same_texts_refl [] = refl
same_texts_refl (x ∷ xs) = ground (arith, eq_iff x x, same_texts_refl xs)

-- What a driver that accepts a registration answers: the device of the registration, removable.
pub record Answers (q : Registration) (d : Device) : Type 0 where
  pub name : d.name ≡ q.name
  pub room : d.room_id ≡ q.room_id
  pub removable : d.removable ≡ true

-- Where an attested device comes from.
record Attested (q : Registration) (r : DeviceRegistry) (d : Device) : Type 0 where
  driver : DeviceDriver
  device : Device
  registered : get q.device_type r.drivers ≡ some driver
  answered :
      driver.attest_registration r.clock q.device_id q.name q.room_id q.category_id q.capabilities
      ≡ ok device
  checked : is_attested q device ≡ true
  returned : record device { registration_capabilities = some (sorted q.capabilities) } ≡ d

refuse_if-ok : (b : Bool) (e : Error) (t : Unit {0}) → refuse_if b e ≡ ok t → b ≡ false
refuse_if-ok true e t h = cc
refuse_if-ok false e t h = refl

module _ (q : Registration) (r : DeviceRegistry) where
  abbrev finish : Device → Result Device
  finish device = ok (record device { registration_capabilities = some (sorted q.capabilities) })

  abbrev test : Device → Result (Unit {0})
  test device = refuse_if (not (is_attested q device)) (refusal internal_error "设备驱动未返回可在线注册的设备")

  abbrev ask : DeviceDriver → Result Device
  ask driver =
      driver.attest_registration r.clock q.device_id q.name q.room_id q.category_id q.capabilities

  abbrev driver : Result DeviceDriver
  driver = or_raise (get q.device_type r.drivers) (refusal invalid_command "设备类型未注册")

  abbrev room : Result (Unit {0})
  room =
      refuse_if (not (selectable (get q.room_id r.rooms)))
        (refusal invalid_command "目标房间不存在或不可添加设备")

  attest-Attested : (d : Device) → attest q r ≡ ok d → Attested q r d
  unfolding attest
  attest-Attested d h =
      let tested = λ (device : Device). test device >>=? λ _. finish device in
      let asked = λ (driver : DeviceDriver). ask driver >>=? tested in
      let (_, _, h1) = >>=-eq-ok room (λ _. driver >>=? asked) h in
      let (driver, found, h2) = >>=-eq-ok driver asked h1 in
      let (device, answered, h3) = >>=-eq-ok (ask driver) tested h2 in
      let (t, checked, h4) = >>=-eq-ok (test device) (λ _. finish device) h3 in
      record {
        driver = driver;
        device = device;
        registered = or_raise-eq-ok _ _ found;
        answered = answered;
        checked = ground (arith, refuse_if-ok _ _ t checked);
        returned = ok-injective h4;
      }

attested_id :
    (q : Registration) (r : DeviceRegistry) (d : Device) → attest q r ≡ ok d → d.id ≡ q.device_id
unfolding is_attested
attested_id q r d h =
    let a = attest-Attested q r d h in
    let same : a.device.id ≡ q.device_id =
      ground (arith, a.checked, eq_iff a.device.id q.device_id) in
    sym (ap (λ (x : Device). x.id) a.returned) ∙ same

-- with drivers that answer what they are asked
answered :
    (q : Registration) (r : DeviceRegistry) (d : Device)
    → All (λ e. AnswersFor e.1) r.drivers
    → attest q r ≡ ok d
    → Answers q d
answered q r d honest h =
    let a = attest-Attested q r d h in
    let law =
      IfOk-elim (Asked a.driver.device_type q.device_id q.name q.room_id q.category_id)
        (a.driver.attest_registration r.clock q.device_id q.name q.room_id q.category_id
          q.capabilities)
        a.device
        (All-get (λ e. AnswersFor e.1) q.device_type r.drivers honest a.registered r.clock
          q.device_id q.name q.room_id q.category_id q.capabilities)
        a.answered in
    subst (Answers q) a.returned (record { name = law.2; room = law.3; removable = law.6 })

-- With drivers that answer what they are asked, removing a device that was just registered under a
-- free id shows it as the registration did and gives back the registry as it was.
pub register-remove :
    (q : Registration) (r : DeviceRegistry) (d : Device) (public : Dict Value)
    → All (λ e. AnswersFor e.1) r.drivers
    → attest q r ≡ ok d
    → get q.device_id r.devices ≡ none
    → (register_provisioned q r).0 ≡ ok public
    → remove_provisioned q.device_id (register_provisioned q r).1 ≡ (ok public, r)
unfolding register_provisioned remove_provisioned admit save find Context.find
register-remove q r d public honest h new shown =
    let answers = answered q r d honest h in
    ground (
      arith,
      attested_id q r d h,
      remove-put_absent q.device_id d r.devices new,
      get-put q.device_id q.device_id d r.devices,
      eq_iff q.device_id q.device_id,
    )

same_registration :
    (q : Registration) (r : DeviceRegistry) (d : Device)
    → attest q r ≡ ok d
    → Answers q d
    → is_same_registration q d ≡ true
unfolding is_same_registration is_attested
same_registration q r d h answers =
    let a = attest-Attested q r d h in
    let same : is_attested q a.device ≡ true = a.checked in
    ground (
      arith,
      a.checked,
      sym a.returned,
      answers.name,
      answers.room,
      answers.removable,
      eq_iff q.name q.name,
      eq_iff q.room_id q.room_id,
      same_texts_refl (sorted q.capabilities),
    )

-- With drivers that answer what they are asked, a registration under a free id that is sent again
-- is answered like the first and changes nothing.
pub register-register :
    (q : Registration) (r : DeviceRegistry) (d : Device) (public : Dict Value)
    → All (λ e. AnswersFor e.1) r.drivers
    → attest q r ≡ ok d
    → get q.device_id r.devices ≡ none
    → (register_provisioned q r).0 ≡ ok public
    → register_provisioned q (register_provisioned q r).1
      ≡ (ok public, (register_provisioned q r).1)
unfolding register_provisioned admit save attest
register-register q r d public honest h new shown =
    let answers = answered q r d honest h in
    ground (
      arith,
      attested_id q r d h,
      same_registration q r d h answers,
      get-put q.device_id q.device_id d r.devices,
      eq_iff q.device_id q.device_id,
    )
