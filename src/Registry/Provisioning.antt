-- ===== src/Registry/Provisioning.antt =====
-- Devices that are registered and removed at run time: `register_provisioned` and
-- `remove_provisioned` of VirtualGateway/devcontrol_gateway/registry.py.
pub mod Laws
use dev_control_open_harmony.Prelude.{
  ℕ, String, Bool, true, false, not, Option, none, some, List, [], ◌∷◌, ◌==◌, ◌||◌, ◌&&◌,
  if◌then◌else◌, sorted,
}
use dev_control_open_harmony.Value.{Value}
use dev_control_open_harmony.Errors.{
  Error, Result, ok, raise, ◌>>=◌ as ◌>>=?◌, refusal, refuse_if, or_raise, invalid_command,
  internal_error,
}
use dev_control_open_harmony.Exec.{Exec, throw, lift, ◌>>=◌, ◌>>◌}
use dev_control_open_harmony.Dict.{Dict, get, remove}
use dev_control_open_harmony.Device.{Device}
use dev_control_open_harmony.Registry.{DeviceRegistry, Room, save, find, public_device}

-- The arguments of `register_provisioned`.
pub record Registration : Type 0 where
  pub device_id : String
  pub name : String
  pub room_id : String
  pub device_type : String
  pub category_id : String
  pub capabilities : List String

abbrev pub is_text : Option String → String → Bool
is_text none s = false
is_text (some t) s = t == s

abbrev pub same_texts : List String → List String → Bool
same_texts [] [] = true
same_texts (x ∷ xs) (y ∷ ys) = x == y && same_texts xs ys
same_texts _ _ = false

abbrev pub are_texts : Option (List String) → List String → Bool
are_texts none ys = false
are_texts (some xs) ys = same_texts xs ys

-- `room is None or room.get("selectable") is not True`, negated
abbrev pub selectable : Option Room → Bool
selectable none = false
selectable (some room) = room.selectable

-- What the driver answered is the device that was asked for, and it is online.
unfoldable pub is_attested : Registration → Device → Bool
is_attested q device =
    device.id == q.device_id
    && (device.device_type == q.device_type
        && (is_text device.category_id q.category_id && device.online))

-- `same_registration`
unfoldable pub is_same_registration : Registration → Device → Bool
unfolding sorted
is_same_registration q existing =
    existing.removable
    && (existing.name == q.name
        && (existing.room_id == q.room_id
            && (existing.device_type == q.device_type
                && (is_text existing.category_id q.category_id
                    && are_texts existing.registration_capabilities (sorted q.capabilities)))))

-- The device that a registration asks the driver for; nothing is written yet.
unfoldable pub attest : Registration → DeviceRegistry → Result Device
unfolding get is_attested sorted
attest q r =
    refuse_if (not (selectable (get q.room_id r.rooms))) (refusal invalid_command "目标房间不存在或不可添加设备")
    >>=? λ _.
        or_raise (get q.device_type r.drivers) (refusal invalid_command "设备类型未注册") >>=? λ driver.
        driver.attest_registration r.clock q.device_id q.name q.room_id q.category_id q.capabilities
        >>=? λ device.
            refuse_if (not (is_attested q device)) (refusal internal_error "设备驱动未返回可在线注册的设备")
            >>=? λ _.
                ok (record device { registration_capabilities = some (sorted q.capabilities) })

-- The rest of `register_provisioned`, by what stands under the id.
unfoldable pub admit : Registration → Device → Option Device → Exec DeviceRegistry (Dict Value)
unfolding save is_same_registration
admit q device (some existing) r =
    if is_same_registration q existing
    then (public_device r existing, r)
    else (raise (refusal invalid_command "设备序列号已被另一份设备声明占用"), r)
admit q device none r = let r' = save device r in (public_device r' device, r')

unfoldable pub register_provisioned : Registration → Exec DeviceRegistry (Dict Value)
unfolding attest admit
register_provisioned q r = elim (attest q r) [
  | raise e ↦ (raise e, r)
  | ok device ↦ admit q device (get q.device_id r.devices) r
]

abbrev pub discard : String → DeviceRegistry → DeviceRegistry
discard device_id r = record r {
  context = record r.context { devices = remove device_id r.devices };
}

unfoldable pub remove_provisioned : String → Exec DeviceRegistry (Dict Value)
unfolding find remove
remove_provisioned device_id = do
  device ← find device_id
  lift (refuse_if (not device.removable) (refusal invalid_command "该内置设备不支持移除"))
  public ← (λ r. (public_device r device, r))
  (λ r. (ok public, discard device_id r))
