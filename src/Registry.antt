-- ===== src/Registry.antt =====
-- `DeviceRegistry` of VirtualGateway/devcontrol_gateway/registry.py: its state, the registration of
-- drivers, the rooms, the public view of a device. Commands, ticks and the rest are below.
pub mod Provisioning
pub mod Commands
pub mod Scenes
pub mod Ticks
pub mod Faults
pub mod Rooms
pub mod Creation
use dev_control_open_harmony.Prelude.{
  ℕ, ◌+◌, String, Bool, true, false, not, Option, none, some, List, [], ◌∷◌, ◌++◌, ◌==◌, ◌||◌, ◌&&◌,
  map, any, if◌then◌else◌, is_some, contains,
}
use dev_control_open_harmony.Value.{Value, text, boolean, object, Fields, end, field}
use dev_control_open_harmony.Errors.{
  Error, Result, ok, raise, ◌>>=◌, ◌>>◌, refusal, refuse_if, or_raise, python, key_error,
  value_error, invalid_command,
}
use dev_control_open_harmony.Exec.{Exec}
use dev_control_open_harmony.Dict.{Dict, get, put, keys, values}
use dev_control_open_harmony.Storage.{GatewayStorage}
use dev_control_open_harmony.Device.{Device}
use dev_control_open_harmony.Device.View.{public_items}
use dev_control_open_harmony.Context
use dev_control_open_harmony.Context.{Context, AlertEvent}
use dev_control_open_harmony.Drivers.Base.{DeviceDriver, Category}

pub record Room : Type 0 where
  pub id : String
  pub name : String
  pub selectable : Bool

abbrev pub default_rooms : List Room
default_rooms =
    record { id = "living"; name = "客厅"; selectable = true }
    ∷ record { id = "masterBedroom"; name = "主卧"; selectable = true }
    ∷ record { id = "bedroom"; name = "次卧"; selectable = true }
    ∷ record { id = "bathroom"; name = "浴室"; selectable = true }
    ∷ record { id = "entry"; name = "入户"; selectable = false }
    ∷ []

pub record DeviceRegistry : Type 0 where
  pub context : Context
  pub open context use *
  pub categories : Dict Category
  pub drivers : Dict DeviceDriver
  pub rooms : Dict Room

-- A device is an entry of the dict under its id; what a method writes to it stands there.
unfoldable pub save : Device → DeviceRegistry → DeviceRegistry
unfolding put
save device r = record r { context = record r.context { devices = put device.id device r.devices } }

-- Registration of a driver ------------------------------------------------------------------------

-- One round of the loop of `_validate_categories`; `seen` holds the ids of this driver so far.
abbrev check_category : DeviceRegistry → List String → Category → Result (Unit {0})
check_category r seen category = do
  refuse_if (category.id == "" || (category.title == "" || category.icon == ""))
      (python value_error)
  refuse_if (is_some (get category.id r.categories) || contains seen category.id)
      (python value_error)

unfoldable pub validate_categories :
    DeviceRegistry → List String → List Category → Result (Dict Category)
unfolding get contains
validate_categories r seen [] = ok []
validate_categories r seen (category ∷ rest) =
    let others = validate_categories r (category.id ∷ seen) rest in
    do check_category r seen category; found ← others; ok ((category.id, category) ∷ found)

-- `isinstance(category_id, str) and category_id in registered_category_ids`
abbrev is_registered : List String → Option String → Bool
is_registered known none = false
is_registered known (some category) = contains known category

abbrev check_device :
    DeviceRegistry → DeviceDriver → List String → List String → Device → Result (Unit {0})
check_device r driver known new_ids device = do
  refuse_if (device.id == "") (python value_error)
  refuse_if (not (device.device_type == driver.device_type)) (python value_error)
  refuse_if (is_some (get device.id r.devices) || contains new_ids device.id) (python value_error)
  refuse_if (driver.requires_category && not (is_registered known device.category_id))
      (python value_error)

-- The loop over the created devices; every test stands before the first write.
unfoldable pub check_devices :
    DeviceRegistry → DeviceDriver → List String → List String → List Device → Result (Unit {0})
unfolding get contains
check_devices r driver known new_ids [] = ok tt
check_devices r driver known new_ids (device ∷ rest) =
    let others = check_devices r driver known (device.id ∷ new_ids) rest in
    do check_device r driver known new_ids device; others

-- `d.update(new)`
unfoldable pub update {ℓ} : {V : Type ℓ} → Dict V → Dict V → Dict V
unfolding put
update [] d = d
update ((k, v) ∷ new) d = update new (put k v d)

unfoldable pub add_devices : List Device → DeviceRegistry → DeviceRegistry
unfolding save
add_devices [] r = r
add_devices (device ∷ rest) r = add_devices rest (save device r)

unfoldable pub register_driver : DeviceDriver → DeviceRegistry → Result DeviceRegistry
unfolding validate_categories check_devices update add_devices
register_driver driver r = do
  refuse_if (driver.device_type == "" || is_some (get driver.device_type r.drivers))
      (python value_error)
  new_categories ← validate_categories r [] driver.create_categories
  check_devices r driver (keys r.categories ++ keys new_categories) []
      (driver.create_devices r.clock)
  ok (
      add_devices (driver.create_devices r.clock) (record r {
        categories = update new_categories r.categories;
        drivers = put driver.device_type driver r.drivers;
      }))

unfoldable pub register_drivers : List DeviceDriver → DeviceRegistry → Result DeviceRegistry
unfolding register_driver
register_drivers [] r = ok r
register_drivers (driver ∷ rest) r = register_driver driver r >>= λ r'. register_drivers rest r'

-- `DeviceRegistry(storage, drivers)`, built at a time
unfoldable pub create : GatewayStorage → ℕ → List DeviceDriver → Result DeviceRegistry
unfolding register_drivers
create storage now drivers = register_drivers drivers (record {
  context = record { storage = storage; pending_alerts = []; devices = []; clock = now };
  categories = [];
  drivers = [];
  rooms = map (λ room. (room.id, room)) default_rooms;
})

-- The public view ---------------------------------------------------------------------------------

abbrev pub category_value : Category → Value
category_value c = object (
    field "id" (text c.id) (
      field "title" (text c.title)
        (field "icon" (text c.icon) (field "homeOnly" (boolean c.home_only) end))))

-- `public["category"] = ...`, if the device has a category
unfoldable pub with_category : Dict Category → Option String → Dict Value → Result (Dict Value)
unfolding get put
with_category categories none public = ok public
with_category categories (some id) public =
    or_raise (get id categories) (python key_error) >>= λ category.
    ok (put "category" (category_value category) public)

unfoldable pub public_device : DeviceRegistry → Device → Result (Dict Value)
unfolding public_items with_category
public_device r device =
    with_category r.categories device.category_id (public_items device) >>= λ public.
    ok (put "removable" (boolean device.removable) public)

unfoldable pub public_devices : DeviceRegistry → List Device → Result (List (Dict Value))
public_devices r [] = ok []
public_devices r (device ∷ rest) = do
  public ← public_device r device
  others ← public_devices r rest
  ok (public ∷ others)

abbrev pub snapshot : DeviceRegistry → Result (List (Dict Value))
snapshot r = public_devices r (values r.devices)

-- Rooms -------------------------------------------------------------------------------------------

abbrev pub rooms_snapshot : DeviceRegistry → List Room
rooms_snapshot r = values r.rooms

unfoldable pub create_room : String → String → Exec DeviceRegistry Room
unfolding get put
create_room room_id name r =
    if is_some (get room_id r.rooms)
    then (raise (refusal invalid_command "房间标识已存在"), r)
    else if any (λ room. room.name == name) (values r.rooms)
    then (raise (refusal invalid_command "房间名称已存在"), r)
    else (let room : Room = record { id = room_id; name = name; selectable = true } in
        (ok room, record r { rooms = put room_id room r.rooms }))

-- What the methods share --------------------------------------------------------------------------

-- `get`
unfoldable pub find : String → Exec DeviceRegistry Device
unfolding Context.find
find device_id r = (Context.find device_id r.devices, r)

unfoldable pub driver_for : Device → Exec DeviceRegistry DeviceDriver
unfolding get
driver_for device r =
    (or_raise (get device.device_type r.drivers) (refusal invalid_command "设备类型未注册"), r)

-- `_touch`
unfoldable pub touch : Device → Exec DeviceRegistry Device
unfolding save
touch device r =
    let touched : Device = record device {
      state_version = device.state_version + 1;
      updated_at = r.clock;
    } in
    (ok touched, save touched r)

unfoldable pub drain_alerts : Exec DeviceRegistry (List AlertEvent)
drain_alerts r =
    (ok r.pending_alerts, record r { context = record r.context { pending_alerts = [] } })
