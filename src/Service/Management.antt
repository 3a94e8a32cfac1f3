-- ===== src/Service/Management.antt =====
-- Rooms and devices at run time: `create_room`, `register_device` and `delete_device` of
-- VirtualGateway/devcontrol_gateway/service.py. An error of the registry is raised before the audit.
use dev_control_open_harmony.Prelude.{String, true, none}
use Prim.Native.String.{◌++◌}
use dev_control_open_harmony.Value.{Value}
use dev_control_open_harmony.Errors.{Result, ok}
use dev_control_open_harmony.Exec.{Exec, lift, ◌>>=◌}
use dev_control_open_harmony.Dict.{Dict}
use dev_control_open_harmony.Storage.{record_audit}
use dev_control_open_harmony.Registry.{DeviceRegistry, Room, create_room}
use dev_control_open_harmony.Registry.Provisioning.{
  Registration, register_provisioned, remove_provisioned,
}
use dev_control_open_harmony.Sessions.{ClientSession}

-- `self.storage.record_audit(...)` after a success
unfoldable pub record_success :
    ClientSession → String → String → String → DeviceRegistry → DeviceRegistry
unfolding record_audit
record_success session device_id action message_id r = record r {
  context = record r.context {
    storage =
        record_audit
          (record {
            timestamp_ms = r.clock;
            client_id = session.client_id;
            device_id = device_id;
            action = action;
            success = true;
            error_code = none;
            message_id = message_id;
            details = none;
          })
          r.storage;
  };
}

abbrev pub audited :
    {A : Type 0}
    → ClientSession
    → String
    → String
    → String
    → Exec DeviceRegistry A
    → Exec DeviceRegistry A
unfolding record_success
audited session device_id action message_id m =
    m >>= λ a. λ r. (ok a, record_success session device_id action message_id r)

unfoldable pub create_room_audited : ClientSession → String → String → Exec DeviceRegistry Room
unfolding create_room record_success
create_room_audited session room_id name =
    audited session room_id "createRoom" ("create-room-" ++ room_id) (create_room room_id name)

-- `verify` stands for `self.provisioning.verify(registration)`, which returns the fingerprint of the
-- proof or raises.
unfoldable pub register_device :
    (Registration → Result String) → ClientSession → Registration → Exec DeviceRegistry (Dict Value)
unfolding register_provisioned record_success
register_device verify session q = lift (verify q) >>= λ fingerprint.
    audited session q.device_id "registerDevice" fingerprint (register_provisioned q)

unfoldable pub delete_device : ClientSession → String → Exec DeviceRegistry (Dict Value)
unfolding remove_provisioned record_success
delete_device session device_id =
    audited session device_id "deleteDevice" ("delete-" ++ device_id) (remove_provisioned device_id)
