-- ===== src/Examples/Service.antt =====
-- The theorems about commands to the service, on a small home and a toy cipher.
use dev_control_open_harmony.Drivers
use dev_control_open_harmony.Dict.{get}
use dev_control_open_harmony.Registry.{public_device}
use dev_control_open_harmony.Composition.{light_driver, alone}
use dev_control_open_harmony.Registry.Commands.{execute_device}
use dev_control_open_harmony.Registry.Scenes.{execute}
use dev_control_open_harmony.Prelude.{◌++◌, true, ◌≡◌, refl, none, some, List, [], ◌∷◌, arith, inl}
use dev_control_open_harmony.Numbers.{pos}
use dev_control_open_harmony.Value.{boolean, object, field, end}
use dev_control_open_harmony.Registry.Commands.Invariant.{WellFormed}
use dev_control_open_harmony.Sessions.{ClientSession}
use dev_control_open_harmony.Base64.{Bytes, base64url_decode}
use dev_control_open_harmony.Payload.{Cipher, SecureCommandEnvelope, decrypt_payload, as_object}
use dev_control_open_harmony.Service.Windows.{lookup, keep}
use dev_control_open_harmony.Service.History.{Arrival, passes, run}
use dev_control_open_harmony.Service.{
  CommandResult, Event, GatewayService, process_command, prune_security_windows, answer, admit,
  perform, attempt, report, state_event, audit, cache_result, with_alerts,
}
use dev_control_open_harmony.Service.Invariant.{process_command-WellFormed}
use dev_control_open_harmony.Service.Replay.{
  LogOf, newest_log, Refused, replayed_command, repeated_command, nonce_once,
}
use dev_control_open_harmony.Examples.Registry.{home, home-WellFormed}

-- everything decodes to sixteen bytes but the nonces, and decrypts to a command to switch on
abbrev twelve : Bytes
twelve = 0 ∷ 0 ∷ 0 ∷ 0 ∷ 0 ∷ 0 ∷ 0 ∷ 0 ∷ 0 ∷ 0 ∷ 0 ∷ 0 ∷ []

abbrev sixteen : Bytes
sixteen = 0 ∷ 0 ∷ 0 ∷ 0 ∷ twelve

abbrev cipher : Cipher
cipher = record {
  dumps = λ v. [];
  loads = λ b. some (object (field "power" (boolean true) end));
  encrypt = λ key nonce plain aad. plain ++ sixteen;
  decrypt = λ key nonce sealed aad. some sealed;
}

abbrev session : ClientSession
session = record {
  client_id = "phone";
  credential_digest = "digest";
  data_key = [];
  issued_at = 0;
  expires_at = 100000;
}

abbrev switch_on : SecureCommandEnvelope
switch_on = record {
  message_id = "message-000000001";
  device_id = "light-living-01";
  timestamp = pos 1500;
  action = "setPower";
  expected_state_version = some 1;
  nonce = "AAAAAAAAAAAAAAAA";
  ciphertext = "text";
  auth_tag = "AAAAAAAAAAAAAAAAAAAAAA";
}

abbrev service : GatewayService
service = record { devices = home; result_cache = []; nonce_cache = []; monotonic = 77 }

abbrev late : SecureCommandEnvelope
late = record switch_on { timestamp = pos 90000 }

replayed_command_example :
    Refused cipher session late service (process_command cipher session late service)
unfolding lookup keep prune_security_windows
replayed_command_example = replayed_command cipher session late service refl (inl (omega arith))

process_command-WellFormed_example :
    WellFormed (process_command cipher session switch_on service).1.devices
process_command-WellFormed_example =
    process_command-WellFormed cipher session switch_on service home-WellFormed

abbrev other : SecureCommandEnvelope
other = record switch_on { message_id = "message-000000002" }

-- a command of the same phone that arrives in between, with a nonce of its own
abbrev between : List Arrival
between =
    record {
      waited = 5;
      devices = home;
      session = session;
      envelope = record switch_on { message_id = "message-000000003"; nonce = "BBBBBBBBBBBBBBBB" };
    }
    ∷ []

abbrev first : (CommandResult × List Event) × GatewayService
first = process_command cipher session switch_on service

abbrev later : GatewayService
later = passes 99 home (run cipher between first.1)

succeeds : first.0.0.success ≡ true
unfolding process_command answer lookup admit perform attempt decrypt_payload as_object execute
    execute_device Drivers.Light.make light_driver alone Drivers.Light.execute
    Drivers.Light.set_power public_device report state_event audit cache_result with_alerts
    prune_security_windows get base64url_decode
succeeds = refl

first_time : first.1.monotonic ≡ 77
unfolding process_command answer lookup admit perform attempt decrypt_payload as_object execute
    execute_device Drivers.Light.make light_driver alone Drivers.Light.execute
    Drivers.Light.set_power public_device report state_event audit cache_result with_alerts
    prune_security_windows get base64url_decode
first_time = refl

later_time : (run cipher between first.1).monotonic ≡ 82
unfolding run process_command answer lookup admit perform attempt decrypt_payload as_object execute
    execute_device Drivers.Light.make light_driver alone Drivers.Light.execute
    Drivers.Light.set_power public_device report state_event audit cache_result with_alerts
    prune_security_windows get base64url_decode
later_time = refl

other_is_new :
    lookup ("digest", "message-000000002") (prune_security_windows later).result_cache ≡ none
unfolding run process_command answer lookup admit perform attempt decrypt_payload as_object execute
    execute_device Drivers.Light.make light_driver alone Drivers.Light.execute
    Drivers.Light.set_power public_device report state_event audit cache_result with_alerts
    prune_security_windows get base64url_decode
other_is_new = refl

repeated_command_example :
    let again = process_command cipher session late later in
    (again.0 ≡ (first.0.0, [])) × (again.1.devices ≡ home)
unfolding lookup keep prune_security_windows
repeated_command_example =
    repeated_command cipher session switch_on late service between 99 home refl refl
      (omega (arith, first_time, later_time))

nonce_once_example : Refused cipher session other later (process_command cipher session other later)
unfolding lookup keep prune_security_windows
nonce_once_example =
    nonce_once cipher session switch_on other service between 99 home refl succeeds refl
      (omega (arith, later_time)) other_is_new

newest_log_example :
    let t = process_command cipher session late service in
    LogOf session late t.0.0 t.1.devices.storage.audit_logs
unfolding lookup keep prune_security_windows
newest_log_example = newest_log cipher session late service refl
