-- ===== src/Examples/Base.antt =====
-- What the examples share.
use dev_control_open_harmony.Prelude.{ℕ, String, true, false, none, []}
use dev_control_open_harmony.Numbers.{finite}
use dev_control_open_harmony.Storage.{initialize}
use dev_control_open_harmony.Device.{Device, Detail}
use dev_control_open_harmony.Context.{Context}
use dev_control_open_harmony.Drivers.Environment.{Floats}

abbrev pub at : ℕ → Context
at now = record { storage = initialize; pending_alerts = []; devices = []; clock = now }

abbrev pub device : String → Detail → Device
device id detail = record {
  id = id;
  name = id;
  room_id = "living";
  device_type = "any";
  online = true;
  state_version = 1;
  updated_at = 0;
  command_delay_ms = 0;
  fail_next_command = false;
  category_id = none;
  removable = false;
  registration_capabilities = none;
  detail = detail;
}

-- arithmetic for the sensor, as coarse as it gets
abbrev pub floats : Floats
floats = record {
  add = λ a b. a;
  sub = λ a b. a;
  mul = λ a b. a;
  div = λ a b. a;
  sin = λ a. a;
  round_tenth = λ a. a;
  literal = finite;
  uniform = λ now id a b. a;
}
