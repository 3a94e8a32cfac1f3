-- ===== src/Examples/Storage.antt =====
-- The theorems about the database, on concrete tables.
use dev_control_open_harmony.Prelude.{ℕ, true, ◌≡◌, none, [], ◌∷◌, arith}
use dev_control_open_harmony.Numbers.{of_ℕ}
use dev_control_open_harmony.Storage.{
  GatewayStorage, EnvironmentRow, AuditEntry, initialize, record_audit, get_environment_history,
  prune_environment_history,
}
use dev_control_open_harmony.Storage.History.{prune-get_history}
use dev_control_open_harmony.Storage.Rows.{LogsOrdered}
use dev_control_open_harmony.Storage.Pages.{read_all, read_all_complete}

abbrev entry : AuditEntry
entry = record {
  timestamp_ms = 5;
  client_id = "phone";
  device_id = "light-living-01";
  action = "setPower";
  success = true;
  error_code = none;
  message_id = "message-0000001";
  details = none;
}

abbrev logged : GatewayStorage
logged = record_audit entry (record_audit entry (record_audit entry initialize))

logged-LogsOrdered : LogsOrdered logged
unfolding record_audit
logged-LogsOrdered = record { descending = (omega arith, (omega arith, (omega arith, tt))) }

read_all_complete_example : read_all 4 2 none logged ≡ logged.audit_logs
unfolding record_audit
read_all_complete_example = read_all_complete 2 logged logged-LogsOrdered 4 (omega arith)

abbrev reading : ℕ → EnvironmentRow
reading now = record {
  timestamp_ms = now;
  device_id = "env-living-01";
  temperature_celsius = of_ℕ 24;
  humidity_percent = of_ℕ 55;
  illuminance_lux = of_ℕ 80;
  presence = true;
}

abbrev measured : GatewayStorage
measured = record initialize { environment_history = reading 3 ∷ reading 1 ∷ reading 2 ∷ [] }

prune-get_history_example :
    get_environment_history "env-living-01" 2 9 5 (prune_environment_history 2 measured)
    ≡ get_environment_history "env-living-01" 2 9 5 measured
prune-get_history_example = prune-get_history "env-living-01" 2 9 5 2 measured (omega arith)
