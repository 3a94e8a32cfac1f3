-- ===== src/Storage.antt =====
-- VirtualGateway/devcontrol_gateway/storage.py: the SQLite tables as lists of rows. An
-- AUTOINCREMENT id is one more than the largest ever given, so the newest row stands first.
pub mod Pages
pub mod Rows
pub mod History
use Prim.Native.String.{count}
use dev_control_open_harmony.Prelude.{
  ℕ, zero, suc, ◌+◌, min, max, String, Bool, true, false, Option, none, some, List, [], ◌∷◌, ◌++◌,
  map, ◌==◌, ◌&&◌, not, ltb, leb, if◌then◌else◌, length, take, filter, is_some,
}
use dev_control_open_harmony.Numbers.{Float}
use dev_control_open_harmony.Errors.{ErrorCode}
use dev_control_open_harmony.Dict.{Dict, get, put}

-- One entry of the report of a scene command.
pub record SceneResult : Type 0 where
  pub device_id : String
  pub success : Bool
  pub error_code : Option ErrorCode

-- `details` is kept as the report that its JSON text encodes.
pub record AuditLog : Type 0 where
  pub id : ℕ
  pub timestamp_ms : ℕ
  pub client_id : String
  pub device_id : String
  pub action : String
  pub success : Bool
  pub error_code : Option ErrorCode
  pub message_id_suffix : String
  pub details : Option (List SceneResult)

pub record AlertRow : Type 0 where
  pub id : ℕ
  pub timestamp_ms : ℕ
  pub device_id : String
  pub severity : String
  pub code : String
  pub description : String

pub record EnvironmentRow : Type 0 where
  pub timestamp_ms : ℕ
  pub device_id : String
  pub temperature_celsius : Float
  pub humidity_percent : Float
  pub illuminance_lux : Float
  pub presence : Bool

pub record GatewayStorage : Type 0 where
  pub audit_logs : List AuditLog
  pub last_audit_id : ℕ
  pub alerts : List AlertRow
  pub last_alert_id : ℕ
  pub environment_history : List EnvironmentRow
  pub consumed_registration_proofs : Dict ℕ

-- A database with its tables just created.
abbrev pub initialize : GatewayStorage
initialize = record {
  audit_logs = [];
  last_audit_id = 0;
  alerts = [];
  last_alert_id = 0;
  environment_history = [];
  consumed_registration_proofs = [];
}

-- `message_id[-8:]`
unfoldable pub last_eight : String → String
last_eight String.[] = ""
last_eight (String.◌∷◌ c s) =
    let rest = last_eight s in if leb (count s) 7 then String.◌∷◌ c s else rest

-- The arguments of `record_audit`.
pub record AuditEntry : Type 0 where
  pub timestamp_ms : ℕ
  pub client_id : String
  pub device_id : String
  pub action : String
  pub success : Bool
  pub error_code : Option ErrorCode
  pub message_id : String
  pub details : Option (List SceneResult)

unfoldable pub record_audit : AuditEntry → GatewayStorage → GatewayStorage
record_audit e s = record s {
  audit_logs =
      record {
        id = suc s.last_audit_id;
        timestamp_ms = e.timestamp_ms;
        client_id = e.client_id;
        device_id = e.device_id;
        action = e.action;
        success = e.success;
        error_code = e.error_code;
        message_id_suffix = last_eight e.message_id;
        details = e.details;
      }
      ∷ s.audit_logs;
  last_audit_id = suc s.last_audit_id;
}

unfoldable pub record_alert :
    ℕ → String → String → String → String → GatewayStorage → GatewayStorage
record_alert timestamp_ms device_id severity code description s = record s {
  alerts =
      record {
        id = suc s.last_alert_id;
        timestamp_ms = timestamp_ms;
        device_id = device_id;
        severity = severity;
        code = code;
        description = description;
      }
      ∷ s.alerts;
  last_alert_id = suc s.last_alert_id;
}

-- The rows stand in the order of their insertion.
unfoldable pub record_environment : EnvironmentRow → GatewayStorage → GatewayStorage
record_environment row s = record s { environment_history = s.environment_history ++ row ∷ [] }

pub record LogPage : Type 0 where
  pub items : List AuditLog
  pub next_cursor : Option ℕ

-- `WHERE id < ?`, when there is a cursor
abbrev pub before : Option ℕ → AuditLog → Bool
before none row = true
before (some cursor) row = ltb row.id cursor

-- `visible[-1]["id"] if visible`
abbrev pub last_id : List AuditLog → Option ℕ
last_id [] = none
last_id (row ∷ []) = some row.id
last_id (row ∷ next ∷ rest) = last_id (next ∷ rest)

-- `min(max(limit, 1), 100)`
abbrev pub effective_limit : ℕ → ℕ → ℕ
effective_limit most limit = min (max limit 1) most

-- The rest of `get_logs`, once the rows are fetched.
abbrev pub page : ℕ → List AuditLog → LogPage
page limit rows = record {
  items = take limit rows;
  next_cursor = if ltb limit (length rows) then last_id (take limit rows) else none;
}

unfoldable pub get_logs : Option ℕ → ℕ → GatewayStorage → LogPage
get_logs cursor limit s =
    let effective = effective_limit 100 limit in
    page effective (take (effective + 1) (filter (before cursor) s.audit_logs))

unfoldable pub get_alerts : ℕ → GatewayStorage → List AlertRow
get_alerts limit s = take (effective_limit 100 limit) s.alerts

-- `ORDER BY timestamp_ms ASC`, keeping the order of insertion among equal times
insert_by_time : EnvironmentRow → List EnvironmentRow → List EnvironmentRow
insert_by_time row [] = row ∷ []
insert_by_time row (r ∷ rs) =
    let rest = insert_by_time row rs in
    if leb row.timestamp_ms r.timestamp_ms then row ∷ r ∷ rs else r ∷ rest

pub order_by_time : List EnvironmentRow → List EnvironmentRow
unfolding insert_by_time
order_by_time [] = []
order_by_time (row ∷ rows) = insert_by_time row (order_by_time rows)

abbrev pub in_window : String → ℕ → ℕ → EnvironmentRow → Bool
in_window device_id from_ms to_ms row =
    row.device_id == device_id && (leb from_ms row.timestamp_ms && leb row.timestamp_ms to_ms)

unfoldable pub get_environment_history : String → ℕ → ℕ → ℕ → GatewayStorage → List EnvironmentRow
unfolding order_by_time
get_environment_history device_id from_ms to_ms limit s =
    take (effective_limit 50000 limit)
      (order_by_time (filter (in_window device_id from_ms to_ms) s.environment_history))

unfoldable pub prune_environment_history : ℕ → GatewayStorage → GatewayStorage
prune_environment_history before_ms s = record s {
  environment_history = filter (λ row. leb before_ms row.timestamp_ms) s.environment_history;
}

abbrev pub unexpired : ℕ → Dict ℕ → Dict ℕ
unexpired now_ms = filter (λ e. leb now_ms e.1)

-- Deletes what has expired, then looks.
unfoldable pub registration_proof_is_consumed : String → ℕ → GatewayStorage → Bool × GatewayStorage
unfolding get
registration_proof_is_consumed jti now_ms s =
    let left = unexpired now_ms s.consumed_registration_proofs in
    (is_some (get jti left), record s { consumed_registration_proofs = left })

-- INSERT OR IGNORE: true if the row is new.
unfoldable pub consume_registration_proof : String → ℕ → GatewayStorage → Bool × GatewayStorage
unfolding get put
consume_registration_proof jti expires_at_ms s =
    if is_some (get jti s.consumed_registration_proofs) then (false, s) else (
      true,
      record s {
        consumed_registration_proofs = put jti expires_at_ms s.consumed_registration_proofs;
      },
    )
