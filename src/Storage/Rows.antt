-- ===== src/Storage/Rows.antt =====
-- The invariant of the audit log: ids fall from the newest row on, none is above the last given.
use dev_control_open_harmony.Prelude.{ℕ, suc, ◌<◌, List, [], ◌∷◌, arith}
use dev_control_open_harmony.Storage.{AuditLog, GatewayStorage, AuditEntry, record_audit}

-- each row is newer than those after it, and all are below the bound
abbrev pub Descending : ℕ → List AuditLog → Type 0
Descending bound [] = Unit
Descending bound (row ∷ rows) = (row.id < bound) × Descending row.id rows

pub record LogsOrdered (s : GatewayStorage) : Type 0 where
  pub descending : Descending (suc s.last_audit_id) s.audit_logs

pub record_audit-LogsOrdered :
    (e : AuditEntry) (s : GatewayStorage) → LogsOrdered s → LogsOrdered (record_audit e s)
unfolding record_audit
record_audit-LogsOrdered e s h = record { descending = (omega arith, h.descending) }
