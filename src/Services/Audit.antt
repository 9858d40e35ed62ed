-- ===== src/Services/Audit.antt =====
-- control-plane/app/services/audit.py: one row in the audit log, in the transaction of the change.
use feature_flags.Base.{ℕ, String, Option}
use feature_flags.Base.{id_key}
use feature_flags.Json.{Json}
use feature_flags.Models.{AuditLog}
use feature_flags.Store.Engine.{Engine}
use feature_flags.Store.Session.{Context, Action, writes}

-- The arguments of `record` that say what was done.
pub record Entry : Type 0 where
  pub action : String
  pub resource_type : String
  pub resource_key : String
  pub summary : String
  pub project_id : ℕ
  pub environment_id : Option ℕ
  pub diff : Option Json

abbrev pub audit_row : Context → Entry → AuditLog
audit_row c e = record {
  id = c.serial;
  project_id = e.project_id;
  environment_id = e.environment_id;
  actor = c.actor;
  action = e.action;
  resource_type = e.resource_type;
  resource_key = e.resource_key;
  summary = e.summary;
  diff = e.diff;
  created_at = c.now;
}

-- `audit.record`
unfoldable pub record_audit : ⦃E : Engine⦄ → Context → Entry → Action (Unit {0})
record_audit ⦃E⦄ c e = writes λ d. record d { audit_logs = E.add (audit_row c e) d.audit_logs }
