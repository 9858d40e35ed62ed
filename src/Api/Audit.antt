-- ===== src/Api/Audit.antt =====
-- control-plane/app/api/audit.py: the audit log of a project, the newest entries first.
use feature_flags.Base.{ℤ, pos, String, Bool, ◌&&◌, not, List, take, leb, ◌==◌, id_key}
use feature_flags.Base.Int.{leb_ℤ, pos_part}
use feature_flags.Models.{AuditLog}
use feature_flags.Store.Engine.{Engine}
use feature_flags.Store.Session.{Action, request_validation_error, reads, raise_if, ◌>>=◌, ◌>>◌}
use feature_flags.Api.Common.{get_project}

-- `Query(50, ge=1, le=500)`, which FastAPI checks before the handler runs.
abbrev pub is_limit : ℤ → Bool
is_limit n = leb_ℤ (pos 1) n && leb_ℤ n (pos 500)

unfoldable pub list_audit : ⦃E : Engine⦄ → String → ℤ → Action (List AuditLog)
list_audit ⦃E⦄ project_key limit = do
  raise_if (not (is_limit limit)) request_validation_error
  project ← get_project project_key
  reads (λ s. take (pos_part limit) (
      E.order_by (λ a b. leb b.id a.id) (E.scalars (λ r. r.project_id == project.id) s.audit_logs)))
