-- ===== src/Api/Common.antt =====
-- control-plane/app/api/_common.py: lookups that raise 404 where a resource is missing.
use feature_flags.Base.{ℕ, String, Bool, ◌&&◌, ◌==◌, id_key, text_key}
use feature_flags.Models.{Project, Environment, Flag, Segment}
use feature_flags.Store.Engine.{Engine}
use feature_flags.Store.Session.{Action, Error, http_exception, not_found, reads, or_raise, ◌>>=◌}

-- The WHERE clauses.
abbrev pub has_key : String → Project → Bool
has_key key r = r.key == key

abbrev pub is_environment : ℕ → String → Environment → Bool
is_environment project_id key r = r.project_id == project_id && r.key == key

abbrev pub is_flag : ℕ → String → Flag → Bool
is_flag project_id key r = r.project_id == project_id && r.key == key

abbrev pub is_segment : ℕ → String → Segment → Bool
is_segment project_id key r = r.project_id == project_id && r.key == key

abbrev pub missing : String → String → Error
missing what key = http_exception 404 (not_found what key)

module _ ⦃E : Engine⦄ where
  unfoldable pub get_project : String → Action Project
  get_project key = do
    found ← reads (λ s. E.scalar (has_key key) s.projects)
    or_raise found (missing "project" key)

  unfoldable pub get_environment : ℕ → String → Action Environment
  get_environment project_id key = do
    found ← reads (λ s. E.scalar (is_environment project_id key) s.environments)
    or_raise found (missing "environment" key)

  unfoldable pub get_flag : ℕ → String → Action Flag
  get_flag project_id key = do
    found ← reads (λ s. E.scalar (is_flag project_id key) s.flags)
    or_raise found (missing "flag" key)

  unfoldable pub get_segment : ℕ → String → Action Segment
  get_segment project_id key = do
    found ← reads (λ s. E.scalar (is_segment project_id key) s.segments)
    or_raise found (missing "segment" key)
