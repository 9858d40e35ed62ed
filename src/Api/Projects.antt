-- ===== src/Api/Projects.antt =====
-- control-plane/app/api/projects.py: projects and environments. The unique constraints are those of
-- control-plane/app/models/catalog.py and migrations/0001_init.up.sql.
pub mod Created
pub mod Decided
use Prim.Native.String.{◌++◌}
use feature_flags.Base.{
  ℕ, ◌^◌, ℤ, pos, negsuc, ◌-◌, String, Bool, not, ◌&&◌, ◌||◌, true, none, some, List, ◌==◌, id_key,
  text_key,
}
use feature_flags.Base.Int.{ltb_ℤ, leb_ℤ, eqb_ℤ}
use feature_flags.Base.Maybe.{is_none}
use feature_flags.Models.{Project, Environment}
use feature_flags.Schemas.Catalog.{ProjectCreate, EnvironmentCreate}
use feature_flags.Services.Audit.{Entry, record_audit}
use feature_flags.Store.Engine.{Engine}
use feature_flags.Store.Session.{
  Database, Context, Action, Error, http_exception, already_exists, data_error, pure, reads,
  raise_if, writes, ◌>>=◌, ◌>>◌,
}
use feature_flags.Api.Common.{has_key, is_environment, get_project}

abbrev pub exists_already : String → String → Error
exists_already what key = http_exception 409 (already_exists what key)

-- A Postgres `integer` has 32 bits.
abbrev pub fits_integer : ℤ → Bool
fits_integer n = leb_ℤ (negsuc (2 ^ 31 - 1)) n && ltb_ℤ n (pos (2 ^ 31))

abbrev pub project_of : Context → ProjectCreate → Project
project_of c body = record {
  id = c.uuid;
  key = body.key;
  name = body.name;
  description = body.description;
  created_at = c.now;
}

abbrev pub environment_of : Context → ℕ → EnvironmentCreate → Environment
environment_of c project_id body = record {
  id = c.uuid;
  project_id = project_id;
  key = body.key;
  name = body.name;
  sort_order = body.sort_order;
  created_at = c.now;
}

-- The audit entries of the two handlers that create.
abbrev pub project_entry : Project → Entry
project_entry project = record {
  action = "project.created";
  resource_type = "project";
  resource_key = project.key;
  summary = "created project " ++ project.key;
  project_id = project.id;
  environment_id = none;
  diff = none;
}

abbrev pub environment_entry : Project → Environment → Entry
environment_entry project env = record {
  action = "environment.created";
  resource_type = "environment";
  resource_key = env.key;
  summary = "created environment " ++ env.key;
  project_id = project.id;
  environment_id = some env.id;
  diff = none;
}

-- `ORDER BY key` and `ORDER BY sort_order, key`, for a collation of keys.
abbrev pub by_sort_order : (String → String → Bool) → Environment → Environment → Bool
by_sort_order collates a b =
    ltb_ℤ a.sort_order b.sort_order || eqb_ℤ a.sort_order b.sort_order && collates a.key b.key

module _ ⦃E : Engine⦄ where
  -- Whether the flush of a new row breaks a unique constraint (`IntegrityError`).
  unfoldable pub project_clashes : Project → Database → Bool
  project_clashes r d =
      not (is_none (E.get r.id d.projects)) || not (is_none (E.scalar (has_key r.key) d.projects))

  unfoldable pub environment_clashes : Environment → Database → Bool
  environment_clashes r d =
      not (is_none (E.get r.id d.environments))
      || not (is_none (E.scalar (is_environment r.project_id r.key) d.environments))

  unfoldable pub create_project : Context → ProjectCreate → Action Project
  create_project c body = do
    let project = project_of c body
    raise_if (← reads (λ s. project_clashes project s.tables)) (exists_already "project" body.key)
    writes (λ d. record d { projects = E.add project d.projects })
    record_audit c (project_entry project)
    pure project

  unfoldable pub list_projects : (String → String → Bool) → Action (List Project)
  list_projects collates =
      reads (λ s. E.order_by (λ a b. collates a.key b.key) (E.scalars (λ r. true) s.projects))

  unfoldable pub get_one_project : String → Action Project
  get_one_project project_key = get_project project_key

  unfoldable pub create_environment : Context → String → EnvironmentCreate → Action Environment
  create_environment c project_key body = do
    project ← get_project project_key
    let env = environment_of c project.id body
    raise_if (not (fits_integer env.sort_order)) data_error
    raise_if (← reads (λ s. environment_clashes env s.tables))
        (exists_already "environment" body.key)
    writes (λ d. record d { environments = E.add env d.environments })
    record_audit c (environment_entry project env)
    pure env

  unfoldable pub list_environments : (String → String → Bool) → String → Action (List Environment)
  list_environments collates project_key = do
    project ← get_project project_key
    reads (λ s.
        E.order_by (by_sort_order collates)
          (E.scalars (λ r. r.project_id == project.id) s.environments))
