-- ===== src/Api/Flags/Handlers.antt =====
-- The handlers of control-plane/app/api/flags.py. The unique constraint of flags is that of
-- migrations/0001_init.up.sql.
use Prim.Native.String.{◌++◌}
use feature_flags.Base.{
  ℕ, String, Bool, true, false, not, ◌&&◌, ◌||◌, none, some, List, [], ◌∷◌, map, length, ◌==◌,
  id_key, text_key, pair_key, if◌then◌else◌,
}
use feature_flags.Base.Maybe.{is_none}
use feature_flags.Json.{Json, text, object, field, end}
use feature_flags.Models.{Project, Environment, Flag, flag_config_pk, FlagEnvironmentConfig}
use feature_flags.Schemas.Pydantic.{Pydantic}
use feature_flags.Schemas.Flag.{Variation, FlagConfigUpdate}
use feature_flags.Schemas.FlagCreate.{FlagCreate}
use feature_flags.Services.Audit.{Entry, record_audit}
use feature_flags.Services.Notify.{env_changed}
use feature_flags.Store.Engine.{Engine}
use feature_flags.Store.Session.{
  Database, Context, Action, Error, http_exception, index_out_of_range, message, data_error,
  response_validation_error, pure, reads, or_raise, raise_if, writes, ◌>>=◌, ◌>>◌,
}
use feature_flags.Api.Common.{is_flag, get_project, get_environment, get_flag}
use feature_flags.Api.Projects.{exists_already}
use feature_flags.Api.Flags.Indices.{validate_indices}
use feature_flags.Api.Flags.Config.{
  default_config, apply_update, flushed_config, fits_columns, config_snapshot, FlagConfigOut,
  config_out,
}

-- `v.model_dump()`
abbrev pub dump_variation : Variation → Json
dump_variation v = object (field "name" (text v.name) (field "value" v.value end))

abbrev pub flag_of : Context → ℕ → FlagCreate → Flag
flag_of c project_id body = record {
  id = c.uuid;
  project_id = project_id;
  key = body.key;
  name = body.name;
  description = body.description;
  kind = body.kind;
  variations = map dump_variation body.variations;
  salt = c.token;
  temporary = body.temporary;
  tags = body.tags;
  owner = body.owner;
  client_side_available = body.client_side_available;
  created_at = c.now;
  archived_at = none;
}

abbrev pub is_empty : List String → Bool
is_empty [] = true
is_empty (_ ∷ _) = false

abbrev pub no_config : Error
no_config = http_exception 404 (message "flag has no config in this environment")

abbrev pub on_off : Bool → String
on_off enabled = if enabled then "on" else "off"

-- The audit entry of a creation.
abbrev pub flag_entry : Project → Flag → Entry
flag_entry project flag = record {
  action = "flag.created";
  resource_type = "flag";
  resource_key = flag.key;
  summary = "created flag " ++ flag.key;
  project_id = project.id;
  environment_id = none;
  diff = none;
}

-- The audit entry of an update.
abbrev pub update_entry :
    Project → Flag → Environment → FlagEnvironmentConfig → FlagEnvironmentConfig → Entry
update_entry project flag env before after = record {
  action = "flag.targeting.updated";
  resource_type = "flag";
  resource_key = flag.key;
  summary =
      "updated targeting for "
      ++ flag.key
      ++ " in "
      ++ env.key
      ++ " (targeting "
      ++ on_off after.enabled
      ++ ")";
  project_id = project.id;
  environment_id = some env.id;
  diff = some (
      object (field "before" (config_snapshot before) (field "after" (config_snapshot after) end)));
}

module _ ⦃E : Engine⦄ where
  open E use {Table}

  -- Whether the flush of a new flag breaks a unique constraint (`IntegrityError`).
  unfoldable pub flag_clashes : Flag → Database → Bool
  flag_clashes r d =
      not (is_none (E.get r.id d.flags))
      || not (is_none (E.scalar (is_flag r.project_id r.key) d.flags))

  -- `for env in envs: session.add(FlagEnvironmentConfig(...))`
  unfoldable pub add_defaults :
      Context → ℕ → List Environment → Table flag_config_pk → Table flag_config_pk
  add_defaults c flag_id [] t = t
  add_defaults c flag_id (env ∷ envs) t =
      add_defaults c flag_id envs (E.add (default_config c flag_id env.id) t)

  unfoldable pub create_flag : Context → String → FlagCreate → Action Flag
  unfolding add_defaults
  create_flag c project_key body = do
    project ← get_project project_key
    let flag = flag_of c project.id body
    raise_if (← reads (λ s. flag_clashes flag s.tables)) (exists_already "flag" body.key)
    writes (λ d. record d { flags = E.add flag d.flags })
    envs ← reads (λ s. E.scalars (λ r. r.project_id == project.id) s.environments)
    writes (λ d. record d { flag_configs = add_defaults c flag.id envs d.flag_configs })
    record_audit c (flag_entry project flag)
    pure flag

  unfoldable pub list_flags : (String → String → Bool) → String → Action (List Flag)
  list_flags collates project_key = do
    project ← get_project project_key
    reads (λ s.
        E.order_by (λ a b. collates a.key b.key)
          (E.scalars (λ r. r.project_id == project.id && is_none r.archived_at) s.flags))

  unfoldable pub get_one_flag : String → String → Action Flag
  get_one_flag project_key flag_key = do
    project ← get_project project_key
    get_flag project.id flag_key

  -- `session.get(FlagEnvironmentConfig, (flag.id, env.id))`, or 404.
  unfoldable pub get_config : ℕ → ℕ → Action FlagEnvironmentConfig
  get_config flag_id environment_id = do
    found ← reads (λ s. E.get (flag_id, environment_id) s.flag_configs)
    or_raise found no_config

  -- `session.flush()` of the row that was loaded and changed.
  unfoldable pub save_config : FlagEnvironmentConfig → FlagEnvironmentConfig → Action (Unit {0})
  save_config loaded updated =
      writes (λ d. record d { flag_configs = E.add (flushed_config loaded updated) d.flag_configs })

  module _ ⦃p : Pydantic⦄ where
    unfoldable pub get_flag_config : String → String → String → Action FlagConfigOut
    get_flag_config project_key flag_key env_key = do
      project ← get_project project_key
      flag ← get_flag project.id flag_key
      env ← get_environment project.id env_key
      cfg ← get_config flag.id env.id
      or_raise (config_out env.key cfg) response_validation_error

    -- The rest of `update_flag_config`, once the rows are at hand.
    unfoldable pub replace_config :
        Context
        → Project
        → Flag
        → Environment
        → FlagEnvironmentConfig
        → FlagConfigUpdate
        → Action FlagConfigOut
    replace_config c project flag env cfg body = do
      let bad = validate_indices body (length flag.variations)
      raise_if (not (is_empty bad)) (http_exception 422 (index_out_of_range bad))
      let updated = apply_update c body cfg
      save_config cfg updated
      record_audit c (update_entry project flag env cfg updated)
      raise_if (not (fits_columns updated)) data_error
      env_changed c env.id
      or_raise (config_out env.key updated) response_validation_error

    unfoldable pub update_flag_config :
        Context → String → String → String → FlagConfigUpdate → Action FlagConfigOut
    update_flag_config c project_key flag_key env_key body = do
      project ← get_project project_key
      flag ← get_flag project.id flag_key
      env ← get_environment project.id env_key
      cfg ← get_config flag.id env.id
      replace_config c project flag env cfg body
