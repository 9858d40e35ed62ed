-- ===== src/Api/Flags/Race.antt =====
-- `update_flag_config` of control-plane/app/api/flags.py in two phases: what its transaction reads,
-- and, once other transactions may have committed (READ COMMITTED), what it writes. The UPDATE sets
-- the columns whose value is not the one that was read, and `updated_at`.
pub mod Lost
pub mod Serial
use feature_flags.Services.Notify.{env_changed}
use feature_flags.Services.Audit.{record_audit}
use feature_flags.Api.Flags.Handlers.{save_config, update_entry, get_config, is_empty}
use feature_flags.Api.Common.{get_environment, get_flag, get_project}
use feature_flags.Api.Flags.Indices.{validate_indices}
use feature_flags.Api.Flags.Config.{config_out, fits_columns, apply_update, FlagConfigOut}
use feature_flags.Schemas.Flag.{FlagConfigUpdate}
use feature_flags.Base.Int.{eqb_ℤ}
use feature_flags.Store.Session.{
  stale_data_error, response_validation_error, data_error, pure, index_out_of_range, http_exception,
  raise_if, or_raise, reads, Context, Action, ◌>>=◌, ◌>>◌, writes,
}
use feature_flags.Schemas.Pydantic.{Pydantic}
use feature_flags.Models.{Flag, Environment, FlagEnvironmentConfig, Project}
use feature_flags.Json.{Json}
use feature_flags.Store.Engine.{Engine}
use feature_flags.Store.Compare.{same_bool}
use feature_flags.Base.{
  pair_key, text_key, ◌==◌, none, some, true, false, length, String, not, Option, Bool,
  if◌then◌else◌, nat_eq,
}

-- What a transaction has read of a flag's configuration.
pub record Found : Type 0 where
  pub project : Project
  pub flag : Flag
  pub env : Environment
  pub cfg : FlagEnvironmentConfig

abbrev pub same_actor : Option String → Option String → Bool
same_actor none none = true
same_actor (some a) (some b) = a == b
same_actor _ _ = false

-- The row after the UPDATE; `unchanged` is the comparison of two JSON columns.
unfoldable pub merged :
    (Json → Json → Bool)
    → FlagEnvironmentConfig
    → FlagEnvironmentConfig
    → FlagEnvironmentConfig
    → FlagEnvironmentConfig
merged unchanged loaded updated current = record current {
  enabled = if same_bool loaded.enabled updated.enabled then current.enabled else updated.enabled;
  targets = if unchanged loaded.targets updated.targets then current.targets else updated.targets;
  rules = if unchanged loaded.rules updated.rules then current.rules else updated.rules;
  fallthrough =
      if unchanged loaded.fallthrough updated.fallthrough
      then current.fallthrough
      else updated.fallthrough;
  off_variation =
      if eqb_ℤ loaded.off_variation updated.off_variation
      then current.off_variation
      else updated.off_variation;
  prerequisites =
      if unchanged loaded.prerequisites updated.prerequisites
      then current.prerequisites
      else updated.prerequisites;
  version = if nat_eq loaded.version updated.version then current.version else updated.version;
  updated_at = updated.updated_at;
  updated_by =
      if same_actor loaded.updated_by updated.updated_by
      then current.updated_by
      else updated.updated_by;
}

module _ ⦃E : Engine⦄ where
  unfoldable pub read_phase : String → String → String → Action Found
  read_phase project_key flag_key env_key = do
    project ← get_project project_key
    flag ← get_flag project.id flag_key
    env ← get_environment project.id env_key
    cfg ← get_config flag.id env.id
    pure (record { project = project; flag = flag; env = env; cfg = cfg })

  module _ (unchanged : Json → Json → Bool) where
    -- `session.flush()` of the row that was read and changed.
    unfoldable pub flush_config : Found → FlagEnvironmentConfig → Action (Unit {0})
    unfolding merged
    flush_config found updated = do
      stored ← reads (λ s. E.get (found.flag.id, found.env.id) s.flag_configs)
      current ← or_raise stored stale_data_error
      writes (λ d. record d {
        flag_configs = E.add (merged unchanged found.cfg updated current) d.flag_configs;
      })

    unfoldable pub write_phase :
        ⦃p : Pydantic⦄ → Context → Found → FlagConfigUpdate → Action FlagConfigOut
    unfolding flush_config
    write_phase c found body = do
      let bad = validate_indices body (length found.flag.variations)
      raise_if (not (is_empty bad)) (http_exception 422 (index_out_of_range bad))
      let updated = apply_update c body found.cfg
      flush_config found updated
      record_audit c (update_entry found.project found.flag found.env found.cfg updated)
      raise_if (not (fits_columns updated)) data_error
      env_changed c found.env.id
      or_raise (config_out found.env.key updated) response_validation_error
