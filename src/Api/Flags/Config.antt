-- ===== src/Api/Flags/Config.antt =====
-- One environment's targeting of a flag in control-plane/app/api/flags.py: the row that
-- `create_flag` seeds, the row that `update_flag_config` writes, and how a row is shown.
use feature_flags.Base.{ℕ, ◌+◌, ◌^◌, ℤ, pos, String, ◌&&◌, Bool, false, Option, some, List, ltb}
use feature_flags.Base.Maybe.{◌>>=◌}
use feature_flags.Json.{Json, boolean, number, array, object, nil, field, end}
use feature_flags.Models.{FlagEnvironmentConfig}
use feature_flags.Schemas.Pydantic.{Pydantic}
use feature_flags.Schemas.Flag.{Target, Rule, Fallthrough, Prerequisite, FlagConfigUpdate}
use feature_flags.Schemas.Load.{
  load_list, load_target, load_rule, load_fallthrough, load_prerequisite,
}
use feature_flags.Schemas.Dump.{
  dump_list, dump_target, dump_rule, dump_fallthrough, dump_prerequisite,
}
use feature_flags.Store.Session.{Context}
use feature_flags.Store.Engine.{Engine}
use feature_flags.Store.Compare.{flushed_json}
use feature_flags.Api.Projects.{fits_integer}

-- The column default `lambda: {"variation": 0}`.
abbrev pub default_fallthrough : Json
default_fallthrough = object (field "variation" (number (pos 0)) end)

-- A new `FlagEnvironmentConfig`, with the defaults of its columns.
abbrev pub default_config : Context → ℕ → ℕ → FlagEnvironmentConfig
default_config c flag_id environment_id = record {
  flag_id = flag_id;
  environment_id = environment_id;
  enabled = false;
  targets = array nil;
  rules = array nil;
  fallthrough = default_fallthrough;
  off_variation = pos 0;
  prerequisites = array nil;
  version = 1;
  updated_at = c.now;
  updated_by = some c.actor;
}

-- The assignments of `update_flag_config`, and `updated_at` by its `onupdate`.
unfoldable pub apply_update :
    Context → FlagConfigUpdate → FlagEnvironmentConfig → FlagEnvironmentConfig
apply_update c body cfg = record cfg {
  enabled = body.enabled;
  targets = dump_list dump_target body.targets;
  rules = dump_list dump_rule body.rules;
  fallthrough = dump_fallthrough body.fallthrough;
  off_variation = body.off_variation;
  prerequisites = dump_list dump_prerequisite body.prerequisites;
  version = cfg.version + 1;
  updated_at = c.now;
  updated_by = some c.actor;
}

-- The row after the flush: the JSON columns are set where they do not compare as unchanged.
unfoldable pub flushed_config :
    ⦃E : Engine⦄ → FlagEnvironmentConfig → FlagEnvironmentConfig → FlagEnvironmentConfig
flushed_config loaded updated = record updated {
  targets = flushed_json loaded.targets updated.targets;
  rules = flushed_json loaded.rules updated.rules;
  fallthrough = flushed_json loaded.fallthrough updated.fallthrough;
  prerequisites = flushed_json loaded.prerequisites updated.prerequisites;
}

-- Whether the flush can write the numbers of the row: `integer` and `bigint` columns.
abbrev pub fits_columns : FlagEnvironmentConfig → Bool
fits_columns cfg = fits_integer cfg.off_variation && ltb cfg.version (2 ^ 63)

-- `_config_snapshot`
unfoldable pub config_snapshot : FlagEnvironmentConfig → Json
config_snapshot cfg = object (
    field "enabled" (boolean cfg.enabled) (
      field "targets" cfg.targets (
        field "rules" cfg.rules (
          field "fallthrough" cfg.fallthrough (
            field "offVariation" (number cfg.off_variation) (
              field "prerequisites" cfg.prerequisites
                (field "version" (number (pos cfg.version)) end)))))))

-- `FlagConfigOut` of control-plane/app/schemas/flag.py
pub record FlagConfigOut : Type 0 where
  pub environment_key : String
  pub enabled : Bool
  pub targets : List Target
  pub rules : List Rule
  pub fallthrough : Fallthrough
  pub off_variation : ℤ
  pub prerequisites : List Prerequisite
  pub version : ℕ
  pub updated_at : ℕ
  pub updated_by : Option String

-- `_config_out`: the response model reads the stored values again; `none` is a validation error.
unfoldable pub config_out : ⦃p : Pydantic⦄ → String → FlagEnvironmentConfig → Option FlagConfigOut
config_out env_key cfg = do
  targets ← load_list load_target cfg.targets
  rules ← load_list load_rule cfg.rules
  fallthrough ← load_fallthrough cfg.fallthrough
  prerequisites ← load_list load_prerequisite cfg.prerequisites
  some (record {
    environment_key = env_key;
    enabled = cfg.enabled;
    targets = targets;
    rules = rules;
    fallthrough = fallthrough;
    off_variation = cfg.off_variation;
    prerequisites = prerequisites;
    version = cfg.version;
    updated_at = cfg.updated_at;
    updated_by = cfg.updated_by;
  })
