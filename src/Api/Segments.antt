-- ===== src/Api/Segments.antt =====
-- control-plane/app/api/segments.py: segments, and their members in each environment. The unique
-- constraint of segments is that of control-plane/app/models/segment.py.
pub mod Update
pub mod Replies
pub mod ReadBack
use Prim.Native.String.{◌++◌}
use feature_flags.Base.{
  ℕ, ◌+◌, ◌^◌, String, Bool, not, ◌||◌, Option, none, some, List, [], length, ltb, ◌==◌, id_key,
  text_key, pair_key,
}
use feature_flags.Base.Text.{show_ℕ}
use feature_flags.Base.Maybe
use feature_flags.Base.Maybe.{is_none}
use feature_flags.Json.{Json, array, object, nil, field, end}
use feature_flags.Models.{Project, Environment, Segment, SegmentEnvironmentConfig}
use feature_flags.Schemas.Pydantic.{Pydantic}
use feature_flags.Schemas.Dump.{dump_list, dump_clause}
use feature_flags.Schemas.Load.{load_list}
use feature_flags.Schemas.Segment.{
  SegmentRule, SegmentCreate, SegmentConfigUpdate, load_segment_rule,
}
use feature_flags.Services.Audit.{Entry, record_audit}
use feature_flags.Services.Notify.{env_changed}
use feature_flags.Store.Engine.{Engine}
use feature_flags.Store.Compare.{flushed_json}
use feature_flags.Store.Session.{
  Error, Database, Context, Action, http_exception, message, data_error, response_validation_error,
  pure, reads, or_raise, raise_if, writes, ◌>>=◌, ◌>>◌,
}
use feature_flags.Api.Common.{is_segment, get_project, get_environment, get_segment}
use feature_flags.Api.Projects.{exists_already}

abbrev pub segment_of : Context → ℕ → SegmentCreate → Segment
segment_of c project_id body = record {
  id = c.uuid;
  project_id = project_id;
  key = body.key;
  name = body.name;
  description = body.description;
  created_at = c.now;
}

-- `SegmentEnvironmentConfig(..., version=0)` with the other defaults of its columns.
abbrev pub new_segment_config : Context → ℕ → ℕ → SegmentEnvironmentConfig
new_segment_config c segment_id environment_id = record {
  segment_id = segment_id;
  environment_id = environment_id;
  context_kind = "user";
  included = [];
  excluded = [];
  rules = array nil;
  version = 0;
  updated_at = c.now;
}

-- `r.model_dump(by_alias=True)`
unfoldable pub dump_segment_rule : SegmentRule → Json
dump_segment_rule r = object (field "clauses" (dump_list dump_clause r.clauses) end)

unfoldable pub apply_segment_update :
    Context → SegmentConfigUpdate → SegmentEnvironmentConfig → SegmentEnvironmentConfig
apply_segment_update c body cfg = record cfg {
  context_kind = body.context_kind;
  included = body.included;
  excluded = body.excluded;
  rules = dump_list dump_segment_rule body.rules;
  version = cfg.version + 1;
  updated_at = c.now;
}

-- The audit entries of the two handlers that write. The lists of the row are those of the body.
abbrev pub segment_entry : Project → Segment → Entry
segment_entry project seg = record {
  action = "segment.created";
  resource_type = "segment";
  resource_key = seg.key;
  summary = "created segment " ++ seg.key;
  project_id = project.id;
  environment_id = none;
  diff = none;
}

abbrev pub segment_update_entry : Project → Segment → Environment → SegmentConfigUpdate → Entry
segment_update_entry project seg env body = record {
  action = "segment.updated";
  resource_type = "segment";
  resource_key = seg.key;
  summary =
      "updated segment "
      ++ seg.key
      ++ " in "
      ++ env.key
      ++ " ("
      ++ show_ℕ (length body.included)
      ++ " included, "
      ++ show_ℕ (length body.rules)
      ++ " rules)";
  project_id = project.id;
  environment_id = some env.id;
  diff = none;
}

-- `SegmentConfigOut` of control-plane/app/schemas/segment.py
pub record SegmentConfigOut : Type 0 where
  pub environment_key : String
  pub context_kind : String
  pub included : List String
  pub excluded : List String
  pub rules : List SegmentRule
  pub version : ℕ
  pub updated_at : ℕ

-- `_config_out`
unfoldable pub segment_config_out :
    ⦃p : Pydantic⦄ → String → SegmentEnvironmentConfig → Option SegmentConfigOut
segment_config_out env_key cfg = Maybe.◌>>=◌ (load_list load_segment_rule cfg.rules) λ rules.
    some (record {
      environment_key = env_key;
      context_kind = cfg.context_kind;
      included = cfg.included;
      excluded = cfg.excluded;
      rules = rules;
      version = cfg.version;
      updated_at = cfg.updated_at;
    })

-- The row that an update starts from: the stored one, or a new one at version 0.
abbrev pub start_config :
    Context → ℕ → ℕ → Option SegmentEnvironmentConfig → SegmentEnvironmentConfig
start_config c segment_id environment_id none = new_segment_config c segment_id environment_id
start_config c segment_id environment_id (some cfg) = cfg

abbrev pub no_segment_config : Error
no_segment_config = http_exception 404 (message "segment has no config in this environment")

module _ ⦃E : Engine⦄ where
  -- Whether the flush of a new segment breaks a unique constraint (`IntegrityError`).
  unfoldable pub segment_clashes : Segment → Database → Bool
  segment_clashes r d =
      not (is_none (E.get r.id d.segments))
      || not (is_none (E.scalar (is_segment r.project_id r.key) d.segments))

  unfoldable pub create_segment : Context → String → SegmentCreate → Action Segment
  create_segment c project_key body = do
    project ← get_project project_key
    let seg = segment_of c project.id body
    raise_if (← reads (λ s. segment_clashes seg s.tables)) (exists_already "segment" body.key)
    writes (λ d. record d { segments = E.add seg d.segments })
    record_audit c (segment_entry project seg)
    pure seg

  unfoldable pub list_segments : (String → String → Bool) → String → Action (List Segment)
  list_segments collates project_key = do
    project ← get_project project_key
    reads (λ s.
        E.order_by (λ a b. collates a.key b.key)
          (E.scalars (λ r. r.project_id == project.id) s.segments))

  -- The row after the flush: a new row is inserted, and of a loaded one the JSON column is set where
  -- it does not compare as unchanged.
  unfoldable pub flushed_segment_config :
      Option SegmentEnvironmentConfig → SegmentEnvironmentConfig → SegmentEnvironmentConfig
  flushed_segment_config none updated = updated
  flushed_segment_config (some loaded) updated = record updated {
    rules = flushed_json loaded.rules updated.rules;
  }

  unfoldable pub save_segment_config :
      Option SegmentEnvironmentConfig → SegmentEnvironmentConfig → Action (Unit {0})
  save_segment_config found updated = writes (λ d. record d {
    segment_configs = E.add (flushed_segment_config found updated) d.segment_configs;
  })

  -- `session.get(SegmentEnvironmentConfig, (seg.id, env.id))`, or 404.
  unfoldable pub get_segment_row : ℕ → ℕ → Action SegmentEnvironmentConfig
  get_segment_row segment_id environment_id = do
    found ← reads (λ s. E.get (segment_id, environment_id) s.segment_configs)
    or_raise found no_segment_config

  module _ ⦃p : Pydantic⦄ where
    unfoldable pub get_segment_config : String → String → String → Action SegmentConfigOut
    get_segment_config project_key segment_key env_key = do
      project ← get_project project_key
      seg ← get_segment project.id segment_key
      env ← get_environment project.id env_key
      cfg ← get_segment_row seg.id env.id
      or_raise (segment_config_out env.key cfg) response_validation_error

    -- The rest of `update_segment_config`, once the rows are at hand.
    unfoldable pub write_segment_config :
        Context
        → Project
        → Segment
        → Environment
        → Option SegmentEnvironmentConfig
        → SegmentConfigUpdate
        → Action SegmentConfigOut
    write_segment_config c project seg env found body = do
      let updated = apply_segment_update c body (start_config c seg.id env.id found)
      save_segment_config found updated
      record_audit c (segment_update_entry project seg env body)
      raise_if (not (ltb updated.version (2 ^ 63))) data_error
      env_changed c env.id
      or_raise (segment_config_out env.key updated) response_validation_error

    unfoldable pub update_segment_config :
        Context → String → String → String → SegmentConfigUpdate → Action SegmentConfigOut
    update_segment_config c project_key segment_key env_key body = do
      project ← get_project project_key
      seg ← get_segment project.id segment_key
      env ← get_environment project.id env_key
      found ← reads (λ s. E.get (seg.id, env.id) s.segment_configs)
      write_segment_config c project seg env found body
