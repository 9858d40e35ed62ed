-- ===== src/App/Consistent.antt =====
-- The constraints that hold between the committed tables of control-plane/app/models: the unique
-- and foreign keys of migrations/0001_init.up.sql, and stored targeting that its models accept and
-- whose indices are those of the flag's variations.
use feature_flags.Api.Segments.{dump_segment_rule}
use feature_flags.Schemas.Dump.{
  dump_prerequisite, dump_fallthrough, dump_rule, dump_target, dump_list,
}
use feature_flags.Schemas.Segment.{SegmentRule}
use feature_flags.Schemas.Flag.{Variation, FlagConfigUpdate}
use feature_flags.Store.Session.{Database}
use feature_flags.Models.{
  environment_pk, segment_pk, flag_pk, Segment, Project, FlagEnvironmentConfig, Environment,
  SegmentEnvironmentConfig, Flag,
}
use feature_flags.Store.Engine.{Engine}
use feature_flags.Store.Relations.{Unique, Refers, AllRows, get-add_other}
use feature_flags.Schemas.Accepted.{IsAccepted}
use feature_flags.Schemas.Bodies.{IsSegmentRule}
use feature_flags.Schemas.FlagCreate.{FlagKind, IsVariation}
use feature_flags.Api.Flags.IndexLaws.{Exists, references}
use feature_flags.Api.Flags.Handlers.{dump_variation}
use feature_flags.Base.{◌≤◌, map, length, All, List, ℕ, some, none, ◌≡◌, id_key, pair_key, text_key}

-- A stored configuration is what `model_dump` makes of an accepted request, and each index that it
-- names is that of one of `n` variations.
pub record IsTargeting (n : ℕ) (cfg : FlagEnvironmentConfig) : Type 0 where
  pub body : FlagConfigUpdate
  pub accepted : IsAccepted body
  pub indices : All (Exists n) (references body)
  pub targets : cfg.targets ≡ dump_list dump_target body.targets
  pub rules : cfg.rules ≡ dump_list dump_rule body.rules
  pub fallthrough : cfg.fallthrough ≡ dump_fallthrough body.fallthrough
  pub off_variation : cfg.off_variation ≡ body.off_variation
  pub prerequisites : cfg.prerequisites ≡ dump_list dump_prerequisite body.prerequisites

-- A stored segment configuration holds rules that its model accepts.
pub record IsMembership (cfg : SegmentEnvironmentConfig) : Type 0 where
  pub body : List SegmentRule
  pub accepted : All IsSegmentRule body
  pub rules : cfg.rules ≡ dump_list dump_segment_rule body

-- A stored flag has at least two variations, two if it is boolean, and each is a dumped `Variation`.
pub record IsFlag (f : Flag) : Type 0 where
  pub body : List Variation
  pub names : All IsVariation body
  pub variations : f.variations ≡ map dump_variation body
  pub enough : 2 ≤ length body
  pub boolean : f.kind ≡ FlagKind.boolean → length body ≡ 2

module _ ⦃E : Engine⦄ where
  open E use {Table}

  -- The flag and the environment of a configuration, which are of one project.
  pub record ConfigIn (flags : Table flag_pk) (environments : Table environment_pk)
      (cfg : FlagEnvironmentConfig) : Type 0 where
    pub flag : Flag
    pub env : Environment
    pub flag_stored : E.get cfg.flag_id flags ≡ some flag
    pub env_stored : E.get cfg.environment_id environments ≡ some env
    pub one_project : flag.project_id ≡ env.project_id
    pub targeting : IsTargeting (length flag.variations) cfg

  pub record SegmentConfigIn (segments : Table segment_pk) (environments : Table environment_pk)
      (cfg : SegmentEnvironmentConfig) : Type 0 where
    pub seg : Segment
    pub env : Environment
    pub seg_stored : E.get cfg.segment_id segments ≡ some seg
    pub env_stored : E.get cfg.environment_id environments ≡ some env
    pub one_project : seg.project_id ≡ env.project_id
    pub membership : IsMembership cfg

  -- Rows of one project with one key.
  abbrev pub SameKey : Project → Project → Type 0
  SameKey p q = p.key ≡ q.key

  abbrev pub SameEnvironment : Environment → Environment → Type 0
  SameEnvironment e f = (e.project_id ≡ f.project_id) × (e.key ≡ f.key)

  abbrev pub SameFlag : Flag → Flag → Type 0
  SameFlag f g = (f.project_id ≡ g.project_id) × (f.key ≡ g.key)

  abbrev pub SameSegment : Segment → Segment → Type 0
  SameSegment f g = (f.project_id ≡ g.project_id) × (f.key ≡ g.key)

  pub record IsConsistent (d : Database) : Type 0 where
    pub project_keys : Unique SameKey d.projects
    pub environment_keys : Unique SameEnvironment d.environments
    pub flag_keys : Unique SameFlag d.flags
    pub segment_keys : Unique SameSegment d.segments
    pub environment_project : Refers (λ r. r.project_id) d.environments d.projects
    pub flag_project : Refers (λ r. r.project_id) d.flags d.projects
    pub segment_project : Refers (λ r. r.project_id) d.segments d.projects
    pub credential_environment : Refers (λ r. r.environment_id) d.credentials d.environments
    pub flags : AllRows IsFlag d.flags
    pub flag_configs : AllRows (ConfigIn d.flags d.environments) d.flag_configs
    pub segment_configs : AllRows (SegmentConfigIn d.segments d.environments) d.segment_configs

  -- New flags, segments and environments leave the others where they are.
  pub ConfigIn-add_flag :
      (r : Flag) (t : Table flag_pk) (u : Table environment_pk)
      → E.get r.id t ≡ none
      → (cfg : FlagEnvironmentConfig) → ConfigIn t u cfg
      → ConfigIn (E.add r t) u cfg
  ConfigIn-add_flag r t u fresh cfg h = record {
    flag = h.flag;
    env = h.env;
    flag_stored = get-add_other cfg.flag_id r h.flag t fresh h.flag_stored;
    env_stored = h.env_stored;
    one_project = h.one_project;
    targeting = h.targeting;
  }

  pub ConfigIn-add_environment :
      (r : Environment) (t : Table flag_pk) (u : Table environment_pk)
      → E.get r.id u ≡ none
      → (cfg : FlagEnvironmentConfig) → ConfigIn t u cfg
      → ConfigIn t (E.add r u) cfg
  ConfigIn-add_environment r t u fresh cfg h = record {
    flag = h.flag;
    env = h.env;
    flag_stored = h.flag_stored;
    env_stored = get-add_other cfg.environment_id r h.env u fresh h.env_stored;
    one_project = h.one_project;
    targeting = h.targeting;
  }

  pub SegmentConfigIn-add_segment :
      (r : Segment) (t : Table segment_pk) (u : Table environment_pk)
      → E.get r.id t ≡ none
      → (cfg : SegmentEnvironmentConfig) → SegmentConfigIn t u cfg
      → SegmentConfigIn (E.add r t) u cfg
  SegmentConfigIn-add_segment r t u fresh cfg h = record {
    seg = h.seg;
    env = h.env;
    seg_stored = get-add_other cfg.segment_id r h.seg t fresh h.seg_stored;
    env_stored = h.env_stored;
    one_project = h.one_project;
    membership = h.membership;
  }

  pub SegmentConfigIn-add_environment :
      (r : Environment) (t : Table segment_pk) (u : Table environment_pk)
      → E.get r.id u ≡ none
      → (cfg : SegmentEnvironmentConfig) → SegmentConfigIn t u cfg
      → SegmentConfigIn t (E.add r u) cfg
  SegmentConfigIn-add_environment r t u fresh cfg h = record {
    seg = h.seg;
    env = h.env;
    seg_stored = h.seg_stored;
    env_stored = get-add_other cfg.environment_id r h.env u fresh h.env_stored;
    one_project = h.one_project;
    membership = h.membership;
  }
