-- ===== src/App/Creations.antt =====
-- The handlers of control-plane/app/api that create rows keep the tables consistent.
use feature_flags.Api.Flags.Config.{default_config}
use feature_flags.Api.Segments.{segment_of}
use feature_flags.Api.Flags.Handlers.{add_defaults, flag_of}
use feature_flags.Api.Projects.{project_of, environment_of}
use feature_flags.Api.Common.{is_segment, is_flag, is_environment, has_key}
use feature_flags.Schemas.Segment.{SegmentCreate}
use feature_flags.Schemas.Catalog.{EnvironmentCreate, ProjectCreate}
use feature_flags.Models.{Environment, audit_pk, Project}
use feature_flags.Store.Session.{Database, Context}
use feature_flags.Store.Engine.{Engine}
use feature_flags.App.Consistent.{
  IsConsistent, IsFlag, ConfigIn, SameKey, SameEnvironment, SameFlag, SameSegment,
  ConfigIn-add_flag, ConfigIn-add_environment, SegmentConfigIn-add_segment,
  SegmentConfigIn-add_environment,
}
use feature_flags.App.Rows.{
  flag_of-IsFlag, default_config-IsTargeting, alone, enough_variations, add_defaults-ConfigIn,
}
use feature_flags.Store.Relations.{
  NoRow, Unique-add, Refers-add, Refers-add_target, AllRows-add, get-add_same,
}
use feature_flags.Schemas.FlagCreate.{FlagCreate, IsFlagCreate}
use feature_flags.Api.Flags.Create.{both_true}
use feature_flags.Base.{
  length, nat_eq_iff, Elem, ◌==◌, eq_iff, some, none, ◌≡◌, id_key, pair_key, text_key, sym,
}

module _ ⦃E : Engine⦄ (c : Context) (d : Database) (h : IsConsistent d) where
  pub project_kept :
      (b : ProjectCreate) (audit_logs : E.Table audit_pk)
      → E.get c.uuid d.projects ≡ none
      → NoRow (has_key b.key) d.projects
      → IsConsistent
          (record d { projects = E.add (project_of c b) d.projects; audit_logs = audit_logs })
  project_kept b audit_logs fresh free =
      let new = project_of c b in
      record {
        project_keys =
            Unique-add SameKey new d.projects (λ p q e. sym e)
              (alone SameKey (has_key b.key) new d.projects free
                (λ q same. (eq_iff q.key b.key).1 same))
              h.project_keys;
        environment_keys = h.environment_keys;
        flag_keys = h.flag_keys;
        segment_keys = h.segment_keys;
        environment_project =
            Refers-add_target (λ r. r.project_id) new d.environments d.projects fresh
              h.environment_project;
        flag_project =
            Refers-add_target (λ r. r.project_id) new d.flags d.projects fresh h.flag_project;
        segment_project =
            Refers-add_target (λ r. r.project_id) new d.segments d.projects fresh h.segment_project;
        credential_environment = h.credential_environment;
        flags = h.flags;
        flag_configs = h.flag_configs;
        segment_configs = h.segment_configs;
      }

  pub environment_kept :
      (project : Project) (b : EnvironmentCreate) (audit_logs : E.Table audit_pk)
      → E.get project.id d.projects ≡ some project
      → E.get c.uuid d.environments ≡ none
      → NoRow (is_environment project.id b.key) d.environments
      → IsConsistent (record d {
        environments = E.add (environment_of c project.id b) d.environments;
        audit_logs = audit_logs;
      })
  environment_kept project b audit_logs there fresh free =
      let new = environment_of c project.id b in
      record {
        project_keys = h.project_keys;
        environment_keys =
            Unique-add SameEnvironment new d.environments (λ p q e. (sym e.0, sym e.1))
              (alone SameEnvironment (is_environment project.id b.key) new d.environments free
                (λ q same. both_true q.project_id project.id q.key b.key same.0 same.1))
              h.environment_keys;
        flag_keys = h.flag_keys;
        segment_keys = h.segment_keys;
        environment_project =
            Refers-add (λ r. r.project_id) new project d.environments d.projects there
              h.environment_project;
        flag_project = h.flag_project;
        segment_project = h.segment_project;
        credential_environment =
            Refers-add_target (λ r. r.environment_id) new d.credentials d.environments fresh
              h.credential_environment;
        flags = h.flags;
        flag_configs = λ k cfg at.
            ConfigIn-add_environment new d.flags d.environments fresh cfg (h.flag_configs k cfg at);
        segment_configs = λ k cfg at.
            SegmentConfigIn-add_environment new d.segments d.environments fresh cfg
              (h.segment_configs k cfg at);
      }

  pub flag_kept :
      (project : Project) (b : FlagCreate) (audit_logs : E.Table audit_pk)
      → IsFlagCreate b
      → E.get project.id d.projects ≡ some project
      → E.get c.uuid d.flags ≡ none
      → NoRow (is_flag project.id b.key) d.flags
      → IsConsistent (record d {
        flags = E.add (flag_of c project.id b) d.flags;
        flag_configs =
            add_defaults c c.uuid
              (E.scalars (λ r. r.project_id == project.id) d.environments)
              d.flag_configs;
        audit_logs = audit_logs;
      })
  flag_kept project b audit_logs good there fresh free =
      let new = flag_of c project.id b in
      let seeded : (env : Environment)
          → Elem env (E.scalars (λ r. r.project_id == project.id) d.environments)
          → ConfigIn (E.add new d.flags) d.environments (default_config c c.uuid env.id) =
        λ env m.
          let (passes, at) =
            E.scalars_sound (λ r. r.project_id == project.id) env d.environments m in
          record {
            flag = new;
            env = env;
            flag_stored = get-add_same new d.flags;
            env_stored = at;
            one_project = sym ((nat_eq_iff env.project_id project.id).0 passes);
            targeting =
                default_config-IsTargeting c c.uuid env.id (length new.variations)
                  (enough_variations new (flag_of-IsFlag c project.id b good));
          } in
      record {
        project_keys = h.project_keys;
        environment_keys = h.environment_keys;
        flag_keys =
            Unique-add SameFlag new d.flags (λ p q e. (sym e.0, sym e.1))
              (alone SameFlag (is_flag project.id b.key) new d.flags free
                (λ q same. both_true q.project_id project.id q.key b.key same.0 same.1))
              h.flag_keys;
        segment_keys = h.segment_keys;
        environment_project = h.environment_project;
        flag_project =
            Refers-add (λ r. r.project_id) new project d.flags d.projects there h.flag_project;
        segment_project = h.segment_project;
        credential_environment = h.credential_environment;
        flags = AllRows-add IsFlag new d.flags (flag_of-IsFlag c project.id b good) h.flags;
        flag_configs =
            add_defaults-ConfigIn c c.uuid (E.add new d.flags) d.environments
              (E.scalars (λ r. r.project_id == project.id) d.environments) d.flag_configs seeded
              (λ k cfg at.
                ConfigIn-add_flag new d.flags d.environments fresh cfg (h.flag_configs k cfg at));
        segment_configs = h.segment_configs;
      }

  pub segment_kept :
      (project : Project) (b : SegmentCreate) (audit_logs : E.Table audit_pk)
      → E.get project.id d.projects ≡ some project
      → E.get c.uuid d.segments ≡ none
      → NoRow (is_segment project.id b.key) d.segments
      → IsConsistent (record d {
        segments = E.add (segment_of c project.id b) d.segments;
        audit_logs = audit_logs;
      })
  segment_kept project b audit_logs there fresh free =
      let new = segment_of c project.id b in
      record {
        project_keys = h.project_keys;
        environment_keys = h.environment_keys;
        flag_keys = h.flag_keys;
        segment_keys =
            Unique-add SameSegment new d.segments (λ p q e. (sym e.0, sym e.1))
              (alone SameSegment (is_segment project.id b.key) new d.segments free
                (λ q same. both_true q.project_id project.id q.key b.key same.0 same.1))
              h.segment_keys;
        environment_project = h.environment_project;
        flag_project = h.flag_project;
        segment_project =
            Refers-add (λ r. r.project_id) new project d.segments d.projects there
              h.segment_project;
        credential_environment = h.credential_environment;
        flags = h.flags;
        flag_configs = h.flag_configs;
        segment_configs = λ k cfg at.
            SegmentConfigIn-add_segment new d.segments d.environments fresh cfg
              (h.segment_configs k cfg at);
      }
