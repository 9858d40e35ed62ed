-- ===== src/App/Steps.antt =====
-- What a request that was carried out has done to the committed tables and which notifications it
-- sent: an abstract account of the handlers of control-plane/app/api, by primary keys.
use feature_flags.Api.Credentials.{credential_entry, credential_of}
use feature_flags.Schemas.Credential.{CredentialCreate}
use feature_flags.Api.Segments.{
  flushed_segment_config, segment_update_entry, start_config, apply_segment_update, segment_entry,
  segment_of,
}
use feature_flags.Schemas.Segment.{SegmentConfigUpdate, SegmentCreate}
use feature_flags.Api.Flags.Config.{apply_update, flushed_config}
use feature_flags.Schemas.Accepted.{IsAccepted}
use feature_flags.Schemas.Flag.{FlagConfigUpdate}
use feature_flags.Api.Flags.Handlers.{update_entry, flag_entry, add_defaults, flag_of}
use feature_flags.Services.Audit.{audit_row}
use feature_flags.Api.Projects.{environment_entry, environment_of, project_entry, project_of}
use feature_flags.Api.Common.{is_segment, is_flag, is_environment, has_key}
use feature_flags.Schemas.Catalog.{EnvironmentCreate, ProjectCreate}
use feature_flags.Models.{
  SdkCredential, SegmentEnvironmentConfig, Segment, FlagEnvironmentConfig, Flag, Environment,
  Project,
}
use feature_flags.Store.Session.{Database, Context}
use feature_flags.Store.Engine.{Engine}
use feature_flags.Store.Relations.{NoRow}
use feature_flags.Schemas.Bodies.{IsNamed, IsSegmentRule}
use feature_flags.Schemas.FlagCreate.{FlagCreate, IsFlagCreate}
use feature_flags.Api.Flags.IndexLaws.{Exists, references}
use feature_flags.Services.Outbox.{outbox}
use feature_flags.Base.{
  Option, length, All, ◌==◌, ℕ, String, List, none, some, [], id_key, pair_key, ◌≡◌,
}

module _ ⦃E : Engine⦄ where
  -- An environment of a stored project.
  pub record EnvironmentIn (d : Database) (project : Project) (env : Environment) : Type 0 where
    pub project_stored : E.get project.id d.projects ≡ some project
    pub env_stored : E.get env.id d.environments ≡ some env
    pub in_project : env.project_id ≡ project.id

  module _ (c : Context) where
    -- A step: the tables before, the messages sent, and the tables after.
    pub data Step (d : Database) : List (String × ℕ) → Database → Type 0 where
      unchanged : Step d [] d
      project_created :
          (b : ProjectCreate)
          → IsNamed b.key b.name
          → E.get c.uuid d.projects ≡ none
          → NoRow (has_key b.key) d.projects
          → Step d [] (record d {
            projects = E.add (project_of c b) d.projects;
            audit_logs = E.add (audit_row c (project_entry (project_of c b))) d.audit_logs;
          })
      environment_created :
          (project : Project) (b : EnvironmentCreate)
          → IsNamed b.key b.name
          → E.get project.id d.projects ≡ some project
          → E.get c.uuid d.environments ≡ none
          → NoRow (is_environment project.id b.key) d.environments
          → Step d [] (record d {
            environments = E.add (environment_of c project.id b) d.environments;
            audit_logs =
                E.add
                  (audit_row c (environment_entry project (environment_of c project.id b)))
                  d.audit_logs;
          })
      flag_created :
          (project : Project) (b : FlagCreate)
          → IsFlagCreate b
          → E.get project.id d.projects ≡ some project
          → E.get c.uuid d.flags ≡ none
          → NoRow (is_flag project.id b.key) d.flags
          → Step d [] (record d {
            flags = E.add (flag_of c project.id b) d.flags;
            flag_configs =
                add_defaults c c.uuid
                  (E.scalars (λ r. r.project_id == project.id) d.environments)
                  d.flag_configs;
            audit_logs =
                E.add (audit_row c (flag_entry project (flag_of c project.id b))) d.audit_logs;
          })
      flag_config_updated :
          (project : Project) (flag : Flag) (env : Environment) (before : FlagEnvironmentConfig)
          (b : FlagConfigUpdate) (sent : List (String × ℕ))
          → EnvironmentIn d project env
          → E.get flag.id d.flags ≡ some flag
          → flag.project_id ≡ project.id
          → E.get (flag.id, env.id) d.flag_configs ≡ some before
          → IsAccepted b
          → All (Exists (length flag.variations)) (references b)
          → outbox c env.id [] ≡ some sent
          → Step d sent (record d {
            flag_configs = E.add (flushed_config before (apply_update c b before)) d.flag_configs;
            audit_logs =
                E.add
                  (audit_row c (update_entry project flag env before (apply_update c b before)))
                  d.audit_logs;
          })
      segment_created :
          (project : Project) (b : SegmentCreate)
          → IsNamed b.key b.name
          → E.get project.id d.projects ≡ some project
          → E.get c.uuid d.segments ≡ none
          → NoRow (is_segment project.id b.key) d.segments
          → Step d [] (record d {
            segments = E.add (segment_of c project.id b) d.segments;
            audit_logs =
                E.add
                  (audit_row c (segment_entry project (segment_of c project.id b)))
                  d.audit_logs;
          })
      segment_config_updated :
          (project : Project) (seg : Segment) (env : Environment)
          (found : Option SegmentEnvironmentConfig) (b : SegmentConfigUpdate)
          (sent : List (String × ℕ))
          → EnvironmentIn d project env
          → E.get seg.id d.segments ≡ some seg
          → seg.project_id ≡ project.id
          → E.get (seg.id, env.id) d.segment_configs ≡ found
          → All IsSegmentRule b.rules
          → outbox c env.id [] ≡ some sent
          → Step d sent (record d {
            segment_configs =
                E.add
                  (flushed_segment_config found
                    (apply_segment_update c b (start_config c seg.id env.id found)))
                  d.segment_configs;
            audit_logs = E.add (audit_row c (segment_update_entry project seg env b)) d.audit_logs;
          })
      credential_issued :
          (project : Project) (env : Environment) (b : CredentialCreate)
          → EnvironmentIn d project env
          → E.get c.uuid d.credentials ≡ none
          → Step d [] (record d {
            credentials = E.add (credential_of c env b.kind) d.credentials;
            audit_logs =
                E.add
                  (audit_row c (
                    credential_entry "credential.created" "issued " project env
                      (credential_of c env b.kind)))
                  d.audit_logs;
          })
      credential_revoked :
          (project : Project) (env : Environment) (cred : SdkCredential)
          → EnvironmentIn d project env
          → E.get cred.id d.credentials ≡ some cred
          → cred.environment_id ≡ env.id
          → cred.revoked_at ≡ none
          → Step d [] (record d {
            credentials = E.add (record cred { revoked_at = some c.now }) d.credentials;
            audit_logs =
                E.add
                  (audit_row c (credential_entry "credential.revoked" "revoked " project env cred))
                  d.audit_logs;
          })
