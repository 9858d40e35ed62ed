-- ===== src/App/Updates.antt =====
-- The handlers of control-plane/app/api that change a configuration or a credential keep the
-- tables consistent.
use feature_flags.Schemas.Bodies.{IsSegmentRule}
use feature_flags.Api.Flags.IndexLaws.{references, Exists}
use feature_flags.Schemas.Accepted.{IsAccepted}
use feature_flags.Schemas.Segment.{SegmentConfigUpdate}
use feature_flags.Schemas.Flag.{FlagConfigUpdate}
use feature_flags.Api.Flags.Config.{apply_update, flushed_config}
use feature_flags.Api.Segments.{start_config, flushed_segment_config, apply_segment_update}
use feature_flags.Models.{
  segment_config_pk, SegmentEnvironmentConfig, FlagEnvironmentConfig, audit_pk, Flag, Segment,
  SdkCredential, Environment, Project,
}
use feature_flags.Store.Session.{Database, Context}
use feature_flags.Store.Engine.{Engine}
use feature_flags.App.Consistent.{
  IsConsistent, IsTargeting, IsMembership, ConfigIn, SegmentConfigIn,
}
use feature_flags.App.Flushed.{
  flushed_config-IsTargeting, inserted-IsMembership, flushed_segment_config-IsMembership,
}
use mathlib.Core.Option.{some-injective}
use mathlib.Core.Path.{subst}
use feature_flags.App.Steps.{EnvironmentIn}
use feature_flags.Store.Relations.{Refers-add, AllRows-add}
use feature_flags.Base.{
  refl, ◌∙◌, length, ap, All, Option, ℕ, some, none, ◌≡◌, id_key, pair_key, text_key, sym,
}

module _ ⦃E : Engine⦄ (c : Context) (d : Database) (h : IsConsistent d) (project : Project)
    (env : Environment) (here : EnvironmentIn d project env) where
  stored-IsTargeting :
      (flag : Flag) (before : FlagEnvironmentConfig)
      → E.get flag.id d.flags ≡ some flag
      → E.get (flag.id, env.id) d.flag_configs ≡ some before
      → IsTargeting (length flag.variations) before
  stored-IsTargeting flag before there stored =
      let w = h.flag_configs (flag.id, env.id) before stored in
      let at = E.get_pk (flag.id, env.id) before d.flag_configs stored in
      let is : w.flag ≡ flag =
        some-injective w.flag flag
          (sym w.flag_stored ∙ ap (λ (k : ℕ × ℕ). E.get k.0 d.flags) at ∙ there) in
      subst (λ (f : Flag). IsTargeting (length f.variations) before) is w.targeting

  pub flag_config_kept :
      (flag : Flag) (before : FlagEnvironmentConfig) (b : FlagConfigUpdate)
      (audit_logs : E.Table audit_pk)
      → E.get flag.id d.flags ≡ some flag
      → flag.project_id ≡ project.id
      → E.get (flag.id, env.id) d.flag_configs ≡ some before
      → IsAccepted b
      → All (Exists (length flag.variations)) (references b)
      → IsConsistent (record d {
        flag_configs = E.add (flushed_config before (apply_update c b before)) d.flag_configs;
        audit_logs = audit_logs;
      })
  unfolding apply_update flushed_config
  flag_config_kept flag before b audit_logs there in_project stored accepted indices =
      let at = E.get_pk (flag.id, env.id) before d.flag_configs stored in
      record {
        project_keys = h.project_keys;
        environment_keys = h.environment_keys;
        flag_keys = h.flag_keys;
        segment_keys = h.segment_keys;
        environment_project = h.environment_project;
        flag_project = h.flag_project;
        segment_project = h.segment_project;
        credential_environment = h.credential_environment;
        flags = h.flags;
        flag_configs =
            AllRows-add (ConfigIn d.flags d.environments)
              (flushed_config before (apply_update c b before)) d.flag_configs
              (record {
                flag = flag;
                env = env;
                flag_stored = rw (ap (λ (k : ℕ × ℕ). k.0) at) there;
                env_stored = rw (ap (λ (k : ℕ × ℕ). k.1) at) here.env_stored;
                one_project = in_project ∙ sym here.in_project;
                targeting =
                    flushed_config-IsTargeting c (length flag.variations) b before
                      (stored-IsTargeting flag before there stored) accepted indices;
              })
              h.flag_configs;
        segment_configs = h.segment_configs;
      }

  -- The key of the row that an update of a segment starts from.
  start_config_key :
      (seg : Segment) (found : Option SegmentEnvironmentConfig)
      → E.get (seg.id, env.id) d.segment_configs ≡ found
      → segment_config_pk (start_config c seg.id env.id found) ≡ (seg.id, env.id)
  start_config_key seg none at = refl
  start_config_key seg (some cfg) at = E.get_pk (seg.id, env.id) cfg d.segment_configs at

  flushed_segment_key :
      (b : SegmentConfigUpdate) (seg : Segment) (found : Option SegmentEnvironmentConfig)
      → E.get (seg.id, env.id) d.segment_configs ≡ found
      → segment_config_pk (
          flushed_segment_config found
            (apply_segment_update c b (start_config c seg.id env.id found)))
        ≡ (seg.id, env.id)
  unfolding apply_segment_update flushed_segment_config
  flushed_segment_key b seg none at = start_config_key seg none at
  flushed_segment_key b seg (some cfg) at = start_config_key seg (some cfg) at

  flushed-IsMembership :
      (seg : Segment) (found : Option SegmentEnvironmentConfig) (b : SegmentConfigUpdate)
      → E.get (seg.id, env.id) d.segment_configs ≡ found
      → All IsSegmentRule b.rules
      → IsMembership (
          flushed_segment_config found
            (apply_segment_update c b (start_config c seg.id env.id found)))
  flushed-IsMembership seg none b at accepted =
      inserted-IsMembership c b accepted (start_config c seg.id env.id none)
  flushed-IsMembership seg (some cfg) b at accepted =
      flushed_segment_config-IsMembership c b accepted cfg
        (h.segment_configs (seg.id, env.id) cfg at).membership

  pub segment_config_kept :
      (seg : Segment) (found : Option SegmentEnvironmentConfig) (b : SegmentConfigUpdate)
      (audit_logs : E.Table audit_pk)
      → E.get seg.id d.segments ≡ some seg
      → seg.project_id ≡ project.id
      → E.get (seg.id, env.id) d.segment_configs ≡ found
      → All IsSegmentRule b.rules
      → IsConsistent (record d {
        segment_configs =
            E.add
              (flushed_segment_config found
                (apply_segment_update c b (start_config c seg.id env.id found)))
              d.segment_configs;
        audit_logs = audit_logs;
      })
  segment_config_kept seg found b audit_logs there in_project stored accepted =
      let at = flushed_segment_key b seg found stored in
      let before = start_config c seg.id env.id found in
      record {
        project_keys = h.project_keys;
        environment_keys = h.environment_keys;
        flag_keys = h.flag_keys;
        segment_keys = h.segment_keys;
        environment_project = h.environment_project;
        flag_project = h.flag_project;
        segment_project = h.segment_project;
        credential_environment = h.credential_environment;
        flags = h.flags;
        flag_configs = h.flag_configs;
        segment_configs =
            AllRows-add (SegmentConfigIn d.segments d.environments)
              (flushed_segment_config found (apply_segment_update c b before)) d.segment_configs
              (record {
                seg = seg;
                env = env;
                seg_stored = rw (ap (λ (k : ℕ × ℕ). k.0) at) there;
                env_stored = rw (ap (λ (k : ℕ × ℕ). k.1) at) here.env_stored;
                one_project = in_project ∙ sym here.in_project;
                membership = flushed-IsMembership seg found b stored accepted;
              })
              h.segment_configs;
      }

  -- A credential of the environment, new or changed.
  pub credential_kept :
      (cred : SdkCredential) (audit_logs : E.Table audit_pk)
      → cred.environment_id ≡ env.id
      → IsConsistent (record d { credentials = E.add cred d.credentials; audit_logs = audit_logs })
  credential_kept cred audit_logs at = record {
    project_keys = h.project_keys;
    environment_keys = h.environment_keys;
    flag_keys = h.flag_keys;
    segment_keys = h.segment_keys;
    environment_project = h.environment_project;
    flag_project = h.flag_project;
    segment_project = h.segment_project;
    credential_environment =
        Refers-add (λ r. r.environment_id) cred env d.credentials d.environments
          (rw at here.env_stored) h.credential_environment;
    flags = h.flags;
    flag_configs = h.flag_configs;
    segment_configs = h.segment_configs;
  }
