-- ===== src/App/Refines.antt =====
-- Every request that is carried out is a step.
use feature_flags.Services.Outbox.{outbox}
use feature_flags.Api.Flags.IndexLaws.{validate_indices_iff}
use feature_flags.Api.Flags.Handlers.{update_flag_config, create_flag}
use feature_flags.Schemas.Accepted.{IsAccepted}
use feature_flags.Api.Projects.{create_project, create_environment}
use feature_flags.Api.Segments.{update_segment_config, create_segment, SegmentConfigOut}
use feature_flags.Api.Flags.Config.{FlagConfigOut}
use feature_flags.Api.Common.{is_segment, is_flag, is_environment, has_key}
use feature_flags.Schemas.Bodies.{IsSegmentRule, IsNamed}
use feature_flags.Schemas.Flag.{FlagConfigUpdate}
use feature_flags.Api.Credentials.{revoke_credential, create_credential, CredentialCreated}
use feature_flags.Schemas.Segment.{SegmentConfigUpdate, SegmentCreate}
use feature_flags.Schemas.Pydantic.{Pydantic}
use feature_flags.Models.{Segment, SdkCredential, Flag, Environment, Project}
use feature_flags.Schemas.FlagCreate.{IsFlagCreate, FlagCreate}
use feature_flags.Schemas.Catalog.{ProjectCreate, EnvironmentCreate}
use feature_flags.Schemas.Credential.{CredentialCreate}
use feature_flags.Store.Session.{ok, Database, Transaction, Context}
use feature_flags.Store.Engine.{Engine}
use feature_flags.App.Steps.{EnvironmentIn, Step}
use feature_flags.Store.Relations.{NoRow-of_scalar}
use feature_flags.Api.Projects.Created.{create_project-Created}
use feature_flags.Api.Flags.NewEnvironment.{create_environment-Created}
use feature_flags.Api.Flags.Create.{create_flag-Created}
use feature_flags.Api.Segments.Update.{create_segment-Created, update_segment_config-Updated}
use feature_flags.Api.Credentials.Issue.{create_credential-Issued}
use feature_flags.Api.Credentials.Revoke.{revoke_credential-Revoked}
use feature_flags.Api.Flags.Update.{update-Updated as flag_update-Updated}
use mathlib.Core.Path.{subst, subst₂}
use feature_flags.Base.{
  refl, length, text_key, ◌==◌, nat_eq_iff, All, ◌∙◌, sym, ℕ, arith, String, ◌&&◌, Bool, true, some,
  [], id_key, pair_key, ◌≡◌,
}

second_part : (a b : Bool) → a && b ≡ true → b ≡ true
second_part a b h = ground arith

first_part : (a b : Bool) → a && b ≡ true → a ≡ true
first_part a b h = ground arith

module _ ⦃E : Engine⦄ where
  -- What the lookups of a handler say of the rows by their keys.
  project_by_id :
      (key : String) (s : Transaction) (r : Project)
      → E.scalar (has_key key) s.projects ≡ some r
      → E.get r.id s.projects ≡ some r
  project_by_id key s r h = (E.scalar_some (has_key key) r s.projects h).1

  environment_in :
      (key env_key : String) (s : Transaction) (project : Project) (env : Environment)
      → E.scalar (has_key key) s.projects ≡ some project
      → E.scalar (is_environment project.id env_key) s.environments ≡ some env
      → EnvironmentIn s.tables project env
  environment_in key env_key s project env ep ee =
      let (passes, there) =
        E.scalar_some (is_environment project.id env_key) env s.environments ee in
      record {
        project_stored = project_by_id key s project ep;
        env_stored = there;
        in_project =
            (nat_eq_iff env.project_id project.id).0
              (first_part (env.project_id == project.id) (env.key == env_key) passes);
      }

  flag_in :
      (flag_key : String) (s : Transaction) (project : Project) (flag : Flag)
      → E.scalar (is_flag project.id flag_key) s.flags ≡ some flag
      → (E.get flag.id s.flags ≡ some flag) × (flag.project_id ≡ project.id)
  flag_in flag_key s project flag ef =
      let (passes, there) = E.scalar_some (is_flag project.id flag_key) flag s.flags ef in
      (
        there,
        (nat_eq_iff flag.project_id project.id).0
            (first_part (flag.project_id == project.id) (flag.key == flag_key) passes),
      )

  segment_in :
      (segment_key : String) (s : Transaction) (project : Project) (seg : Segment)
      → E.scalar (is_segment project.id segment_key) s.segments ≡ some seg
      → (E.get seg.id s.segments ≡ some seg) × (seg.project_id ≡ project.id)
  segment_in segment_key s project seg es =
      let (passes, there) = E.scalar_some (is_segment project.id segment_key) seg s.segments es in
      (
        there,
        (nat_eq_iff seg.project_id project.id).0
            (first_part (seg.project_id == project.id) (seg.key == segment_key) passes),
      )

  module _ (c : Context) (s s' : Transaction) (empty : s.notified ≡ []) where
    -- The effect of a handler on a transaction that has notified nothing yet.
    abbrev pub Effect : Type 0
    Effect = Step c s.tables s'.notified s'.tables

    -- A handler that notifies nothing.
    silent :
        (d : Database) → s'.tables ≡ d → s'.notified ≡ s.notified → Step c s.tables [] d → Effect
    silent d same quiet step = subst₂ (Step c s.tables) (sym (quiet ∙ empty)) (sym same) step

    pub project-Step :
        (b : ProjectCreate) {r : Project}
        → IsNamed b.key b.name
        → create_project c b s ≡ (ok r, s')
        → Effect
    project-Step b named h =
        let m = create_project-Created c b s h in
        silent _ m.tables m.notified (
          Step.project_created b named m.unused_id
            (NoRow-of_scalar (has_key b.key) s.projects m.unused_key))

    pub environment-Step :
        (key : String) (b : EnvironmentCreate) {r : Environment}
        → IsNamed b.key b.name
        → create_environment c key b s ≡ (ok r, s')
        → Effect
    environment-Step key b named h =
        let m = create_environment-Created c key b s h in
        silent _ m.tables m.notified (
          Step.environment_created m.project b named (project_by_id key s m.project m.project_found)
            m.unused_id
            (NoRow-of_scalar (is_environment m.project.id b.key) s.environments m.unused_key))

    pub flag-Step :
        (key : String) (b : FlagCreate) {r : Flag}
        → IsFlagCreate b
        → create_flag c key b s ≡ (ok r, s')
        → Effect
    flag-Step key b good h =
        let m = create_flag-Created c key b s h in
        silent _ m.tables m.notified (
          Step.flag_created m.project b good (project_by_id key s m.project m.project_found)
            m.unused_id (NoRow-of_scalar (is_flag m.project.id b.key) s.flags m.unused_key))

    pub segment-Step :
        (key : String) (b : SegmentCreate) {r : Segment}
        → IsNamed b.key b.name
        → create_segment c key b s ≡ (ok r, s')
        → Effect
    segment-Step key b named h =
        let m = create_segment-Created c key b s h in
        silent _ m.tables m.notified (
          Step.segment_created m.project b named (project_by_id key s m.project m.project_found)
            m.unused_id (NoRow-of_scalar (is_segment m.project.id b.key) s.segments m.unused_key))

    pub issue-Step :
        (key env_key : String) (b : CredentialCreate) {r : CredentialCreated}
        → create_credential c key env_key b s ≡ (ok r, s')
        → Effect
    issue-Step key env_key b h =
        let m = create_credential-Issued c key env_key b s h in
        silent _ m.tables m.notified (
          Step.credential_issued m.project m.env b
            (environment_in key env_key s m.project m.env m.project_found m.env_found) m.unused_id)

    pub revoke-Step :
        (key env_key : String) (cred_id : ℕ) {r : SdkCredential}
        → revoke_credential c key env_key cred_id s ≡ (ok r, s')
        → Effect
    revoke-Step key env_key cred_id h =
        let m = revoke_credential-Revoked c key env_key cred_id s h in
        silent _ m.tables m.notified (
          Step.credential_revoked m.project m.env m.cred
            (environment_in key env_key s m.project m.env m.project_found m.env_found)
            (subst (λ k. E.get k s.credentials ≡ some m.cred)
              (sym (E.get_pk cred_id m.cred s.credentials m.cred_found)) m.cred_found)
            m.in_env m.active)

    module _ ⦃p : Pydantic⦄ where
      pub flag_config-Step :
          (key flag_key env_key : String) (b : FlagConfigUpdate) {out : FlagConfigOut}
          → IsAccepted b
          → update_flag_config c key flag_key env_key b s ≡ (ok out, s')
          → Effect
      flag_config-Step key flag_key env_key b good h =
          let u = flag_update-Updated c key flag_key env_key b s h in
          let (there, in_project) = flag_in flag_key s u.at.project u.at.flag u.at.flag_found in
          subst (Step c s.tables s'.notified) (sym u.tables) (
            Step.flag_config_updated u.at.project u.at.flag u.at.env u.before b s'.notified
              (environment_in key env_key s u.at.project u.at.env u.at.project_found u.at.env_found)
              there in_project u.stored good
              ((validate_indices_iff b (length u.at.flag.variations)).0 u.valid)
              (subst (λ sent. outbox c u.at.env.id sent ≡ some s'.notified) empty u.notified))

      pub segment_config-Step :
          (key segment_key env_key : String) (b : SegmentConfigUpdate) {out : SegmentConfigOut}
          → All IsSegmentRule b.rules
          → update_segment_config c key segment_key env_key b s ≡ (ok out, s')
          → Effect
      segment_config-Step key segment_key env_key b good h =
          let u = update_segment_config-Updated c key segment_key env_key b s h in
          let (there, in_project) = segment_in segment_key s u.at.project u.at.seg u.at.seg_found in
          subst (Step c s.tables s'.notified) (sym u.tables) (
            Step.segment_config_updated u.at.project u.at.seg u.at.env
              (E.get (u.at.seg.id, u.at.env.id) s.segment_configs) b s'.notified
              (environment_in key env_key s u.at.project u.at.env u.at.project_found u.at.env_found)
              there in_project refl good
              (subst (λ sent. outbox c u.at.env.id sent ≡ some s'.notified) empty u.notified))
