-- ===== src/App/Reads.antt =====
-- The GET handlers of control-plane/app/api only read.
use feature_flags.Api.Flags.Config.{config_out}
use feature_flags.Store.Session.{
  response_validation_error, raise_if, request_validation_error, pure, Context, ◌>>=◌, Action,
}
use feature_flags.Api.Segments.{
  segment_config_out, no_segment_config, get_segment_row, get_segment_config, list_segments,
}
use feature_flags.Api.Projects.{get_one_project, list_projects, list_environments}
use feature_flags.Api.Credentials.{list_credentials}
use feature_flags.Api.Audit.{is_limit, list_audit}
use feature_flags.Api.Common.{missing, get_segment, get_project, get_flag, get_environment}
use feature_flags.Api.Flags.Handlers.{
  no_config, get_flag_config, list_flags, get_one_flag, get_config,
}
use feature_flags.Schemas.Pydantic.{Pydantic}
use feature_flags.Store.Engine.{Engine}
use feature_flags.Store.Actions.{
  Keeps, Keeps-bind, Keeps-lookup, Keeps-or_raise, Keeps-raise_if, Keeps-pure,
}
use feature_flags.Base.{refl, ◌≡◌, not, ℤ, Bool, ℕ, String, true}
use feature_flags.App.Requests.{
  limit_or_default, segment_config_reply, flag_config_reply, flag_reply, flags_reply, project_reply,
  projects_reply, is_get, Reply, route, Request,
}

module _ ⦃E : Engine⦄ where
  get_project-Keeps : (key : String) → Keeps (get_project key)
  unfolding get_project
  get_project-Keeps key = Keeps-lookup _ (missing "project" key)

  get_environment-Keeps : (project_id : ℕ) (key : String) → Keeps (get_environment project_id key)
  unfolding get_environment
  get_environment-Keeps project_id key = Keeps-lookup _ (missing "environment" key)

  get_flag-Keeps : (project_id : ℕ) (key : String) → Keeps (get_flag project_id key)
  unfolding get_flag
  get_flag-Keeps project_id key = Keeps-lookup _ (missing "flag" key)

  get_segment-Keeps : (project_id : ℕ) (key : String) → Keeps (get_segment project_id key)
  unfolding get_segment
  get_segment-Keeps project_id key = Keeps-lookup _ (missing "segment" key)

  get_config-Keeps : (flag_id env_id : ℕ) → Keeps (get_config flag_id env_id)
  unfolding get_config
  get_config-Keeps flag_id env_id = Keeps-lookup _ no_config

  get_segment_row-Keeps : (segment_id env_id : ℕ) → Keeps (get_segment_row segment_id env_id)
  unfolding get_segment_row
  get_segment_row-Keeps segment_id env_id = Keeps-lookup _ no_segment_config

  list_projects-Keeps : (collates : String → String → Bool) → Keeps (list_projects collates)
  unfolding list_projects
  list_projects-Keeps collates = record { at = λ s. refl }

  list_flags-Keeps :
      (collates : String → String → Bool) (project_key : String)
      → Keeps (list_flags collates project_key)
  unfolding list_flags
  list_flags-Keeps collates project_key =
      Keeps-bind (get_project project_key) _ (get_project-Keeps project_key)
        λ project. record { at = λ s. refl }

  list_environments-Keeps :
      (collates : String → String → Bool) (project_key : String)
      → Keeps (list_environments collates project_key)
  unfolding list_environments
  list_environments-Keeps collates project_key =
      Keeps-bind (get_project project_key) _ (get_project-Keeps project_key)
        λ project. record { at = λ s. refl }

  list_segments-Keeps :
      (collates : String → String → Bool) (project_key : String)
      → Keeps (list_segments collates project_key)
  unfolding list_segments
  list_segments-Keeps collates project_key =
      Keeps-bind (get_project project_key) _ (get_project-Keeps project_key)
        λ project. record { at = λ s. refl }

  get_one_flag-Keeps : (project_key flag_key : String) → Keeps (get_one_flag project_key flag_key)
  unfolding get_one_flag
  get_one_flag-Keeps project_key flag_key =
      Keeps-bind (get_project project_key) _ (get_project-Keeps project_key)
        λ project. get_flag-Keeps project.id flag_key

  list_credentials-Keeps :
      (project_key env_key : String) → Keeps (list_credentials project_key env_key)
  unfolding list_credentials
  list_credentials-Keeps project_key env_key =
      Keeps-bind (get_project project_key) _ (get_project-Keeps project_key) λ project.
        Keeps-bind (get_environment project.id env_key) _ (get_environment-Keeps project.id env_key)
          λ env. record { at = λ s. refl }

  list_audit-Keeps : (project_key : String) (limit : ℤ) → Keeps (list_audit project_key limit)
  unfolding list_audit
  list_audit-Keeps project_key limit =
      Keeps-bind (raise_if (not (is_limit limit)) request_validation_error) _
        (Keeps-raise_if (not (is_limit limit)) request_validation_error)
        λ _.
          Keeps-bind (get_project project_key) _ (get_project-Keeps project_key)
            λ project. record { at = λ s. refl }

  module _ ⦃p : Pydantic⦄ where
    get_flag_config-Keeps :
        (project_key flag_key env_key : String)
        → Keeps (get_flag_config project_key flag_key env_key)
    unfolding get_flag_config
    get_flag_config-Keeps project_key flag_key env_key =
        Keeps-bind (get_project project_key) _ (get_project-Keeps project_key) λ project.
          Keeps-bind (get_flag project.id flag_key) _ (get_flag-Keeps project.id flag_key) λ flag.
            Keeps-bind (get_environment project.id env_key) _
              (get_environment-Keeps project.id env_key)
              λ env.
                Keeps-bind (get_config flag.id env.id) _ (get_config-Keeps flag.id env.id)
                  λ cfg. Keeps-or_raise (config_out env.key cfg) response_validation_error

    get_segment_config-Keeps :
        (project_key segment_key env_key : String)
        → Keeps (get_segment_config project_key segment_key env_key)
    unfolding get_segment_config
    get_segment_config-Keeps project_key segment_key env_key =
        Keeps-bind (get_project project_key) _ (get_project-Keeps project_key) λ project.
          Keeps-bind (get_segment project.id segment_key) _
            (get_segment-Keeps project.id segment_key)
            λ seg.
              Keeps-bind (get_environment project.id env_key) _
                (get_environment-Keeps project.id env_key)
                λ env.
                  Keeps-bind (get_segment_row seg.id env.id) _ (get_segment_row-Keeps seg.id env.id)
                    λ cfg. Keeps-or_raise (segment_config_out env.key cfg) response_validation_error

    -- A handler whose result is only shown afterwards.
    then_pure :
        {A : Type 0} (m : Action A) (f : A → Reply) → Keeps m → Keeps (m >>= λ a. pure (f a))
    then_pure m f h = Keeps-bind m _ h λ a. Keeps-pure (f a)

    pub route-Keeps :
        (collates : String → String → Bool) (c : Context) (r : Request)
        → is_get r ≡ true
        → Keeps (route collates c r)
    unfolding route get_one_project
    route-Keeps collates c Request.projects_get g =
        then_pure (list_projects collates) projects_reply (list_projects-Keeps collates)
    route-Keeps collates c (Request.project_get k) g =
        then_pure (get_project k) project_reply (get_project-Keeps k)
    route-Keeps collates c (Request.environments_get k) g =
        then_pure (list_environments collates k) _ (list_environments-Keeps collates k)
    route-Keeps collates c (Request.flags_get k) g =
        Keeps-bind (list_flags collates k) _ (list_flags-Keeps collates k)
          λ rs. then_pure _ flags_reply (Keeps-or_raise _ _)
    route-Keeps collates c (Request.flag_get k f) g =
        Keeps-bind (get_one_flag k f) _ (get_one_flag-Keeps k f)
          λ r. then_pure _ flag_reply (Keeps-or_raise _ _)
    route-Keeps collates c (Request.flag_config_get k f e) g =
        then_pure (get_flag_config k f e) flag_config_reply (get_flag_config-Keeps k f e)
    route-Keeps collates c (Request.segments_get k) g =
        then_pure (list_segments collates k) _ (list_segments-Keeps collates k)
    route-Keeps collates c (Request.segment_config_get k f e) g =
        then_pure (get_segment_config k f e) segment_config_reply (get_segment_config-Keeps k f e)
    route-Keeps collates c (Request.credentials_get k e) g =
        then_pure (list_credentials k e) _ (list_credentials-Keeps k e)
    route-Keeps collates c (Request.audit_get k n) g =
        then_pure (list_audit k (limit_or_default n)) _ (list_audit-Keeps k (limit_or_default n))
    route-Keeps collates c _ g = cc
