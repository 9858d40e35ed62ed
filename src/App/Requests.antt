-- ===== src/App/Requests.antt =====
-- The requests under /api/v1 that control-plane/app/main.py routes to control-plane/app/api: a
-- constructor for each decorated handler, with the path parameters, the query and the JSON body
-- that FastAPI hands it. A `cred_id` is a UUID that was parsed already.
use feature_flags.Base.{ℕ, ℤ, pos, String, Bool, true, false, Option, none, some, List, map}
use feature_flags.Base.Maybe.{traverse}
use feature_flags.Json.{Json}
use feature_flags.Schemas.Pydantic.{Pydantic}
use feature_flags.Schemas.Load.{load_flag_config_update}
use feature_flags.Schemas.Catalog.{load_project_create, load_environment_create}
use feature_flags.Schemas.FlagCreate.{load_flag_create}
use feature_flags.Schemas.Segment.{load_segment_create, load_segment_config_update}
use feature_flags.Schemas.Credential.{load_credential_create}
use feature_flags.Store.Engine.{Engine}
use feature_flags.Store.Session.{
  Context, Action, Result, Server, request_validation_error, response_validation_error, pure,
  or_raise, get_session, ◌>>=◌,
}
use feature_flags.Api.Projects.{
  create_project, list_projects, get_one_project, create_environment, list_environments,
}
use feature_flags.Api.Flags.Config.{FlagConfigOut}
use feature_flags.Api.Flags.Handlers.{
  create_flag, list_flags, get_one_flag, get_flag_config, update_flag_config,
}
use feature_flags.Api.Segments.{
  SegmentConfigOut, create_segment, list_segments, get_segment_config, update_segment_config,
}
use feature_flags.Api.Credentials.{
  CredentialCreated, create_credential, list_credentials, revoke_credential,
}
use feature_flags.Api.Audit.{list_audit}
use feature_flags.App.Responses.{
  ProjectOut, EnvironmentOut, environment_out, CredentialOut, credential_out, SegmentOut,
  segment_out, FlagOut, flag_out, AuditEntry, audit_entry,
}

pub data Request : Type 0 where
  project_post : Json → Request
  projects_get : Request
  project_get : String → Request
  environment_post : String → Json → Request
  environments_get : String → Request
  flag_post : String → Json → Request
  flags_get : String → Request
  flag_get : String → String → Request
  flag_config_get : String → String → String → Request
  flag_config_put : String → String → String → Json → Request
  segment_post : String → Json → Request
  segments_get : String → Request
  segment_config_get : String → String → String → Request
  segment_config_put : String → String → String → Json → Request
  credential_post : String → String → Json → Request
  credentials_get : String → String → Request
  credential_revoke : String → String → ℕ → Request
  audit_get : String → Option ℤ → Request

-- `GET` against `POST` and `PUT`.
abbrev pub is_get : Request → Bool
is_get projects_get = true
is_get (project_get _) = true
is_get (environments_get _) = true
is_get (flags_get _) = true
is_get (flag_get _ _) = true
is_get (flag_config_get _ _ _) = true
is_get (segments_get _) = true
is_get (segment_config_get _ _ _) = true
is_get (credentials_get _ _) = true
is_get (audit_get _ _) = true
is_get _ = false

pub data Reply : Type 0 where
  project_reply : ProjectOut → Reply
  projects_reply : List ProjectOut → Reply
  environment_reply : EnvironmentOut → Reply
  environments_reply : List EnvironmentOut → Reply
  flag_reply : FlagOut → Reply
  flags_reply : List FlagOut → Reply
  flag_config_reply : FlagConfigOut → Reply
  segment_reply : SegmentOut → Reply
  segments_reply : List SegmentOut → Reply
  segment_config_reply : SegmentConfigOut → Reply
  issued_reply : CredentialCreated → Reply
  credential_reply : CredentialOut → Reply
  credentials_reply : List CredentialOut → Reply
  audit_reply : List AuditEntry → Reply

-- `limit: int = Query(50, ...)`
abbrev pub limit_or_default : Option ℤ → ℤ
limit_or_default none = pos 50
limit_or_default (some n) = n

module _ ⦃E : Engine⦄ ⦃p : Pydantic⦄ where
  -- A body is read by its model before the handler runs.
  abbrev pub parsed : {A : Type 0} → (Json → Option A) → Json → Action A
  parsed load j = or_raise (load j) request_validation_error

  -- `response_model=FlagOut`
  abbrev pub shown : Option FlagOut → Action FlagOut
  shown out = or_raise out response_validation_error

  -- The handler of a request, for the collation of the database.
  unfoldable pub route : (String → String → Bool) → Context → Request → Action Reply
  route collates c (project_post j) = do
    body ← parsed load_project_create j
    r ← create_project c body
    pure (project_reply r)
  route collates c projects_get = do rs ← list_projects collates; pure (projects_reply rs)
  route collates c (project_get project_key) = do
    r ← get_one_project project_key
    pure (project_reply r)
  route collates c (environment_post project_key j) = do
    body ← parsed load_environment_create j
    r ← create_environment c project_key body
    pure (environment_reply (environment_out r))
  route collates c (environments_get project_key) = do
    rs ← list_environments collates project_key
    pure (environments_reply (map environment_out rs))
  route collates c (flag_post project_key j) = do
    body ← parsed load_flag_create j
    r ← create_flag c project_key body
    out ← shown (flag_out r)
    pure (flag_reply out)
  route collates c (flags_get project_key) = do
    rs ← list_flags collates project_key
    outs ← or_raise (traverse flag_out rs) response_validation_error
    pure (flags_reply outs)
  route collates c (flag_get project_key flag_key) = do
    r ← get_one_flag project_key flag_key
    out ← shown (flag_out r)
    pure (flag_reply out)
  route collates c (flag_config_get project_key flag_key env_key) = do
    out ← get_flag_config project_key flag_key env_key
    pure (flag_config_reply out)
  route collates c (flag_config_put project_key flag_key env_key j) = do
    body ← parsed load_flag_config_update j
    out ← update_flag_config c project_key flag_key env_key body
    pure (flag_config_reply out)
  route collates c (segment_post project_key j) = do
    body ← parsed load_segment_create j
    r ← create_segment c project_key body
    pure (segment_reply (segment_out r))
  route collates c (segments_get project_key) = do
    rs ← list_segments collates project_key
    pure (segments_reply (map segment_out rs))
  route collates c (segment_config_get project_key segment_key env_key) = do
    out ← get_segment_config project_key segment_key env_key
    pure (segment_config_reply out)
  route collates c (segment_config_put project_key segment_key env_key j) = do
    body ← parsed load_segment_config_update j
    out ← update_segment_config c project_key segment_key env_key body
    pure (segment_config_reply out)
  route collates c (credential_post project_key env_key j) = do
    body ← parsed load_credential_create j
    out ← create_credential c project_key env_key body
    pure (issued_reply out)
  route collates c (credentials_get project_key env_key) = do
    rs ← list_credentials project_key env_key
    pure (credentials_reply (map credential_out rs))
  route collates c (credential_revoke project_key env_key cred_id) = do
    r ← revoke_credential c project_key env_key cred_id
    pure (credential_reply (credential_out r))
  route collates c (audit_get project_key limit) = do
    rs ← list_audit project_key (limit_or_default limit)
    pure (audit_reply (map audit_entry rs))

  -- One request, in the transaction of its session.
  unfoldable pub handle :
      (String → String → Bool) → Context → Request → Server → Result Reply × Server
  handle collates c r v = get_session (route collates c r) v
