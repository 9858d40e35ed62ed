-- ===== src/Api/Credentials.antt =====
-- control-plane/app/api/credentials.py: SDK credentials of an environment.
pub mod Issue
pub mod Revoke
pub mod Grant
use Prim.Native.String.{◌++◌}
use feature_flags.Base.{ℕ, String, not, Option, none, some, List, leb, ◌==◌, id_key, text_key}
use feature_flags.Base.Maybe.{is_none}
use feature_flags.Models.{Project, SdkCredential, Environment}
use feature_flags.Schemas.Credential.{CredentialKind, server, client, mobile, CredentialCreate}
use feature_flags.Services.Audit.{Entry, record_audit}
use feature_flags.Services.Credentials.{generate}
use feature_flags.Store.Engine.{Engine}
use feature_flags.Store.Session.{
  Context, Action, Error, http_exception, integrity_error, message, pure, raise, reads, raise_if,
  writes, ◌>>=◌, ◌>>◌,
}
use feature_flags.Api.Common.{get_project, get_environment}

abbrev pub kind_text : CredentialKind → String
kind_text server = "server"
kind_text client = "client"
kind_text mobile = "mobile"

-- `CredentialCreated`: the row without its hash, and the plaintext key.
pub record CredentialCreated : Type 0 where
  pub id : ℕ
  pub kind : CredentialKind
  pub key_prefix : String
  pub created_at : ℕ
  pub revoked_at : Option ℕ
  pub key : String

-- `CredentialOut.model_validate(cred)` with the key beside it.
abbrev pub created_out : SdkCredential → String → CredentialCreated
created_out cred plaintext = record {
  id = cred.id;
  kind = cred.kind;
  key_prefix = cred.key_prefix;
  created_at = cred.created_at;
  revoked_at = cred.revoked_at;
  key = plaintext;
}

abbrev pub credential_of : Context → Environment → CredentialKind → SdkCredential
credential_of c env kind =
    let (plaintext, prefix, key_hash) = generate c kind env.key in
    record {
      id = c.uuid;
      environment_id = env.id;
      kind = kind;
      key_hash = key_hash;
      key_prefix = prefix;
      created_at = c.now;
      revoked_at = none;
    }

-- The audit entries of the two handlers that write, by the action and the verb of the summary.
abbrev pub credential_entry : String → String → Project → Environment → SdkCredential → Entry
credential_entry action verb project env cred = record {
  action = action;
  resource_type = "credential";
  resource_key = cred.key_prefix;
  summary = verb ++ kind_text cred.kind ++ " SDK key for " ++ env.key;
  project_id = project.id;
  environment_id = some env.id;
  diff = none;
}

abbrev pub no_credential : Error
no_credential = http_exception 404 (message "credential not found")

abbrev pub already_revoked : Error
already_revoked = http_exception 409 (message "credential already revoked")

module _ ⦃E : Engine⦄ where
  unfoldable pub create_credential :
      Context → String → String → CredentialCreate → Action CredentialCreated
  create_credential c project_key env_key body = do
    project ← get_project project_key
    env ← get_environment project.id env_key
    let cred = credential_of c env body.kind
    raise_if (not (is_none (← reads (λ s. E.get cred.id s.credentials)))) integrity_error
    writes (λ d. record d { credentials = E.add cred d.credentials })
    record_audit c (credential_entry "credential.created" "issued " project env cred)
    pure (created_out cred (generate c body.kind env.key).0)

  unfoldable pub list_credentials : String → String → Action (List SdkCredential)
  list_credentials project_key env_key = do
    project ← get_project project_key
    env ← get_environment project.id env_key
    reads (λ s.
        E.order_by (λ a b. leb b.created_at a.created_at)
          (E.scalars (λ r. r.environment_id == env.id) s.credentials))

  -- `cred is None or cred.environment_id != env.id`
  abbrev pub in_environment : ℕ → Option SdkCredential → Action SdkCredential
  in_environment env_id none = raise no_credential
  in_environment env_id (some cred) = do
    raise_if (not (cred.environment_id == env_id)) no_credential
    pure cred

  unfoldable pub revoke_credential : Context → String → String → ℕ → Action SdkCredential
  revoke_credential c project_key env_key cred_id = do
    project ← get_project project_key
    env ← get_environment project.id env_key
    found ← reads (λ s. E.get cred_id s.credentials)
    cred ← in_environment env.id found
    raise_if (not (is_none cred.revoked_at)) already_revoked
    let revoked = record cred { revoked_at = some c.now }
    writes (λ d. record d { credentials = E.add revoked d.credentials })
    record_audit c (credential_entry "credential.revoked" "revoked " project env cred)
    pure revoked
