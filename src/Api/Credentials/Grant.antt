-- ===== src/Api/Credentials/Grant.antt =====
-- When `create_credential` of control-plane/app/api/credentials.py issues a key.
use feature_flags.Api.Common.{missing, is_environment, has_key, get_environment, get_project}
use feature_flags.Services.Credentials.{kind_code, generate}
use feature_flags.Services.Audit.{record_audit}
use feature_flags.Api.Credentials.{create_credential}
use feature_flags.Models.{Environment, Project}
use feature_flags.Schemas.Credential.{CredentialCreate}
use feature_flags.Store.Session.{err, ok, Transaction, Context}
use feature_flags.Store.Engine.{Engine}
use Prim.Native.String.{◌++◌ as ◌+++◌}
use feature_flags.Base.{id_key, inr, inl, Option-cases, ◌⊎◌, none, some, ◌≡◌, String, refl}

module _ ⦃E : Engine⦄ (c : Context) (project_key env_key : String) (body : CredentialCreate)
    (s : Transaction) {project : Project} where
  -- In a project that exists, under a new id, a key is issued exactly where the environment exists:
  -- the response holds the prefix of its kind and environment followed by the token; where it does
  -- not, the request is answered with 404 and writes nothing.
  pub create_credential_decided :
      E.scalar (has_key project_key) s.projects ≡ some project
      → E.get c.uuid s.credentials ≡ none
      → ((env : Environment) × (E.scalar (is_environment project.id env_key) s.environments
            ≡ some env)
          × ((create_credential c project_key env_key body s).0
              ≡ ok (record {
                id = c.uuid;
                kind = body.kind;
                key_prefix = kind_code body.kind +++ "-" +++ env.key +++ "-";
                created_at = c.now;
                revoked_at = none;
                key = (kind_code body.kind +++ "-" +++ env.key +++ "-") +++ c.token;
              })))
        ⊎ ((E.scalar (is_environment project.id env_key) s.environments ≡ none)
            × (create_credential c project_key env_key body s
                ≡ (err (missing "environment" env_key), s)))
  unfolding create_credential record_audit generate get_project get_environment
  create_credential_decided found fresh =
      elim (Option-cases (E.scalar (is_environment project.id env_key) s.environments)) [
        | inl gone ↦ inr (gone, rw (found, gone) refl)
        | inr (env, there) ↦ inl (env, there, rw (found, there, fresh) refl)
      ]
