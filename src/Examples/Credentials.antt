-- ===== src/Examples/Credentials.antt =====
-- SDK credentials: a key that is issued and revoked, and the properties about it.
use feature_flags.Api.Parts.{PlaceOf}
use feature_flags.Api.Credentials.Grant.{create_credential_decided}
use feature_flags.Api.Common.{missing, is_environment}
use Prim.Native.String.{◌++◌ as ◌+++◌}
use feature_flags.App.Revocation.{serve-revoked}
use feature_flags.App.Served.{serve}
use feature_flags.Api.Credentials.Issue.{create_credential-Stored, Stored}
use feature_flags.Api.Projects.{project_of, environment_of}
use feature_flags.App.Requests.{Request}
use feature_flags.Schemas.Credential.{server}
use feature_flags.Examples.Data.{
  streaming, by_length, tables, strict, setup, production, with_revoked, with_flag, with_credential,
  context,
}
use feature_flags.Store.Session.{ok, err, Context, Server}
use feature_flags.Base.{◌⊎◌, refl, id_key, none, some, ◌≡◌, ◌∷◌, [], List}
use feature_flags.Models.{Project, environment_pk, credential_pk, SdkCredential, Environment}
use feature_flags.Api.Credentials.{
  credential_of, revoke_credential, create_credential, CredentialCreated,
}
use feature_flags.Examples.Runs.{runs}

abbrev issued_out : CredentialCreated
issued_out = record {
  id = 7;
  kind = server;
  key = "srv-production-salt";
  key_prefix = "srv-production-";
  created_at = 7;
  revoked_at = none;
}

issued :
    create_credential (context 7) "streaming" "production" (record { kind = server }) with_flag
    ≡ (ok issued_out, with_credential)
unfolding runs
issued = refl

create_credential-Stored_example :
    (project : Project) × (env : Environment) × PlaceOf "streaming" "production" project env
      with_credential.tables
    × Stored
        (context 7)
        "streaming"
        "production"
        (record { kind = server })
        with_credential
        issued_out
        env
create_credential-Stored_example =
    create_credential-Stored (context 7) "streaming" "production" (record { kind = server })
      with_flag issued

-- The row of the credential after it was revoked.
abbrev revoked_row : SdkCredential
revoked_row = record (credential_of (context 7) (environment_of (context 2) 1 production) server) {
  revoked_at = some 8;
}

revoked :
    revoke_credential (context 8) "streaming" "production" 7 with_credential
    ≡ (ok revoked_row, with_revoked)
unfolding runs
revoked = refl

abbrev at_rest : Server
at_rest = record { database = with_revoked.tables; delivered = [] }

abbrev revoke_twice : List (Context × Request)
revoke_twice = (context 12, Request.credential_revoke "streaming" "production" 7) ∷ setup

stored_revoked : tables.get {pk = credential_pk} 7 at_rest.credentials ≡ some revoked_row
unfolding runs
stored_revoked = refl

serve-revoked_example :
    tables.get {pk = credential_pk} 7 (serve by_length revoke_twice at_rest).credentials
    ≡ some revoked_row
serve-revoked_example =
    serve-revoked by_length revoke_twice at_rest 7 8 revoked_row stored_revoked refl

create_credential_decided_example :
    ((env : Environment) × (tables.scalar {pk = environment_pk}
          (is_environment 1 "production")
          with_flag.environments
        ≡ some env)
      × ((create_credential
            (context 7)
            "streaming"
            "production"
            (record { kind = server })
            with_flag).0
          ≡ ok (record {
            id = 7;
            kind = server;
            key_prefix = "srv" +++ "-" +++ env.key +++ "-";
            created_at = 7;
            revoked_at = none;
            key = ("srv" +++ "-" +++ env.key +++ "-") +++ "salt";
          })))
    ⊎ ((tables.scalar {pk = environment_pk} (is_environment 1 "production") with_flag.environments
          ≡ none)
        × (create_credential
              (context 7)
              "streaming"
              "production"
              (record { kind = server })
              with_flag
            ≡ (err (missing "environment" "production"), with_flag)))
unfolding runs
create_credential_decided_example =
    create_credential_decided (context 7) "streaming" "production" (record { kind = server })
      with_flag {project = project_of (context 1) streaming} refl refl
