-- ===== src/Examples/Keys.antt =====
-- The keys of control-plane/app/api/credentials.py at the data plane.
use feature_flags.Api.Parts.{PlaceOf}
use feature_flags.DataPlane.Auth.Keys.{issued_key_authorized, revoked_key_refused}
use feature_flags.Api.Projects.{environment_of}
use feature_flags.App.Requests.{Request}
use feature_flags.Schemas.Credential.{server}
use feature_flags.App.Served.{serve}
use feature_flags.Store.Relations.{AllRows, get-add-cases}
use feature_flags.Examples.Runs.{runs}
use feature_flags.DataPlane.Auth.{authenticate, authorize, bearer}
use feature_flags.Base.{
  inl, inr, ◌∙◌, ap, sym, ℕ, refl, id_key, text_key, ◌∷◌, some, ◌==◌, ◌≡◌, none, if◌then◌else◌, [],
  Option, String, List,
}
use feature_flags.Models.{Project, credential_pk, SdkCredential, Environment}
use feature_flags.Api.Credentials.{credential_of, create_credential, CredentialCreated}
use feature_flags.Examples.Data.{
  tables, strict, production, with_credential, context, by_length, with_revoked, with_flag,
}
use feature_flags.Store.Session.{ok, Context, Server}

-- `strings.CutPrefix` on the one header that the examples send.
abbrev cut : String → String → Option String
cut header prefix =
    if header == "Bearer srv-production-salt" then some "srv-production-salt" else none

abbrev issued_out : CredentialCreated
issued_out = record {
  id = 7;
  kind = server;
  key = "srv-production-salt";
  key_prefix = "srv-production-";
  created_at = 7;
  revoked_at = none;
}

issued :
    create_credential (context 7) "streaming" "production" (record { kind = server }) with_flag
    ≡ (ok issued_out, with_credential)
unfolding runs
issued = refl

opens_nothing : authenticate (λ s. s) "srv-production-salt" with_flag.tables ≡ none
unfolding runs authenticate
opens_nothing = refl

issued_key_authorized_example :
    (project : Project) × (env : Environment) × PlaceOf "streaming" "production" project env
      with_credential.tables
    × (authorize (λ s. s) cut "server" "Bearer srv-production-salt" with_credential.tables
        ≡ some (record { env_id = env.id; kind = "server" }))
    × (authorize (λ s. s) cut "client" "Bearer srv-production-salt" with_credential.tables ≡ none)
    × (authorize (λ s. s) cut "any" "Bearer srv-production-salt" with_credential.tables
        ≡ some (record { env_id = env.id; kind = "server" }))
issued_key_authorized_example =
    issued_key_authorized cut (context 7) "streaming" "production" (record { kind = server })
      "Bearer srv-production-salt" with_flag issued opens_nothing refl

abbrev issued_row : SdkCredential
issued_row = credential_of (context 7) (environment_of (context 2) 1 production) server

abbrev revoked_row : SdkCredential
revoked_row = record (credential_of (context 7) (environment_of (context 2) 1 production) server) {
  revoked_at = some 8;
}

abbrev at_rest : Server
at_rest = record { database = with_revoked.tables; delivered = [] }

stored_revoked : tables.get {pk = credential_pk} 7 at_rest.credentials ≡ some revoked_row
unfolding runs
stored_revoked = refl

-- The credential is revoked once more, which is refused.
abbrev again : List (Context × Request)
again = (context 12, Request.credential_revoke "streaming" "production" 7) ∷ []

-- A table in which one row was written twice.
only_one :
    (a b : SdkCredential) (k : ℕ) (x : SdkCredential)
    → tables.get {pk = credential_pk} k (
        tables.add {pk = credential_pk} a
          (tables.add {pk = credential_pk} b (tables.empty {pk = credential_pk})))
      ≡ some x
    → b.id ≡ a.id
    → x.id ≡ a.id
only_one a b k x at same =
    elim (get-add-cases {pk = credential_pk} k a x
      (tables.add {pk = credential_pk} b (tables.empty {pk = credential_pk})) at) [
        | inl (here, _) ↦ ap (λ (r : SdkCredential). r.id) here
        | inr before ↦
            elim (get-add-cases {pk = credential_pk} k b x (tables.empty {pk = credential_pk})
              before) [
                | inl (here, _) ↦ ap (λ (r : SdkCredential). r.id) here ∙ same
                | inr nowhere ↦ absurd (cc (sym nowhere ∙ tables.get-empty {pk = credential_pk} k))
              ]
      ]

only_seven :
    AllRows {K = ℕ} {pk = credential_pk}
      (λ (x : SdkCredential). x.key_hash ≡ "srv-production-salt" → x.id ≡ 7)
      (serve by_length again at_rest).credentials
unfolding runs
only_seven k x at same = only_one revoked_row issued_row k x at refl

revoked_key_refused_example :
    authorize
      (λ s. s)
      cut
      "server"
      "Bearer srv-production-salt"
      (serve by_length again at_rest).database
    ≡ none
unfolding bearer
revoked_key_refused_example =
    revoked_key_refused cut by_length again at_rest 7 8 revoked_row (λ s. s) "server"
      "Bearer srv-production-salt" stored_revoked refl only_seven
