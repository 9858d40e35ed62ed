-- ===== src/Api/Credentials/Issue.antt =====
-- What `create_credential` of control-plane/app/api/credentials.py has done where it returned.
use feature_flags.Api.Parts.{scalar-PlaceOf, PlaceOf-kept, PlaceOf}
use feature_flags.Base.Maybe.{is_none}
use feature_flags.Services.Credentials.{generate}
use feature_flags.Api.Common.{is_environment, has_key}
use feature_flags.Models.{SdkCredential, Environment, Project}
use feature_flags.Api.Credentials.{
  credential_entry, credential_of, created_out, CredentialCreated, create_credential,
}
use feature_flags.Schemas.Credential.{CredentialCreate}
use feature_flags.Base.{refl, sym, ap, not, id_key, none, some, ◌≡◌, String}
use feature_flags.Store.Session.{Database, Result, ok, Transaction, Context}
use feature_flags.Store.Engine.{Engine}
use feature_flags.Store.Tables.{not-is_none-false}
use feature_flags.Store.Actions.{raise_if-ok}
use feature_flags.Services.Audit.{audit_row, record_audit}
use Prim.Native.String.{◌++◌ as ◌+++◌}
use feature_flags.Services.Credentials.{hash_key}
use feature_flags.Store.Relations.{get-add_same}
use feature_flags.Api.Lookups.{get_project-ok, get_environment-ok}

module _ ⦃E : Engine⦄ (c : Context) (project_key env_key : String) (body : CredentialCreate) where
  pub record Issued (s s' : Transaction) (out : CredentialCreated) : Type 0 where
    pub project : Project
    pub env : Environment
    pub project_found : E.scalar (has_key project_key) s.projects ≡ some project
    pub env_found : E.scalar (is_environment project.id env_key) s.environments ≡ some env
    pub unused_id : E.get c.uuid s.credentials ≡ none
    pub shown : out ≡ created_out (credential_of c env body.kind) (generate c body.kind env.key).0
    pub tables : s'.tables ≡ record s.tables {
      credentials = E.add (credential_of c env body.kind) s.credentials;
      audit_logs =
          E.add
            (audit_row c (
              credential_entry "credential.created" "issued " project env
                (credential_of c env body.kind)))
            s.audit_logs;
    }
    pub notified : s'.notified ≡ s.notified

  pub create_credential-Issued :
      (s : Transaction) {out : CredentialCreated} {s' : Transaction}
      → create_credential c project_key env_key body s ≡ (ok out, s')
      → Issued s s' out
  unfolding create_credential record_audit
  create_credential-Issued s h =
      let (project, ep, h1) = get_project-ok project_key _ s h in
      let (env, ee, h2) = get_environment-ok project.id env_key _ s h1 in
      let (free, h3) = raise_if-ok (not (is_none (E.get c.uuid s.credentials))) _ _ s h2 in
      let end = ap (λ (r : Result CredentialCreated × Transaction). r.1) h3 in
      record {
        project = project;
        env = env;
        project_found = ep;
        env_found = ee;
        unused_id = not-is_none-false _ free;
        shown = cc (ap (λ (r : Result CredentialCreated × Transaction). r.0) h3);
        tables = ap (λ (t : Transaction). t.tables) (sym end);
        notified = ap (λ (t : Transaction). t.notified) (sym end);
      }

  -- The project and the environment of the request, which the issue leaves stored.
  pub Issued-PlaceOf :
      {s s' : Transaction} {out : CredentialCreated} (m : Issued s s' out)
      → PlaceOf project_key env_key m.project m.env s'.tables
  Issued-PlaceOf {s} m =
      PlaceOf-kept
        (scalar-PlaceOf project_key env_key m.project m.env s.tables m.project_found m.env_found)
        (ap (λ (d : Database). d.projects) m.tables)
        (ap (λ (d : Database). d.environments) m.tables)

  -- What is stored of a key: the row of the new id holds the hash of the plaintext key that the
  -- response shows, the prefix with which that key begins, and no revocation.
  pub record Stored (s' : Transaction) (out : CredentialCreated) (env : Environment) : Type 0 where
    pub cred : SdkCredential
    pub stored : E.get out.id s'.credentials ≡ some cred
    pub hashed : cred.key_hash ≡ hash_key c out.key
    pub key : out.key ≡ cred.key_prefix +++ c.token
    pub shown_prefix : out.key_prefix ≡ cred.key_prefix
    pub active : cred.revoked_at ≡ none
    pub in_env : cred.environment_id ≡ env.id

  -- A key that was issued is stored by its hash and its prefix, active, in the environment that the
  -- request names of the project that it names, and the response holds the key itself: the prefix and the random token.
  pub create_credential-Stored :
      (s : Transaction) {out : CredentialCreated} {s' : Transaction}
      → create_credential c project_key env_key body s ≡ (ok out, s')
      → (project : Project) × (env : Environment) × PlaceOf project_key env_key project env
          s'.tables
        × Stored s' out env
  unfolding generate hash_key
  create_credential-Stored s {out} {s'} h =
      let m = create_credential-Issued s h in
      let tables = m.tables in
      let row = credential_of c m.env body.kind in
      (
        m.project,
        m.env,
        Issued-PlaceOf m,
        record {
          cred = row;
          stored =
              rw (ap (λ (d : Database). d.credentials) tables, m.shown)
                (get-add_same row s.credentials);
          hashed = rw m.shown refl;
          key = rw m.shown refl;
          shown_prefix = rw m.shown refl;
          active = refl;
          in_env = refl;
        },
      )
