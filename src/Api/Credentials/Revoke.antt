-- ===== src/Api/Credentials/Revoke.antt =====
-- What `revoke_credential` of control-plane/app/api/credentials.py has done where it returned.
use feature_flags.Base.Maybe.{is_none}
use feature_flags.Api.Common.{is_environment, has_key}
use feature_flags.Models.{Environment, Project, SdkCredential}
use feature_flags.Api.Credentials.{
  already_revoked, credential_entry, in_environment, revoke_credential,
}
use feature_flags.Base.{
  ◌∙◌, refl, nat_eq_iff, inl, inr, Bool-cases, ◌==◌, sym, Bool-cases, not, ap, id_key, none, some,
  ◌≡◌, String, Option, ℕ,
}
use feature_flags.Store.Session.{Database, err, Result, ok, ◌>>=◌, Action, Transaction, Context}
use feature_flags.Store.Engine.{Engine}
use feature_flags.Store.Tables.{not-is_none-false}
use feature_flags.Store.Actions.{raise_if-ok}
use feature_flags.Services.Audit.{audit_row, record_audit}
use feature_flags.Api.Lookups.{
  get_environment_found, get_project_found, get_project-ok, get_environment-ok,
}

module _ ⦃E : Engine⦄ where
  in_environment-ok :
      {B : Type 0} (env_id : ℕ) (o : Option SdkCredential) (f : SdkCredential → Action B)
      (s : Transaction) {b : B} {s' : Transaction}
      → (in_environment env_id o >>= f) s ≡ (ok b, s')
      → (cred : SdkCredential) × (o ≡ some cred)
        × (cred.environment_id ≡ env_id)
        × (f cred s ≡ (ok b, s'))
  in_environment-ok {B} env_id none f s h = absurd (cc (ap (λ (r : Result B × Transaction). r.0) h))
  in_environment-ok {B} env_id (some cred) f s h =
      elim (Bool-cases (cred.environment_id == env_id)) [
        | inl here ↦ (cred, refl, (nat_eq_iff cred.environment_id env_id).0 here, rw here at h)
        | inr other ↦ absurd (cc (ap (λ (r : Result B × Transaction). r.0) (rw other at h)))
      ]

  module _ (c : Context) (project_key env_key : String) (cred_id : ℕ) where
    pub record Revoked (s s' : Transaction) (out : SdkCredential) : Type 0 where
      pub project : Project
      pub env : Environment
      pub cred : SdkCredential
      pub project_found : E.scalar (has_key project_key) s.projects ≡ some project
      pub env_found : E.scalar (is_environment project.id env_key) s.environments ≡ some env
      pub cred_found : E.get cred_id s.credentials ≡ some cred
      pub in_env : cred.environment_id ≡ env.id
      pub active : cred.revoked_at ≡ none
      pub shown : out ≡ record cred { revoked_at = some c.now }
      pub tables : s'.tables ≡ record s.tables {
        credentials = E.add (record cred { revoked_at = some c.now }) s.credentials;
        audit_logs =
            E.add
              (audit_row c (credential_entry "credential.revoked" "revoked " project env cred))
              s.audit_logs;
      }
      pub notified : s'.notified ≡ s.notified

    pub revoke_credential-Revoked :
        (s : Transaction) {out : SdkCredential} {s' : Transaction}
        → revoke_credential c project_key env_key cred_id s ≡ (ok out, s')
        → Revoked s s' out
    unfolding revoke_credential record_audit
    revoke_credential-Revoked s h =
        let (project, ep, h1) = get_project-ok project_key _ s h in
        let (env, ee, h2) = get_environment-ok project.id env_key _ s h1 in
        let (cred, ec, here, h3) = in_environment-ok env.id (E.get cred_id s.credentials) _ s h2 in
        let (free, h4) = raise_if-ok (not (is_none cred.revoked_at)) _ _ s h3 in
        let end = ap (λ (r : Result SdkCredential × Transaction). r.1) h4 in
        record {
          project = project;
          env = env;
          cred = cred;
          project_found = ep;
          env_found = ee;
          cred_found = ec;
          in_env = here;
          active = not-is_none-false _ free;
          shown = cc (ap (λ (r : Result SdkCredential × Transaction). r.0) h4);
          tables = ap (λ (t : Transaction). t.tables) (sym end);
          notified = ap (λ (t : Transaction). t.notified) (sym end);
        }

    -- A credential that was revoked cannot be revoked again: a second request at the same place is
    -- answered with 409 and writes nothing.
    pub revoke_credential_again :
        (d : Context) (s : Transaction) {out : SdkCredential} {s' : Transaction}
        → revoke_credential c project_key env_key cred_id s ≡ (ok out, s')
        → revoke_credential d project_key env_key cred_id s' ≡ (err already_revoked, s')
    unfolding revoke_credential
    revoke_credential_again d s {out} {s'} h =
        let m = revoke_credential-Revoked s h in
        let after = record (m.cred) { revoked_at = some c.now } in
        let key : m.cred.id ≡ cred_id = E.get_pk cred_id m.cred s.credentials m.cred_found in
        let there : E.get cred_id s'.credentials ≡ some after =
          rw (ap (λ (t : Database). t.credentials) m.tables) (
            E.get-add cred_id after s.credentials
            ∙ rw ((nat_eq_iff m.cred.id cred_id).1 key) refl) in
        get_project_found project_key _ s' m.project
          (rw (ap (λ (t : Database). t.projects) m.tables) m.project_found)
        ∙ get_environment_found m.project.id env_key _ s' m.env
            (rw (ap (λ (t : Database). t.environments) m.tables) m.env_found)
        ∙ rw (there, (nat_eq_iff m.cred.environment_id m.env.id).1 m.in_env) refl
