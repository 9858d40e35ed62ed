-- ===== src/App/Revocation.antt =====
-- A credential that control-plane/app/api/credentials.py revoked stays revoked.
use mathlib.Core.Path.{subst}
use mathlib.Core.Option.{some-injective}
use feature_flags.Api.Credentials.{credential_of}
use feature_flags.Models.{credential_pk, SdkCredential}
use feature_flags.Schemas.Pydantic.{Pydantic}
use feature_flags.Store.Session.{Result, Server, Database, Context}
use feature_flags.Store.Engine.{Engine}
use feature_flags.App.Steps.{Step}
use feature_flags.App.Served.{Outcome, refused, carried_out, handle-Outcome, serve}
use feature_flags.Base.{
  ap, ◌∙◌, sym, nat_eq_iff, nat_eq, Bool-cases, List, Bool, ℕ, String, some, none, ◌≡◌, id_key, inl,
  inr, ◌∷◌, [],
}
use feature_flags.App.Requests.{Request, Reply, handle}
use feature_flags.Store.Relations.{get-add_other}

module _ ⦃E : Engine⦄ where
  open E use {Table}

  -- Revoking one credential leaves those that are revoked already.
  revoke_other :
      (cred r : SdkCredential) (k n : ℕ) (t : Table credential_pk) (now : ℕ)
      → E.get cred.id t ≡ some cred
      → cred.revoked_at ≡ none
      → E.get k t ≡ some r
      → r.revoked_at ≡ some n
      → E.get k (E.add (record cred { revoked_at = some now }) t) ≡ some r
  revoke_other cred r k n t now there active at revoked =
      let after : SdkCredential = record cred { revoked_at = some now } in
      elim (Bool-cases (nat_eq cred.id k)) [
        | inl same ↦
            let here = (nat_eq_iff cred.id k).0 same in
            let is : cred ≡ r =
              some-injective cred r (sym there ∙ ap (λ (i : ℕ). E.get i t) here ∙ at) in
            let off : r.revoked_at ≡ none =
              subst (λ (x : SdkCredential). x.revoked_at ≡ none) is active in
            absurd (cc (sym revoked ∙ off))
        | inr other ↦ E.get-add k after t ∙ rw other at
      ]

  Step-revoked :
      {c : Context} {d d' : Database} {sent : List (String × ℕ)}
      → Step c d sent d'
      → (k n : ℕ) (r : SdkCredential) → E.get k d.credentials ≡ some r
      → r.revoked_at ≡ some n
      → E.get k d'.credentials ≡ some r
  Step-revoked Step.unchanged k n r at revoked = at
  Step-revoked (Step.project_created b named fresh free) k n r at revoked = at
  Step-revoked (Step.environment_created project b named there fresh free) k n r at revoked = at
  Step-revoked (Step.flag_created project b good there fresh free) k n r at revoked = at
  Step-revoked
        (Step.flag_config_updated project flag env before b sent here there in_project stored
          accepted indices out)
        k n r at revoked =
      at
  Step-revoked (Step.segment_created project b named there fresh free) k n r at revoked = at
  Step-revoked
        (Step.segment_config_updated project seg env found b sent here there in_project stored
          accepted out)
        k n r at revoked =
      at
  Step-revoked {c} {d} (Step.credential_issued project env b here fresh) k n r at revoked =
      get-add_other k (credential_of c env b.kind) r d.credentials fresh at
  Step-revoked {c} {d} (Step.credential_revoked project env cred here there at_env active) k n r at
        revoked =
      revoke_other cred r k n d.credentials c.now there active at revoked

  Outcome-revoked :
      {c : Context} {v : Server} {o : Result Reply × Server}
      → Outcome c v o
      → (k n : ℕ) (r : SdkCredential) → E.get k v.credentials ≡ some r
      → r.revoked_at ≡ some n
      → E.get k o.1.credentials ≡ some r
  Outcome-revoked (refused e) k n r at revoked = at
  Outcome-revoked (carried_out reply step) k n r at revoked = Step-revoked step k n r at revoked

  -- A revoked credential is never changed again, whatever requests are taken: it keeps its row with
  -- the time at which it was revoked.
  pub serve-revoked :
      ⦃p : Pydantic⦄ (collates : String → String → Bool) (rs : List (Context × Request))
      (v : Server) (k n : ℕ) (r : SdkCredential)
      → E.get k v.credentials ≡ some r
      → r.revoked_at ≡ some n
      → E.get k (serve collates rs v).credentials ≡ some r
  unfolding serve
  serve-revoked collates [] v k n r at revoked = at
  serve-revoked collates ((c, q) ∷ rs) v k n r at revoked =
      serve-revoked collates rs (handle collates c q v).1 k n r
        (Outcome-revoked (handle-Outcome collates c q v) k n r at revoked) revoked
