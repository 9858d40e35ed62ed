-- ===== src/DataPlane/Auth/Keys.antt =====
-- The keys of control-plane/app/api/credentials.py at the door of
-- data-plane/internal/server/server.go.
use feature_flags.Api.Parts.{PlaceOf}
use feature_flags.Base.Maybe.{is_none}
use feature_flags.Store.Tables.{scalar-add_new}
use mathlib.Core.Option.{some-injective}
use feature_flags.App.Revocation.{serve-revoked}
use feature_flags.Api.Credentials.Issue.{Issued-PlaceOf, create_credential-Issued}
use feature_flags.App.Served.{serve}
use feature_flags.Store.Relations.{AllRows}
use feature_flags.Api.Credentials.{credential_of, kind_text, create_credential, CredentialCreated}
use feature_flags.App.Requests.{Request}
use feature_flags.Schemas.Credential.{CredentialCreate, CredentialKind, server, client, mobile}
use feature_flags.Services.Credentials.{generate}
use feature_flags.Models.{Project, Environment, SdkCredential}
use feature_flags.Schemas.Pydantic.{Pydantic}
use feature_flags.DataPlane.Auth.{bearer, wanted, authorize, access_of, grants, authenticate}
use feature_flags.Base.{
  if◌then◌else◌, false, text_key, arith, ◌==◌, ◌&&◌, id_key, ◌∙◌, sym, ap, inr, inl, Option-cases,
  ℕ, refl, eq_iff, true, some, List, none, Bool, ◌≡◌, String, Option,
}
use feature_flags.Store.Engine.{Engine}
use feature_flags.Store.Session.{Database, ok, Server, Transaction, Context}
use mathlib.Core.Option

map-none : {A B : Type 0} (f : A → B) (o : Option A) → Option.map f o ≡ none → o ≡ none
map-none f none h = refl
map-none f (some a) h = absurd (cc h)

grants_active :
    (hash : String) (r : SdkCredential)
    → r.key_hash ≡ hash
    → r.revoked_at ≡ none
    → grants hash r ≡ true
grants_active hash r h active = rw ((eq_iff r.key_hash hash).1 h, active) refl

split : (a b : Bool) → (a && b) ≡ true → (a ≡ true) × (b ≡ true)
split a b h = ground arith

none_of : {A : Type 0} (o : Option A) → is_none o ≡ true → o ≡ none
none_of none h = refl
none_of (some a) h = absurd (cc h)

grants_iff :
    (hash : String) (r : SdkCredential)
    → grants hash r ≡ true
    → (r.key_hash ≡ hash) × (r.revoked_at ≡ none)
grants_iff hash r h =
    let (same, active) = split (r.key_hash == hash) (is_none r.revoked_at) h in
    ((eq_iff r.key_hash hash).0 same, none_of r.revoked_at active)

-- `kind == "server"`
abbrev is_server : CredentialKind → Bool
is_server server = true
is_server _ = false

wanted_server :
    (env_id : ℕ) (kind : CredentialKind)
    → wanted "server" (record { env_id = env_id; kind = kind_text kind })
      ≡ (if is_server kind then some (record { env_id = env_id; kind = kind_text kind }) else none)
wanted_server env_id server = refl
wanted_server env_id client = refl
wanted_server env_id mobile = refl

wanted_client :
    (env_id : ℕ) (kind : CredentialKind)
    → wanted "client" (record { env_id = env_id; kind = kind_text kind })
      ≡ (if is_server kind then none else some (record { env_id = env_id; kind = kind_text kind }))
wanted_client env_id server = refl
wanted_client env_id client = refl
wanted_client env_id mobile = refl

wanted_any :
    (env_id : ℕ) (kind : CredentialKind)
    → wanted "any" (record { env_id = env_id; kind = kind_text kind })
      ≡ some (record { env_id = env_id; kind = kind_text kind })
wanted_any env_id kind = refl

module _ ⦃E : Engine⦄ where
  -- A key that opened nothing before its credential was issued opens the environment of the
  -- credential from then on, as the kind that was asked for.
  issued_key :
      (c : Context) (project_key env_key : String) (body : CredentialCreate) (s : Transaction)
      {out : CredentialCreated} {s' : Transaction}
      → create_credential c project_key env_key body s ≡ (ok out, s')
      → authenticate c.sha256_hex out.key s.tables ≡ none
      → (project : Project) × (env : Environment) × PlaceOf project_key env_key project env
          s'.tables
        × (authenticate c.sha256_hex out.key s'.tables
            ≡ some (record { env_id = env.id; kind = kind_text body.kind }))
  unfolding authenticate generate
  issued_key c project_key env_key body s {out} {s'} h before =
      let m = create_credential-Issued c project_key env_key body s h in
      let row = credential_of c m.env body.kind in
      let hash = c.sha256_hex out.key in
      let shown : row.key_hash ≡ hash = rw m.shown refl in
      let absent : E.scalar (grants hash) s.credentials ≡ none =
        map-none access_of (E.scalar (grants hash) s.credentials) before in
      (
        m.project,
        m.env,
        Issued-PlaceOf c project_key env_key body m,
        rw
            (
              ap (λ (d : Database). d.credentials) m.tables,
              scalar-add_new (grants hash) row s.credentials absent
                  (grants_active hash row shown refl),
            )
            refl,
      )

  -- A revoked credential's key opens nothing at any later time, unless another stored credential has
  -- the same hash.
  revoked_key :
      ⦃p : Pydantic⦄ (collates : String → String → Bool) (rs : List (Context × Request))
      (v : Server) (k n : ℕ) (r : SdkCredential) (sha256_hex : String → String) (key : String)
      → E.get k v.credentials ≡ some r
      → r.revoked_at ≡ some n
      → AllRows
          (λ (x : SdkCredential). x.key_hash ≡ sha256_hex key → x.id ≡ k)
          (serve collates rs v).credentials
      → authenticate sha256_hex key (serve collates rs v).database ≡ none
  unfolding authenticate
  revoked_key collates rs v k n r sha256_hex key at revoked only =
      let hash = sha256_hex key in
      let after = (serve collates rs v).credentials in
      elim (Option-cases (E.scalar (grants hash) after)) [
        | inl nothing ↦ rw nothing refl
        | inr (x, found) ↦
            let (passes, at_x) = E.scalar_some (grants hash) x after found in
            let (same_hash, active) = grants_iff hash x passes in
            let still = serve-revoked collates rs v k n r at revoked in
            let here = only x.id x at_x same_hash in
            let is : x ≡ r =
              some-injective x r (sym at_x ∙ ap (λ (i : ℕ). E.get i after) here ∙ still) in
            absurd (cc (sym active ∙ ap (λ (y : SdkCredential). y.revoked_at) is ∙ revoked))
      ]

  module _ (cut_prefix : String → String → Option String) where
    -- After a credential was issued, a request whose header carries the issued key, which opened
    -- nothing before, is let into the environment that was named of the project that was named: on
    -- the routes that want a server key exactly where the key is one, on those that want a client key
    -- exactly where it is a client or mobile key, and on those that want any key always.
    pub issued_key_authorized :
        (c : Context) (project_key env_key : String) (body : CredentialCreate) (header : String)
        (s : Transaction) {out : CredentialCreated} {s' : Transaction}
        → create_credential c project_key env_key body s ≡ (ok out, s')
        → authenticate c.sha256_hex out.key s.tables ≡ none
        → cut_prefix header "Bearer " ≡ some out.key
        → (project : Project) × (env : Environment) × PlaceOf project_key env_key project env
            s'.tables
          × (authorize c.sha256_hex cut_prefix "server" header s'.tables ≡ (
              if is_server body.kind
              then some (record { env_id = env.id; kind = kind_text body.kind })
              else none))
          × (authorize c.sha256_hex cut_prefix "client" header s'.tables ≡ (
              if is_server body.kind
              then none
              else some (record { env_id = env.id; kind = kind_text body.kind })))
          × (authorize c.sha256_hex cut_prefix "any" header s'.tables
              ≡ some (record { env_id = env.id; kind = kind_text body.kind }))
    unfolding authorize bearer
    issued_key_authorized c project_key env_key body header s h before carried =
        let (project, env, place, opens) = issued_key c project_key env_key body s h before in
        (
          project,
          env,
          place,
          rw (carried, opens) (wanted_server env.id body.kind),
          rw (carried, opens) (wanted_client env.id body.kind),
          rw (carried, opens) (wanted_any env.id body.kind),
        )

    -- Where a credential is revoked and the control plane takes any requests after that, a header is
    -- refused on every route if no stored credential but the revoked one has the hash of its key.
    pub revoked_key_refused :
        ⦃p : Pydantic⦄ (collates : String → String → Bool) (rs : List (Context × Request))
        (v : Server) (k n : ℕ) (r : SdkCredential) (sha256_hex : String → String)
        (want header : String)
        → E.get k v.credentials ≡ some r
        → r.revoked_at ≡ some n
        → AllRows
            (λ (x : SdkCredential). x.key_hash ≡ sha256_hex (bearer cut_prefix header) → x.id ≡ k)
            (serve collates rs v).credentials
        → authorize sha256_hex cut_prefix want header (serve collates rs v).database ≡ none
    unfolding authorize
    revoked_key_refused collates rs v k n r sha256_hex want header at revoked only =
        rw (revoked_key collates rs v k n r sha256_hex (bearer cut_prefix header) at revoked only)
          refl
