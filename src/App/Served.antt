-- ===== src/App/Served.antt =====
-- The requests of control-plane/app/main.py on a server: each is refused and leaves the server as it
-- is, or is a step.
use feature_flags.Api.Credentials.{revoke_credential, create_credential}
use feature_flags.Schemas.Credential.{load_credential_create}
use feature_flags.Api.Segments.{update_segment_config, create_segment}
use feature_flags.Schemas.Segment.{load_segment_config_update, load_segment_create}
use feature_flags.Schemas.Soundness.{load_flag_config_update-IsAccepted}
use feature_flags.Schemas.Load.{load_flag_config_update}
use feature_flags.App.Responses.{flag_out}
use feature_flags.Api.Flags.Handlers.{update_flag_config, create_flag}
use feature_flags.Schemas.FlagCreate.{load_flag_create-IsFlagCreate, load_flag_create}
use feature_flags.Schemas.Bodies.{
  load_segment_config_update-All, load_segment_create-IsNamed, load_environment_create-IsNamed,
  load_project_create-IsNamed,
}
use mathlib.Core.Path.{subst}
use feature_flags.Api.Projects.{create_environment, create_project}
use feature_flags.Schemas.Catalog.{load_environment_create, load_project_create}
use feature_flags.Schemas.Pydantic.{Pydantic}
use feature_flags.Store.Session.{
  err, Database, err, Database, err, Database, err, Database, err, Database, err, Database, err,
  Database, err, Database, err, Database, err, Database, err, Database, err, Database, err,
  Database, err, Database, err, Database, err, Database, err, Database, err, Database, err,
  Database, err, Database, err, Database, err, Database, err, Database, err, Database, err,
  Database, err, Database, err, Database, err, Database, err, Database, err, Database, err,
  Database, err, Database, err, Database, err, Database, err, Database, err, Database, err,
  Database, err, Database, err, Database, err, Database, err, Database, err, Database, err,
  Database, err, Database, err, Database, err, Database, err, Database, err, Database, err,
  Database, err, Database, err, Database, err, Database, err, Database, err, Database, err,
  Database, err, Database, err, Database, err, Database, err, Database, err, Database,
  response_validation_error, Database, finish, request_validation_error, err, begin, get_session,
  Result, ok, Server, pure, or_raise, Context, Error, ◌>>=◌, Transaction, Action,
}
use feature_flags.Store.Engine.{Engine}
use feature_flags.App.Requests.{route, is_get, handle, Request, Reply}
use feature_flags.App.Steps.{Step}
use mathlib.Core.List.{append-nil}
use feature_flags.App.Reads.{route-Keeps}
use feature_flags.App.Refines.{
  project-Step, environment-Step, flag-Step, segment-Step, issue-Step, revoke-Step,
  flag_config-Step, segment_config-Step,
}
use feature_flags.Store.Actions.{bind-ok, or_raise-ok}
use feature_flags.Base.{
  ℕ, ℕ, ℕ, ℕ, ℕ, ℕ, ℕ, ℕ, ℕ, ℕ, ℕ, ℕ, ℕ, ℕ, ℕ, ℕ, ℕ, ℕ, ℕ, ℕ, ℕ, ℕ, ℕ, ℕ, ℕ, ℕ, ℕ, ℕ, ℕ, ℕ, ℕ, ℕ, ℕ,
  ℕ, ℕ, ℕ, ℕ, ℕ, ℕ, ℕ, ℕ, ℕ, ℕ, ℕ, ℕ, ℕ, ℕ, ℕ, ℕ, ℕ, ℕ, ℕ, ℕ, ℕ, ℕ, ℕ, ℕ, ℕ, ℕ, ℕ, ◌∷◌, ◌++◌, ℕ, ap,
  ◌∙◌, sym, List, Bool, String, Option, true, [], ◌≡◌, refl,
}

module _ ⦃E : Engine⦄ {A : Type 0} where
  -- What follows a handler only shows its result.
  pure-ok :
      (m : Action A) (f : A → Reply) (s : Transaction) {b : Reply} {s' : Transaction}
      → (m >>= λ a. pure (f a)) s ≡ (ok b, s')
      → (a : A) × (m s ≡ (ok a, s'))
  pure-ok m f s {b} {s'} h =
      let (a, t, ran, rest) = bind-ok m (λ x. pure (f x)) s h in
      (
        a,
        ran
            ∙ ap (λ (u : Transaction). (Result.ok a, u))
                (ap (λ (r : Result Reply × Transaction). r.1) rest),
      )

  shown-ok :
      {B : Type 0} (m : Action A) (g : A → Option B) (e : Error) (f : B → Reply) (s : Transaction)
      {b : Reply} {s' : Transaction}
      → (m >>= λ a. (or_raise (g a) e >>= λ o. pure (f o))) s ≡ (ok b, s')
      → (a : A) × (m s ≡ (ok a, s'))
  shown-ok m g e f s {b} {s'} h =
      let (a, t, ran, rest) = bind-ok m (λ x. (or_raise (g x) e >>= λ o. pure (f o))) s h in
      let (o, _, last) = or_raise-ok (g a) e (λ o. pure (f o)) t rest in
      (
        a,
        ran
            ∙ ap (λ (u : Transaction). (Result.ok a, u))
                (ap (λ (r : Result Reply × Transaction). r.1) last),
      )

module _ ⦃E : Engine⦄ (c : Context) where
  -- What came of a request: it was refused and the server stays, or it was carried out.
  pub data Outcome (v : Server) : Result Reply × Server → Type 0 where
    refused : (e : Error) → Outcome v (err e, v)
    carried_out :
        (reply : Reply) {sent : List (String × ℕ)} {d : Database}
        → Step c v.database sent d
        → Outcome v (ok reply, record { database = d; delivered = v.delivered ++ sent })

module _ ⦃E : Engine⦄ ⦃p : Pydantic⦄ (collates : String → String → Bool) (c : Context) where
  -- A handler that reads has no effect.
  read-Step :
      (r : Request) (s : Transaction) {reply : Reply} {s' : Transaction}
      → is_get r ≡ true
      → s.notified ≡ []
      → route collates c r s ≡ (ok reply, s')
      → Step c s.tables s'.notified s'.tables
  read-Step r s {s' = s'} g empty h =
      let same : s ≡ s' =
        sym ((route-Keeps collates c r g).at s) ∙ ap (λ (o : Result Reply × Transaction). o.1) h in
      subst (λ (t : Transaction). Step c s.tables t.notified t.tables) same
        (subst (λ sent. Step c s.tables sent s.tables) (sym empty) Step.unchanged)

  pub route-Step :
      (r : Request) (s : Transaction) {reply : Reply} {s' : Transaction}
      → s.notified ≡ []
      → route collates c r s ≡ (ok reply, s')
      → Step c s.tables s'.notified s'.tables
  unfolding route
  route-Step (Request.project_post j) s {s' = s'} empty h =
      let (b, loaded, h1) = or_raise-ok (load_project_create j) request_validation_error _ s h in
      let (r, h2) = pure-ok (create_project c b) _ s h1 in
      project-Step c s s' empty b (load_project_create-IsNamed j b loaded) h2
  route-Step (Request.environment_post k j) s {s' = s'} empty h =
      let (b, loaded, h1) =
        or_raise-ok (load_environment_create j) request_validation_error _ s h in
      let (r, h2) = pure-ok (create_environment c k b) _ s h1 in
      environment-Step c s s' empty k b (load_environment_create-IsNamed j b loaded) h2
  route-Step (Request.flag_post k j) s {s' = s'} empty h =
      let (b, loaded, h1) = or_raise-ok (load_flag_create j) request_validation_error _ s h in
      let (r, h2) = shown-ok (create_flag c k b) flag_out response_validation_error _ s h1 in
      flag-Step c s s' empty k b (load_flag_create-IsFlagCreate j b loaded) h2
  route-Step (Request.flag_config_put k f e j) s {s' = s'} empty h =
      let (b, loaded, h1) =
        or_raise-ok (load_flag_config_update j) request_validation_error _ s h in
      let (r, h2) = pure-ok (update_flag_config c k f e b) _ s h1 in
      flag_config-Step c s s' empty k f e b (load_flag_config_update-IsAccepted j b loaded) h2
  route-Step (Request.segment_post k j) s {s' = s'} empty h =
      let (b, loaded, h1) = or_raise-ok (load_segment_create j) request_validation_error _ s h in
      let (r, h2) = pure-ok (create_segment c k b) _ s h1 in
      segment-Step c s s' empty k b (load_segment_create-IsNamed j b loaded) h2
  route-Step (Request.segment_config_put k f e j) s {s' = s'} empty h =
      let (b, loaded, h1) =
        or_raise-ok (load_segment_config_update j) request_validation_error _ s h in
      let (r, h2) = pure-ok (update_segment_config c k f e b) _ s h1 in
      segment_config-Step c s s' empty k f e b (load_segment_config_update-All j b loaded) h2
  route-Step (Request.credential_post k e j) s {s' = s'} empty h =
      let (b, loaded, h1) = or_raise-ok (load_credential_create j) request_validation_error _ s h in
      let (r, h2) = pure-ok (create_credential c k e b) _ s h1 in issue-Step c s s' empty k e b h2
  route-Step (Request.credential_revoke k e i) s {s' = s'} empty h =
      let (r, h1) = pure-ok (revoke_credential c k e i) _ s h in revoke-Step c s s' empty k e i h1
  route-Step Request.projects_get s empty h = read-Step Request.projects_get s refl empty h
  route-Step (Request.project_get k) s empty h = read-Step (Request.project_get k) s refl empty h
  route-Step (Request.environments_get k) s empty h =
      read-Step (Request.environments_get k) s refl empty h
  route-Step (Request.flags_get k) s empty h = read-Step (Request.flags_get k) s refl empty h
  route-Step (Request.flag_get k f) s empty h = read-Step (Request.flag_get k f) s refl empty h
  route-Step (Request.flag_config_get k f e) s empty h =
      read-Step (Request.flag_config_get k f e) s refl empty h
  route-Step (Request.segments_get k) s empty h = read-Step (Request.segments_get k) s refl empty h
  route-Step (Request.segment_config_get k f e) s empty h =
      read-Step (Request.segment_config_get k f e) s refl empty h
  route-Step (Request.credentials_get k e) s empty h =
      read-Step (Request.credentials_get k e) s refl empty h
  route-Step (Request.audit_get k n) s empty h = read-Step (Request.audit_get k n) s refl empty h

  -- Each request on a server either is answered with an error and leaves the server as it was, or is
  -- answered and is one step on the tables, whose messages are delivered.
  pub handle-Outcome : (r : Request) (v : Server) → Outcome c v (handle collates c r v)
  unfolding handle get_session
  handle-Outcome r v = go (route collates c r (begin v)) refl
    where
      go :
          (o : Result Reply × Transaction)
          → route collates c r (begin v) ≡ o
          → Outcome c v (finish v o)
      go (ok reply, s') h = carried_out reply (route-Step r (begin v) refl h)
      go (err e, s') h = refused e

module _ ⦃E : Engine⦄ ⦃p : Pydantic⦄ where
  -- A GET request leaves the server as it is: it commits what it began with and sends nothing.
  pub handle-is_get :
      (collates : String → String → Bool) (c : Context) (r : Request) (v : Server)
      → is_get r ≡ true
      → (handle collates c r v).1 ≡ v
  unfolding handle get_session
  handle-is_get collates c r v g =
      go (route collates c r (begin v)) ((route-Keeps collates c r g).at (begin v))
    where
      go : (o : Result Reply × Transaction) → o.1 ≡ begin v → (finish v o).1 ≡ v
      go (ok reply, t) same =
          ap (λ (s : Transaction). (finish v (Result.ok reply, s)).1) same
          ∙ ap (λ (sent : List (String × ℕ)). record v { delivered = sent })
              (append-nil v.delivered)
      go (err e, t) same = refl

-- Requests one after another, each in a context of its own.
unfoldable pub serve :
    ⦃E : Engine⦄ ⦃p : Pydantic⦄
    → (String → String → Bool)
    → List (Context × Request)
    → Server
    → Server
serve collates [] v = v
serve collates ((c, r) ∷ rs) v = serve collates rs (handle collates c r v).1
