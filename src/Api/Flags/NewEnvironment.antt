-- ===== src/Api/Flags/NewEnvironment.antt =====
-- The flags of a project in an environment that was created after them: `create_environment` of
-- control-plane/app/api/projects.py adds no flag configuration, and nothing in
-- control-plane/app/api/flags.py adds one to an older flag.
use mathlib.Core.Option.{some-injective}
use feature_flags.Base.{
  ℕ, String, ◌≡◌, refl, sym, ap, ◌∙◌, not, none, some, id_key, text_key, pair_key, Option-cases,
  inl, inr,
}
use feature_flags.Base.Maybe.{is_none}
use feature_flags.Models.{Project, Environment, Flag, FlagEnvironmentConfig}
use feature_flags.Schemas.Catalog.{EnvironmentCreate}
use feature_flags.Schemas.Pydantic.{Pydantic}
use feature_flags.Schemas.Flag.{FlagConfigUpdate}
use feature_flags.Services.Audit.{audit_row, record_audit}
use feature_flags.Store.Engine.{Engine}
use feature_flags.Store.Session.{Context, Transaction, Action, Result, ok, err, ◌>>=◌}
use feature_flags.Store.Actions.{raise_if-ok, or_raise-none}
use feature_flags.Store.Tables.{not-is_none-false, or_false, scalar-add_new}
use feature_flags.Api.Common.{has_key, is_flag, is_environment}
use feature_flags.Api.Lookups.{
  get_project-ok, get_project_found, get_flag_found, get_environment_found,
}
use feature_flags.Api.Projects.{
  environment_of, environment_entry, fits_integer, environment_clashes, create_environment,
}
use feature_flags.Api.Flags.Create.{both_true}
use feature_flags.Api.Flags.Handlers.{no_config, get_config, get_flag_config, update_flag_config}
use feature_flags.Api.Flags.Update.{Located}

module _ ⦃E : Engine⦄ where
  -- The foreign key of `flag_environment_configs.environment_id`.
  pub record HasEnvironments (s : Transaction) : Type 0 where
    pub at :
        (k : ℕ × ℕ) (cfg : FlagEnvironmentConfig)
        → E.get k s.flag_configs ≡ some cfg
        → (env : Environment) × (E.get k.1 s.environments ≡ some env)

  pub record Created (c : Context) (project_key : String) (body : EnvironmentCreate)
      (s s' : Transaction) (env : Environment) : Type 0 where
    pub project : Project
    pub project_found : E.scalar (has_key project_key) s.projects ≡ some project
    pub is_environment_of : env ≡ environment_of c project.id body
    pub unused_key : E.scalar (is_environment project.id body.key) s.environments ≡ none
    pub unused_id : E.get c.uuid s.environments ≡ none
    pub projects : s'.projects ≡ s.projects
    pub environments : s'.environments ≡ E.add (environment_of c project.id body) s.environments
    pub flags : s'.flags ≡ s.flags
    pub flag_configs : s'.flag_configs ≡ s.flag_configs
    pub tables : s'.tables ≡ record s.tables {
      environments = E.add (environment_of c project.id body) s.environments;
      audit_logs =
          E.add
            (audit_row c (environment_entry project (environment_of c project.id body)))
            s.audit_logs;
    }
    pub notified : s'.notified ≡ s.notified

  pub create_environment-Created :
      (c : Context) (project_key : String) (body : EnvironmentCreate) (s : Transaction)
      {env : Environment} {s' : Transaction}
      → create_environment c project_key body s ≡ (ok env, s')
      → Created c project_key body s s' env
  unfolding create_environment record_audit environment_clashes
  create_environment-Created c project_key body s h =
      let (project, found, h1) = get_project-ok project_key _ s h in
      let new = environment_of c project.id body in
      let (_, h2) = raise_if-ok (not (fits_integer body.sort_order)) _ _ s h1 in
      let (free, h3) = raise_if-ok (environment_clashes new s.tables) _ _ s h2 in
      let (id_free, key_free) =
        or_false (not (is_none (E.get new.id s.environments)))
          (not (is_none (E.scalar (is_environment project.id body.key) s.environments))) free in
      let end = ap (λ (r : Result Environment × Transaction). r.1) h3 in
      record {
        project = project;
        project_found = found;
        is_environment_of = cc (ap (λ (r : Result Environment × Transaction). r.0) h3);
        unused_key = not-is_none-false _ key_free;
        unused_id = not-is_none-false _ id_free;
        projects = ap (λ (t : Transaction). t.projects) (sym end);
        environments = ap (λ (t : Transaction). t.environments) (sym end);
        flags = ap (λ (t : Transaction). t.flags) (sym end);
        flag_configs = ap (λ (t : Transaction). t.flag_configs) (sym end);
        tables = ap (λ (t : Transaction). t.tables) (sym end);
        notified = ap (λ (t : Transaction). t.notified) (sym end);
      }

  -- Where a configuration is missing, a handler that asks for it answers 404.
  get_config_missing :
      {B : Type 0} (flag_id env_id : ℕ) (f : FlagEnvironmentConfig → Action B) (s : Transaction)
      → E.get (flag_id, env_id) s.flag_configs ≡ none
      → (get_config flag_id env_id >>= f) s ≡ (err no_config, s)
  unfolding get_config
  get_config_missing flag_id env_id f s e = or_raise-none _ no_config f s e

  module _ ⦃p : Pydantic⦄ where
    -- Reading or updating a configuration that is not stored is answered with 404.
    config_missing :
        (c : Context) (project_key flag_key env_key : String) (update : FlagConfigUpdate)
        (s : Transaction) (at : Located project_key flag_key env_key s)
        → E.get (at.flag.id, at.env.id) s.flag_configs ≡ none
        → (get_flag_config project_key flag_key env_key s ≡ (err no_config, s))
          × (update_flag_config c project_key flag_key env_key update s ≡ (err no_config, s))
    unfolding get_flag_config update_flag_config
    config_missing c project_key flag_key env_key update s at e = (
      get_project_found project_key _ s at.project at.project_found
          ∙ get_flag_found at.project.id flag_key _ s at.flag at.flag_found
          ∙ get_environment_found at.project.id env_key _ s at.env at.env_found
          ∙ get_config_missing at.flag.id at.env.id _ s e,
      get_project_found project_key _ s at.project at.project_found
          ∙ get_flag_found at.project.id flag_key _ s at.flag at.flag_found
          ∙ get_environment_found at.project.id env_key _ s at.env at.env_found
          ∙ get_config_missing at.flag.id at.env.id _ s e,
    )

    no_row :
        (s : Transaction) (f e : ℕ)
        → HasEnvironments s
        → E.get e s.environments ≡ none
        → E.get (f, e) s.flag_configs ≡ none
    no_row s f e keys unused = elim (Option-cases (E.get (f, e) s.flag_configs)) [
      | inl nothing ↦ nothing
      | inr (cfg, there) ↦ let (env, found) = keys.at (f, e) cfg there in absurd (cc)
    ]

    -- Where every stored configuration belongs to a stored environment, after an environment was
    -- created every flag that the project already had is without a configuration in it: reading and
    -- updating its targeting there are both answered with 404 and change nothing.
    pub older_flag_without_config :
        (c d : Context) (project_key flag_key : String) (body : EnvironmentCreate)
        (update : FlagConfigUpdate) (s : Transaction) {env : Environment} {s' : Transaction}
        (project : Project) (flag : Flag)
        → HasEnvironments s
        → E.scalar (has_key project_key) s.projects ≡ some project
        → E.scalar (is_flag project.id flag_key) s.flags ≡ some flag
        → create_environment c project_key body s ≡ (ok env, s')
        → (get_flag_config project_key flag_key body.key s' ≡ (err no_config, s'))
          × (update_flag_config d project_key flag_key body.key update s' ≡ (err no_config, s'))
    older_flag_without_config c d project_key flag_key body update s {env} {s'} project flag keys ep
          ef h =
        let m = create_environment-Created c project_key body s h in
        let same : m.project ≡ project =
          some-injective m.project project (sym m.project_found ∙ ep) in
        let new = environment_of c project.id body in
        config_missing d project_key flag_key body.key update s'
          (record {
            project = project;
            flag = flag;
            env = new;
            project_found = rw m.projects ep;
            flag_found = rw m.flags ef;
            env_found = rw m.environments (
                rw same (
                  scalar-add_new (is_environment project.id body.key) new s.environments
                    (rw same at m.unused_key)
                    (both_true project.id project.id body.key body.key refl refl)));
          })
          (rw m.flag_configs (no_row s flag.id c.uuid keys m.unused_id))
