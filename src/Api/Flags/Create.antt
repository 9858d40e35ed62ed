-- ===== src/Api/Flags/Create.antt =====
-- What `create_flag` of control-plane/app/api/flags.py has done where it returned.
use feature_flags.Base.{
  ℕ, String, ◌≡◌, refl, sym, ap, ◌∙◌, Bool, true, false, not, ◌&&◌, none, some, List, [], ◌∷◌, Elem,
  inl, inr, pos, id_key, text_key, pair_key, ◌==◌, Bool-cases, pair_eq, eq_iff, arith,
}
use feature_flags.Base.Maybe.{is_none}
use mathlib.Core.Option.{some-injective}
use feature_flags.Models.{Project, Environment, Flag, flag_config_pk}
use feature_flags.Schemas.Pydantic.{Pydantic}
use feature_flags.Schemas.Load.{load_fallthrough, load_choice}
use feature_flags.Schemas.FlagCreate.{FlagCreate}
use feature_flags.Services.Audit.{audit_row, record_audit}
use feature_flags.Store.Engine.{Engine}
use feature_flags.Store.Session.{Context, Transaction, Result, ok}
use feature_flags.Store.Actions.{ok_injective, raise_if-ok}
use feature_flags.Store.Tables.{not-is_none-false, or_false, get-add_self, scalar-add_new}
use feature_flags.Api.Common.{has_key, is_flag, is_environment}
use feature_flags.Api.Lookups.{get_project-ok}
use feature_flags.Api.Flags.Config.{default_config, config_out, FlagConfigOut}
use feature_flags.Api.Flags.Handlers.{
  flag_of, flag_entry, flag_clashes, add_defaults, create_flag, get_flag_config,
}
use feature_flags.Api.Flags.Replies.{get_flag_config_at}

module _ ⦃E : Engine⦄ where
  open E use {Table}

  -- The environments of a project, as `create_flag` selects them.
  abbrev pub environments_of : ℕ → Transaction → List Environment
  environments_of project_id s = E.scalars (λ r. r.project_id == project_id) s.environments

  pub record Created (c : Context) (project_key : String) (body : FlagCreate) (s s' : Transaction)
      (flag : Flag) : Type 0 where
    pub project : Project
    pub project_found : E.scalar (has_key project_key) s.projects ≡ some project
    pub is_flag_of : flag ≡ flag_of c project.id body
    pub unused_key : E.scalar (is_flag project.id body.key) s.flags ≡ none
    pub unused_id : E.get c.uuid s.flags ≡ none
    pub projects : s'.projects ≡ s.projects
    pub environments : s'.environments ≡ s.environments
    pub flags : s'.flags ≡ E.add (flag_of c project.id body) s.flags
    pub flag_configs :
        s'.flag_configs ≡ add_defaults c c.uuid (environments_of project.id s) s.flag_configs
    pub tables : s'.tables ≡ record s.tables {
      flags = E.add (flag_of c project.id body) s.flags;
      flag_configs = add_defaults c c.uuid (environments_of project.id s) s.flag_configs;
      audit_logs =
          E.add (audit_row c (flag_entry project (flag_of c project.id body))) s.audit_logs;
    }
    pub notified : s'.notified ≡ s.notified

  pub create_flag-Created :
      (c : Context) (project_key : String) (body : FlagCreate) (s : Transaction) {flag : Flag}
      {s' : Transaction}
      → create_flag c project_key body s ≡ (ok flag, s')
      → Created c project_key body s s' flag
  unfolding create_flag record_audit flag_clashes
  create_flag-Created c project_key body s h =
      let (project, found, h1) = get_project-ok project_key _ s h in
      let new = flag_of c project.id body in
      let (free, h2) = raise_if-ok (flag_clashes new s.tables) _ _ s h1 in
      let (id_free, key_free) =
        or_false (not (is_none (E.get new.id s.flags)))
          (not (is_none (E.scalar (is_flag project.id body.key) s.flags))) free in
      let end = ap (λ (r : Result Flag × Transaction). r.1) h2 in
      record {
        project = project;
        project_found = found;
        is_flag_of = ok_injective (sym (ap (λ (r : Result Flag × Transaction). r.0) h2));
        unused_key = not-is_none-false _ key_free;
        unused_id = not-is_none-false _ id_free;
        projects = ap (λ (t : Transaction). t.projects) (sym end);
        environments = ap (λ (t : Transaction). t.environments) (sym end);
        flags = ap (λ (t : Transaction). t.flags) (sym end);
        flag_configs = ap (λ (t : Transaction). t.flag_configs) (sym end);
        tables = ap (λ (t : Transaction). t.tables) (sym end);
        notified = ap (λ (t : Transaction). t.notified) (sym end);
      }

  -- A configuration that was seeded stays, and each environment of the list gets one.
  default_over :
      (c : Context) (f e x : ℕ) (t : Table flag_config_pk)
      → E.get (f, e) t ≡ some (default_config c f e)
      → E.get (f, e) (E.add (default_config c f x) t) ≡ some (default_config c f e)
  default_over c f e x t h = elim (Bool-cases (pair_eq (f, x) (f, e))) [
    | inl same ↦
        E.get-add (f, e) (default_config c f x) t
        ∙ rw same (ap (λ (k : ℕ). some (default_config c f k)) (ground arith))
    | inr other ↦ E.get-add (f, e) (default_config c f x) t ∙ rw other h
  ]

  add_defaults_keep :
      (c : Context) (f e : ℕ) (envs : List Environment) (t : Table flag_config_pk)
      → E.get (f, e) t ≡ some (default_config c f e)
      → E.get (f, e) (add_defaults c f envs t) ≡ some (default_config c f e)
  unfolding add_defaults
  add_defaults_keep c f e [] t h = h
  add_defaults_keep c f e (x ∷ envs) t h =
      add_defaults_keep c f e envs (E.add (default_config c f x.id) t) (default_over c f e x.id t h)

  pub get-add_defaults :
      (c : Context) (f : ℕ) (env : Environment) (envs : List Environment) (t : Table flag_config_pk)
      → Elem env envs
      → E.get (f, env.id) (add_defaults c f envs t) ≡ some (default_config c f env.id)
  unfolding add_defaults
  get-add_defaults c f env [] t h = elim h [ ]
  get-add_defaults c f env (x ∷ envs) t (inl here) =
      add_defaults_keep c f env.id envs (E.add (default_config c f x.id) t)
        (rw here (get-add_self (default_config c f x.id) t))
  get-add_defaults c f env (x ∷ envs) t (inr later) =
      get-add_defaults c f env envs (E.add (default_config c f x.id) t) later

-- The configuration that a new flag has: off, no targeting, and variation 0 everywhere.
abbrev pub default_out : Context → String → FlagConfigOut
default_out c env_key = record {
  environment_key = env_key;
  enabled = false;
  targets = [];
  rules = [];
  fallthrough = record { variation = some (pos 0); rollout = none };
  off_variation = pos 0;
  prerequisites = [];
  version = 1;
  updated_at = c.now;
  updated_by = some c.actor;
}

pub config_out-default_config :
    ⦃p : Pydantic⦄ (c : Context) (env_key : String) (f e : ℕ)
    → config_out env_key (default_config c f e) ≡ some (default_out c env_key)
unfolding config_out load_fallthrough load_choice
config_out-default_config ⦃p⦄ c env_key f e = rw (p.as_int-number (pos 0))

pub both_true : (a b : ℕ) (k j : String) → a ≡ b → k ≡ j → a == b && k == j ≡ true
both_true a b k j p q = ground (arith, eq_iff k j)

first_true : (a b : Bool) → a && b ≡ true → a ≡ true
first_true a b h = ground arith

module _ ⦃E : Engine⦄ ⦃p : Pydantic⦄ where
  -- After a flag was created, its configuration in each environment that the project had can be
  -- read: targeting is off, there are no targets, rules or prerequisites, the off variation and the
  -- fallthrough are variation 0, and the version is 1.
  pub get_flag_config-create_flag :
      (c : Context) (project_key env_key : String) (body : FlagCreate) (s : Transaction)
      {flag : Flag} {s' : Transaction} (project : Project) (env : Environment)
      → E.scalar (has_key project_key) s.projects ≡ some project
      → E.scalar (is_environment project.id env_key) s.environments ≡ some env
      → create_flag c project_key body s ≡ (ok flag, s')
      → get_flag_config project_key body.key env_key s' ≡ (ok (default_out c env.key), s')
  get_flag_config-create_flag c project_key env_key body s {flag} {s'} project env ep ee h =
      let m = create_flag-Created c project_key body s h in
      let same : m.project ≡ project =
        some-injective m.project project (sym m.project_found ∙ ep) in
      let (is_env, env_at) =
        E.scalar_some (is_environment project.id env_key) env s.environments ee in
      let flag = flag_of c project.id body in
      get_flag_config_at project_key body.key env_key s'
        (record {
          project = project;
          flag = flag;
          env = env;
          project_found = rw m.projects ep;
          flag_found = rw m.flags (
              rw same (
                scalar-add_new (is_flag project.id body.key) flag s.flags (rw same at m.unused_key)
                  (both_true project.id project.id body.key body.key refl refl)));
          env_found = rw m.environments ee;
        })
        (default_config c c.uuid env.id) (default_out c env.key)
        (rw m.flag_configs (
          rw same (
            get-add_defaults c c.uuid env (environments_of project.id s) s.flag_configs (
              E.scalars_complete (λ r. r.project_id == project.id) env.id env s.environments env_at
                (first_true _ _ is_env)))))
        (config_out-default_config c env.key c.uuid env.id)
