-- ===== src/Api/Parts.antt =====
-- What the WHERE clauses of control-plane/app/api/_common.py say of a row that they find.
use feature_flags.Api.Common.{is_flag, is_environment, has_key}
use feature_flags.Store.Session.{Database}
use feature_flags.Models.{Project, Flag, Environment}
use feature_flags.Store.Engine.{Engine}
use feature_flags.Base.{id_key, true, some, ◌≡◌, ℕ, String, arith, nat_eq_iff, eq_iff}

pub has_key-parts : (key : String) (r : Project) → has_key key r ≡ true → r.key ≡ key
has_key-parts key r h = ground (arith, eq_iff r.key key)

pub is_environment-parts :
    (project_id : ℕ) (key : String) (r : Environment)
    → is_environment project_id key r ≡ true
    → (r.project_id ≡ project_id) × (r.key ≡ key)
is_environment-parts project_id key r h =
    ground (arith, nat_eq_iff r.project_id project_id, eq_iff r.key key)

pub is_flag-parts :
    (project_id : ℕ) (key : String) (r : Flag)
    → is_flag project_id key r ≡ true
    → (r.project_id ≡ project_id) × (r.key ≡ key)
is_flag-parts project_id key r h =
    ground (arith, nat_eq_iff r.project_id project_id, eq_iff r.key key)

module _ ⦃E : Engine⦄ where
  -- A project and an environment of it, stored under their keys.
  pub record PlaceOf (project_key env_key : String) (project : Project) (env : Environment)
      (d : Database) : Type 0 where
    pub project_stored : E.get project.id d.projects ≡ some project
    pub project_named : project.key ≡ project_key
    pub env_stored : E.get env.id d.environments ≡ some env
    pub env_in : env.project_id ≡ project.id
    pub env_named : env.key ≡ env_key

  pub scalar-PlaceOf :
      (project_key env_key : String) (project : Project) (env : Environment) (d : Database)
      → E.scalar (has_key project_key) d.projects ≡ some project
      → E.scalar (is_environment project.id env_key) d.environments ≡ some env
      → PlaceOf project_key env_key project env d
  scalar-PlaceOf project_key env_key project env d ep ee =
      let (named, there) = E.scalar_some (has_key project_key) project d.projects ep in
      let (passes, env_there) =
        E.scalar_some (is_environment project.id env_key) env d.environments ee in
      let (inside, env_named) = is_environment-parts project.id env_key env passes in
      record {
        project_stored = there;
        project_named = has_key-parts project_key project named;
        env_stored = env_there;
        env_in = inside;
        env_named = env_named;
      }

  -- A change of other tables moves neither.
  pub PlaceOf-kept :
      {project_key env_key : String} {project : Project} {env : Environment} {d d' : Database}
      → PlaceOf project_key env_key project env d
      → d'.projects ≡ d.projects
      → d'.environments ≡ d.environments
      → PlaceOf project_key env_key project env d'
  PlaceOf-kept p same_projects same_environments = record {
    project_stored = rw same_projects p.project_stored;
    project_named = p.project_named;
    env_stored = rw same_environments p.env_stored;
    env_in = p.env_in;
    env_named = p.env_named;
  }
