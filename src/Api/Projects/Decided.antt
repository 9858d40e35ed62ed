-- ===== src/Api/Projects/Decided.antt =====
-- Which environments `create_environment` of control-plane/app/api/projects.py creates.
use feature_flags.Base.Int.{◌≤ℤ◌, ◌<ℤ◌}
use feature_flags.Api.Projects.{
  exists_already, create_environment, environment_of, environment_clashes, fits_integer,
}
use feature_flags.Api.Common.{has_key, is_environment, get_project}
use feature_flags.Services.Audit.{record_audit}
use feature_flags.Models.{Project, Environment}
use feature_flags.Schemas.Catalog.{EnvironmentCreate}
use feature_flags.Store.Session.{err, ok, data_error, Transaction, Context}
use feature_flags.Store.Engine.{Engine}
use feature_flags.Store.Relations.{get-add_same}
use feature_flags.Base.{
  ℤ, ◌⊎◌, ◌≡◌, ◌^◌, ◌-◌, pos, negsuc, id_key, text_key, inl, inr, none, some, true, false,
  Bool-cases, Option-cases, String, refl, arith,
}

-- The numbers from -2 ^ 31 to 2 ^ 31 - 1.
abbrev pub InColumn : ℤ → Type 0
InColumn n = (negsuc (2 ^ 31 - 1) ≤ℤ n) × (n <ℤ pos (2 ^ 31))

fits_integer-InColumn : (n : ℤ) → fits_integer n ≡ true → InColumn n
fits_integer-InColumn n h = ground arith

not_fits-InColumn : (n : ℤ) → fits_integer n ≡ false → ¬ InColumn n
not_fits-InColumn n h inside = ground arith

module _ ⦃E : Engine⦄ (c : Context) (project_key : String) (body : EnvironmentCreate)
    (s : Transaction) {project : Project} where
  -- In a project that exists, under a new id, an environment is created exactly where its sort order
  -- is in the range of a 32-bit column and its key is free in the project: the response is the
  -- environment with the fields of the request, which is stored under the new id. Where the sort
  -- order is in the range and an environment of the project has the key, the request is answered with
  -- 409, and where the sort order is out of the range, with an internal error; neither writes
  -- anything.
  pub create_environment_decided :
      E.scalar (has_key project_key) s.projects ≡ some project
      → E.get c.uuid s.environments ≡ none
      → (InColumn body.sort_order
          × (E.scalar (is_environment project.id body.key) s.environments ≡ none)
          × ((env : Environment) × (env ≡ record {
            id = c.uuid;
            project_id = project.id;
            key = body.key;
            name = body.name;
            sort_order = body.sort_order;
            created_at = c.now;
          })
              × ((create_environment c project_key body s).0 ≡ ok env)
              × (E.get c.uuid (create_environment c project_key body s).1.environments ≡ some env)))
        ⊎ (InColumn body.sort_order
            × ((other : Environment) × (E.scalar (is_environment project.id body.key) s.environments
                  ≡ some other)
                × (create_environment c project_key body s
                    ≡ (err (exists_already "environment" body.key), s))))
        ⊎ ((¬ InColumn body.sort_order)
            × (create_environment c project_key body s ≡ (err data_error, s)))
  unfolding create_environment record_audit environment_clashes get_project
  create_environment_decided found fresh = elim (Bool-cases (fits_integer body.sort_order)) [
    | inl fits ↦
        let inside = fits_integer-InColumn body.sort_order fits in
        elim (Option-cases (E.scalar (is_environment project.id body.key) s.environments)) [
          | inl free ↦
              let env = environment_of c project.id body in
              inl (
                inside,
                free,
                (
                  env,
                  refl,
                  rw (found, fits, fresh, free) refl,
                  rw (found, fits, fresh, free) (get-add_same env s.environments),
                ),
              )
          | inr (other, taken) ↦
              inr (inl (inside, (other, taken, rw (found, fits, fresh, taken) refl)))
        ]
    | inr wide ↦ inr (inr (not_fits-InColumn body.sort_order wide, rw (found, wide) refl))
  ]
