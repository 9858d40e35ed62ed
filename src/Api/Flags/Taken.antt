-- ===== src/Api/Flags/Taken.antt =====
-- Which flags `create_flag` of control-plane/app/api/flags.py creates: the branch on the unique
-- constraint of a flag's key in its project.
use feature_flags.Api.Projects.{exists_already}
use feature_flags.Api.Common.{is_flag, has_key, get_project}
use feature_flags.Services.Audit.{record_audit}
use feature_flags.Api.Flags.Handlers.{flag_of, flag_clashes, create_flag}
use feature_flags.Models.{Flag, Project}
use feature_flags.Schemas.FlagCreate.{FlagCreate}
use feature_flags.Store.Session.{err, ok, Transaction, Context}
use feature_flags.Store.Engine.{Engine}
use feature_flags.Json.{object, field, text, end}
use feature_flags.Store.Relations.{get-add_same}
use feature_flags.Base.{map, id_key, inr, inl, Option-cases, ◌⊎◌, none, some, ◌≡◌, String, refl}

module _ ⦃E : Engine⦄ (c : Context) (project_key : String) (body : FlagCreate) (s : Transaction)
    {project : Project} where
  -- In a project that exists, under a new id, a flag is created exactly where its key is free: the
  -- response is the flag with the fields of the request, which is stored under the new id; where a
  -- flag of the project has the key, the request is answered with 409 and writes nothing.
  pub create_flag_decided :
      E.scalar (has_key project_key) s.projects ≡ some project
      → E.get c.uuid s.flags ≡ none
      → ((E.scalar (is_flag project.id body.key) s.flags ≡ none)
          × ((flag : Flag) × (flag ≡ record {
            id = c.uuid;
            project_id = project.id;
            key = body.key;
            name = body.name;
            description = body.description;
            kind = body.kind;
            variations =
                map
                  (λ v. object (field "name" (text v.name) (field "value" v.value end)))
                  body.variations;
            salt = c.token;
            temporary = body.temporary;
            tags = body.tags;
            owner = body.owner;
            client_side_available = body.client_side_available;
            created_at = c.now;
            archived_at = none;
          })
              × ((create_flag c project_key body s).0 ≡ ok flag)
              × (E.get c.uuid (create_flag c project_key body s).1.flags ≡ some flag)))
        ⊎ ((other : Flag) × (E.scalar (is_flag project.id body.key) s.flags ≡ some other)
            × (create_flag c project_key body s ≡ (err (exists_already "flag" body.key), s)))
  unfolding create_flag record_audit flag_clashes get_project
  create_flag_decided found fresh =
      elim (Option-cases (E.scalar (is_flag project.id body.key) s.flags)) [
        | inl free ↦
            let flag = flag_of c project.id body in
            inl (
              free,
              (
                flag,
                refl,
                rw (found, fresh, free) refl,
                rw (found, fresh, free) (get-add_same flag s.flags),
              ),
            )
        | inr (other, taken) ↦ inr (other, taken, rw (found, fresh, taken) refl)
      ]
