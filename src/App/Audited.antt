-- ===== src/App/Audited.antt =====
-- What a step leaves in the audit log of control-plane/app/services/audit.py.
use feature_flags.Api.Credentials.{credential_of, credential_entry}
use feature_flags.Api.Segments.{segment_update_entry, segment_of, segment_entry}
use feature_flags.Api.Flags.Config.{apply_update}
use feature_flags.Api.Flags.Handlers.{update_entry, flag_of, flag_entry}
use feature_flags.Api.Projects.{environment_of, environment_entry, project_of, project_entry}
use feature_flags.Models.{Project}
use feature_flags.Services.Audit.{audit_row, Entry}
use feature_flags.Schemas.Pydantic.{Pydantic}
use feature_flags.Store.Session.{Result, Server, Database, Context}
use feature_flags.Store.Engine.{Engine}
use feature_flags.App.Steps.{Step}
use feature_flags.App.Served.{Outcome, refused, carried_out, handle-Outcome}
use feature_flags.Base.{◌⊎◌, ℕ, List, Bool, String, some, ◌≡◌, id_key, inl, inr, refl}
use feature_flags.App.Requests.{Request, Reply, handle}
use feature_flags.Store.Relations.{get-add_same}

module _ ⦃E : Engine⦄ where
  -- One more audit row than before, by the caller, about a project that is stored.
  pub record Audited (c : Context) (d d' : Database) : Type 0 where
    pub entry : Entry
    pub written : d'.audit_logs ≡ E.add (audit_row c entry) d.audit_logs
    pub project : Project
    pub about : E.get entry.project_id d'.projects ≡ some project

  pub Step-Audited :
      {c : Context} {d d' : Database} {sent : List (String × ℕ)}
      → Step c d sent d'
      → (d' ≡ d) ⊎ Audited c d d'
  Step-Audited Step.unchanged = inl refl
  Step-Audited {c} {d} (Step.project_created b named fresh free) = inr (record {
    entry = project_entry (project_of c b);
    written = refl;
    project = project_of c b;
    about = get-add_same (project_of c b) d.projects;
  })
  Step-Audited {c} (Step.environment_created project b named there fresh free) = inr (record {
    entry = environment_entry project (environment_of c project.id b);
    written = refl;
    project = project;
    about = there;
  })
  Step-Audited {c} (Step.flag_created project b good there fresh free) = inr (record {
    entry = flag_entry project (flag_of c project.id b);
    written = refl;
    project = project;
    about = there;
  })
  Step-Audited {c}
        (Step.flag_config_updated project flag env before b sent here there in_project stored
          accepted indices out) =
      inr (record {
        entry = update_entry project flag env before (apply_update c b before);
        written = refl;
        project = project;
        about = here.project_stored;
      })
  Step-Audited {c} (Step.segment_created project b named there fresh free) = inr (record {
    entry = segment_entry project (segment_of c project.id b);
    written = refl;
    project = project;
    about = there;
  })
  Step-Audited
        (Step.segment_config_updated project seg env found b sent here there in_project stored
          accepted out) =
      inr (record {
        entry = segment_update_entry project seg env b;
        written = refl;
        project = project;
        about = here.project_stored;
      })
  Step-Audited {c} (Step.credential_issued project env b here fresh) = inr (record {
    entry =
        credential_entry "credential.created" "issued " project env (credential_of c env b.kind);
    written = refl;
    project = project;
    about = here.project_stored;
  })
  Step-Audited (Step.credential_revoked project env cred here there at active) = inr (record {
    entry = credential_entry "credential.revoked" "revoked " project env cred;
    written = refl;
    project = project;
    about = here.project_stored;
  })

  Outcome-Audited :
      {c : Context} {v : Server} {o : Result Reply × Server}
      → Outcome c v o
      → (o.1.database ≡ v.database) ⊎ Audited c v.database o.1.database
  Outcome-Audited (refused e) = inl refl
  Outcome-Audited (carried_out reply step) = Step-Audited step

  -- A request that changes a table, whichever it is, has added an audit row by the caller about a
  -- stored project, in the same commit.
  pub handle-Audited :
      ⦃p : Pydantic⦄ (collates : String → String → Bool) (c : Context) (r : Request) (v : Server)
      → ((handle collates c r v).1.database ≡ v.database)
        ⊎ Audited c v.database (handle collates c r v).1.database
  handle-Audited collates c r v = Outcome-Audited (handle-Outcome collates c r v)
