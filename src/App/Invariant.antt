-- ===== src/App/Invariant.antt =====
-- Every step keeps the tables consistent, so every server that requests lead to from the tables of
-- the migrations is consistent.
use feature_flags.App.Updates.{flag_config_kept, segment_config_kept, credential_kept}
use feature_flags.Api.Credentials.{credential_of}
use feature_flags.Schemas.Pydantic.{Pydantic}
use feature_flags.Store.Session.{Result, Server, Database, empty_database, Context}
use feature_flags.Store.Engine.{Engine}
use feature_flags.App.Consistent.{IsConsistent}
use feature_flags.App.Creations.{project_kept, environment_kept, flag_kept, segment_kept}
use feature_flags.App.Steps.{Step}
use feature_flags.App.Served.{serve, handle-Outcome, Outcome, refused, carried_out}
use feature_flags.App.Requests.{Request, Reply, handle}
use feature_flags.Base.{
  refl, ℕ, List, Bool, String, Key, some, ◌≡◌, id_key, pair_key, text_key, ◌∷◌, [],
}

module _ ⦃E : Engine⦄ where
  pub Step-IsConsistent :
      {c : Context} {d d' : Database} {sent : List (String × ℕ)}
      → Step c d sent d'
      → IsConsistent d
      → IsConsistent d'
  Step-IsConsistent Step.unchanged h = h
  Step-IsConsistent {c} {d} (Step.project_created b named fresh free) h =
      project_kept c d h b _ fresh free
  Step-IsConsistent {c} {d} (Step.environment_created project b named there fresh free) h =
      environment_kept c d h project b _ there fresh free
  Step-IsConsistent {c} {d} (Step.flag_created project b good there fresh free) h =
      flag_kept c d h project b _ good there fresh free
  Step-IsConsistent {c} {d}
        (Step.flag_config_updated project flag env before b sent here there in_project stored
          accepted indices out)
        h =
      flag_config_kept c d h project env here flag before b _ there in_project stored accepted
        indices
  Step-IsConsistent {c} {d} (Step.segment_created project b named there fresh free) h =
      segment_kept c d h project b _ there fresh free
  Step-IsConsistent {c} {d}
        (Step.segment_config_updated project seg env found b sent here there in_project stored
          accepted out)
        h =
      segment_config_kept c d h project env here seg found b _ there in_project stored accepted
  Step-IsConsistent {c} {d} (Step.credential_issued project env b here fresh) h =
      credential_kept c d h project env here (credential_of c env b.kind) _ refl
  Step-IsConsistent {c} {d} (Step.credential_revoked project env cred here there at active) h =
      credential_kept c d h project env here (record cred { revoked_at = some c.now }) _ at

  Outcome-IsConsistent :
      {c : Context} {v : Server} {o : Result Reply × Server}
      → Outcome c v o
      → IsConsistent v.database
      → IsConsistent o.1.database
  Outcome-IsConsistent (refused e) h = h
  Outcome-IsConsistent (carried_out reply step) h = Step-IsConsistent step h

  nothing_stored :
      {K Row A : Type 0} {pk : Row → K} ⦃i : Key K⦄ (k : K) (r : Row)
      → E.get k (E.empty {pk = pk}) ≡ some r
      → A
  nothing_stored k r h = absurd (cc (E.get-empty k))

  -- The empty tables that the migrations create are consistent.
  pub empty-IsConsistent : IsConsistent empty_database
  empty-IsConsistent = record {
    project_keys = λ j k p q at _ _. nothing_stored j p at;
    environment_keys = λ j k p q at _ _. nothing_stored j p at;
    flag_keys = λ j k p q at _ _. nothing_stored j p at;
    segment_keys = λ j k p q at _ _. nothing_stored j p at;
    environment_project = λ k r at. nothing_stored k r at;
    flag_project = λ k r at. nothing_stored k r at;
    segment_project = λ k r at. nothing_stored k r at;
    credential_environment = λ k r at. nothing_stored k r at;
    flags = λ k r at. nothing_stored k r at;
    flag_configs = λ k r at. nothing_stored k r at;
    segment_configs = λ k r at. nothing_stored k r at;
  }

  -- Whatever requests a server whose tables are consistent takes, in whatever contexts, its tables
  -- stay consistent: keys stay unique, every environment, flag, segment, credential and
  -- configuration belongs to a stored row, and every stored targeting is one that its request model
  -- accepts and names only variations that its flag has.
  pub serve-IsConsistent :
      ⦃p : Pydantic⦄ (collates : String → String → Bool) (rs : List (Context × Request))
      (v : Server)
      → IsConsistent v.database
      → IsConsistent (serve collates rs v).database
  unfolding serve
  serve-IsConsistent collates [] v h = h
  serve-IsConsistent collates ((c, r) ∷ rs) v h =
      serve-IsConsistent collates rs (handle collates c r v).1
        (Outcome-IsConsistent (handle-Outcome collates c r v) h)
