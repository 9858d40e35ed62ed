-- ===== src/Examples/Server.antt =====
-- Requests on a server: runs of the whole application, and the properties about it.
use feature_flags.App.Log.{serve_keeps_log}
use feature_flags.Api.Flags.Config.{apply_update, default_config}
use feature_flags.App.History.{serve-Later, Later}
use feature_flags.Api.Projects.Decided.{create_environment_decided, InColumn}
use feature_flags.Schemas.Catalog.{EnvironmentCreate}
use feature_flags.Api.Common.{is_environment, missing}
use feature_flags.Api.Projects.{
  environment_of, create_environment, exists_already, project_entry, project_of, create_project,
}
use feature_flags.Models.{
  Environment, environment_pk, audit_pk, flag_config_pk, AuditLog, FlagEnvironmentConfig,
}
use feature_flags.App.Audited.{handle-Audited, Audited}
use feature_flags.Base.Int.{pos_part}
use feature_flags.App.Invariant.{empty-IsConsistent, serve-IsConsistent}
use feature_flags.App.Reading.{handle-IsClientError}
use feature_flags.Services.Audit.{audit_row}
use feature_flags.Examples.Data.{
  empty, fallthrough_body, tables, strict, paywall, named_json, fallthrough_json, with_project,
  with_flag, streaming, start, setup, context, by_length,
}
use feature_flags.Api.Flags.Handlers.{flag_of, flag_entry, list_flags}
use feature_flags.Api.Audit.{list_audit}
use feature_flags.App.Requests.{Request, handle}
use feature_flags.Store.Session.{data_error, ok, err, Context, Server}
use feature_flags.App.Served.{handle-Outcome, handle-is_get, serve, Outcome}
use feature_flags.Base.{
  none, id_key, pair_key, take, some, refl, ◌⊎◌, arith, ◌≤◌, ◌∷◌, true, [], ◌≡◌, pos, String, List,
}
use feature_flags.Api.Listings.{list_audit-IsPage, IsPage}
use feature_flags.App.Consistent.{IsConsistent}
use feature_flags.App.Answers.{IsClientError}
use feature_flags.Examples.Runs.{runs}

-- The server after the requests of `setup`.
abbrev prepared : Server
prepared = serve by_length setup start

serve-IsConsistent_example : IsConsistent (serve by_length setup start).database
serve-IsConsistent_example = serve-IsConsistent by_length setup start empty-IsConsistent

handle-Outcome_example :
    Outcome (context 1) start (
      handle by_length
        (context 1)
        (Request.project_post (named_json "streaming" "Streaming"))
        start)
handle-Outcome_example =
    handle-Outcome by_length (context 1) (Request.project_post (named_json "streaming" "Streaming"))
      start

abbrev retarget : List (Context × Request)
retarget =
    (context 4, Request.flag_config_put "streaming" "paywall-v3" "production" fallthrough_json) ∷ []

stored :
    tables.get {pk = flag_config_pk} (3, 2) prepared.flag_configs
    ≡ some (default_config (context 3) 3 2)
unfolding runs
stored = refl

serve-Later_example :
    (cfg' : FlagEnvironmentConfig) × (tables.get {pk = flag_config_pk}
        (3, 2)
        (serve by_length retarget prepared).flag_configs
      ≡ some cfg')
    × Later (default_config (context 3) 3 2) cfg'
serve-Later_example =
    serve-Later by_length retarget prepared
      (serve-IsConsistent by_length setup start empty-IsConsistent) (3, 2)
      (default_config (context 3) 3 2) stored

-- The request that `retarget` makes raises the version.
retargeted :
    tables.get {pk = flag_config_pk} (3, 2) (serve by_length retarget prepared).flag_configs
    ≡ some (apply_update (context 4) fallthrough_body (default_config (context 3) 3 2))
unfolding runs
retargeted = refl

abbrev only_project : Server
only_project = serve by_length (take 1 setup) start

no_such_environment :
    handle by_length (context 6) (Request.credentials_get "streaming" "qa") only_project
    ≡ (err (missing "environment" "qa"), only_project)
unfolding runs
no_such_environment = refl

handle-IsClientError_example : IsClientError (missing "environment" "qa")
handle-IsClientError_example =
    handle-IsClientError by_length (context 6) (Request.credentials_get "streaming" "qa")
      only_project (serve-IsConsistent by_length (take 1 setup) start empty-IsConsistent) refl
      no_such_environment

handle-Audited_example :
    ((handle by_length
        (context 1)
        (Request.project_post (named_json "streaming" "Streaming"))
        start).1.database
      ≡ start.database)
    ⊎ Audited
        (context 1)
        start.database
        (handle by_length
          (context 1)
          (Request.project_post (named_json "streaming" "Streaming"))
          start).1.database
handle-Audited_example =
    handle-Audited by_length (context 1) (Request.project_post (named_json "streaming" "Streaming"))
      start

handle-is_get_example :
    (handle by_length (context 6) (Request.flags_get "streaming") prepared).1 ≡ prepared
handle-is_get_example =
    handle-is_get by_length (context 6) (Request.flags_get "streaming") prepared refl

-- A sort order of 2 ^ 31.
abbrev too_large : EnvironmentCreate
too_large = record { key = "qa"; name = "QA"; sort_order = pos 2147483648 }

create_environment_decided_example :
    (InColumn (pos 2147483648)
      × (tables.scalar {pk = environment_pk} (is_environment 1 "qa") with_flag.environments ≡ none)
      × ((env : Environment) × (env ≡ environment_of (context 6) 1 too_large)
          × ((create_environment (context 6) "streaming" too_large with_flag).0 ≡ ok env)
          × (tables.get {pk = environment_pk} 6
                (create_environment (context 6) "streaming" too_large with_flag).1.environments
              ≡ some env)))
    ⊎ (InColumn (pos 2147483648)
        × ((other : Environment) × (tables.scalar {pk = environment_pk}
                (is_environment 1 "qa")
                with_flag.environments
              ≡ some other)
            × (create_environment (context 6) "streaming" too_large with_flag
                ≡ (err (exists_already "environment" "qa"), with_flag))))
    ⊎ ((¬ InColumn (pos 2147483648))
        × (create_environment (context 6) "streaming" too_large with_flag
            ≡ (err data_error, with_flag)))
unfolding runs
create_environment_decided_example =
    create_environment_decided (context 6) "streaming" too_large with_flag
      {project = project_of (context 1) streaming} refl refl

by_length_total : (a b : String) → (by_length a b ≡ true) ⊎ (by_length b a ≡ true)
by_length_total a b = ground arith

by_length_trans :
    (a b c : String) → by_length a b ≡ true → by_length b c ≡ true → by_length a c ≡ true
by_length_trans a b c h k = ground arith

listed :
    list_flags by_length "streaming" with_flag
    ≡ (ok (flag_of (context 3) 1 paywall ∷ []), with_flag)
unfolding runs
listed = refl

abbrev newest : List AuditLog
newest =
    audit_row (context 3)
      (flag_entry (project_of (context 1) streaming) (flag_of (context 3) 1 paywall))
    ∷ []

shown_log : list_audit "streaming" (pos 1) with_flag ≡ (ok newest, with_flag)
unfolding runs
shown_log = refl

list_audit-IsPage_example :
    IsPage "streaming" (pos 1) with_flag newest × (1 ≤ pos_part (pos 1)) × (pos_part (pos 1) ≤ 500)
list_audit-IsPage_example = list_audit-IsPage "streaming" (pos 1) with_flag shown_log

created :
    create_project (context 1) streaming empty
    ≡ (ok (project_of (context 1) streaming), with_project)
unfolding runs
created = refl

-- The entry of the project's creation.
abbrev first_entry : AuditLog
first_entry = audit_row (context 1) (project_entry (project_of (context 1) streaming))

first_logged : tables.get {pk = audit_pk} 1 prepared.audit_logs ≡ some first_entry
unfolding runs
first_logged = refl

serve_keeps_log_example :
    tables.get {pk = audit_pk} 1 (serve by_length retarget prepared).audit_logs ≡ some first_entry
serve_keeps_log_example =
    serve_keeps_log by_length retarget prepared 1 first_entry (ground arith) first_logged
