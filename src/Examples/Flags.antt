-- ===== src/Examples/Flags.antt =====
-- Flags and their targeting: runs of the handlers, and each property about them at an input.
use feature_flags.Api.Flags.Taken.{create_flag_decided}
use feature_flags.Schemas.RoundTrip.{load-dump_rules}
use feature_flags.Schemas.Dump.{dump_rule, dump_list}
use feature_flags.Api.Common.{is_flag}
use feature_flags.Models.{Flag, flag_pk}
use feature_flags.Api.Flags.Refusals.{update_flag_config_refused}
use feature_flags.Schemas.Flag.{FlagConfigUpdate}
use feature_flags.Base.{
  id_key, ◌⊎◌, some, none, ◌≢◌, pos, String, List, ◌≡◌, ◌↔◌, refl, inl, [], All, arith,
}
use feature_flags.Schemas.Load.{load_rule, load_list, load_flag_config_update}
use feature_flags.Schemas.Accepted.{IsAccepted}
use feature_flags.Schemas.Soundness.{load_flag_config_update-IsAccepted}
use feature_flags.Schemas.FlagCreate.{
  IsFlagCreate, load_flag_create, load_variation, load_flag_create-IsFlagCreate,
}
use feature_flags.Schemas.Catalog.{is_key, is_name}
use feature_flags.Store.Session.{index_out_of_range, http_exception, Transaction, ok, err}
use feature_flags.Api.Projects.{exists_already, project_of, environment_of, create_environment}
use feature_flags.Api.Flags.Indices.{validate_indices}
use feature_flags.Api.Flags.IndexLaws.{Exists, references, validate_indices_iff}
use feature_flags.Api.Flags.Config.{default_config}
use feature_flags.Api.Flags.Handlers.{
  create_flag, no_config, flag_of, get_flag_config, update_flag_config,
}
use feature_flags.Api.Flags.Update.{Located}
use feature_flags.Api.Flags.Written.{Written, update_flag_config-Written}
use feature_flags.Api.Flags.ReadBack.{get_flag_config-update_flag_config}
use feature_flags.Api.Flags.Replies.{response, update_flag_config_succeeds}
use feature_flags.Api.Flags.Create.{default_out, get_flag_config-create_flag}
use feature_flags.Api.Flags.NewEnvironment.{HasEnvironments, older_flag_without_config}
use feature_flags.Examples.Runs.{runs}
use feature_flags.Examples.Data.{
  fallthrough_body, fallthrough_json, with_production, with_rollout, with_flag, paywall_json,
  strict, tables, context, streaming, production, staging, paywall, rollout_body,
}

-- The rows of the example.
pub located : Located "streaming" "paywall-v3" "production" with_flag
unfolding runs
located = record {
  project = project_of (context 1) streaming;
  flag = flag_of (context 3) 1 paywall;
  env = environment_of (context 2) 1 production;
  project_found = refl;
  flag_found = refl;
  env_found = refl;
}

updated :
    update_flag_config (context 4) "streaming" "paywall-v3" "production" rollout_body with_flag ≡ (
      ok (response (context 4) "production" rollout_body (default_config (context 3) 3 2)),
      with_rollout,
    )
unfolding runs
updated = refl

rollout-IsAccepted : IsAccepted rollout_body
unfolding runs
rollout-IsAccepted = ground arith

update_flag_config-Written_example :
    Written (context 4) "streaming" "paywall-v3" "production" rollout_body with_flag with_rollout
update_flag_config-Written_example =
    update_flag_config-Written (context 4) "streaming" "paywall-v3" "production" rollout_body
      with_flag updated

get_flag_config-update_flag_config_example :
    get_flag_config "streaming" "paywall-v3" "production" with_rollout ≡ (
      ok (response (context 4) "production" rollout_body (default_config (context 3) 3 2)),
      with_rollout,
    )
unfolding runs located
get_flag_config-update_flag_config_example =
    get_flag_config-update_flag_config "streaming" "paywall-v3" "production" with_flag located
      (default_config (context 3) 3 2) refl (context 4) rollout_body updated
      {earlier = default_out (context 3) "production"} refl

update_flag_config_succeeds_example :
    (update_flag_config (context 4) "streaming" "paywall-v3" "production" rollout_body with_flag).0
    ≡ ok (response (context 4) "production" rollout_body (default_config (context 3) 3 2))
unfolding runs located
update_flag_config_succeeds_example =
    update_flag_config_succeeds (context 4) "streaming" "paywall-v3" "production" rollout_body
      with_flag located (default_config (context 3) 3 2) refl rollout-IsAccepted (omega arith) refl
      (inl refl)

get_flag_config-create_flag_example :
    get_flag_config "streaming" "paywall-v3" "production" with_flag
    ≡ (ok (default_out (context 3) "production"), with_flag)
unfolding runs
get_flag_config-create_flag_example =
    get_flag_config-create_flag (context 3) "streaming" "production" paywall with_production
      {flag = flag_of (context 3) 1 paywall} {s' = with_flag} (project_of (context 1) streaming)
      (environment_of (context 2) 1 production) refl refl refl

abbrev with_staging : Transaction
with_staging = (create_environment (context 5) "streaming" staging with_flag).1

with_flag-HasEnvironments : HasEnvironments with_flag
unfolding runs
with_flag-HasEnvironments = record {
  at = λ k cfg h. (environment_of (context 2) 1 production, ground arith);
}

older_flag_without_config_example :
    (get_flag_config "streaming" "paywall-v3" "staging" with_staging
      ≡ (err no_config, with_staging))
    × (update_flag_config (context 6) "streaming" "paywall-v3" "staging" rollout_body with_staging
        ≡ (err no_config, with_staging))
unfolding runs
older_flag_without_config_example =
    older_flag_without_config (context 5) (context 6) "streaming" "paywall-v3" staging rollout_body
      with_flag {env = environment_of (context 5) 1 staging} {s' = with_staging}
      (project_of (context 1) streaming) (flag_of (context 3) 1 paywall) with_flag-HasEnvironments
      refl refl refl

validate_indices_iff_example :
    (validate_indices rollout_body 2 ≡ []) ↔ All (Exists 2) (references rollout_body)
validate_indices_iff_example = validate_indices_iff rollout_body 2

load_flag_config_update-IsAccepted_example : IsAccepted fallthrough_body
unfolding runs load_flag_config_update
load_flag_config_update-IsAccepted_example =
    load_flag_config_update-IsAccepted fallthrough_json fallthrough_body refl

load_flag_create-IsFlagCreate_example : IsFlagCreate paywall
unfolding load_flag_create load_variation is_key is_name
load_flag_create-IsFlagCreate_example = load_flag_create-IsFlagCreate paywall_json paywall refl

-- The flag has two variations, and none of index 2.
abbrev beyond : FlagConfigUpdate
beyond = record rollout_body { off_variation = pos 2 }

beyond-refused : ¬ All (Exists 2) (references beyond)
beyond-refused = ground arith

update_flag_config_refused_example :
    (bad : List String) × (bad ≢ [])
    × (update_flag_config (context 4) "streaming" "paywall-v3" "production" beyond with_flag
        ≡ (err (http_exception 422 (index_out_of_range bad)), with_flag))
unfolding runs located
update_flag_config_refused_example =
    update_flag_config_refused (context 4) "streaming" "paywall-v3" "production" beyond with_flag
      located (default_config (context 3) 3 2) refl beyond-refused

create_flag_decided_example :
    ((tables.scalar {pk = flag_pk} (is_flag 1 "paywall-v3") with_production.flags ≡ none)
      × ((flag : Flag) × (flag ≡ flag_of (context 3) 1 paywall)
          × ((create_flag (context 3) "streaming" paywall with_production).0 ≡ ok flag)
          × (tables.get {pk = flag_pk} 3
                (create_flag (context 3) "streaming" paywall with_production).1.flags
              ≡ some flag)))
    ⊎ ((other : Flag) × (tables.scalar {pk = flag_pk} (is_flag 1 "paywall-v3") with_production.flags
          ≡ some other)
        × (create_flag (context 3) "streaming" paywall with_production
            ≡ (err (exists_already "flag" "paywall-v3"), with_production)))
unfolding runs
create_flag_decided_example =
    create_flag_decided (context 3) "streaming" paywall with_production
      {project = project_of (context 1) streaming} refl refl

load-dump_rules_example :
    load_list load_rule (dump_list dump_rule rollout_body.rules) ≡ some rollout_body.rules
load-dump_rules_example = load-dump_rules rollout_body.rules rollout-IsAccepted.rules
