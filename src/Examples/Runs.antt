-- ===== src/Examples/Runs.antt =====
-- What a run of the handlers on tables in memory computes with.
use feature_flags.Store.Compare.{same_json}
use feature_flags.Store.Sorting.{sort_rows, insert_before}
use feature_flags.Api.Audit.{list_audit}
use feature_flags.App.Responses.{flag_out}
use feature_flags.App.Served.{serve}
use feature_flags.Store.Session.{get_session}
use feature_flags.App.Requests.{route, handle}
use feature_flags.Services.Credentials.{hash_key, generate}
use feature_flags.Api.Credentials.{revoke_credential, create_credential, list_credentials}
use feature_flags.Api.Segments.{
  get_segment_row, get_segment_config, dump_segment_rule, segment_config_out, apply_segment_update,
  save_segment_config, write_segment_config, update_segment_config, segment_clashes, create_segment,
  flushed_segment_config,
}
use feature_flags.Schemas.Credential.{load_credential_create}
use feature_flags.Schemas.Segment.{
  load_segment_rule, load_segment_config_update, load_segment_create,
}
use feature_flags.Schemas.FlagCreate.{load_variation, load_flag_create}
use feature_flags.Schemas.Catalog.{is_name, is_key, load_environment_create, load_project_create}
use feature_flags.Schemas.Limits.{weights_from, weights_sum_to_100k}
use feature_flags.Schemas.Dump.{
  dump_weighted_variation, dump_rollout, dump_clause, dump_choice, dump_fallthrough, dump_rule,
  dump_target, operator_text,
}
use feature_flags.Schemas.Load.{
  load_flag_config_update, operator_of, load_prerequisite, load_operator, load_clause,
  load_weighted_variation, load_rollout, load_choice, load_fallthrough, load_target, load_rule,
}
use feature_flags.Api.Flags.Config.{config_out, apply_update, flushed_config}
use feature_flags.Api.Flags.Indices.{
  check_weighted, check_choice, check_rules, check_targets, check, validate_indices,
}
use feature_flags.Services.Notify.{env_changed}
use feature_flags.Services.Audit.{record_audit}
use feature_flags.Api.Common.{get_segment, get_environment, get_flag, get_project}
use feature_flags.Api.Flags.Handlers.{
  get_one_flag, list_flags, add_defaults, flag_clashes, save_config, get_config, replace_config,
  update_flag_config, get_flag_config, create_flag,
}
use feature_flags.Api.Projects.{
  get_one_project, environment_clashes, project_clashes, create_environment, create_project,
}
use feature_flags.Base.Int.{◌+ℤ◌}
use feature_flags.Store.Memory.{find, scalar_in, select, live}

-- A proof that unfolds `runs` computes the handlers on tables in memory.
unfoldable pub runs : Unit {0}
unfolding create_project create_environment create_flag get_flag_config update_flag_config
    replace_config get_config save_config get_project get_flag get_environment project_clashes
    environment_clashes flag_clashes record_audit env_changed find scalar_in select live
    validate_indices apply_update config_out load_rule load_target load_fallthrough load_choice
    load_rollout load_weighted_variation load_clause load_operator load_prerequisite operator_of
    operator_text weights_sum_to_100k weights_from ◌+ℤ◌ dump_target dump_rule dump_fallthrough
    dump_choice dump_clause dump_rollout dump_weighted_variation check check_targets check_rules
    check_choice check_weighted add_defaults load_project_create load_environment_create
    load_flag_create load_variation is_key is_name load_segment_create load_segment_config_update
    load_segment_rule load_credential_create load_flag_config_update create_segment segment_clashes
    get_segment update_segment_config write_segment_config save_segment_config apply_segment_update
    segment_config_out dump_segment_rule create_credential revoke_credential generate hash_key
    handle route get_session serve flag_out list_flags list_audit sort_rows insert_before
    get_one_flag get_one_project get_segment_config get_segment_row list_credentials flushed_config
    flushed_segment_config same_json
runs = tt
