-- ===== src/Examples/Race.antt =====
-- Two updates of one flag at the same time.
use feature_flags.Base.{refl, pair_key, some, ◌≡◌, false, Bool}
use feature_flags.Api.Flags.Race.Lost.{lost_update}
use feature_flags.Api.Flags.Race.Serial.{update_flag_config-phases}
use feature_flags.Api.Flags.Replies.{response}
use feature_flags.Api.Projects.{environment_of, project_of}
use feature_flags.Models.{FlagEnvironmentConfig, flag_config_pk}
use feature_flags.Api.Flags.Handlers.{flag_of, update_flag_config}
use feature_flags.Examples.Runs.{runs}
use feature_flags.Json.{Json}
use feature_flags.Store.Compare.{same_json}
use feature_flags.Api.Flags.Race.{write_phase, read_phase, Found}
use feature_flags.Api.Flags.Config.{default_config, FlagConfigOut}
use feature_flags.Examples.Data.{
  tables, strict, production, paywall, streaming, rollout_body, fallthrough_body, context,
  with_flag,
}
use feature_flags.Store.Session.{ok, Transaction, ◌>>=◌}

abbrev pub found : Found
found = record {
  project = project_of (context 1) streaming;
  flag = flag_of (context 3) 1 paywall;
  env = environment_of (context 2) 1 production;
  cfg = default_config (context 3) 3 2;
}

-- No two columns compare as unchanged, so all are set.
abbrev pub all_changed : Json → Json → Bool
all_changed a b = false

abbrev pub first_write : Transaction
first_write = (write_phase all_changed (context 4) found rollout_body with_flag).1

abbrev pub second_write : Transaction
second_write = (write_phase all_changed (context 5) found fallthrough_body first_write).1

abbrev pub first_out : FlagConfigOut
first_out = response (context 4) "production" rollout_body (default_config (context 3) 3 2)

abbrev pub second_out : FlagConfigOut
second_out = response (context 5) "production" fallthrough_body (default_config (context 3) 3 2)

pub read : read_phase "streaming" "paywall-v3" "production" with_flag ≡ (ok found, with_flag)
unfolding runs read_phase
read = refl

pub wrote_first :
    write_phase all_changed (context 4) found rollout_body with_flag ≡ (ok first_out, first_write)
unfolding runs write_phase
wrote_first = refl

pub wrote_second :
    write_phase all_changed (context 5) found fallthrough_body first_write
    ≡ (ok second_out, second_write)
unfolding runs write_phase
wrote_second = refl

lost_update_example :
    (tables.get {pk = flag_config_pk} (3, 2) with_flag.flag_configs ≡ some found.cfg)
    × (first_out.version ≡ 2)
    × (second_out.version ≡ first_out.version)
    × ((row : FlagEnvironmentConfig) × (tables.get {pk = flag_config_pk}
            (3, 2)
            second_write.flag_configs
          ≡ some row)
        × (row.version ≡ first_out.version))
lost_update_example =
    lost_update all_changed (context 4) (context 5) "streaming" "paywall-v3" "production"
      rollout_body fallthrough_body with_flag read wrote_first wrote_second

update_flag_config-phases_example :
    update_flag_config (context 4) "streaming" "paywall-v3" "production" rollout_body with_flag
    ≡ (read_phase "streaming" "paywall-v3" "production" >>= λ f.
          write_phase same_json (context 4) f rollout_body)
        with_flag
update_flag_config-phases_example =
    update_flag_config-phases (context 4) rollout_body "streaming" "paywall-v3" "production"
      with_flag
