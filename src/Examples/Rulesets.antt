-- ===== src/Examples/Rulesets.antt =====
-- Loads of data-plane/internal/store/store.go on the tables of the other examples.
use feature_flags.DataPlane.Rulesets.Missed.{lost_update_unserved}
use feature_flags.DataPlane.Rulesets.Loading.{Holds}
use feature_flags.DataPlane.Rulesets.Refreshed.{load_all-Holds, load_all_blocked}
use feature_flags.Base.{id_key, ℕ, ◌∷◌, ◌≡◌, some, none, [], Option, refl}
use feature_flags.Api.Flags.Race.{write_phase}
use feature_flags.Examples.Runs.{runs}
use feature_flags.DataPlane.Rulesets.{assemble, load_all, Rulesets, Ruleset}
use feature_flags.Models.{
  environment_pk, SegmentEnvironmentConfig, FlagEnvironmentConfig, Segment, Flag,
}
use feature_flags.Examples.Data.{fallthrough_body, rollout_body, context, tables, strict, with_flag}
use feature_flags.Examples.Race.{
  wrote_second, wrote_first, read, all_changed, second_write, first_write, found,
}

-- Of a row, the time of its last update is decoded.
abbrev time_of_flag : Flag → FlagEnvironmentConfig → Option ℕ
time_of_flag f c = some c.updated_at

abbrev time_of_segment : Segment → SegmentEnvironmentConfig → Option ℕ
time_of_segment s c = some c.updated_at

-- The row of a flag that is not decoded.
abbrev broken_flag : Flag → FlagEnvironmentConfig → Option ℕ
broken_flag f c = none

abbrev nothing_held : Rulesets ℕ ℕ
nothing_held k = none

abbrev first_load : Rulesets ℕ ℕ
first_load = (load_all time_of_flag time_of_segment first_write.tables nothing_held).1

loaded :
    load_all time_of_flag time_of_segment first_write.tables nothing_held
    ≡ (some (2 ∷ []), first_load)
unfolding runs write_phase load_all
loaded = refl

-- The ruleset of the second update, at time 5.
abbrev second_ruleset : Ruleset ℕ ℕ
second_ruleset = record {
  env_id = 2;
  version = 2;
  flags = ("paywall-v3", 5) ∷ [];
  segments = [];
  client_flags = [];
}

assembled :
    assemble time_of_flag time_of_segment second_write.tables found.env ≡ some second_ruleset
unfolding runs write_phase assemble
assembled = refl

-- The load after the second update leaves the flag of the first, at time 4.
still_first :
    (load_all time_of_flag time_of_segment second_write.tables first_load).1 2
    ≡ some (record second_ruleset { flags = ("paywall-v3", 4) ∷ [] })
unfolding runs write_phase load_all
still_first = refl

lost_update_unserved_example :
    (load_all time_of_flag time_of_segment second_write.tables first_load).1 2 ≡ first_load 2
lost_update_unserved_example =
    lost_update_unserved time_of_flag time_of_segment all_changed (context 4) (context 5)
      "streaming" "paywall-v3" "production" rollout_body fallthrough_body with_flag nothing_held
      first_load second_ruleset read wrote_first loaded wrote_second assembled

stored_environment : tables.get {pk = environment_pk} 2 first_write.environments ≡ some found.env
unfolding runs write_phase
stored_environment = refl

load_all-Holds_example :
    (rs : Ruleset ℕ ℕ) × (assemble time_of_flag time_of_segment first_write.tables found.env
      ≡ some rs)
    × Holds (assemble time_of_flag time_of_segment first_write.tables) first_load 2 rs.version
load_all-Holds_example =
    load_all-Holds time_of_flag time_of_segment first_write.tables found.env stored_environment
      nothing_held first_load loaded

broken : assemble broken_flag time_of_segment first_write.tables found.env ≡ none
unfolding runs write_phase assemble
broken = refl

load_all_blocked_example :
    (load_all broken_flag time_of_segment first_write.tables first_load).0 ≡ none
load_all_blocked_example =
    load_all_blocked broken_flag time_of_segment first_write.tables found.env stored_environment
      first_load broken
