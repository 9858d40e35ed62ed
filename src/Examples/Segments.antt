-- ===== src/Examples/Segments.antt =====
-- Segments: an update of a segment's configuration, and the properties about it.
use feature_flags.Api.Segments.ReadBack.{get_segment_config-update_segment_config}
use feature_flags.Store.Session.{ok}
use feature_flags.Base.{refl, none, [], ◌≡◌}
use feature_flags.Api.Projects.{environment_of, project_of}
use feature_flags.Api.Segments.Replies.{response}
use feature_flags.Examples.Data.{
  tables, strict, production, streaming, members, with_segment, with_members, context,
}
use feature_flags.Api.Segments.{
  segment_of, start_config, update_segment_config, get_segment_config, SegmentConfigOut,
}
use feature_flags.Api.Segments.Update.{Located}
use feature_flags.Examples.Runs.{runs}

-- The rows of the example.
here : Located "streaming" "beta" "production" with_segment
unfolding runs
here = record {
  project = project_of (context 1) streaming;
  seg = segment_of (context 9) 1 (record { key = "beta"; name = "Beta"; description = none });
  env = environment_of (context 2) 1 production;
  project_found = refl;
  seg_found = refl;
  env_found = refl;
}

abbrev members_out : SegmentConfigOut
members_out = response (context 10) "production" members (start_config (context 10) 9 2 none)

updated :
    update_segment_config (context 10) "streaming" "beta" "production" members with_segment
    ≡ (ok members_out, with_members)
unfolding runs
updated = refl

get_segment_config-update_segment_config_example :
    get_segment_config "streaming" "beta" "production" with_members ≡ (ok members_out, with_members)
unfolding runs here
get_segment_config-update_segment_config_example =
    get_segment_config-update_segment_config (context 10) "streaming" "beta" "production" members
      with_segment here updated [] refl
