-- ===== src/Api/Segments/Replies.antt =====
-- What a client of control-plane/app/api/segments.py reads back after an update.
use feature_flags.Services.Audit.{record_audit}
use feature_flags.Api.Lookups.{get_environment_found, get_segment_found, get_project_found}
use feature_flags.Schemas.Dump.{dump_clause, dump_list}
use feature_flags.Schemas.Flag.{Clause}
use feature_flags.Schemas.Load.{load_clause, load_list}
use feature_flags.Models.{SegmentEnvironmentConfig}
use feature_flags.Schemas.Segment.{SegmentRule, SegmentConfigUpdate, load_segment_rule}
use feature_flags.Api.Segments.{
  no_segment_config, get_segment_row, start_config, save_segment_config, write_segment_config,
  update_segment_config, SegmentConfigOut, dump_segment_rule, apply_segment_update,
  segment_config_out, get_segment_config,
}
use feature_flags.Base.{
  refl, arith, false, ltb, not, ℕ, ap, Option, ◌⊎◌, pair_key, ◌^◌, ◌<◌, ◌∙◌, some, ◌+◌, ◌≡◌, All,
  String, List,
}
use feature_flags.Schemas.Pydantic.{Pydantic}
use feature_flags.Store.Engine.{Engine}
use feature_flags.Store.Session.{
  ◌>>=◌, Action, response_validation_error, or_raise, Result, ok, Transaction, Context,
}
use feature_flags.Schemas.RoundTrip.{
  load_list-dump_list, load_clause-dump_clause, Always, All-Always, is_nonempty-of_ne,
}
use feature_flags.Schemas.Bodies.{IsSegmentRule}
use feature_flags.Store.Actions.{or_raise-some}
use feature_flags.Services.Outbox.{env_changed_known}
use feature_flags.Api.Segments.Update.{Located}

-- The response to an update: the members and rules of the request, under the next version.
abbrev pub response :
    Context → String → SegmentConfigUpdate → SegmentEnvironmentConfig → SegmentConfigOut
response c env_key body before = record {
  environment_key = env_key;
  context_kind = body.context_kind;
  included = body.included;
  excluded = body.excluded;
  rules = body.rules;
  version = before.version + 1;
  updated_at = c.now;
}

not-ltb-false : (n m : ℕ) → n < m → not (ltb n m) ≡ false
not-ltb-false n m h = ground arith

module _ ⦃p : Pydantic⦄ where
  load_segment_rule-dump :
      (r : SegmentRule) → IsSegmentRule r → load_segment_rule (dump_segment_rule r) ≡ some r
  unfolding load_segment_rule dump_segment_rule
  load_segment_rule-dump r h = rw (
    load_list-dump_list (Always {A = Clause}) load_clause dump_clause
        (λ c _. load_clause-dump_clause c) r.clauses (All-Always r.clauses),
    is_nonempty-of_ne r.clauses h.clauses,
  )

  pub load-dump_segment_rules :
      (rs : List SegmentRule)
      → All IsSegmentRule rs
      → load_list load_segment_rule (dump_list dump_segment_rule rs) ≡ some rs
  load-dump_segment_rules =
      load_list-dump_list IsSegmentRule load_segment_rule dump_segment_rule load_segment_rule-dump

  pub segment_config_out-apply :
      (c : Context) (env_key : String) (body : SegmentConfigUpdate)
      (before : SegmentEnvironmentConfig)
      → All IsSegmentRule body.rules
      → segment_config_out env_key (apply_segment_update c body before)
        ≡ some (response c env_key body before)
  unfolding segment_config_out apply_segment_update
  segment_config_out-apply c env_key body before h = rw (load-dump_segment_rules body.rules h)

module _ ⦃E : Engine⦄ ⦃p : Pydantic⦄ where
  get_segment_row_found :
      {B : Type 0} (segment_id env_id : ℕ) (f : SegmentEnvironmentConfig → Action B)
      (s : Transaction) (cfg : SegmentEnvironmentConfig)
      → E.get (segment_id, env_id) s.segment_configs ≡ some cfg
      → (get_segment_row segment_id env_id >>= f) s ≡ f cfg s
  unfolding get_segment_row
  get_segment_row_found segment_id env_id f s cfg e = or_raise-some _ no_segment_config f s cfg e

  -- Reading the configuration at a place where its rows are.
  pub get_segment_config_at :
      (project_key segment_key env_key : String) (s : Transaction)
      (at : Located project_key segment_key env_key s) (cfg : SegmentEnvironmentConfig)
      (out : SegmentConfigOut)
      → E.get (at.seg.id, at.env.id) s.segment_configs ≡ some cfg
      → segment_config_out at.env.key cfg ≡ some out
      → get_segment_config project_key segment_key env_key s ≡ (ok out, s)
  unfolding get_segment_config
  get_segment_config_at project_key segment_key env_key s at cfg out stored shown =
      get_project_found project_key _ s at.project at.project_found
      ∙ get_segment_found at.project.id segment_key _ s at.seg at.seg_found
      ∙ get_environment_found at.project.id env_key _ s at.env at.env_found
      ∙ get_segment_row_found at.seg.id at.env.id _ s cfg stored
      ∙ rw shown refl

  module _ (c : Context) (project_key segment_key env_key : String) (body : SegmentConfigUpdate)
      (s : Transaction) where
    write_segment_config_succeeds :
        (at : Located project_key segment_key env_key s) (found : Option SegmentEnvironmentConfig)
        → All IsSegmentRule body.rules
        → (start_config c at.seg.id at.env.id found).version + 1 < 2 ^ 63
        → (c.backend ≡ "postgres") ⊎ (c.backend ≡ "log")
        → (write_segment_config c at.project at.seg at.env found body s).0
          ≡ ok (response c at.env.key body (start_config c at.seg.id at.env.id found))
    unfolding write_segment_config save_segment_config record_audit apply_segment_update
    write_segment_config_succeeds at found rules fits known =
        let before = start_config c at.seg.id at.env.id found in
        rw (not-ltb-false (before.version + 1) (2 ^ 63) fits) (
          rw
            (env_changed_known c at.env.id
              (or_raise (segment_config_out at.env.key (apply_segment_update c body before))
                response_validation_error)
              _ known).1
            (rw (segment_config_out-apply c at.env.key body before rules)))

    -- Where the project, the segment and the environment exist, an accepted request is carried out
    -- under a known backend while the version fits its column, and the response is the members and
    -- rules of the request, at the version after the stored one, and at version 1 where none is
    -- stored.
    pub update_segment_config_succeeds :
        (at : Located project_key segment_key env_key s)
        → All IsSegmentRule body.rules
        → (start_config c at.seg.id at.env.id
              (E.get (at.seg.id, at.env.id) s.segment_configs)).version
            + 1
          < 2 ^ 63
        → (c.backend ≡ "postgres") ⊎ (c.backend ≡ "log")
        → (update_segment_config c project_key segment_key env_key body s).0
          ≡ ok (
              response c at.env.key body (
                start_config c at.seg.id at.env.id
                  (E.get (at.seg.id, at.env.id) s.segment_configs)))
    unfolding update_segment_config
    update_segment_config_succeeds at rules fits known =
        ap (λ (r : Result SegmentConfigOut × Transaction). r.0)
          (get_project_found project_key _ s at.project at.project_found
            ∙ get_segment_found at.project.id segment_key _ s at.seg at.seg_found
            ∙ get_environment_found at.project.id env_key _ s at.env at.env_found)
        ∙ write_segment_config_succeeds at (E.get (at.seg.id, at.env.id) s.segment_configs) rules
            fits known
