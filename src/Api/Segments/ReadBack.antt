-- ===== src/Api/Segments/ReadBack.antt =====
-- What control-plane/app/api/segments.py shows of a segment's configuration after an update of it.
use feature_flags.Api.Lookups.{get_environment_found, get_segment_found, get_project_found}
use feature_flags.Api.Segments.Replies.{get_segment_config_at}
use feature_flags.Api.Flags.ReadBack.{pick_load}
use feature_flags.Schemas.Dump.{dump_list}
use feature_flags.Store.Compare.{same_json}
use feature_flags.Api.Segments.Update.{written_at, next_config, Replaced, Located}
use feature_flags.Base.Maybe.{Ensures-some, Ensures-bind, Ensures}
use feature_flags.Schemas.Load.{load_list}
use feature_flags.Schemas.Segment.{load_segment_rule, SegmentConfigUpdate, SegmentRule}
use feature_flags.Models.{segment_config_pk, SegmentEnvironmentConfig}
use feature_flags.Store.Session.{Database, ok, Transaction, Context}
use feature_flags.Api.Segments.{
  start_config, get_segment_config, dump_segment_rule, update_segment_config, apply_segment_update,
  SegmentConfigOut, flushed_segment_config, segment_config_out,
}
use feature_flags.Schemas.Pydantic.{Pydantic}
use feature_flags.Store.Engine.{Engine}
use feature_flags.Base.{
  ◌∙◌, inr, pair_eq_iff, inl, pair_key, Option-cases, sym, if◌then◌else◌, ap, [], ◌≡◌, List, String,
  Option, refl, none, some,
}

-- The response whose rules are loaded from the JSON column of a row.
record Shows ⦃p : Pydantic⦄ (env_key : String) (cfg : SegmentEnvironmentConfig)
    (out : SegmentConfigOut) : Type 0 where
  rules : load_list load_segment_rule cfg.rules ≡ some out.rules
  rest : out ≡ record {
    environment_key = env_key;
    context_kind = cfg.context_kind;
    included = cfg.included;
    excluded = cfg.excluded;
    rules = out.rules;
    version = cfg.version;
    updated_at = cfg.updated_at;
  }

segment_config_out-Shows :
    ⦃p : Pydantic⦄ (env_key : String) (cfg : SegmentEnvironmentConfig) {out : SegmentConfigOut}
    → segment_config_out env_key cfg ≡ some out
    → Shows env_key cfg out
unfolding segment_config_out
segment_config_out-Shows env_key cfg {out} h = shows.at out h
  where
    shows : Ensures (Shows env_key cfg) (segment_config_out env_key cfg)
    shows =
        Ensures-bind (load_list load_segment_rule cfg.rules) _
          λ rs er. Ensures-some _ (record { rules = er; rest = refl })

-- The rules of a stored configuration are read as these; where none is stored, there are none.
abbrev pub RulesRead : ⦃p : Pydantic⦄ → Option SegmentEnvironmentConfig → List SegmentRule → Type 0
RulesRead none rs = rs ≡ []
RulesRead (some cfg) rs = load_list load_segment_rule cfg.rules ≡ some rs

module _ ⦃E : Engine⦄ where
  -- The response of an update as it is read back: where the rules of a stored configuration were set
  -- to a value that Python compares as equal, the flush has not written them, and those that were
  -- read before are read again.
  abbrev pub read_back :
      Option SegmentEnvironmentConfig
      → SegmentConfigUpdate
      → List SegmentRule
      → SegmentConfigOut
      → SegmentConfigOut
  read_back none body earlier out = out
  read_back (some cfg) body earlier out = record out {
    rules =
        if same_json cfg.rules (dump_list dump_segment_rule body.rules) then earlier else out.rules;
  }

  segment_config_out-flushed :
      ⦃p : Pydantic⦄ (c : Context) (env_key : String) (found : Option SegmentEnvironmentConfig)
      (body : SegmentConfigUpdate) (before : SegmentEnvironmentConfig) (earlier : List SegmentRule)
      {out : SegmentConfigOut}
      → RulesRead found earlier
      → Shows env_key (apply_segment_update c body before) out
      → segment_config_out env_key
          (flushed_segment_config found (apply_segment_update c body before))
        ≡ some (read_back found body earlier out)
  unfolding segment_config_out flushed_segment_config apply_segment_update
  segment_config_out-flushed c env_key none body before earlier old new =
      rw new.rules (ap some (sym new.rest))
  segment_config_out-flushed c env_key (some cfg) body before earlier {out} old new =
      rw
        (pick_load (load_list load_segment_rule)
          (same_json cfg.rules (dump_list dump_segment_rule body.rules)) cfg.rules
          (dump_list dump_segment_rule body.rules) old new.rules)
        (ap
          (λ (o : SegmentConfigOut).
            some (record o { rules = (read_back (some cfg) body earlier out).rules }))
          (sym new.rest))

  module _ ⦃p : Pydantic⦄ (c : Context) (project_key segment_key env_key : String)
      (body : SegmentConfigUpdate) (s : Transaction)
      (at : Located project_key segment_key env_key s) where
    abbrev flushed : SegmentEnvironmentConfig
    flushed =
        flushed_segment_config (E.get (at.seg.id, at.env.id) s.segment_configs)
          (next_config c project_key segment_key env_key body at)

    flushed_key : segment_config_pk flushed ≡ (at.seg.id, at.env.id)
    unfolding apply_segment_update flushed_segment_config
    flushed_key = elim (Option-cases (E.get (at.seg.id, at.env.id) s.segment_configs)) [
      | inl fresh ↦ rw fresh
      | inr (cfg, stored) ↦ rw stored (E.get_pk _ cfg s.segment_configs stored)
    ]

    module _ {out : SegmentConfigOut} {s' : Transaction}
        (updated : update_segment_config c project_key segment_key env_key body s
          ≡ (ok out, s')) where
      here-Replaced : Replaced c project_key segment_key env_key body s at s' out
      unfolding update_segment_config
      here-Replaced = written_at c project_key segment_key env_key body at (
          sym (
            get_project_found project_key _ s at.project at.project_found
            ∙ get_segment_found at.project.id segment_key _ s at.seg at.seg_found
            ∙ get_environment_found at.project.id env_key _ s at.env at.env_found)
          ∙ updated)

      -- An update moves no project, segment or environment.
      located_after : Located project_key segment_key env_key s'
      located_after =
          let tables = here-Replaced.tables in
          record {
            project = at.project;
            seg = at.seg;
            env = at.env;
            project_found = rw (ap (λ (d : Database). d.projects) tables) at.project_found;
            seg_found = rw (ap (λ (d : Database). d.segments) tables) at.seg_found;
            env_found = rw (ap (λ (d : Database). d.environments) tables) at.env_found;
          }

      stored_after : E.get (at.seg.id, at.env.id) s'.segment_configs ≡ some flushed
      stored_after =
          let here =
            (pair_eq_iff (segment_config_pk flushed) (at.seg.id, at.env.id)).1 flushed_key in
          rw (ap (λ (d : Database). d.segment_configs) here-Replaced.tables)
            (E.get-add (at.seg.id, at.env.id) flushed s.segment_configs ∙ rw here refl)

      -- Where the rules of a stored configuration can be read, or none is stored, reading the
      -- configuration after an update that returned gives the response of the update and changes
      -- nothing, but for stored rules that Python compares as equal to the new ones: then the reading
      -- still gives those.
      pub get_segment_config-update_segment_config :
          (earlier : List SegmentRule)
          → RulesRead (E.get (at.seg.id, at.env.id) s.segment_configs) earlier
          → get_segment_config project_key segment_key env_key s'
            ≡ (ok (read_back (E.get (at.seg.id, at.env.id) s.segment_configs) body earlier out), s')
      unfolding located_after
      get_segment_config-update_segment_config earlier h =
          get_segment_config_at project_key segment_key env_key s' located_after flushed
            (read_back (E.get (at.seg.id, at.env.id) s.segment_configs) body earlier out)
            stored_after
            (segment_config_out-flushed c at.env.key
              (E.get (at.seg.id, at.env.id) s.segment_configs) body
              (start_config c at.seg.id at.env.id (E.get (at.seg.id, at.env.id) s.segment_configs))
              earlier h
              (segment_config_out-Shows at.env.key
                (next_config c project_key segment_key env_key body at) here-Replaced.shown))
