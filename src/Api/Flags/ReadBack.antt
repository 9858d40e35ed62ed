-- ===== src/Api/Flags/ReadBack.antt =====
-- What control-plane/app/api/flags.py shows of a targeting after an update of it.
use feature_flags.Api.Lookups.{get_environment_found, get_flag_found, get_project_found}
use feature_flags.Store.Actions.{or_raise_last}
use feature_flags.Api.Flags.Replies.{get_config_found, get-add_self, get_flag_config_at}
use feature_flags.Api.Flags.Handlers.{update_flag_config, get_flag_config}
use feature_flags.Schemas.Dump.{
  dump_prerequisite, dump_fallthrough, dump_rule, dump_target, dump_list,
}
use feature_flags.Store.Compare.{same_json}
use feature_flags.Schemas.Load.{
  load_prerequisite, load_fallthrough, load_rule, load_target, load_list,
}
use feature_flags.Api.Flags.Update.{replace_config-Replaced, Replaced, Located}
use feature_flags.Store.Session.{response_validation_error, Database, ok, Context, Transaction}
use feature_flags.Base.Maybe.{Ensures-some, Ensures-bind, Ensures}
use feature_flags.Schemas.Flag.{FlagConfigUpdate}
use feature_flags.Api.Flags.Config.{apply_update, FlagConfigOut, flushed_config, config_out}
use feature_flags.Schemas.Pydantic.{Pydantic}
use feature_flags.Json.{Json}
use feature_flags.Models.{FlagEnvironmentConfig}
use feature_flags.Store.Engine.{Engine}
use feature_flags.Base.{
  ◌∙◌, sym, pair_key, ap, some, ◌≡◌, if◌then◌else◌, Bool, String, Option, refl, true, false,
}

-- One of two JSON columns is loaded.
pub pick_load :
    {A : Type 0} (load : Json → Option A) (b : Bool) (old new : Json) {x y : A}
    → load old ≡ some x
    → load new ≡ some y
    → load (if b then old else new) ≡ some (if b then x else y)
pick_load load true old new h k = h
pick_load load false old new h k = k

-- The response whose parts are loaded from the JSON columns of a row.
pub record Shows ⦃p : Pydantic⦄ (env_key : String) (cfg : FlagEnvironmentConfig)
    (out : FlagConfigOut) : Type 0 where
  pub targets : load_list load_target cfg.targets ≡ some out.targets
  pub rules : load_list load_rule cfg.rules ≡ some out.rules
  pub fallthrough : load_fallthrough cfg.fallthrough ≡ some out.fallthrough
  pub prerequisites : load_list load_prerequisite cfg.prerequisites ≡ some out.prerequisites
  pub rest : out ≡ record {
    environment_key = env_key;
    enabled = cfg.enabled;
    targets = out.targets;
    rules = out.rules;
    fallthrough = out.fallthrough;
    off_variation = cfg.off_variation;
    prerequisites = out.prerequisites;
    version = cfg.version;
    updated_at = cfg.updated_at;
    updated_by = cfg.updated_by;
  }

Ensures-Shows :
    ⦃p : Pydantic⦄ (env_key : String) (cfg : FlagEnvironmentConfig)
    → Ensures (Shows env_key cfg) (config_out env_key cfg)
unfolding config_out
Ensures-Shows env_key cfg = Ensures-bind (load_list load_target cfg.targets) _ λ ts et.
    Ensures-bind (load_list load_rule cfg.rules) _ λ rs er.
      Ensures-bind (load_fallthrough cfg.fallthrough) _ λ ft ef.
        Ensures-bind (load_list load_prerequisite cfg.prerequisites) _ λ ps ep.
          Ensures-some _
            (record { targets = et; rules = er; fallthrough = ef; prerequisites = ep; rest = refl })

pub config_out-Shows :
    ⦃p : Pydantic⦄ (env_key : String) (cfg : FlagEnvironmentConfig) {out : FlagConfigOut}
    → config_out env_key cfg ≡ some out
    → Shows env_key cfg out
config_out-Shows env_key cfg {out} h = (Ensures-Shows env_key cfg).at out h

module _ ⦃E : Engine⦄ where
  -- The response of an update as it is read back: where a JSON column was set to a value that Python
  -- compares as equal to the stored one, the flush has not written it, and what was shown before is
  -- shown again.
  abbrev pub read_back :
      FlagEnvironmentConfig → FlagConfigUpdate → FlagConfigOut → FlagConfigOut → FlagConfigOut
  read_back before body earlier out = record out {
    targets =
        if same_json before.targets (dump_list dump_target body.targets)
        then earlier.targets
        else out.targets;
    rules =
        if same_json before.rules (dump_list dump_rule body.rules)
        then earlier.rules
        else out.rules;
    fallthrough =
        if same_json before.fallthrough (dump_fallthrough body.fallthrough)
        then earlier.fallthrough
        else out.fallthrough;
    prerequisites =
        if same_json before.prerequisites (dump_list dump_prerequisite body.prerequisites)
        then earlier.prerequisites
        else out.prerequisites;
  }

  config_out-flushed :
      ⦃p : Pydantic⦄ (c : Context) (env_key : String) (before : FlagEnvironmentConfig)
      (body : FlagConfigUpdate) {earlier out : FlagConfigOut}
      → Shows env_key before earlier
      → Shows env_key (apply_update c body before) out
      → config_out env_key (flushed_config before (apply_update c body before))
        ≡ some (read_back before body earlier out)
  unfolding config_out flushed_config apply_update
  config_out-flushed c env_key before body {earlier} {out} old new =
      rw
        (
          pick_load (load_list load_target)
              (same_json before.targets (dump_list dump_target body.targets)) before.targets
              (dump_list dump_target body.targets) old.targets new.targets,
          pick_load (load_list load_rule) (same_json before.rules (dump_list dump_rule body.rules))
              before.rules (dump_list dump_rule body.rules) old.rules new.rules,
          pick_load load_fallthrough
              (same_json before.fallthrough (dump_fallthrough body.fallthrough)) before.fallthrough
              (dump_fallthrough body.fallthrough) old.fallthrough new.fallthrough,
          pick_load (load_list load_prerequisite)
              (same_json before.prerequisites (dump_list dump_prerequisite body.prerequisites))
              before.prerequisites (dump_list dump_prerequisite body.prerequisites)
              old.prerequisites new.prerequisites,
        )
        (ap
          (λ (o : FlagConfigOut). some (record o {
            targets = (read_back before body earlier out).targets;
            rules = (read_back before body earlier out).rules;
            fallthrough = (read_back before body earlier out).fallthrough;
            prerequisites = (read_back before body earlier out).prerequisites;
          }))
          (sym new.rest))

  module _ ⦃p : Pydantic⦄ (project_key flag_key env_key : String) (s : Transaction)
      (at : Located project_key flag_key env_key s) (before : FlagEnvironmentConfig)
      (stored : E.get (at.flag.id, at.env.id) s.flag_configs ≡ some before) where
    -- A reading at the place.
    get_flag_config-shown :
        {out : FlagConfigOut}
        → get_flag_config project_key flag_key env_key s ≡ (ok out, s)
        → config_out at.env.key before ≡ some out
    unfolding get_flag_config
    get_flag_config-shown {out} h =
        (or_raise_last (config_out at.env.key before) response_validation_error s (
          sym (
            get_project_found project_key _ s at.project at.project_found
            ∙ get_flag_found at.project.id flag_key _ s at.flag at.flag_found
            ∙ get_environment_found at.project.id env_key _ s at.env at.env_found
            ∙ get_config_found at.flag.id at.env.id _ s before stored)
          ∙ h)).0

    module _ (c : Context) (body : FlagConfigUpdate) {out : FlagConfigOut} {s' : Transaction}
        (updated : update_flag_config c project_key flag_key env_key body s ≡ (ok out, s')) where
      here-Replaced : Replaced c project_key flag_key env_key body s at before s' out
      unfolding update_flag_config
      here-Replaced = replace_config-Replaced c project_key flag_key env_key body at before stored (
          sym (
            get_project_found project_key _ s at.project at.project_found
            ∙ get_flag_found at.project.id flag_key _ s at.flag at.flag_found
            ∙ get_environment_found at.project.id env_key _ s at.env at.env_found
            ∙ get_config_found at.flag.id at.env.id _ s before stored)
          ∙ updated)

      -- An update moves no project, flag or environment.
      located_after : Located project_key flag_key env_key s'
      located_after =
          let tables = here-Replaced.tables in
          record {
            project = at.project;
            flag = at.flag;
            env = at.env;
            project_found = rw (ap (λ (d : Database). d.projects) tables) at.project_found;
            flag_found = rw (ap (λ (d : Database). d.flags) tables) at.flag_found;
            env_found = rw (ap (λ (d : Database). d.environments) tables) at.env_found;
          }

      stored_after :
          E.get (at.flag.id, at.env.id) s'.flag_configs
          ≡ some (flushed_config before (apply_update c body before))
      stored_after = rw (ap (λ (d : Database). d.flag_configs) here-Replaced.tables) (
          get-add_self (at.flag.id, at.env.id) before
            (flushed_config before (apply_update c body before)) s stored
            (unfold flushed_config in unfold apply_update in refl))

      -- Where a stored targeting can be read, reading it after an update that returned gives the
      -- response of the update and changes nothing, but for the JSON columns whose new value Python
      -- compares as equal to the stored one: of these the reading still gives what it gave before.
      pub get_flag_config-update_flag_config :
          {earlier : FlagConfigOut}
          → get_flag_config project_key flag_key env_key s ≡ (ok earlier, s)
          → get_flag_config project_key flag_key env_key s'
            ≡ (ok (read_back before body earlier out), s')
      unfolding located_after
      get_flag_config-update_flag_config {earlier} h =
          get_flag_config_at project_key flag_key env_key s' located_after
            (flushed_config before (apply_update c body before)) (read_back before body earlier out)
            stored_after
            (config_out-flushed c at.env.key before body
              (config_out-Shows at.env.key before (get_flag_config-shown h))
              (config_out-Shows at.env.key (apply_update c body before) here-Replaced.shown))
