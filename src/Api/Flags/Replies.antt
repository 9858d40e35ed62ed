-- ===== src/Api/Flags/Replies.antt =====
-- What a client of control-plane/app/api/flags.py reads back after an update.
use feature_flags.Base.{
  ℕ, ◌+◌, String, ◌≡◌, ◌⊎◌, refl, sym, ap, ◌∙◌, true, some, length, All, id_key, text_key, pair_key,
  pair_eq_iff,
}
use mathlib.Core.Option.{some-injective}
use feature_flags.Models.{FlagEnvironmentConfig, flag_config_pk}
use feature_flags.Schemas.Pydantic.{Pydantic}
use feature_flags.Schemas.Flag.{FlagConfigUpdate}
use feature_flags.Schemas.Accepted.{IsAccepted}
use feature_flags.Schemas.RoundTrip.{
  load-dump_targets, load-dump_rules, load-dump_prerequisites, load-dump_fallthrough,
}
use feature_flags.Services.Audit.{record_audit}
use feature_flags.Services.Outbox.{env_changed_known}
use feature_flags.Store.Engine.{Engine}
use feature_flags.Store.Session.{
  Context, Transaction, Action, Result, ok, or_raise, response_validation_error, ◌>>=◌,
}
use feature_flags.Store.Actions.{or_raise-some}
use feature_flags.Api.Lookups.{get_project_found, get_flag_found, get_environment_found}
use feature_flags.Api.Flags.IndexLaws.{Exists, references, validate_indices_iff}
use feature_flags.Api.Flags.Config.{apply_update, fits_columns, config_out, FlagConfigOut}
use feature_flags.Api.Flags.Handlers.{
  no_config, get_config, save_config, get_flag_config, replace_config, update_flag_config,
}
use feature_flags.Api.Flags.Update.{Located, Updated, update-Updated}

-- The response to an update: the targeting of the request, under the next version.
abbrev pub response : Context → String → FlagConfigUpdate → FlagEnvironmentConfig → FlagConfigOut
response c env_key body before = record {
  environment_key = env_key;
  enabled = body.enabled;
  targets = body.targets;
  rules = body.rules;
  fallthrough = body.fallthrough;
  off_variation = body.off_variation;
  prerequisites = body.prerequisites;
  version = before.version + 1;
  updated_at = c.now;
  updated_by = some c.actor;
}

-- What was written as JSON is shown as it was sent.
pub config_out-apply_update :
    ⦃p : Pydantic⦄ (c : Context) (env_key : String) (body : FlagConfigUpdate)
    (before : FlagEnvironmentConfig)
    → IsAccepted body
    → config_out env_key (apply_update c body before) ≡ some (response c env_key body before)
unfolding config_out apply_update
config_out-apply_update c env_key body before h = rw (
  load-dump_targets body.targets h.targets,
  load-dump_rules body.rules h.rules,
  load-dump_fallthrough body.fallthrough h.fallthrough,
  load-dump_prerequisites body.prerequisites h.prerequisites,
)

module _ ⦃E : Engine⦄ ⦃p : Pydantic⦄ where
  pub get_config_found :
      {B : Type 0} (flag_id env_id : ℕ) (f : FlagEnvironmentConfig → Action B) (s : Transaction)
      (cfg : FlagEnvironmentConfig)
      → E.get (flag_id, env_id) s.flag_configs ≡ some cfg
      → (get_config flag_id env_id >>= f) s ≡ f cfg s
  unfolding get_config
  get_config_found flag_id env_id f s cfg e = or_raise-some _ no_config f s cfg e

  -- Reading the configuration at a place where its rows are.
  pub get_flag_config_at :
      (project_key flag_key env_key : String) (s : Transaction)
      (at : Located project_key flag_key env_key s) (cfg : FlagEnvironmentConfig)
      (out : FlagConfigOut)
      → E.get (at.flag.id, at.env.id) s.flag_configs ≡ some cfg
      → config_out at.env.key cfg ≡ some out
      → get_flag_config project_key flag_key env_key s ≡ (ok out, s)
  unfolding get_flag_config
  get_flag_config_at project_key flag_key env_key s at cfg out stored shown =
      get_project_found project_key _ s at.project at.project_found
      ∙ get_flag_found at.project.id flag_key _ s at.flag at.flag_found
      ∙ get_environment_found at.project.id env_key _ s at.env at.env_found
      ∙ get_config_found at.flag.id at.env.id _ s cfg stored
      ∙ rw shown refl

  -- A row that is written is the row of its key.
  pub get-add_self :
      (k : ℕ × ℕ) (before after : FlagEnvironmentConfig) (s : Transaction)
      → E.get k s.flag_configs ≡ some before
      → flag_config_pk after ≡ flag_config_pk before
      → E.get k (E.add after s.flag_configs) ≡ some after
  get-add_self k before after s stored same = rw (
    E.get-add k after s.flag_configs,
    (pair_eq_iff (flag_config_pk after) k).1 (same ∙ E.get_pk k before s.flag_configs stored),
  )

  module _ (c : Context) (project_key flag_key env_key : String) (body : FlagConfigUpdate) where
    -- An update of an accepted request that returns shows the targeting of the request, at the
    -- version after the one that was stored before, by the caller.
    pub update_flag_config_shows :
        (s : Transaction) {out : FlagConfigOut} {s' : Transaction}
        → IsAccepted body
        → update_flag_config c project_key flag_key env_key body s ≡ (ok out, s')
        → (u : Updated c project_key flag_key env_key body s s' out) × (out
            ≡ response c u.at.env.key body u.before)
    update_flag_config_shows s {out} h e =
        let u = update-Updated c project_key flag_key env_key body s e in
        (
          u,
          some-injective out _
              (sym u.shown ∙ config_out-apply_update c u.at.env.key body u.before h),
        )

    replace_config_succeeds :
        (s : Transaction) (at : Located project_key flag_key env_key s)
        (before : FlagEnvironmentConfig)
        → IsAccepted body
        → All (Exists (length at.flag.variations)) (references body)
        → fits_columns (apply_update c body before) ≡ true
        → (c.backend ≡ "postgres") ⊎ (c.backend ≡ "log")
        → (replace_config c at.project at.flag at.env before body s).0
          ≡ ok (response c at.env.key body before)
    unfolding replace_config save_config record_audit
    replace_config_succeeds s at before accepted exist fits known =
        rw ((validate_indices_iff body (length at.flag.variations)).1 exist) (
          rw fits (
            rw
              (env_changed_known c at.env.id
                (or_raise (config_out at.env.key (apply_update c body before))
                  response_validation_error)
                _ known).1
              (rw (config_out-apply_update c at.env.key body before accepted))))

    -- Where the project, the flag, the environment and its configuration exist, an accepted request
    -- whose indices all exist is carried out: under a known backend, and while the version and the
    -- off variation fit their columns, the update returns the targeting of the request.
    pub update_flag_config_succeeds :
        (s : Transaction) (at : Located project_key flag_key env_key s)
        (before : FlagEnvironmentConfig)
        → E.get (at.flag.id, at.env.id) s.flag_configs ≡ some before
        → IsAccepted body
        → All (Exists (length at.flag.variations)) (references body)
        → fits_columns (apply_update c body before) ≡ true
        → (c.backend ≡ "postgres") ⊎ (c.backend ≡ "log")
        → (update_flag_config c project_key flag_key env_key body s).0
          ≡ ok (response c at.env.key body before)
    unfolding update_flag_config
    update_flag_config_succeeds s at before stored accepted exist fits known =
        ap (λ (r : Result FlagConfigOut × Transaction). r.0)
          (get_project_found project_key _ s at.project at.project_found
            ∙ get_flag_found at.project.id flag_key _ s at.flag at.flag_found
            ∙ get_environment_found at.project.id env_key _ s at.env at.env_found
            ∙ get_config_found at.flag.id at.env.id _ s before stored)
        ∙ replace_config_succeeds s at before accepted exist fits known
