-- ===== src/Api/Flags/Update.antt =====
-- What `update_flag_config` of control-plane/app/api/flags.py has done where it returned.
use feature_flags.Base.{
  ℕ, String, ◌≡◌, refl, ap, Bool, true, false, not, some, List, [], ◌∷◌, length, id_key, text_key,
  pair_key,
}
use feature_flags.Models.{Project, Environment, Flag, FlagEnvironmentConfig}
use feature_flags.Schemas.Pydantic.{Pydantic}
use feature_flags.Schemas.Flag.{FlagConfigUpdate}
use feature_flags.Services.Audit.{audit_row, record_audit}
use feature_flags.Services.Outbox.{outbox, env_changed_bind-ok}
use feature_flags.Store.Engine.{Engine}
use feature_flags.Store.Session.{Context, Transaction, Action, ok, ◌>>=◌}
use feature_flags.Store.Actions.{or_raise-ok, or_raise_last, raise_if-ok}
use feature_flags.Api.Common.{has_key, is_environment, is_flag}
use feature_flags.Api.Lookups.{get_project-ok, get_flag-ok, get_environment-ok}
use feature_flags.Api.Flags.Indices.{validate_indices}
use feature_flags.Api.Flags.Config.{
  flushed_config, apply_update, fits_columns, config_out, FlagConfigOut,
}
use feature_flags.Api.Flags.Handlers.{
  is_empty, update_entry, no_config, get_config, save_config, replace_config, update_flag_config,
}

module _ ⦃E : Engine⦄ where
  -- The rows that the three path parameters name.
  pub record Located (project_key flag_key env_key : String) (s : Transaction) : Type 0 where
    pub project : Project
    pub flag : Flag
    pub env : Environment
    pub project_found : E.scalar (has_key project_key) s.projects ≡ some project
    pub flag_found : E.scalar (is_flag project.id flag_key) s.flags ≡ some flag
    pub env_found : E.scalar (is_environment project.id env_key) s.environments ≡ some env

  pub get_config-ok :
      {B : Type 0} (flag_id env_id : ℕ) (f : FlagEnvironmentConfig → Action B) (s : Transaction)
      {b : B} {s' : Transaction}
      → (get_config flag_id env_id >>= f) s ≡ (ok b, s')
      → (cfg : FlagEnvironmentConfig) × (E.get (flag_id, env_id) s.flag_configs ≡ some cfg)
        × (f cfg s ≡ (ok b, s'))
  unfolding get_config
  get_config-ok flag_id env_id f s h =
      or_raise-ok (E.get (flag_id, env_id) s.flag_configs) no_config f s h

  module _ ⦃p : Pydantic⦄ where
    module _ (c : Context) (project_key flag_key env_key : String) (body : FlagConfigUpdate) where
      -- What an update of the rows at a place has met and done.
      pub record Replaced (s : Transaction) (at : Located project_key flag_key env_key s)
          (before : FlagEnvironmentConfig) (s' : Transaction) (out : FlagConfigOut) : Type 0 where
        pub stored : E.get (at.flag.id, at.env.id) s.flag_configs ≡ some before
        pub valid : validate_indices body (length at.flag.variations) ≡ []
        pub fits : fits_columns (apply_update c body before) ≡ true
        pub shown : config_out at.env.key (apply_update c body before) ≡ some out
        pub tables : s'.tables ≡ record s.tables {
          flag_configs = E.add (flushed_config before (apply_update c body before)) s.flag_configs;
          audit_logs =
              E.add
                (audit_row c
                  (update_entry at.project at.flag at.env before (apply_update c body before)))
                s.audit_logs;
        }
        pub notified : outbox c at.env.id s.notified ≡ some s'.notified

      pub record Updated (s s' : Transaction) (out : FlagConfigOut) : Type 0 where
        pub at : Located project_key flag_key env_key s
        pub before : FlagEnvironmentConfig
        pub replaced : Replaced s at before s' out
        pub open replaced use *

      is_empty_true : (bad : List String) → not (is_empty bad) ≡ false → bad ≡ []
      is_empty_true [] h = refl
      is_empty_true (x ∷ bad) h = cc

      not-false : (b : Bool) → not b ≡ false → b ≡ true
      not-false true h = refl
      not-false false h = cc

      pub replace_config-Replaced :
          {s s' : Transaction} {out : FlagConfigOut} (at : Located project_key flag_key env_key s)
          (cfg : FlagEnvironmentConfig)
          → E.get (at.flag.id, at.env.id) s.flag_configs ≡ some cfg
          → replace_config c at.project at.flag at.env cfg body s ≡ (ok out, s')
          → Replaced s at cfg s' out
      unfolding replace_config save_config record_audit
      replace_config-Replaced {s} {s'} at cfg stored h =
          let bad = validate_indices body (length at.flag.variations) in
          let updated = apply_update c body cfg in
          let (no_bad, h1) = raise_if-ok (not (is_empty bad)) _ _ s h in
          let (fit, h2) = raise_if-ok (not (fits_columns updated)) _ _ _ h1 in
          let (sent, out_of, h3) = env_changed_bind-ok c at.env.id _ _ h2 in
          let (shown, same) = or_raise_last (config_out at.env.key updated) _ _ h3 in
          record {
            stored = stored;
            valid = is_empty_true bad no_bad;
            fits = not-false (fits_columns updated) fit;
            shown = shown;
            tables = ap (λ (t : Transaction). t.tables) same;
            notified = rw (ap (λ (t : Transaction). t.notified) same) out_of;
          }

      -- What an update that returns has found and done.
      pub update-Updated :
          (s : Transaction) {out : FlagConfigOut} {s' : Transaction}
          → update_flag_config c project_key flag_key env_key body s ≡ (ok out, s')
          → Updated s s' out
      unfolding update_flag_config
      update-Updated s h =
          let (project, ep, h1) = get_project-ok project_key _ s h in
          let (flag, ef, h2) = get_flag-ok project.id flag_key _ s h1 in
          let (env, ee, h3) = get_environment-ok project.id env_key _ s h2 in
          let (cfg, eg, h4) = get_config-ok flag.id env.id _ s h3 in
          let at : Located project_key flag_key env_key s = record {
            project = project;
            flag = flag;
            env = env;
            project_found = ep;
            flag_found = ef;
            env_found = ee;
          } in
          record { at = at; before = cfg; replaced = replace_config-Replaced at cfg eg h4 }
