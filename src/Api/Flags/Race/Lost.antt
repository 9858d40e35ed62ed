-- ===== src/Api/Flags/Race/Lost.antt =====
-- What a write phase of control-plane/app/api/flags.py does to a row that has changed since it was
-- read.
use feature_flags.Api.Common.{is_environment}
use feature_flags.Store.Relations.{get-add_same}
use feature_flags.Api.Lookups.{get_environment-ok, get_flag-ok, get_project-ok}
use feature_flags.Services.Outbox.{env_changed_bind-ok}
use feature_flags.Base.Maybe.{Ensures-some, Ensures-bind, Ensures}
use feature_flags.Store.Actions.{or_raise_last, or_raise-ok, bind-ok, raise_if-ok, ok_injective}
use feature_flags.Api.Flags.Indices.{validate_indices}
use feature_flags.Services.Audit.{audit_row, record_audit}
use feature_flags.Api.Flags.Handlers.{is_empty, update_entry}
use feature_flags.Schemas.Flag.{FlagConfigUpdate}
use feature_flags.Schemas.Pydantic.{Pydantic}
use feature_flags.Models.{flag_config_pk, FlagEnvironmentConfig}
use feature_flags.Store.Session.{Database, ok, Transaction, Context, Result, stale_data_error}
use feature_flags.Api.Flags.Config.{fits_columns, config_out, FlagConfigOut, apply_update}
use feature_flags.Json.{Json}
use feature_flags.Api.Flags.Race.{read_phase, flush_config, write_phase, Found, merged}
use feature_flags.Store.Engine.{Engine}
use feature_flags.Api.Flags.Update.{get_config-ok}
use feature_flags.Schemas.Load.{
  load_list, load_target, load_rule, load_fallthrough, load_prerequisite,
}
use feature_flags.Base.{
  ℕ, sym, ap, ◌∙◌, String, not, id_key, pair_key, length, some, arith, ◌+◌, ◌≡◌, Bool, refl,
}

-- The version was changed, so it is set to the one after the version that was read.
pub merged-version :
    (unchanged : Json → Json → Bool) (c : Context) (b : FlagConfigUpdate)
    (loaded current : FlagEnvironmentConfig)
    → (merged unchanged loaded (apply_update c b loaded) current).version ≡ loaded.version + 1
unfolding merged apply_update
merged-version unchanged c b loaded current = ground arith

apply_update-version :
    (c : Context) (b : FlagConfigUpdate) (cfg : FlagEnvironmentConfig)
    → (apply_update c b cfg).version ≡ cfg.version + 1
unfolding apply_update
apply_update-version c b cfg = refl

config_out_shows :
    ⦃p : Pydantic⦄ (env_key : String) (cfg : FlagEnvironmentConfig)
    → Ensures (λ (o : FlagConfigOut). o.version ≡ cfg.version) (config_out env_key cfg)
unfolding config_out
config_out_shows env_key cfg = Ensures-bind (load_list load_target cfg.targets) _ λ ts et.
    Ensures-bind (load_list load_rule cfg.rules) _ λ rs er.
      Ensures-bind (load_fallthrough cfg.fallthrough) _ λ ft ef.
        Ensures-bind (load_list load_prerequisite cfg.prerequisites) _ λ ps ep. Ensures-some _ refl

config_out-version :
    ⦃p : Pydantic⦄ (env_key : String) (cfg : FlagEnvironmentConfig) {out : FlagConfigOut}
    → config_out env_key cfg ≡ some out
    → out.version ≡ cfg.version
config_out-version env_key cfg {out} h = (config_out_shows env_key cfg).at out h

pub merged_pk :
    (unchanged : Json → Json → Bool) (loaded updated current : FlagEnvironmentConfig)
    → flag_config_pk (merged unchanged loaded updated current) ≡ flag_config_pk current
unfolding merged
merged_pk unchanged loaded updated current = refl

module _ ⦃E : Engine⦄ (unchanged : Json → Json → Bool) where
  pub read_phase-stored :
      (project_key flag_key env_key : String) (s : Transaction) {found : Found} {t : Transaction}
      → read_phase project_key flag_key env_key s ≡ (ok found, t)
      → E.get (found.flag.id, found.env.id) s.flag_configs ≡ some found.cfg
  unfolding read_phase
  read_phase-stored project_key flag_key env_key s h =
      let (project, ep, h1) = get_project-ok project_key _ s h in
      let (flag, ef, h2) = get_flag-ok project.id flag_key _ s h1 in
      let (env, ee, h3) = get_environment-ok project.id env_key _ s h2 in
      let (cfg, eg, h4) = get_config-ok flag.id env.id _ s h3 in
      let is = ok_injective (ap (λ (r : Result Found × Transaction). r.0) h4) in
      sym (ap (λ (f : Found). E.get (f.flag.id, f.env.id) s.flag_configs) is)
      ∙ eg
      ∙ ap (λ (f : Found). some f.cfg) is

  pub read_phase-environment :
      (project_key flag_key env_key : String) (s : Transaction) {found : Found} {t : Transaction}
      → read_phase project_key flag_key env_key s ≡ (ok found, t)
      → E.get found.env.id s.environments ≡ some found.env
  unfolding read_phase
  read_phase-environment project_key flag_key env_key s h =
      let (project, ep, h1) = get_project-ok project_key _ s h in
      let (flag, ef, h2) = get_flag-ok project.id flag_key _ s h1 in
      let (env, ee, h3) = get_environment-ok project.id env_key _ s h2 in
      let (cfg, eg, h4) = get_config-ok flag.id env.id _ s h3 in
      let is = ok_injective (ap (λ (r : Result Found × Transaction). r.0) h4) in
      let (_, there) = E.scalar_some (is_environment project.id env_key) env s.environments ee in
      sym (ap (λ (f : Found). E.get f.env.id s.environments) is)
      ∙ there
      ∙ ap (λ (f : Found). some f.env) is

  -- What a write phase that returns has met and done.
  pub record Written (c : Context) (found : Found) (body : FlagConfigUpdate) ⦃p : Pydantic⦄
      (s s' : Transaction) (out : FlagConfigOut) : Type 0 where
    pub current : FlagEnvironmentConfig
    pub stored : E.get (found.flag.id, found.env.id) s.flag_configs ≡ some current
    pub shown : config_out found.env.key (apply_update c body found.cfg) ≡ some out
    pub tables : s'.tables ≡ record s.tables {
      flag_configs =
          E.add (merged unchanged found.cfg (apply_update c body found.cfg) current) s.flag_configs;
      audit_logs =
          E.add
            (audit_row c (
              update_entry found.project found.flag found.env found.cfg
                (apply_update c body found.cfg)))
            s.audit_logs;
    }

  flush_config-ok :
      (found : Found) (updated : FlagEnvironmentConfig) (s : Transaction) {u : Unit {0}}
      {t : Transaction}
      → flush_config unchanged found updated s ≡ (ok u, t)
      → (current : FlagEnvironmentConfig) × (E.get (found.flag.id, found.env.id) s.flag_configs
          ≡ some current)
        × (record s {
          tables = record s.tables {
            flag_configs = E.add (merged unchanged found.cfg updated current) s.flag_configs;
          };
        }
            ≡ t)
  unfolding flush_config
  flush_config-ok found updated s h =
      let (current, at, h1) =
        or_raise-ok (E.get (found.flag.id, found.env.id) s.flag_configs) stale_data_error _ s h in
      (current, at, ap (λ (r : Result (Unit {0}) × Transaction). r.1) h1)

  module _ ⦃p : Pydantic⦄ (c : Context) (found : Found) (body : FlagConfigUpdate) where
    pub write_phase-Written :
        (s : Transaction) {out : FlagConfigOut} {s' : Transaction}
        → write_phase unchanged c found body s ≡ (ok out, s')
        → Written c found body s s' out
    unfolding write_phase record_audit
    write_phase-Written s {out} {s'} h =
        let bad = validate_indices body (length found.flag.variations) in
        let updated = apply_update c body found.cfg in
        let (no_bad, h1) = raise_if-ok (not (is_empty bad)) _ _ s h in
        let (u, t, flushed, h2) = bind-ok (flush_config unchanged found updated) _ s h1 in
        let (current, at, same_t) = flush_config-ok found updated s flushed in
        let (fit, h3) = raise_if-ok (not (fits_columns updated)) _ _ _ h2 in
        let (sent, out_of, h4) = env_changed_bind-ok c found.env.id _ _ h3 in
        let (shown, same) = or_raise_last (config_out found.env.key updated) _ _ h4 in
        record {
          current = current;
          stored = at;
          shown = shown;
          tables =
              ap (λ (r : Transaction). r.tables) same
              ∙ ap
                  (λ (r : Transaction). record r.tables {
                    audit_logs =
                        E.add
                          (audit_row c
                            (update_entry found.project found.flag found.env found.cfg updated))
                          r.audit_logs;
                  })
                  (sym same_t);
        }

    -- The version that a write phase leaves and shows is the one after the version that was read,
    -- whatever version is stored by then.
    pub write_phase-version :
        (s : Transaction) {out : FlagConfigOut} {s' : Transaction}
        → write_phase unchanged c found body s ≡ (ok out, s')
        → (row : FlagEnvironmentConfig) × (E.get (found.flag.id, found.env.id) s'.flag_configs
            ≡ some row)
          × (row.version ≡ found.cfg.version + 1)
          × (out.version ≡ found.cfg.version + 1)
    write_phase-version s {out} h =
        let w = write_phase-Written s h in
        let row = merged unchanged found.cfg (apply_update c body found.cfg) w.current in
        let key =
          merged_pk unchanged found.cfg (apply_update c body found.cfg) w.current
          ∙ E.get_pk (found.flag.id, found.env.id) w.current s.flag_configs w.stored in
        (
          row,
          ap (λ (d : Database). E.get (found.flag.id, found.env.id) d.flag_configs) w.tables
              ∙ ap (λ (k : ℕ × ℕ). E.get k (E.add row s.flag_configs)) (sym key)
              ∙ get-add_same row s.flag_configs,
          merged-version unchanged c body found.cfg w.current,
          config_out-version found.env.key (apply_update c body found.cfg) w.shown
              ∙ apply_update-version c body found.cfg,
        )

  -- Where the transactions of two updates have read the same row and both return, one after the
  -- other, both show the version after the one that was read, and so does the row that is stored in
  -- the end: the two changes raise the version by one.
  pub lost_update :
      ⦃p : Pydantic⦄ (c d : Context) (project_key flag_key env_key : String)
      (first second : FlagConfigUpdate) (s : Transaction) {found : Found} {t t' t'' : Transaction}
      {out out' : FlagConfigOut}
      → read_phase project_key flag_key env_key s ≡ (ok found, t)
      → write_phase unchanged c found first s ≡ (ok out, t')
      → write_phase unchanged d found second t' ≡ (ok out', t'')
      → (E.get (found.flag.id, found.env.id) s.flag_configs ≡ some found.cfg)
        × (out.version ≡ found.cfg.version + 1)
        × (out'.version ≡ out.version)
        × ((row : FlagEnvironmentConfig) × (E.get (found.flag.id, found.env.id) t''.flag_configs
              ≡ some row)
            × (row.version ≡ out.version))
  lost_update c d project_key flag_key env_key first second s {found} {t' = t'} h one two =
      let (row, at, v, shown) = write_phase-version c found first s one in
      let (row', at', v', shown') = write_phase-version d found second t' two in
      (
        read_phase-stored project_key flag_key env_key s h,
        shown,
        shown' ∙ sym shown,
        (row', at', v' ∙ sym shown),
      )
