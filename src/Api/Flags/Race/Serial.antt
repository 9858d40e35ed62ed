-- ===== src/Api/Flags/Race/Serial.antt =====
-- The two phases of an update of control-plane/app/api/flags.py, against the handler that runs
-- without another transaction in between.
use feature_flags.Api.Flags.Indices.{validate_indices}
use feature_flags.Services.Notify.{env_changed}
use feature_flags.Services.Audit.{record_audit}
use feature_flags.Base.{
  text_key, refl, true, false, none, nat_eq_iff, nat_eq, not, length, ◌∙◌, pair_key, ap, some, ℕ,
  sym, ◌+◌, if◌then◌else◌, ◌≡◌, String, ℤ, Option, Bool,
}
use feature_flags.Store.Session.{
  response_validation_error, or_raise, data_error, Error, raise_if, ◌>>=◌, ◌>>◌, err, continue,
  Result, Context, ok, Transaction, Action,
}
use feature_flags.Store.Actions.{or_raise_last}
use feature_flags.Api.Common.{get_environment, get_flag, get_project}
use feature_flags.Api.Flags.Handlers.{
  is_empty, update_entry, save_config, no_config, update_flag_config, replace_config, get_config,
}
use feature_flags.Schemas.Pydantic.{Pydantic}
use feature_flags.Api.Flags.Config.{
  config_out, fits_columns, FlagConfigOut, apply_update, flushed_config,
}
use feature_flags.Models.{FlagEnvironmentConfig}
use feature_flags.Schemas.Flag.{FlagConfigUpdate}
use feature_flags.Api.Flags.Race.{
  Found, flush_config, write_phase, read_phase, same_bool, same_actor, merged,
}
use feature_flags.Base.Int.{neg_part, pos_part, eq_of_parts, eqb_ℤ}
use feature_flags.Store.Engine.{Engine}
use feature_flags.Store.Compare.{same_bool, same_json}

-- A column that compares as unchanged keeps a value that is the new one.
kept :
    {A : Type 0} (same : A → A → Bool)
    → ((a b : A) → same a b ≡ true → a ≡ b)
    → (a b : A) → (if same a b then a else b) ≡ b
kept {A} same sound a b = go (same a b) refl
  where
    go : (x : Bool) → same a b ≡ x → (if x then a else b) ≡ b
    go true h = sound a b h
    go false h = refl

same_bool_sound : (a b : Bool) → same_bool a b ≡ true → a ≡ b
same_bool_sound true true h = refl
same_bool_sound true false h = sym h
same_bool_sound false true h = h
same_bool_sound false false h = refl

same_actor_sound : (a b : Option String) → same_actor a b ≡ true → a ≡ b
same_actor_sound none none h = refl
same_actor_sound none (some b) h = absurd (cc h)
same_actor_sound (some a) none h = absurd (cc h)
same_actor_sound (some a) (some b) h = ap some ((text_key.same_iff a b).0 h)

eqb_ℤ_sound : (a b : ℤ) → eqb_ℤ a b ≡ true → a ≡ b
eqb_ℤ_sound a b h =
    eq_of_parts a b ((nat_eq_iff (pos_part a + neg_part b) (pos_part b + neg_part a)).0 h)

module _ ⦃E : Engine⦄ where
  merged_self :
      (cfg u : FlagEnvironmentConfig)
      → merged same_json cfg u cfg ≡ record (flushed_config cfg u) {
        flag_id = cfg.flag_id;
        environment_id = cfg.environment_id;
      }
  unfolding merged flushed_config
  merged_self cfg u = rw (
    kept same_bool same_bool_sound cfg.enabled u.enabled,
    kept eqb_ℤ eqb_ℤ_sound cfg.off_variation u.off_variation,
    kept nat_eq (λ a b. (nat_eq_iff a b).0) cfg.version u.version,
    kept same_actor same_actor_sound cfg.updated_by u.updated_by,
  )

  -- Nobody changed the row in between, so each column of the UPDATE is that of the handler's flush.
  merged_alone :
      (c : Context) (b : FlagConfigUpdate) (cfg : FlagEnvironmentConfig)
      → merged same_json cfg (apply_update c b cfg) cfg ≡ flushed_config cfg (apply_update c b cfg)
  unfolding apply_update flushed_config
  merged_alone c b cfg = merged_self cfg (apply_update c b cfg)

  -- Two chains that begin with the same action, of which the second is split once more.
  bind-step :
      {A B C : Type 0} (m : Action A) (f : A → Action C) (g : A → Action B) (k : B → Action C)
      (s : Transaction)
      → ((a : A) (t : Transaction) → m s ≡ (ok a, t) → f a t ≡ (g a >>= k) t)
      → (m >>= f) s ≡ ((m >>= g) >>= k) s
  bind-step {A} {B} {C} m f g k s h = go (m s) refl
    where
      go :
          (r : Result A × Transaction)
          → m s ≡ r
          → continue r.0 f r.1 ≡ continue (continue r.0 g r.1).0 k (continue r.0 g r.1).1
      go (ok a, t) e = h a t e
      go (err x, t) e = refl

  get_config-stored :
      (flag_id env_id : ℕ) (s : Transaction) {cfg : FlagEnvironmentConfig} {t : Transaction}
      → get_config flag_id env_id s ≡ (ok cfg, t)
      → E.get (flag_id, env_id) t.flag_configs ≡ some cfg
  unfolding get_config
  get_config-stored flag_id env_id s {cfg} {t} h =
      let (found, same) = or_raise_last (E.get (flag_id, env_id) s.flag_configs) no_config s h in
      ap (λ (r : Transaction). E.get (flag_id, env_id) r.flag_configs) same ∙ found

  module _ ⦃p : Pydantic⦄ (c : Context) (body : FlagConfigUpdate) where
    flush_alone :
        (found : Found) (s : Transaction)
        → E.get (found.flag.id, found.env.id) s.flag_configs ≡ some found.cfg
        → save_config found.cfg (apply_update c body found.cfg) s
          ≡ flush_config same_json found (apply_update c body found.cfg) s
    unfolding flush_config save_config
    flush_alone found s h = rw (h, merged_alone c body found.cfg)

    write_phase_alone :
        (found : Found) (s : Transaction)
        → E.get (found.flag.id, found.env.id) s.flag_configs ≡ some found.cfg
        → replace_config c found.project found.flag found.env found.cfg body s
          ≡ write_phase same_json c found body s
    unfolding replace_config write_phase
    write_phase_alone found s h =
        go (not (is_empty (validate_indices body (length found.flag.variations)))) _
      where
        updated : FlagEnvironmentConfig
        updated = apply_update c body found.cfg

        after : Action FlagConfigOut
        after = do
          record_audit c (update_entry found.project found.flag found.env found.cfg updated)
          raise_if (not (fits_columns updated)) data_error
          env_changed c found.env.id
          or_raise (config_out found.env.key updated) response_validation_error

        go :
            (bad : Bool) (e : Error)
            → (raise_if bad e >> (save_config found.cfg updated >> after)) s
              ≡ (raise_if bad e >> (flush_config same_json found updated >> after)) s
        go true e = refl
        go false e =
            ap (λ (r : Result (Unit {0}) × Transaction). continue r.0 (λ _. after) r.1)
              (flush_alone found s h)

    -- The handler that runs alone is its two phases, one directly after the other, where both compare
    -- JSON columns as Python does.
    pub update_flag_config-phases :
        (project_key flag_key env_key : String) (s : Transaction)
        → update_flag_config c project_key flag_key env_key body s
          ≡ (read_phase project_key flag_key env_key >>= λ found.
                write_phase same_json c found body)
              s
    unfolding update_flag_config read_phase
    update_flag_config-phases project_key flag_key env_key s =
        bind-step (get_project project_key) _ _ _ s λ project t1 e1.
          bind-step (get_flag project.id flag_key) _ _ _ t1 λ flag t2 e2.
            bind-step (get_environment project.id env_key) _ _ _ t2 λ env t3 e3.
              bind-step (get_config flag.id env.id) _ _ _ t3 λ cfg t4 e4.
                write_phase_alone (record { project = project; flag = flag; env = env; cfg = cfg })
                  t4 (get_config-stored flag.id env.id t3 e4)
