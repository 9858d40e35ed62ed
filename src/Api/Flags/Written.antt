-- ===== src/Api/Flags/Written.antt =====
-- The rows that `update_flag_config` of control-plane/app/api/flags.py leaves, field by field.
use feature_flags.Api.Common.{is_flag}
use feature_flags.Api.Parts.{scalar-PlaceOf, is_flag-parts, PlaceOf}
use feature_flags.Store.Relations.{get-add_same}
use feature_flags.Services.Audit.{audit_row}
use feature_flags.Api.Flags.Replies.{get-add_self}
use feature_flags.Services.Outbox.{outbox}
use feature_flags.Api.Flags.IndexLaws.{validate_indices_iff, references, Exists}
use feature_flags.Api.Flags.Handlers.{update_entry, update_flag_config}
use feature_flags.Schemas.Dump.{
  dump_prerequisite, dump_fallthrough, dump_rule, dump_target, dump_list,
}
use feature_flags.Api.Flags.Update.{update-Updated, Located}
use feature_flags.Models.{AuditLog, flag_config_pk, FlagEnvironmentConfig}
use feature_flags.Store.Compare.{same_json, flushed_json}
use feature_flags.Schemas.Flag.{FlagConfigUpdate}
use feature_flags.Api.Flags.Config.{FlagConfigOut, apply_update, flushed_config}
use feature_flags.Schemas.Pydantic.{Pydantic}
use feature_flags.Json.{Json}
use feature_flags.Store.Session.{Database, ok, Transaction, Context}
use feature_flags.Store.Engine.{Engine}
use feature_flags.Base.{
  sym, id_key, pair_key, ◌∙◌, pair_eq, ℕ, ◌+◌, length, ap, All, some, ◌⊎◌, if◌then◌else◌, ◌≡◌, Bool,
  String, refl, true, false, inl, inr,
}

module _ ⦃E : Engine⦄ where
  -- A JSON column afterwards: the value that was sent, or the one that was loaded where Python
  -- compares the two as equal.
  abbrev pub Column : Json → Json → Json → Type 0
  Column loaded sent stored =
      ((same_json loaded sent ≡ false) × (stored ≡ sent))
      ⊎ ((same_json loaded sent ≡ true) × (stored ≡ loaded))

  flushed_json-Column : (loaded sent : Json) → Column loaded sent (flushed_json loaded sent)
  flushed_json-Column loaded sent = go (same_json loaded sent)
    where
      go :
          (b : Bool)
          → ((b ≡ false) × ((if b then loaded else sent) ≡ sent))
            ⊎ ((b ≡ true) × ((if b then loaded else sent) ≡ loaded))
      go true = inr (refl, refl)
      go false = inl (refl, refl)

  -- The configuration afterwards, by the one before and the request.
  pub record ConfigAfter (c : Context) (body : FlagConfigUpdate)
      (before row : FlagEnvironmentConfig) : Type 0 where
    pub flag_id : row.flag_id ≡ before.flag_id
    pub environment_id : row.environment_id ≡ before.environment_id
    pub enabled : row.enabled ≡ body.enabled
    pub targets : Column before.targets (dump_list dump_target body.targets) row.targets
    pub rules : Column before.rules (dump_list dump_rule body.rules) row.rules
    pub fallthrough : Column before.fallthrough (dump_fallthrough body.fallthrough) row.fallthrough
    pub off_variation : row.off_variation ≡ body.off_variation
    pub prerequisites :
        Column before.prerequisites
          (dump_list dump_prerequisite body.prerequisites)
          row.prerequisites
    pub version : row.version ≡ before.version + 1
    pub updated_at : row.updated_at ≡ c.now
    pub updated_by : row.updated_by ≡ some c.actor

  flushed_config-After :
      (c : Context) (body : FlagConfigUpdate) (before : FlagEnvironmentConfig)
      → ConfigAfter c body before (flushed_config before (apply_update c body before))
  unfolding flushed_config apply_update
  flushed_config-After c body before = record {
    flag_id = refl;
    environment_id = refl;
    enabled = refl;
    targets = flushed_json-Column before.targets (dump_list dump_target body.targets);
    rules = flushed_json-Column before.rules (dump_list dump_rule body.rules);
    fallthrough = flushed_json-Column before.fallthrough (dump_fallthrough body.fallthrough);
    off_variation = refl;
    prerequisites =
        flushed_json-Column before.prerequisites (dump_list dump_prerequisite body.prerequisites);
    version = refl;
    updated_at = refl;
    updated_by = refl;
  }

  -- What an update that returned has found and left.
  pub record Written (c : Context) (project_key flag_key env_key : String) (body : FlagConfigUpdate)
      (s s' : Transaction) : Type 0 where
    pub at : Located project_key flag_key env_key s
    pub place : PlaceOf project_key env_key at.project at.env s.tables
    pub flag_in : at.flag.project_id ≡ at.project.id
    pub flag_named : at.flag.key ≡ flag_key
    pub before : FlagEnvironmentConfig
    pub before_stored : E.get (at.flag.id, at.env.id) s.flag_configs ≡ some before
    pub indices : All (Exists (length at.flag.variations)) (references body)
    pub row : FlagEnvironmentConfig
    pub row_stored : E.get (at.flag.id, at.env.id) s'.flag_configs ≡ some row
    pub after : ConfigAfter c body before row
    pub others :
        (k : ℕ × ℕ)
        → pair_eq (at.flag.id, at.env.id) k ≡ false
        → E.get k s'.flag_configs ≡ E.get k s.flag_configs
    pub entry : AuditLog
    pub entry_stored : E.get c.serial s'.audit_logs ≡ some entry
    pub entry_actor : entry.actor ≡ c.actor
    pub entry_action : entry.action ≡ "flag.targeting.updated"
    pub entry_resource : entry.resource_key ≡ at.flag.key
    pub entry_environment : entry.environment_id ≡ some at.env.id
    pub other_tables :
        s'.tables ≡ record s.tables { flag_configs = s'.flag_configs; audit_logs = s'.audit_logs }
    pub notified : outbox c at.env.id s.notified ≡ some s'.notified

  module _ ⦃p : Pydantic⦄ (c : Context) (project_key flag_key env_key : String)
      (body : FlagConfigUpdate) (s : Transaction) {out : FlagConfigOut} {s' : Transaction} where
    -- An update that returns has found its project, flag, environment and configuration, and every
    -- index that it names is that of a variation of the flag. It has left the fields of the request in
    -- the configuration, under the next version, but for the JSON columns whose new value Python
    -- compares as equal to the stored one, which stay as they were; it has left an audit row by the
    -- caller about the flag, every other configuration and every other table as it was, and has
    -- notified as the backend says.
    pub update_flag_config-Written :
        update_flag_config c project_key flag_key env_key body s ≡ (ok out, s')
        → Written c project_key flag_key env_key body s s'
    update_flag_config-Written h =
        let u = update-Updated c project_key flag_key env_key body s h in
        let after = flushed_config u.before (apply_update c body u.before) in
        let key = pk_after u.before ∙ E.get_pk _ u.before s.flag_configs u.stored in
        let entry =
          update_entry u.at.project u.at.flag u.at.env u.before (apply_update c body u.before) in
        let in_flag =
          is_flag-parts u.at.project.id flag_key u.at.flag
            (E.scalar_some (is_flag u.at.project.id flag_key) u.at.flag s.flags
              u.at.flag_found).0 in
        record {
          at = u.at;
          place =
              scalar-PlaceOf project_key env_key u.at.project u.at.env s.tables u.at.project_found
                u.at.env_found;
          flag_in = in_flag.0;
          flag_named = in_flag.1;
          before = u.before;
          before_stored = u.stored;
          indices = (validate_indices_iff body (length u.at.flag.variations)).0 u.valid;
          row = after;
          row_stored = rw (ap (λ (d : Database). d.flag_configs) u.tables) (
              get-add_self (u.at.flag.id, u.at.env.id) u.before after s u.stored
                (pk_after u.before));
          after = flushed_config-After c body u.before;
          others = λ k other.
              ap (λ (d : Database). E.get k d.flag_configs) u.tables
              ∙ E.get-add k after s.flag_configs
              ∙ ap (λ (b : Bool). if b then some after else E.get k s.flag_configs)
                  (ap (λ (j : ℕ × ℕ). pair_eq j k) key ∙ other);
          entry = audit_row c entry;
          entry_stored =
              ap (λ (d : Database). E.get c.serial d.audit_logs) u.tables
              ∙ get-add_same (audit_row c entry) s.audit_logs;
          entry_actor = refl;
          entry_action = refl;
          entry_resource = refl;
          entry_environment = refl;
          other_tables =
              u.tables
              ∙ ap
                  (λ (d : Database). record s.tables {
                    flag_configs = d.flag_configs;
                    audit_logs = d.audit_logs;
                  })
                  (sym u.tables);
          notified = u.notified;
        }
      where
        pk_after :
            (before : FlagEnvironmentConfig)
            → flag_config_pk (flushed_config before (apply_update c body before))
              ≡ flag_config_pk before
        pk_after before =
            let a = flushed_config-After c body before in
            ap (λ (i : ℕ). (i, (flushed_config before (apply_update c body before)).environment_id))
              a.flag_id
            ∙ ap (λ (i : ℕ). (before.flag_id, i)) a.environment_id
