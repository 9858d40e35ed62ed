-- ===== src/DataPlane/Rulesets/Missed.antt =====
-- The version by which data-plane/internal/store/store.go notices a change, where two updates of
-- control-plane/app/api/flags.py were made at the same time.
use feature_flags.DataPlane.Rulesets.Refreshed.{only_environment, load_all-Holds}
use feature_flags.Api.Flags.Race.Lost.{
  read_phase-environment, write_phase-version, write_phase-Written,
}
use feature_flags.Api.Flags.Config.{apply_update, FlagConfigOut}
use feature_flags.Api.Flags.Race.{merged, write_phase, read_phase, Found}
use feature_flags.DataPlane.Rulesets.Loading.{load_refs_keeps}
use feature_flags.Schemas.Flag.{FlagConfigUpdate}
use feature_flags.Json.{Json}
use mathlib.Core.Option.{some-injective}
use feature_flags.DataPlane.Rulesets.{assemble, Ruleset, Rulesets, load_all}
use feature_flags.Schemas.Pydantic.{Pydantic}
use feature_flags.Models.{
  SegmentEnvironmentConfig, Segment, flag_config_pk, Environment, FlagEnvironmentConfig, Flag,
}
use feature_flags.Store.Session.{ok, Transaction, Context, Database}
use feature_flags.Store.Engine.{Engine}
use mathlib.Core.Option
use feature_flags.DataPlane.Rulesets.Versions.{config_version, assemble_version}
use feature_flags.Api.Flags.Race.Lost.{merged_pk, merged-version}
use feature_flags.Base.{
  pair_key, ◌==◌, Bool-cases, id_key, String, ap, ◌∙◌, List, Bool, sym, ℕ, ◌≡◌, Option, refl, inl,
  inr, some, true, [],
}

module _ ⦃E : Engine⦄ where
  open E use {Table}

  -- A row that replaces one of the same version changes no version.
  add_same_version :
      (m row : FlagEnvironmentConfig) (t : Table flag_config_pk)
      → E.get (flag_config_pk m) t ≡ some row
      → m.version ≡ row.version
      → (k : ℕ × ℕ)
      → Option.map config_version (E.get k (E.add m t)) ≡ Option.map config_version (E.get k t)
  add_same_version m row t at same k = elim (Bool-cases (flag_config_pk m == k)) [
    | inl here ↦
        let is = (pair_key.same_iff (flag_config_pk m) k).0 here in
        let there = ap (λ (j : ℕ × ℕ). E.get j t) (sym is) ∙ at in
        rw (E.get-add k m t, here) (ap some same ∙ sym (ap (Option.map config_version) there))
    | inr other ↦ rw (E.get-add k m t, other) refl
  ]

  module _ {F S : Type 0} (unmarshal_flag : Flag → FlagEnvironmentConfig → Option F)
      (unmarshal_segment : Segment → SegmentEnvironmentConfig → Option S) where
    -- Loads of two states in which an environment is assembled with one version: the second leaves
    -- what the first has left.
    load_all_keeps :
        (d d' : Database) (env : Environment) (envs after : Rulesets F S) {now : List ℕ}
        → E.get env.id d.environments ≡ some env
        → d'.environments ≡ d.environments
        → ((rs rs' : Ruleset F S)
            → assemble unmarshal_flag unmarshal_segment d env ≡ some rs
            → assemble unmarshal_flag unmarshal_segment d' env ≡ some rs'
            → rs'.version ≡ rs.version)
        → load_all unmarshal_flag unmarshal_segment d envs ≡ (some now, after)
        → (rs' : Ruleset F S) → assemble unmarshal_flag unmarshal_segment d' env ≡ some rs'
        → (load_all unmarshal_flag unmarshal_segment d' after).1 env.id ≡ after env.id
    unfolding load_all
    load_all_keeps d d' env envs after at same_envs versions loaded rs' made' =
        let at' = ap (λ t. E.get env.id t) same_envs ∙ at in
        let (rs, made, w) =
          load_all-Holds unmarshal_flag unmarshal_segment d env at envs after loaded in
        load_refs_keeps (assemble unmarshal_flag unmarshal_segment d') env rs' w.held made'
          (w.same ∙ sym (versions rs rs' made made')) (E.scalars (λ e. true) d'.environments)
          (only_environment d' env at') after [] w.at
        ∙ sym w.at

    -- Where two updates of a flag's targeting have read the same row, and the data plane's load after
    -- the first is written comes to the end, a load after the second is written leaves the ruleset of
    -- the environment as it was, whatever the second update changed, although it can be assembled.
    pub lost_update_unserved :
        ⦃p : Pydantic⦄ (unchanged : Json → Json → Bool) (c d : Context)
        (project_key flag_key env_key : String) (first second : FlagConfigUpdate) (s : Transaction)
        {found : Found} {t t' t'' : Transaction} {out out' : FlagConfigOut}
        (envs after : Rulesets F S) {now : List ℕ} (rs' : Ruleset F S)
        → read_phase project_key flag_key env_key s ≡ (ok found, t)
        → write_phase unchanged c found first s ≡ (ok out, t')
        → load_all unmarshal_flag unmarshal_segment t'.tables envs ≡ (some now, after)
        → write_phase unchanged d found second t' ≡ (ok out', t'')
        → assemble unmarshal_flag unmarshal_segment t''.tables found.env ≡ some rs'
        → (load_all unmarshal_flag unmarshal_segment t''.tables after).1 found.env.id
          ≡ after found.env.id
    lost_update_unserved unchanged c d project_key flag_key env_key first second s {found} {t' = t'}
          {t'' = t''} envs after rs' h one loaded two made' =
        let w1 = write_phase-Written unchanged c found first s one in
        let w2 = write_phase-Written unchanged d found second t' two in
        let (row, at_row, v1, _) = write_phase-version unchanged c found first s one in
        let m = merged unchanged found.cfg (apply_update d second found.cfg) w2.current in
        let at = read_phase-environment unchanged project_key flag_key env_key s h in
        let key =
          merged_pk unchanged found.cfg (apply_update d second found.cfg) w2.current
          ∙ E.get_pk (found.flag.id, found.env.id) w2.current t'.flag_configs w2.stored in
        let version = merged-version unchanged d second found.cfg w2.current ∙ sym v1 in
        let stored = ap (λ (k : ℕ × ℕ). E.get k t'.flag_configs) key ∙ at_row in
        load_all_keeps t'.tables t''.tables found.env envs after
          (ap (λ (b : Database). E.get found.env.id b.environments) w1.tables ∙ at)
          (ap (λ (b : Database). b.environments) w2.tables)
          (λ r r'.
            assemble_version unmarshal_flag unmarshal_segment t'.tables t''.tables found.env
              (ap (λ (b : Database). b.flags) w2.tables)
              (ap (λ (b : Database). b.segments) w2.tables)
              (ap (λ (b : Database). b.segment_configs) w2.tables)
              (λ k.
                ap (λ (b : Database). Option.map config_version (E.get k b.flag_configs)) w2.tables
                ∙ add_same_version m row t'.flag_configs stored version k))
          loaded rs' made'
