-- ===== src/DataPlane/Rulesets/Refreshed.antt =====
-- What a load of data-plane/internal/store/store.go leaves, and when it comes to the end.
use feature_flags.DataPlane.Rulesets.Loading.{load_refs-Holds, load_refs_assembles, Holds}
use feature_flags.DataPlane.Rulesets.{Ruleset, assemble, load_all, Rulesets}
use mathlib.Core.Option.{some-injective}
use feature_flags.Models.{
  SegmentEnvironmentConfig, Segment, FlagEnvironmentConfig, Environment, Flag,
}
use feature_flags.Store.Session.{Database}
use feature_flags.Store.Engine.{Engine}
use feature_flags.Base.{
  id_key, ℕ, ap, Option-cases, ◌∙◌, List, sym, Elem, ◌≡◌, Option, refl, inl, inr, some, none, true,
  [],
}

module _ ⦃E : Engine⦄ where
  pub only_environment :
      (d : Database) (env : Environment)
      → E.get env.id d.environments ≡ some env
      → (x : Environment) → Elem x (E.scalars (λ e. true) d.environments)
      → x.id ≡ env.id
      → x ≡ env
  only_environment d env at x listed same =
      let (_, there) = E.scalars_sound (λ e. true) x d.environments listed in
      some-injective x env (sym there ∙ ap (λ (i : ℕ). E.get i d.environments) same ∙ at)

  module _ {F S : Type 0} (unmarshal_flag : Flag → FlagEnvironmentConfig → Option F)
      (unmarshal_segment : Segment → SegmentEnvironmentConfig → Option S) (d : Database)
      (env : Environment) (at : E.get env.id d.environments ≡ some env) where
    -- After a load that comes to the end, whatever was held before, each stored environment has a
    -- ruleset of the version that its rows add up to: the version of the one that is assembled.
    pub load_all-Holds :
        (envs after : Rulesets F S) {now : List ℕ}
        → load_all unmarshal_flag unmarshal_segment d envs ≡ (some now, after)
        → (rs : Ruleset F S) × (assemble unmarshal_flag unmarshal_segment d env ≡ some rs)
          × Holds (assemble unmarshal_flag unmarshal_segment d) after env.id rs.version
    unfolding load_all
    load_all-Holds envs after loaded =
        let es = E.scalars (λ e. true) d.environments in
        let build = assemble unmarshal_flag unmarshal_segment d in
        let listed = E.scalars_complete (λ e. true) env.id env d.environments at refl in
        let (rs, made) = load_refs_assembles build env es listed envs [] loaded in
        (
          rs,
          made,
          load_refs-Holds build env rs made es (only_environment d env at) listed envs [] loaded,
        )

    -- One stored environment that cannot be assembled makes the load of all environments fail,
    -- whatever is held.
    pub load_all_blocked :
        (envs : Rulesets F S)
        → assemble unmarshal_flag unmarshal_segment d env ≡ none
        → (load_all unmarshal_flag unmarshal_segment d envs).0 ≡ none
    load_all_blocked envs broken =
        elim (Option-cases (load_all unmarshal_flag unmarshal_segment d envs).0) [
          | inl failed ↦ failed
          | inr (now, ended) ↦
              let after = (load_all unmarshal_flag unmarshal_segment d envs).1 in
              let (rs, made, _) =
                load_all-Holds envs after (ap (λ (o : Option (List ℕ)). (o, after)) ended) in
              absurd (cc (sym broken ∙ made))
        ]
