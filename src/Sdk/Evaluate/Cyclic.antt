-- ===== src/Sdk/Evaluate/Cyclic.antt =====
-- A flag that is a prerequisite of itself.
use feature_flags.Base.Int.{neg_part, pos_part, eqb_ℤ}
use feature_flags.Sdk.Run.{◌>>=◌, Run, done, index_at, lookup}
use feature_flags.Sdk.Evaluate.{
  off, meets, one_met, target_match, after_targets, all_met, evaluate_from, evaluate,
}
use feature_flags.Sdk.Attributes.{Context}
use feature_flags.Sdk.Types.{Result, Variation, Prerequisite, Flag, Store}
use feature_flags.Sdk.Values.{Go}
use text.Mathlib.TextPositions.{eq_refl}
use feature_flags.Base.{
  refl, ◌+◌, nat_eq_iff, ℤ, ◌&&◌, false, not, if◌then◌else◌, Option, String, ap, List, Bool, ◌∙◌,
  suc, true, ◌≡◌, ℕ, [], ◌∷◌, some,
}

same-eqb_ℤ : (a b : ℤ) → b ≡ a → eqb_ℤ a b ≡ true
same-eqb_ℤ a b e = rw e ((nat_eq_iff (pos_part a + neg_part a) (pos_part a + neg_part a)).1 refl)

module _ ⦃g : Go⦄ (store : Store) (ctx : Context) (depth : ℕ) where
  abbrev decide : Flag → Bool → Run Bool → Run Result
  decide flag enabled met =
      if not enabled
      then off flag "OFF"
      else (met >>= λ all.
          if all
          then after_targets store ctx depth flag (target_match ctx flag.config.targets)
          else off flag "PREREQUISITE_FAILED")

  module _ (flag : Flag) (p : Prerequisite) {variation : Variation}
      (stored : lookup p.flag_key store.flags ≡ some flag) (on : flag.config.enabled ≡ true)
      (only : flag.config.prerequisites ≡ p ∷ [])
      (at : index_at flag.variations flag.config.off_variation ≡ done variation) where
    unrolled :
        (fuel : ℕ) (visiting : List String)
        → evaluate_from store ctx depth (suc fuel) flag visiting
          ≡ decide flag true (
              one_met store ctx depth
                (evaluate_from store ctx depth fuel)
                visiting
                p
                (some flag)
                (done true))
    unfolding evaluate_from all_met
    unrolled fuel visiting =
        let again = evaluate_from store ctx depth fuel in
        ap
          (λ (b : Bool).
            decide flag b (all_met store ctx depth again visiting flag.config.prerequisites))
          on
        ∙ ap
            (λ (ps : List Prerequisite).
              decide flag true (all_met store ctx depth again visiting ps))
            only
        ∙ ap
            (λ (found : Option Flag).
              decide flag true (one_met store ctx depth again visiting p found (done true)))
            stored

    -- The second visit.
    visited :
        (fuel : ℕ)
        → evaluate_from store ctx depth (suc fuel) flag (p.flag_key ∷ [])
          ≡ done (record {
            variation_index = flag.config.off_variation;
            value = variation.value;
            reason = "PREREQUISITE_FAILED";
          })
    visited fuel =
        unrolled fuel (p.flag_key ∷ [])
        ∙ rw (eq_refl p.flag_key) (
            ap
              (λ (r : Run Variation). r >>= λ v. done (record {
                variation_index = flag.config.off_variation;
                value = v.value;
                reason = "PREREQUISITE_FAILED";
              }))
              at)

    -- A stored flag that is on, whose off variation exists and whose only prerequisite is the flag
    -- itself at that variation, is evaluated as if it had no prerequisite: the cycle does not fail
    -- closed.
    pub evaluate_cyclic :
        p.variation ≡ flag.config.off_variation
        → (fuel : ℕ)
        → evaluate store ctx depth (suc (suc fuel)) flag
          ≡ after_targets store ctx depth flag (target_match ctx flag.config.targets)
    unfolding evaluate
    evaluate_cyclic same fuel =
        unrolled (suc fuel) []
        ∙ ap
            (λ (r : Run Result).
              decide flag true
                (r >>= λ res. if meets store ctx depth p flag res then done true else done false))
            (visited fuel)
        ∙ ap (λ (b : Bool). decide flag true (if b then done true else done false))
            (ap (λ (b : Bool). b && eqb_ℤ flag.config.off_variation p.variation) on
              ∙ same-eqb_ℤ flag.config.off_variation p.variation same)
