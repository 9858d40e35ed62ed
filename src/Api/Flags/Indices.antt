-- ===== src/Api/Flags/Indices.antt =====
-- `_validate_indices` of control-plane/app/api/flags.py.
use Prim.Native.String.{◌++◌ as ◌+++◌}
use feature_flags.Base.{
  ℕ, ◌+◌, ℤ, pos, String, Bool, ◌&&◌, Option, none, some, List, [], ◌∷◌, ◌++◌, if◌then◌else◌,
}
use feature_flags.Base.Int.{ltb_ℤ, leb_ℤ}
use feature_flags.Base.Text.{show_ℕ, show_ℤ}
use feature_flags.Schemas.Flag.{
  WeightedVariation, Rollout, VariationOrRollout, Rule, Target, FlagConfigUpdate,
}

-- `0 <= idx < variation_count`
abbrev pub in_range : ℕ → ℤ → Bool
in_range variation_count idx = leb_ℤ (pos 0) idx && ltb_ℤ idx (pos variation_count)

module _ (variation_count : ℕ) where
  -- `check`: what it appends to `bad`.
  unfoldable pub check : ℤ → String → List String
  check idx where_ =
      if in_range variation_count idx then [] else (where_ +++ " -> variation " +++ show_ℤ idx) ∷ []

  unfoldable pub check_weighted : String → List WeightedVariation → List String
  check_weighted where_ [] = []
  check_weighted where_ (w ∷ ws) = check w.variation where_ ++ check_weighted where_ ws

  unfoldable pub check_variation : String → Option ℤ → List String
  check_variation where_ none = []
  check_variation where_ (some idx) = check idx where_

  unfoldable pub check_rollout : String → Option Rollout → List String
  check_rollout where_ none = []
  check_rollout where_ (some r) = check_weighted (where_ +++ ".rollout") r.variations

  unfoldable pub check_choice : String → VariationOrRollout → List String
  unfolding check_variation check_rollout
  check_choice where_ c = check_variation where_ c.variation ++ check_rollout where_ c.rollout

  unfoldable pub check_targets : List Target → List String
  check_targets [] = []
  check_targets (t ∷ ts) =
      check t.variation ("target[" +++ t.context_kind +++ "]") ++ check_targets ts

  -- `for i, rule in enumerate(cfg.rules)`
  unfoldable pub check_rules : ℕ → List Rule → List String
  check_rules i [] = []
  check_rules i (r ∷ rs) =
      check_choice ("rule[" +++ show_ℕ i +++ "]") r.choice ++ check_rules (i + 1) rs

-- The list `bad`; the handler raises if it is not empty.
unfoldable pub validate_indices : FlagConfigUpdate → ℕ → List String
validate_indices cfg n =
    check n cfg.off_variation "offVariation"
    ++ (check_targets n cfg.targets
        ++ (check_rules n 0 cfg.rules ++ check_choice n "fallthrough" cfg.fallthrough))
