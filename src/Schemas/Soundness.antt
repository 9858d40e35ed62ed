-- ===== src/Schemas/Soundness.antt =====
-- What is read from JSON meets the constraints of its model.
use feature_flags.Base.{ℤ, pos, ◌≡◌, refl, Option, none, some, List, [], ◌∷◌, All, arith}
use feature_flags.Base.Int.{◌≤ℤ◌}
use feature_flags.Base.Maybe.{traverse-All}
use feature_flags.Json.{Json, Fields, null, object, array, of_items, get_field}
use feature_flags.Schemas.Pydantic.{Pydantic, required, defaulted, optional, aliased}
use feature_flags.Schemas.Flag.{
  WeightedVariation, Rollout, VariationOrRollout, Rule, Target, Prerequisite, FlagConfigUpdate,
}
use feature_flags.Schemas.Limits.{weights_sum_to_100k}
use feature_flags.Schemas.Load.{
  load_list, load_index, load_weighted_variation, load_rollout, load_choice, load_rule,
  load_fallthrough, load_target, load_prerequisite, check_choice, load_flag_config_update,
}
use feature_flags.Schemas.Accepted.{
  IsWeighted, IsRollout, OneOf, IsChoice, IsRule, IsTarget, IsPrerequisite, IsAccepted,
}

-- `_exactly_one` passed, and each field that is set meets its own constraint.
OneOf-of_check :
    (v : Option ℤ) (r : Option Rollout)
    → ((n : ℤ) → v ≡ some n → pos 0 ≤ℤ n)
    → ((s : Rollout) → r ≡ some s → IsRollout s)
    → check_choice (record { variation = v; rollout = r }) ≡ some tt
    → OneOf v r
OneOf-of_check none none f g e = cc
OneOf-of_check (some n) (some s) f g e = cc
OneOf-of_check (some n) none f g e = f n refl
OneOf-of_check none (some s) f g e = g s refl

module _ ⦃p : Pydantic⦄ where
  pub load_list-All :
      {A : Type 0} (P : A → Type 0) (read : Json → Option A)
      → ((j : Json) (a : A) → read j ≡ some a → P a)
      → (j : Json) (l : List A) → load_list read j ≡ some l
      → All P l
  load_list-All P read sound (array js) l e = traverse-All P read sound (of_items js) l e
  load_list-All P read sound _ l e = cc

  pub required_list-All :
      {A : Type 0} (P : A → Type 0) (read : Json → Option A)
      → ((j : Json) (a : A) → read j ≡ some a → P a)
      → (o : Option Json) (l : List A) → required (load_list read) o ≡ some l
      → All P l
  required_list-All P read sound none l e = cc
  required_list-All P read sound (some j) l e = load_list-All P read sound j l e

  pub defaulted_list-All :
      {A : Type 0} (P : A → Type 0) (read : Json → Option A)
      → ((j : Json) (a : A) → read j ≡ some a → P a)
      → (o : Option Json) (l : List A) → defaulted (load_list read) [] o ≡ some l
      → All P l
  defaulted_list-All P read sound none [] e = tt
  defaulted_list-All P read sound none (a ∷ l) e = cc
  defaulted_list-All P read sound (some j) l e = load_list-All P read sound j l e

  load_weighted_variation-IsWeighted :
      (j : Json) (w : WeightedVariation) → load_weighted_variation j ≡ some w → IsWeighted w
  unfolding load_weighted_variation
  load_weighted_variation-IsWeighted (object fs) w e = ground arith
  load_weighted_variation-IsWeighted _ w e = cc

  load_target-IsTarget : (j : Json) (t : Target) → load_target j ≡ some t → IsTarget t
  unfolding load_target
  load_target-IsTarget (object fs) t e = ground arith
  load_target-IsTarget _ t e = cc

  load_prerequisite-IsPrerequisite :
      (j : Json) (q : Prerequisite) → load_prerequisite j ≡ some q → IsPrerequisite q
  unfolding load_prerequisite
  load_prerequisite-IsPrerequisite (object fs) q e = ground arith
  load_prerequisite-IsPrerequisite _ q e = cc

  load_rollout-IsRollout : (j : Json) (r : Rollout) → load_rollout j ≡ some r → IsRollout r
  unfolding load_rollout weights_sum_to_100k
  load_rollout-IsRollout (object fs) r e = ground (
    arith,
    required_list-All IsWeighted load_weighted_variation load_weighted_variation-IsWeighted
        (get_field "variations" fs) r.variations,
  )
  load_rollout-IsRollout _ r e = cc

  optional_index_sound :
      (o : Option Json) (n : ℤ)
      → defaulted (optional load_index) none o ≡ some (some n)
      → pos 0 ≤ℤ n
  optional_index_sound none n e = cc
  optional_index_sound (some null) n e = cc
  optional_index_sound (some _) n e = ground arith

  optional_rollout_sound :
      (o : Option Json) (r : Rollout)
      → defaulted (optional load_rollout) none o ≡ some (some r)
      → IsRollout r
  optional_rollout_sound none r e = cc
  optional_rollout_sound (some null) r e = cc
  optional_rollout_sound (some j) r e = load_rollout-IsRollout j r (ground arith)

  load_choice-IsChoice :
      (fs : Fields) (c : VariationOrRollout)
      → load_choice fs ≡ some c
      → check_choice c ≡ some tt
      → IsChoice c
  unfolding load_choice
  load_choice-IsChoice fs c e g =
      OneOf-of_check c.variation c.rollout
        (λ n q. optional_index_sound (get_field "variation" fs) n (ground arith))
        (λ r q. optional_rollout_sound (get_field "rollout" fs) r (ground arith)) g

  load_fallthrough-IsChoice :
      (j : Json) (c : VariationOrRollout) → load_fallthrough j ≡ some c → IsChoice c
  unfolding load_fallthrough
  load_fallthrough-IsChoice (object fs) c e =
      load_choice-IsChoice fs c (ground arith) (ground arith)
  load_fallthrough-IsChoice _ c e = cc

  required_fallthrough-IsChoice :
      (o : Option Json) (c : VariationOrRollout) → required load_fallthrough o ≡ some c → IsChoice c
  required_fallthrough-IsChoice none c e = cc
  required_fallthrough-IsChoice (some j) c e = load_fallthrough-IsChoice j c e

  defaulted_index_sound :
      (o : Option Json) (n : ℤ) → defaulted load_index (pos 0) o ≡ some n → pos 0 ≤ℤ n
  defaulted_index_sound none n e = ground arith
  defaulted_index_sound (some j) n e = ground arith

  load_rule-IsRule : (j : Json) (r : Rule) → load_rule j ≡ some r → IsRule r
  unfolding load_rule
  load_rule-IsRule (object fs) r e = record {
    choice = load_choice-IsChoice fs r.choice (ground arith) (ground arith);
    clauses = ground arith;
  }
  load_rule-IsRule _ r e = cc

  -- A request body that is read as a `FlagConfigUpdate` meets every declared constraint: indices
  -- are not negative, weights lie between 0 and 100000 and add up to 100000 in each rollout, rules
  -- have a clause, and each rule and the fallthrough set exactly one of variation and rollout.
  pub load_flag_config_update-IsAccepted :
      (j : Json) (u : FlagConfigUpdate) → load_flag_config_update j ≡ some u → IsAccepted u
  unfolding load_flag_config_update
  load_flag_config_update-IsAccepted (object fs) u e = record {
    targets =
        defaulted_list-All IsTarget load_target load_target-IsTarget (get_field "targets" fs)
          u.targets (ground arith);
    rules =
        defaulted_list-All IsRule load_rule load_rule-IsRule (get_field "rules" fs) u.rules
          (ground arith);
    fallthrough =
        required_fallthrough-IsChoice (get_field "fallthrough" fs) u.fallthrough (ground arith);
    off_variation =
        defaulted_index_sound (aliased "offVariation" "off_variation" fs) u.off_variation
          (ground arith);
    prerequisites =
        defaulted_list-All IsPrerequisite load_prerequisite load_prerequisite-IsPrerequisite
          (get_field "prerequisites" fs) u.prerequisites (ground arith);
  }
  load_flag_config_update-IsAccepted _ u e = cc
