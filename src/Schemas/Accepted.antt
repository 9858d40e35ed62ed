-- ===== src/Schemas/Accepted.antt =====
-- What the models of control-plane/app/schemas/flag.py promise of a value that was read: the
-- declared ranges, the sum of the weights, and one of variation and rollout.
use feature_flags.Base.{ℤ, pos, ◌≡◌, ◌≢◌, Option, none, some, [], All}
use feature_flags.Base.Int.{◌≤ℤ◌}
use feature_flags.Schemas.Flag.{
  WeightedVariation, Rollout, VariationOrRollout, Rule, Target, Prerequisite, FlagConfigUpdate,
}
use feature_flags.Schemas.Limits.{weights_from}

pub record IsWeighted (w : WeightedVariation) : Type 0 where
  pub index : pos 0 ≤ℤ w.variation
  pub low : pos 0 ≤ℤ w.weight
  pub high : w.weight ≤ℤ pos 100000

pub record IsRollout (r : Rollout) : Type 0 where
  pub weighted : All IsWeighted r.variations
  pub total : weights_from (pos 0) r.variations ≡ pos 100000

-- Exactly one of the two is set.
abbrev pub OneOf : Option ℤ → Option Rollout → Type 0
OneOf (some n) none = pos 0 ≤ℤ n
OneOf none (some r) = IsRollout r
OneOf none none = ⊥
OneOf (some n) (some r) = ⊥

abbrev pub IsChoice : VariationOrRollout → Type 0
IsChoice c = OneOf c.variation c.rollout

pub record IsRule (r : Rule) : Type 0 where
  pub choice : IsChoice r.choice
  pub clauses : r.clauses ≢ []

abbrev pub IsTarget : Target → Type 0
IsTarget t = pos 0 ≤ℤ t.variation

abbrev pub IsPrerequisite : Prerequisite → Type 0
IsPrerequisite q = pos 0 ≤ℤ q.variation

pub record IsAccepted (u : FlagConfigUpdate) : Type 0 where
  pub targets : All IsTarget u.targets
  pub rules : All IsRule u.rules
  pub fallthrough : IsChoice u.fallthrough
  pub off_variation : pos 0 ≤ℤ u.off_variation
  pub prerequisites : All IsPrerequisite u.prerequisites
