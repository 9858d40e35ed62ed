-- ===== src/Sdk/Ruleset.antt =====
-- data-plane/internal/store/store.go: what `json.Unmarshal` makes of the targeting that the control
-- plane has stored, with the fields that the tags of sdk/go/flageval/types.go name. A number that an
-- `int` cannot hold is an error, which `assemble` returns.
pub mod Sound
use feature_flags.Base.Int.{ltb_ℤ, leb_ℤ}
use feature_flags.Base.{◌-◌, ℤ, pos, negsuc, ◌^◌, ◌&&◌, Option, some, none, Bool, true, map, []}
use feature_flags.Base.Maybe.{◌>>=◌, ◌>>◌, guard, traverse}
use feature_flags.Json.{Json}
use feature_flags.Schemas.Flag as Schema
use feature_flags.Schemas.Dump.{operator_text}
use feature_flags.Sdk.Values.{Go, Value}
use feature_flags.Sdk.Types.{
  Clause, WeightedVariation, Rollout, Fallthrough, Target, Prerequisite, Rule, Config,
}

-- An `int` has 64 bits.
unfoldable pub fits_int : ℤ → Bool
fits_int n = leb_ℤ (negsuc (2 ^ 63 - 1)) n && ltb_ℤ n (pos (2 ^ 63))

unfoldable pub weighted_of : Schema.WeightedVariation → Option WeightedVariation
unfolding fits_int
weighted_of w = do
  guard (fits_int w.variation)
  guard (fits_int w.weight)
  some (record { variation = w.variation; weight = w.weight })

unfoldable pub rollout_of : Schema.Rollout → Option Rollout
unfolding weighted_of
rollout_of r = do
  variations ← traverse weighted_of r.variations
  some (record { context_kind = r.context_kind; bucket_by = r.bucket_by; variations = variations })

-- A field that `exclude_none` left out stays nil.
abbrev pub where_set {ℓ κ} :
    {A : Type ℓ} {B : Type κ} → (A → Option B) → Option A → Option (Option B)
where_set f none = some none
where_set f (some a) = do b ← f a; some (some b)

abbrev pub index_of : ℤ → Option ℤ
index_of n = do guard (fits_int n); some n

unfoldable pub fallthrough_of : Schema.VariationOrRollout → Option Fallthrough
unfolding rollout_of
fallthrough_of c = do
  variation ← where_set index_of c.variation
  rollout ← where_set rollout_of c.rollout
  some (record { variation = variation; rollout = rollout })

unfoldable pub target_of : Schema.Target → Option Target
target_of t = do
  guard (fits_int t.variation)
  some (record { context_kind = t.context_kind; variation = t.variation; keys = t.keys })

unfoldable pub prerequisite_of : Schema.Prerequisite → Option Prerequisite
prerequisite_of q = do
  guard (fits_int q.variation)
  some (record { flag_key = q.flag_key; variation = q.variation })

-- The values of a clause are decoded by `value_of`.
module _ ⦃g : Go⦄ (value_of : Json → Value) where
  unfoldable pub clause_of : Schema.Clause → Clause
  clause_of c = record {
    context_kind = c.context_kind;
    attribute = c.attribute;
    op = operator_text c.op;
    values = map value_of c.values;
    negate = c.negate;
  }

  unfoldable pub rule_of : Schema.Rule → Option Rule
  unfolding clause_of fallthrough_of
  rule_of r = do
    choice ← fallthrough_of r.choice
    some (record {
      clauses = map clause_of r.clauses;
      variation = choice.variation;
      rollout = choice.rollout;
    })

  unfoldable pub config_of : Schema.FlagConfigUpdate → Option Config
  unfolding rule_of target_of prerequisite_of fallthrough_of
  config_of b = do
    targets ← traverse target_of b.targets
    rules ← traverse rule_of b.rules
    fallthrough ← fallthrough_of b.fallthrough
    prerequisites ← traverse prerequisite_of b.prerequisites
    some (record {
      enabled = b.enabled;
      targets = targets;
      rules = rules;
      fallthrough = fallthrough;
      off_variation = b.off_variation;
      prerequisites = prerequisites;
    })
