-- ===== src/Schemas/Dump.antt =====
-- `model_dump(by_alias=True)` of the targeting models, as control-plane/app/api/flags.py stores
-- them; rules and the fallthrough are dumped with `exclude_none=True`.
use feature_flags.Base.{String, Option, none, some, List, map}
use feature_flags.Json.{Json, boolean, number, text, array, object, Fields, end, field, to_items}
use feature_flags.Schemas.Flag.{
  Operator, is_in, ends_with, starts_with, matches, contains, less_than, greater_than, before,
  after, sem_ver_equal, sem_ver_less, sem_ver_greater, segment_match, Clause, WeightedVariation,
  Rollout, VariationOrRollout, Rule, Fallthrough, Target, Prerequisite,
}

unfoldable pub operator_text : Operator → String
operator_text is_in = "in"
operator_text ends_with = "endsWith"
operator_text starts_with = "startsWith"
operator_text matches = "matches"
operator_text contains = "contains"
operator_text less_than = "lessThan"
operator_text greater_than = "greaterThan"
operator_text before = "before"
operator_text after = "after"
operator_text sem_ver_equal = "semVerEqual"
operator_text sem_ver_less = "semVerLess"
operator_text sem_ver_greater = "semVerGreater"
operator_text segment_match = "segmentMatch"

abbrev pub dump_list {ℓ} : {A : Type ℓ} → (A → Json) → List A → Json
dump_list dump l = array (to_items (map dump l))

unfoldable pub dump_clause : Clause → Json
dump_clause c = object (
    field "contextKind" (text c.context_kind) (
      field "attribute" (text c.attribute) (
        field "op" (text (operator_text c.op))
          (field "values" (array (to_items c.values)) (field "negate" (boolean c.negate) end)))))

unfoldable pub dump_weighted_variation : WeightedVariation → Json
dump_weighted_variation w =
    object (field "variation" (number w.variation) (field "weight" (number w.weight) end))

unfoldable pub dump_rollout : Rollout → Json
dump_rollout r = object (
    field "contextKind" (text r.context_kind) (
      field "bucketBy" (text r.bucket_by)
        (field "variations" (dump_list dump_weighted_variation r.variations) end)))

-- A field that is `None` is left out.
abbrev pub present {ℓ} : {A : Type ℓ} → String → (A → Json) → Option A → Fields → Fields
present key dump none rest = rest
present key dump (some a) rest = field key (dump a) rest

unfoldable pub dump_choice : VariationOrRollout → Fields → Fields
dump_choice c rest =
    present "variation" number c.variation (present "rollout" dump_rollout c.rollout rest)

unfoldable pub dump_rule : Rule → Json
dump_rule r = object (dump_choice r.choice (field "clauses" (dump_list dump_clause r.clauses) end))

unfoldable pub dump_fallthrough : Fallthrough → Json
dump_fallthrough c = object (dump_choice c end)

unfoldable pub dump_target : Target → Json
dump_target t = object (
    field "contextKind" (text t.context_kind)
      (field "variation" (number t.variation) (field "keys" (dump_list text t.keys) end)))

unfoldable pub dump_prerequisite : Prerequisite → Json
dump_prerequisite q =
    object (field "flagKey" (text q.flag_key) (field "variation" (number q.variation) end))
