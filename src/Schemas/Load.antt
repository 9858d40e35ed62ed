-- ===== src/Schemas/Load.antt =====
-- Reading the targeting models from JSON, as FastAPI does with a request body and `FlagConfigOut`
-- with the columns of a stored row: each field by its alias or name, then its constraint, then the
-- validator of the model. `none` is a validation error.
use feature_flags.Base.{
  ℤ, pos, String, false, Option, none, some, List, [], ◌==◌, text_key, if◌then◌else◌,
}
use feature_flags.Base.Maybe.{◌>>=◌, ◌>>◌, guard, traverse}
use feature_flags.Json.{Json, text, Fields, get_field}
use feature_flags.Schemas.Pydantic.{
  Pydantic, as_object, as_array, aliased, required, defaulted, optional,
}
use feature_flags.Schemas.Flag.{
  Operator, is_in, ends_with, starts_with, matches, contains, less_than, greater_than, before,
  after, sem_ver_equal, sem_ver_less, sem_ver_greater, segment_match, Clause, WeightedVariation,
  Rollout, VariationOrRollout, Rule, Fallthrough, Target, Prerequisite, FlagConfigUpdate,
}
use feature_flags.Schemas.Limits.{
  is_index, is_weight, weights_sum_to_100k, exactly_one, is_nonempty,
}

-- `Literal[...]` takes exactly the listed texts.
unfoldable pub operator_of : String → Option Operator
operator_of s =
    if s == "in"
    then some is_in
    else if s == "endsWith"
    then some ends_with
    else if s == "startsWith"
    then some starts_with
    else if s == "matches"
    then some matches
    else if s == "contains"
    then some contains
    else if s == "lessThan"
    then some less_than
    else if s == "greaterThan"
    then some greater_than
    else if s == "before"
    then some before
    else if s == "after"
    then some after
    else if s == "semVerEqual"
    then some sem_ver_equal
    else if s == "semVerLess"
    then some sem_ver_less
    else if s == "semVerGreater"
    then some sem_ver_greater
    else if s == "segmentMatch"
    then some segment_match
    else none

unfoldable pub load_operator : Json → Option Operator
load_operator (text s) = operator_of s
load_operator _ = none

-- `_exactly_one`, which raises or returns its model.
abbrev pub check_choice : VariationOrRollout → Option (Unit {0})
check_choice c = guard (exactly_one c)

module _ ⦃p : Pydantic⦄ where
  open p use {as_int, as_text, as_bool}

  -- `list[T]`
  abbrev pub load_list : {A : Type 0} → (Json → Option A) → Json → Option (List A)
  load_list read j = do js ← as_array j; traverse read js

  unfoldable pub load_clause : Json → Option Clause
  load_clause j = do
    fs ← as_object j
    context_kind ← defaulted as_text "user" (aliased "contextKind" "context_kind" fs)
    attribute ← required as_text (get_field "attribute" fs)
    op ← required load_operator (get_field "op" fs)
    values ← required as_array (get_field "values" fs)
    negate ← defaulted as_bool false (get_field "negate" fs)
    some (record {
      context_kind = context_kind;
      attribute = attribute;
      op = op;
      values = values;
      negate = negate;
    })

  abbrev pub load_index : Json → Option ℤ
  load_index j = do n ← as_int j; guard (is_index n); some n

  abbrev pub load_weight : Json → Option ℤ
  load_weight j = do n ← as_int j; guard (is_weight n); some n

  unfoldable pub load_weighted_variation : Json → Option WeightedVariation
  load_weighted_variation j = do
    fs ← as_object j
    variation ← required load_index (get_field "variation" fs)
    weight ← required load_weight (get_field "weight" fs)
    some (record { variation = variation; weight = weight })

  unfoldable pub load_rollout : Json → Option Rollout
  load_rollout j = do
    fs ← as_object j
    context_kind ← defaulted as_text "user" (aliased "contextKind" "context_kind" fs)
    bucket_by ← defaulted as_text "key" (aliased "bucketBy" "bucket_by" fs)
    variations ← required (load_list load_weighted_variation) (get_field "variations" fs)
    let r : Rollout = record {
      context_kind = context_kind;
      bucket_by = bucket_by;
      variations = variations;
    }
    guard (weights_sum_to_100k r)
    some r

  -- The fields of `_VariationOrRollout`, of an object that may have more.
  unfoldable pub load_choice : Fields → Option VariationOrRollout
  load_choice fs = do
    variation ← defaulted (optional load_index) none (get_field "variation" fs)
    rollout ← defaulted (optional load_rollout) none (get_field "rollout" fs)
    some (record { variation = variation; rollout = rollout })

  unfoldable pub load_rule : Json → Option Rule
  load_rule j = do
    fs ← as_object j
    choice ← load_choice fs
    clauses ← required (load_list load_clause) (get_field "clauses" fs)
    guard (is_nonempty clauses)
    check_choice choice
    some (record { choice = choice; clauses = clauses })

  unfoldable pub load_fallthrough : Json → Option Fallthrough
  load_fallthrough j = do
    fs ← as_object j
    choice ← load_choice fs
    check_choice choice
    some choice

  unfoldable pub load_target : Json → Option Target
  load_target j = do
    fs ← as_object j
    context_kind ← defaulted as_text "user" (aliased "contextKind" "context_kind" fs)
    variation ← required load_index (get_field "variation" fs)
    keys ← required (load_list as_text) (get_field "keys" fs)
    some (record { context_kind = context_kind; variation = variation; keys = keys })

  unfoldable pub load_prerequisite : Json → Option Prerequisite
  load_prerequisite j = do
    fs ← as_object j
    flag_key ← required as_text (aliased "flagKey" "flag_key" fs)
    variation ← required load_index (get_field "variation" fs)
    some (record { flag_key = flag_key; variation = variation })

  unfoldable pub load_flag_config_update : Json → Option FlagConfigUpdate
  load_flag_config_update j = do
    fs ← as_object j
    enabled ← required as_bool (get_field "enabled" fs)
    targets ← defaulted (load_list load_target) [] (get_field "targets" fs)
    rules ← defaulted (load_list load_rule) [] (get_field "rules" fs)
    fallthrough ← required load_fallthrough (get_field "fallthrough" fs)
    off_variation ← defaulted load_index (pos 0) (aliased "offVariation" "off_variation" fs)
    prerequisites ← defaulted (load_list load_prerequisite) [] (get_field "prerequisites" fs)
    some (record {
      enabled = enabled;
      targets = targets;
      rules = rules;
      fallthrough = fallthrough;
      off_variation = off_variation;
      prerequisites = prerequisites;
    })
