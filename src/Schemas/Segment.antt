-- ===== src/Schemas/Segment.antt =====
-- control-plane/app/schemas/segment.py: the bodies that create a segment and replace its members.
use feature_flags.Base.{String, Option, none, some, List, []}
use feature_flags.Base.Maybe.{◌>>=◌, ◌>>◌, guard}
use feature_flags.Json.{Json, get_field}
use feature_flags.Schemas.Pydantic.{Pydantic, as_object, aliased, required, defaulted, optional}
use feature_flags.Schemas.Catalog.{load_key, load_name}
use feature_flags.Schemas.Flag.{Clause}
use feature_flags.Schemas.Limits.{is_nonempty}
use feature_flags.Schemas.Load.{load_list, load_clause}

pub record SegmentRule : Type 0 where
  pub clauses : List Clause

pub record SegmentCreate : Type 0 where
  pub key : String
  pub name : String
  pub description : Option String

pub record SegmentConfigUpdate : Type 0 where
  pub context_kind : String
  pub included : List String
  pub excluded : List String
  pub rules : List SegmentRule

module _ ⦃p : Pydantic⦄ where
  open p use {as_text}

  unfoldable pub load_segment_rule : Json → Option SegmentRule
  load_segment_rule j = do
    fs ← as_object j
    clauses ← required (load_list load_clause) (get_field "clauses" fs)
    guard (is_nonempty clauses)
    some (record { clauses = clauses })

  unfoldable pub load_segment_create : Json → Option SegmentCreate
  load_segment_create j = do
    fs ← as_object j
    key ← required load_key (get_field "key" fs)
    name ← required load_name (get_field "name" fs)
    description ← defaulted (optional as_text) none (get_field "description" fs)
    some (record { key = key; name = name; description = description })

  unfoldable pub load_segment_config_update : Json → Option SegmentConfigUpdate
  load_segment_config_update j = do
    fs ← as_object j
    context_kind ← defaulted as_text "user" (aliased "contextKind" "context_kind" fs)
    included ← defaulted (load_list as_text) [] (get_field "included" fs)
    excluded ← defaulted (load_list as_text) [] (get_field "excluded" fs)
    rules ← defaulted (load_list load_segment_rule) [] (get_field "rules" fs)
    some (record {
      context_kind = context_kind;
      included = included;
      excluded = excluded;
      rules = rules;
    })
