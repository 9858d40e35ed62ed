-- ===== src/Schemas/Bodies.antt =====
-- What the bodies of control-plane/app/schemas/catalog.py and control-plane/app/schemas/segment.py
-- promise once they are read.
use feature_flags.Schemas.Soundness.{defaulted_list-All}
use feature_flags.Schemas.Catalog.{
  is_name, load_name, load_key, is_key, ProjectCreate, EnvironmentCreate, load_project_create,
  load_environment_create,
}
use feature_flags.Schemas.Segment.{
  SegmentCreate, SegmentConfigUpdate, load_segment_rule, load_segment_create,
  load_segment_config_update, SegmentRule,
}
use feature_flags.Base.{none, some, arith, All, some, [], String, Option, ◌≡◌, ◌≢◌, true}
use feature_flags.Json.{Json, object, get_field}
use feature_flags.Schemas.Pydantic.{Pydantic, required}

-- A key and a name of the declared form.
pub record IsNamed (key name : String) : Type 0 where
  pub key_form : is_key key ≡ true
  pub name_form : is_name name ≡ true

pub record IsSegmentRule (r : SegmentRule) : Type 0 where
  pub clauses : r.clauses ≢ []

module _ ⦃p : Pydantic⦄ where
  required_key_sound :
      (o : Option Json) (s : String) → required load_key o ≡ some s → is_key s ≡ true
  required_key_sound none s e = cc
  required_key_sound (some j) s e = ground arith

  required_name_sound :
      (o : Option Json) (s : String) → required load_name o ≡ some s → is_name s ≡ true
  required_name_sound none s e = cc
  required_name_sound (some j) s e = ground arith

  pub load_project_create-IsNamed :
      (j : Json) (b : ProjectCreate) → load_project_create j ≡ some b → IsNamed b.key b.name
  unfolding load_project_create
  load_project_create-IsNamed (object fs) b e = record {
    key_form = required_key_sound (get_field "key" fs) b.key (ground arith);
    name_form = required_name_sound (get_field "name" fs) b.name (ground arith);
  }
  load_project_create-IsNamed _ b e = cc

  pub load_environment_create-IsNamed :
      (j : Json) (b : EnvironmentCreate) → load_environment_create j ≡ some b → IsNamed b.key b.name
  unfolding load_environment_create
  load_environment_create-IsNamed (object fs) b e = record {
    key_form = required_key_sound (get_field "key" fs) b.key (ground arith);
    name_form = required_name_sound (get_field "name" fs) b.name (ground arith);
  }
  load_environment_create-IsNamed _ b e = cc

  pub load_segment_create-IsNamed :
      (j : Json) (b : SegmentCreate) → load_segment_create j ≡ some b → IsNamed b.key b.name
  unfolding load_segment_create
  load_segment_create-IsNamed (object fs) b e = record {
    key_form = required_key_sound (get_field "key" fs) b.key (ground arith);
    name_form = required_name_sound (get_field "name" fs) b.name (ground arith);
  }
  load_segment_create-IsNamed _ b e = cc

  load_segment_rule-IsSegmentRule :
      (j : Json) (r : SegmentRule) → load_segment_rule j ≡ some r → IsSegmentRule r
  unfolding load_segment_rule
  load_segment_rule-IsSegmentRule (object fs) r e = record { clauses = ground arith }
  load_segment_rule-IsSegmentRule _ r e = cc

  pub load_segment_config_update-All :
      (j : Json) (b : SegmentConfigUpdate)
      → load_segment_config_update j ≡ some b
      → All IsSegmentRule b.rules
  unfolding load_segment_config_update
  load_segment_config_update-All (object fs) b e =
      defaulted_list-All IsSegmentRule load_segment_rule load_segment_rule-IsSegmentRule
        (get_field "rules" fs) b.rules (ground arith)
  load_segment_config_update-All _ b e = cc
