-- ===== src/Schemas/Flag.antt =====
-- The models of control-plane/app/schemas/flag.py that describe targeting.
use feature_flags.Base.{ℤ, String, Bool, Option, List, text_key}
use feature_flags.Json.{Json}

-- The names that `Operator` lists.
pub data Operator : Type 0 where
  is_in ends_with starts_with matches contains : Operator
  less_than greater_than before after : Operator
  sem_ver_equal sem_ver_less sem_ver_greater segment_match : Operator

pub record Variation : Type 0 where
  pub name : String
  pub value : Json

pub record Clause : Type 0 where
  pub context_kind : String
  pub attribute : String
  pub op : Operator
  pub values : List Json
  pub negate : Bool

pub record WeightedVariation : Type 0 where
  pub variation : ℤ
  pub weight : ℤ

pub record Rollout : Type 0 where
  pub context_kind : String
  pub bucket_by : String
  pub variations : List WeightedVariation

-- `_VariationOrRollout`, the base class of `Rule` and of `Fallthrough`.
pub record VariationOrRollout : Type 0 where
  pub variation : Option ℤ
  pub rollout : Option Rollout

pub record Rule : Type 0 where
  pub choice : VariationOrRollout
  pub open choice use *
  pub clauses : List Clause

abbrev pub Fallthrough : Type 0
Fallthrough = VariationOrRollout

pub record Target : Type 0 where
  pub context_kind : String
  pub variation : ℤ
  pub keys : List String

pub record Prerequisite : Type 0 where
  pub flag_key : String
  pub variation : ℤ

pub record FlagConfigUpdate : Type 0 where
  pub enabled : Bool
  pub targets : List Target
  pub rules : List Rule
  pub fallthrough : Fallthrough
  pub off_variation : ℤ
  pub prerequisites : List Prerequisite
