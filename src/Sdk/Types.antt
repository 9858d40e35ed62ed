-- ===== src/Sdk/Types.antt =====
-- sdk/go/flageval/types.go. A pointer that may be nil is an `Option`, a map an association list, and
-- an `int` an integer.
use feature_flags.Base.{ℤ, String, Bool, Option, List}
use feature_flags.Sdk.Values.{Go, Value}

module _ ⦃g : Go⦄ where
  pub record Variation : Type 0 where
    pub name : String
    pub value : Value

  pub record Clause : Type 0 where
    pub context_kind : String
    pub attribute : String
    pub op : String
    pub values : List Value
    pub negate : Bool

pub record WeightedVariation : Type 0 where
  pub variation : ℤ
  pub weight : ℤ

pub record Rollout : Type 0 where
  pub context_kind : String
  pub bucket_by : String
  pub variations : List WeightedVariation

pub record Fallthrough : Type 0 where
  pub variation : Option ℤ
  pub rollout : Option Rollout

pub record Target : Type 0 where
  pub context_kind : String
  pub variation : ℤ
  pub keys : List String

pub record Prerequisite : Type 0 where
  pub flag_key : String
  pub variation : ℤ

module _ ⦃g : Go⦄ where
  pub record Rule : Type 0 where
    pub clauses : List Clause
    pub variation : Option ℤ
    pub rollout : Option Rollout

  pub record Config : Type 0 where
    pub enabled : Bool
    pub targets : List Target
    pub rules : List Rule
    pub fallthrough : Fallthrough
    pub off_variation : ℤ
    pub prerequisites : List Prerequisite

  pub record Flag : Type 0 where
    pub key : String
    pub salt : String
    pub kind : String
    pub variations : List Variation
    pub config : Config

  pub record SegmentRule : Type 0 where
    pub clauses : List Clause

  pub record Segment : Type 0 where
    pub key : String
    pub context_kind : String
    pub included : List String
    pub excluded : List String
    pub rules : List SegmentRule

  pub record Store : Type 0 where
    pub flags : List (String × Flag)
    pub segments : List (String × Segment)

  pub record Result : Type 0 where
    pub variation_index : ℤ
    pub value : Value
    pub reason : String
