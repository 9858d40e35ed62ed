-- ===== src/Sdk/Clauses.antt =====
-- sdk/go/flageval/clauses.go. A clause can name segments, whose rules have clauses again: the
-- recursion takes fuel for the depth of segments within segments.
pub mod Depth
pub mod Cycle
pub mod Calm
use feature_flags.Base.{
  ℕ, zero, suc, String, Bool, true, false, not, Option, none, some, List, [], ◌∷◌, ◌==◌, text_key,
  if◌then◌else◌,
}
use feature_flags.Sdk.Values.{Go, Value, as_string, equal_any, as_numbers}
use feature_flags.Sdk.Types.{Clause, SegmentRule, Segment, Store}
use feature_flags.Sdk.Attributes.{Context, attr, context_key}
use feature_flags.Sdk.Run.{Run, done, out_of_fuel, ◌>>=◌, lookup, contains}

module _ ⦃g : Go⦄ where
  open g.floats use {F, below}

  abbrev pub is_less : Option (F × F) → Bool
  is_less none = false
  is_less (some (a, b)) = below a b

  abbrev pub is_greater : Option (F × F) → Bool
  is_greater none = false
  is_greater (some (a, b)) = below b a

  abbrev pub is_match : Option Bool → Bool
  is_match none = false
  is_match (some b) = b

  -- `opMatch`: the operators from "before" on are not implemented.
  unfoldable pub op_match : String → Value → Value → Bool
  op_match op v target =
      if op == "in"
      then equal_any v target
      else if op == "startsWith"
      then g.has_prefix (as_string v) (as_string target)
      else if op == "endsWith"
      then g.has_suffix (as_string v) (as_string target)
      else if op == "contains"
      then g.contains_text (as_string v) (as_string target)
      else if op == "matches"
      then is_match (g.regexp_match (as_string target) (as_string v))
      else if op == "lessThan"
      then is_less (as_numbers v target)
      else if op == "greaterThan"
      then is_greater (as_numbers v target)
      else false

  -- The loop over the values of a clause.
  unfoldable pub any_value : String → Value → List Value → Bool
  any_value op v [] = false
  any_value op v (target ∷ targets) =
      let rest = any_value op v targets in if op_match op v target then true else rest

  abbrev pub any_of : String → Option Value → List Value → Bool
  any_of op none targets = false
  any_of op (some v) targets = any_value op v targets

  abbrev pub negated : Bool → Bool → Bool
  negated negate res = if negate then not res else res

  -- What the lists of a segment say of a context, before its rules.
  abbrev pub listed : Segment → Option String → Option Bool
  listed seg none = none
  listed seg (some key) =
      if contains key seg.excluded
      then some false
      else if contains key seg.included
      then some true
      else none

  abbrev pub or_rules : Option Bool → Run Bool → Run Bool
  or_rules (some b) rules = done b
  or_rules none rules = rules

  module _ (store : Store) (ctx : Context) where
    -- What the functions below do with a segment, `segmentContains`, is a parameter of them.
    module _ (inside : Segment → Run Bool) where
      abbrev pub in_segment : Option Segment → Run Bool → Run Bool
      in_segment none rest = rest
      in_segment (some seg) rest = inside seg >>= λ found. if found then done true else rest

      -- `anySegmentMatch`
      unfoldable pub any_segment_match : List Value → Run Bool
      any_segment_match [] = done false
      any_segment_match (sk ∷ sks) =
          let rest = any_segment_match sks in in_segment (lookup (as_string sk) store.segments) rest

      -- `matchClause`
      unfoldable pub match_clause : Clause → Run Bool
      unfolding any_segment_match any_value op_match
      match_clause c =
          if c.op == "segmentMatch"
          then (any_segment_match c.values >>= λ res. done (negated c.negate res))
          else done (negated c.negate (any_of c.op (attr ctx c.context_kind c.attribute) c.values))

      -- `matchClauses`
      unfoldable pub match_clauses : List Clause → Run Bool
      unfolding match_clause
      match_clauses [] = done true
      match_clauses (c ∷ cs) =
          let rest = match_clauses cs in
          match_clause c >>= λ matched. if matched then rest else done false

      -- The loop over the rules of a segment.
      unfoldable pub any_rule : List SegmentRule → Run Bool
      unfolding match_clauses
      any_rule [] = done false
      any_rule (r ∷ rs) =
          let rest = any_rule rs in
          match_clauses r.clauses >>= λ matched. if matched then done true else rest

    unfoldable pub segment_contains : ℕ → Segment → Run Bool
    unfolding any_rule
    segment_contains zero seg = out_of_fuel
    segment_contains (suc depth) seg =
        or_rules (listed seg (context_key ctx seg.context_kind))
          (any_rule (segment_contains depth) seg.rules)
