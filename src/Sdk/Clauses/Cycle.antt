-- ===== src/Sdk/Clauses/Cycle.antt =====
-- A segment that names itself.
use feature_flags.Sdk.Run.{out_of_fuel}
use feature_flags.Sdk.Run.{lookup}
use feature_flags.Sdk.Clauses.{listed, any_segment_match, match_clause, segment_contains}
use feature_flags.Sdk.Attributes.{context_key, Context}
use feature_flags.Sdk.Types.{Clause, SegmentRule, Segment, Store}
use feature_flags.Sdk.Values.{as_string, Value, Go}
use feature_flags.Base.{
  refl, text_key, ◌==◌, ℕ, List, ◌≡◌, String, ◌∷◌, some, none, zero, suc, true,
}

module _ ⦃g : Go⦄ (store : Store) (ctx : Context) where
  -- The segment with the key `k`, whose first rule starts with a clause that names `k` itself.
  pub record NamesItself (k : String) (seg : Segment) : Type 0 where
    pub stored : lookup k store.segments ≡ some seg
    pub rule : SegmentRule
    pub rules : List SegmentRule
    pub rules_are : seg.rules ≡ rule ∷ rules
    pub clause : Clause
    pub clauses : List Clause
    pub clauses_are : rule.clauses ≡ clause ∷ clauses
    pub op : clause.op == "segmentMatch" ≡ true
    pub value : Value
    pub values : List Value
    pub values_are : clause.values ≡ value ∷ values
    pub names : as_string value ≡ k

  -- No depth is enough for a stored segment whose first rule begins with a clause that names the
  -- segment itself first, and whose lists do not decide the context: the recursion of the code, which
  -- nothing bounds, does not end.
  pub segment_contains_diverges :
      (k : String) (seg : Segment)
      → NamesItself k seg
      → listed seg (context_key ctx seg.context_kind) ≡ none
      → (depth : ℕ) → segment_contains store ctx depth seg ≡ out_of_fuel
  unfolding segment_contains match_clause any_segment_match
  segment_contains_diverges k seg h undecided zero = refl
  segment_contains_diverges k seg h undecided (suc depth) =
      let ih = segment_contains_diverges k seg h undecided depth in
      rw (undecided, h.rules_are, h.clauses_are, h.op, h.values_are, h.names, h.stored, ih) refl
