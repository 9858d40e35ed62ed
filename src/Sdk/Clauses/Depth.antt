-- ===== src/Sdk/Clauses/Depth.antt =====
-- How deep segments within segments go: where the rules of each segment name segments of a lower
-- rank only, fuel above the rank is enough.
use feature_flags.Sdk.Run.Outcomes.{Ends-if, Ends-bind, Ends}
use feature_flags.Sdk.Attributes.{context_key, Context}
use feature_flags.Sdk.Clauses.{
  match_clauses, match_clause, listed, in_segment, any_segment_match, any_rule, or_rules,
  segment_contains,
}
use feature_flags.Sdk.Types.{SegmentRule, Segment, Store, Clause}
use feature_flags.Sdk.Run.{lookup, done, Run}
use feature_flags.Sdk.Values.{Value, as_string, Go}
use feature_flags.Base.{
  refl, arith, text_key, List, Bool-cases, All, ◌<◌, ◌≡◌, ◌==◌, Option, ℕ, if◌then◌else◌, String,
  Bool, [], ◌∷◌, some, none, inl, inr, zero, suc, true, false,
}

module _ ⦃g : Go⦄ (rank : String → ℕ) where
  -- The segments that a clause names are of a rank below `n`.
  abbrev pub IsBelow : ℕ → Clause → Type 0
  IsBelow n c = c.op == "segmentMatch" ≡ true → All (λ v. rank (as_string v) < n) c.values

  -- Each segment of a store names segments of a lower rank only.
  pub record IsLayered (store : Store) : Type 0 where
    pub at :
        (k : String) (seg : Segment)
        → lookup k store.segments ≡ some seg
        → All (λ (r : SegmentRule). All (IsBelow (rank k)) r.clauses) seg.rules

  module _ (store : Store) (ctx : Context) (inside : Segment → Run Bool) (n : ℕ)
      (ends : (k : String) (seg : Segment)
        → lookup k store.segments ≡ some seg
        → rank k < n
        → Ends (inside seg)) where
    in_segment-Ends :
        (k : String) (found : Option Segment) (rest : Run Bool)
        → lookup k store.segments ≡ found
        → rank k < n
        → Ends rest
        → Ends (in_segment store ctx inside found rest)
    in_segment-Ends k none rest at low h = h
    in_segment-Ends k (some seg) rest at low h =
        Ends-bind (inside seg) (λ found. if found then done true else rest) (ends k seg at low)
          (λ b. Ends-if b (done true) rest tt h)

    any_segment_match-Ends :
        (vs : List Value)
        → All (λ v. rank (as_string v) < n) vs
        → Ends (any_segment_match store ctx inside vs)
    unfolding any_segment_match
    any_segment_match-Ends [] h = tt
    any_segment_match-Ends (v ∷ vs) (low, h) =
        in_segment-Ends (as_string v) (lookup (as_string v) store.segments)
          (any_segment_match store ctx inside vs) refl low (any_segment_match-Ends vs h)

    match_clause-Ends : (c : Clause) → IsBelow n c → Ends (match_clause store ctx inside c)
    unfolding match_clause
    match_clause-Ends c h = elim (Bool-cases (c.op == "segmentMatch")) [
      | inl is ↦ rw is (
          Ends-bind (any_segment_match store ctx inside c.values) _
            (any_segment_match-Ends c.values (h is)) (λ b. tt))
      | inr other ↦ rw other tt
    ]

    pub match_clauses-Ends :
        (cs : List Clause) → All (IsBelow n) cs → Ends (match_clauses store ctx inside cs)
    unfolding match_clauses
    match_clauses-Ends [] h = tt
    match_clauses-Ends (c ∷ cs) (low, h) =
        Ends-bind (match_clause store ctx inside c)
          (λ b. if b then match_clauses store ctx inside cs else done false)
          (match_clause-Ends c low)
          (λ b.
            Ends-if b (match_clauses store ctx inside cs) (done false) (match_clauses-Ends cs h) tt)

    any_rule-Ends :
        (rs : List SegmentRule)
        → All (λ (r : SegmentRule). All (IsBelow n) r.clauses) rs
        → Ends (any_rule store ctx inside rs)
    unfolding any_rule
    any_rule-Ends [] h = tt
    any_rule-Ends (r ∷ rs) (low, h) =
        Ends-bind (match_clauses store ctx inside r.clauses)
          (λ b. if b then done true else any_rule store ctx inside rs)
          (match_clauses-Ends r.clauses low)
          (λ b. Ends-if b (done true) (any_rule store ctx inside rs) tt (any_rule-Ends rs h))

  or_rules-Ends : (b : Option Bool) (rules : Run Bool) → Ends rules → Ends (or_rules b rules)
  or_rules-Ends none rules h = h
  or_rules-Ends (some b) rules h = tt

  pub segment_contains-Ends :
      (store : Store) (ctx : Context)
      → IsLayered store
      → (depth : ℕ) (k : String) (seg : Segment) → lookup k store.segments ≡ some seg
      → rank k < depth
      → Ends (segment_contains store ctx depth seg)
  unfolding segment_contains
  segment_contains-Ends store ctx layered zero k seg at low = elim low [ ]
  segment_contains-Ends store ctx layered (suc depth) k seg at low =
      or_rules-Ends (listed seg (context_key ctx seg.context_kind))
        (any_rule store ctx (segment_contains store ctx depth) seg.rules)
        (any_rule-Ends store ctx (segment_contains store ctx depth) (rank k)
          (λ j other at_j lower.
            segment_contains-Ends store ctx layered depth j other at_j (omega arith))
          seg.rules (layered.at k seg at))
