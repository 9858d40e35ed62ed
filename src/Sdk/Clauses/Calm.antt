-- ===== src/Sdk/Clauses/Calm.antt =====
-- Clauses never panic.
use feature_flags.Sdk.Run.Outcomes.{Any, Gives-if, Gives-bind, Gives}
use feature_flags.Sdk.Clauses.{
  negated, listed, in_segment, or_rules, match_clauses, match_clause, any_segment_match, any_rule,
  segment_contains,
}
use feature_flags.Sdk.Attributes.{context_key, Context}
use feature_flags.Sdk.Types.{SegmentRule, Clause, Segment, Store}
use feature_flags.Sdk.Values.{as_string, Value, Go}
use feature_flags.Sdk.Run.{lookup, done, ◌>>=◌, Run}
use feature_flags.Base.{
  text_key, ◌==◌, Option, List, ℕ, if◌then◌else◌, Bool, [], ◌∷◌, some, none, zero, suc, true, false,
}

-- The call does not panic.
abbrev pub IsCalm {ℓ} : {A : Type ℓ} → Run A → Type 0
IsCalm m = Gives Any m

IsCalm-bind {ℓ κ} :
    {A : Type ℓ} {B : Type κ} (m : Run A) (f : A → Run B)
    → IsCalm m
    → ((a : A) → IsCalm (f a))
    → IsCalm (m >>= f)
IsCalm-bind m f h k = Gives-bind Any Any m f h (λ a _. k a)

IsCalm-if {ℓ} :
    {A : Type ℓ} (b : Bool) (x y : Run A) → IsCalm x → IsCalm y → IsCalm (if b then x else y)
IsCalm-if b x y h k = Gives-if Any b x y h k

module _ ⦃g : Go⦄ (store : Store) (ctx : Context) where
  module _ (inside : Segment → Run Bool) (calm : (seg : Segment) → IsCalm (inside seg)) where
    any_segment_match-IsCalm : (vs : List Value) → IsCalm (any_segment_match store ctx inside vs)
    unfolding any_segment_match
    any_segment_match-IsCalm [] = tt
    any_segment_match-IsCalm (v ∷ vs) =
        go (lookup (as_string v) store.segments) (any_segment_match store ctx inside vs)
          (any_segment_match-IsCalm vs)
      where
        go :
            (found : Option Segment) (rest : Run Bool)
            → IsCalm rest
            → IsCalm (in_segment store ctx inside found rest)
        go none rest h = h
        go (some seg) rest h =
            IsCalm-bind (inside seg) (λ found. if found then done true else rest) (calm seg)
              (λ b. IsCalm-if b (done true) rest tt h)

    match_clause-IsCalm : (c : Clause) → IsCalm (match_clause store ctx inside c)
    unfolding match_clause
    match_clause-IsCalm c =
        IsCalm-if (c.op == "segmentMatch") _ _
          (IsCalm-bind (any_segment_match store ctx inside c.values)
            (λ res. done (negated c.negate res)) (any_segment_match-IsCalm c.values) (λ b. tt))
          tt

    pub match_clauses-IsCalm : (cs : List Clause) → IsCalm (match_clauses store ctx inside cs)
    unfolding match_clauses
    match_clauses-IsCalm [] = tt
    match_clauses-IsCalm (c ∷ cs) =
        IsCalm-bind (match_clause store ctx inside c)
          (λ b. if b then match_clauses store ctx inside cs else done false) (match_clause-IsCalm c)
          (λ b.
            IsCalm-if b (match_clauses store ctx inside cs) (done false) (match_clauses-IsCalm cs)
              tt)

    any_rule-IsCalm : (rs : List SegmentRule) → IsCalm (any_rule store ctx inside rs)
    unfolding any_rule
    any_rule-IsCalm [] = tt
    any_rule-IsCalm (r ∷ rs) =
        IsCalm-bind (match_clauses store ctx inside r.clauses)
          (λ b. if b then done true else any_rule store ctx inside rs)
          (match_clauses-IsCalm r.clauses)
          (λ b. IsCalm-if b (done true) (any_rule store ctx inside rs) tt (any_rule-IsCalm rs))

  pub segment_contains-IsCalm :
      (depth : ℕ) (seg : Segment) → IsCalm (segment_contains store ctx depth seg)
  unfolding segment_contains
  segment_contains-IsCalm zero seg = tt
  segment_contains-IsCalm (suc depth) seg =
      go (listed seg (context_key ctx seg.context_kind))
        (any_rule store ctx (segment_contains store ctx depth) seg.rules)
        (any_rule-IsCalm (segment_contains store ctx depth) (segment_contains-IsCalm depth)
          seg.rules)
    where
      go : (b : Option Bool) (rules : Run Bool) → IsCalm rules → IsCalm (or_rules b rules)
      go none rules h = h
      go (some b) rules h = tt
