-- ===== src/Sdk/Evaluate/Depth.antt =====
-- How deep the recursion over prerequisites goes: at most as deep as the store has flags, since a
-- flag that is being visited is not visited again.
use feature_flags.Sdk.Run.Outcomes.{Ends-if, Ends-bind}
use feature_flags.Sdk.Clauses.{segment_contains, match_clauses}
use feature_flags.Sdk.Evaluate.{
  meets, one_met, or_next, target_match, all_met, rule_match, hit, fall_through, evaluate_from,
  chosen, after_targets, after_rules,
}
use feature_flags.Sdk.Clauses.Depth.{segment_contains-Ends, match_clauses-Ends, IsBelow, IsLayered}
use feature_flags.Sdk.Run.Outcomes.{Ends, Ends-bind, Ends-if}
use feature_flags.Sdk.Attributes.{Context}
use feature_flags.Sdk.Bucket.{or_last, last_variation, bucket_variation}
use feature_flags.Sdk.Types.{
  Variation, Prerequisite, Rule, Result, Store, Rollout, WeightedVariation, Flag,
}
use feature_flags.Sdk.Values.{Go}
use feature_flags.Sdk.Run.{◌>>=◌, done, or_panic, index_at, contains, Run, lookup}
use feature_flags.Base.{
  refl, Bool-cases, not, Bool, eq_iff, get_elem?, ◌<◌, All, ◌≡◌, if◌then◌else◌, arith, ◌≤◌, ℤ, ℕ,
  Option, String, List, [], ◌∷◌, some, none, pos, negsuc, inl, inr, zero, suc, false,
}

-- The flags of a store that are not being visited.
abbrev pub unvisited {ℓ} : {V : Type ℓ} → List String → List (String × V) → ℕ
unvisited visiting [] = 0
unvisited visiting ((k, v) ∷ flags) =
    let rest = unvisited visiting flags in if contains k visiting then rest else suc rest

unvisited_mono {ℓ} :
    {V : Type ℓ} (k : String) (visiting : List String) (flags : List (String × V))
    → unvisited (k ∷ visiting) flags ≤ unvisited visiting flags
unvisited_mono k visiting [] = omega arith
unvisited_mono k visiting ((j, v) ∷ flags) = ground (arith, unvisited_mono k visiting flags)

pub unvisited_lt {ℓ} :
    {V : Type ℓ} (k : String) (visiting : List String) (flags : List (String × V)) (v : V)
    → lookup k flags ≡ some v
    → contains k visiting ≡ false
    → unvisited (k ∷ visiting) flags < unvisited visiting flags
unvisited_lt k visiting [] v at new = cc
unvisited_lt k visiting ((j, x) ∷ flags) v at new = ground (
  arith,
  eq_iff j k,
  eq_iff k j,
  unvisited_lt k visiting flags v,
  unvisited_mono k visiting flags,
)

module _ ⦃g : Go⦄ where
  or_panic-Ends {ℓ} : {A : Type ℓ} (o : Option A) → Ends (or_panic o)
  or_panic-Ends none = tt
  or_panic-Ends (some a) = tt

  index_at-Ends {ℓ} : {A : Type ℓ} (l : List A) (i : ℤ) → Ends (index_at l i)
  index_at-Ends l (pos n) = or_panic-Ends (get_elem? l n)
  index_at-Ends l (negsuc n) = tt

  hit-Ends : (flag : Flag) (i : ℤ) (reason : String) → Ends (hit flag i reason)
  hit-Ends flag i reason =
      Ends-bind (index_at flag.variations i)
        (λ (v : Variation). done (record { variation_index = i; value = v.value; reason = reason }))
        (index_at-Ends flag.variations i) (λ v. tt)

  last_variation-Ends : (ws : List WeightedVariation) → Ends (last_variation ws)
  last_variation-Ends [] = tt
  last_variation-Ends (w ∷ []) = tt
  last_variation-Ends (w ∷ v ∷ ws) = last_variation-Ends (v ∷ ws)

  or_last-Ends : (o : Option ℤ) (ws : List WeightedVariation) → Ends (or_last o ws)
  or_last-Ends none ws = last_variation-Ends ws
  or_last-Ends (some i) ws = tt

  bucket_variation-Ends :
      (flag : Flag) (r : Rollout) (ctx : Context) → Ends (bucket_variation flag r ctx)
  unfolding bucket_variation
  bucket_variation-Ends flag r ctx = or_last-Ends _ r.variations

  chosen-Ends :
      (flag : Flag) (ctx : Context) (v : Option ℤ) (r : Option Rollout) → Ends (chosen flag ctx v r)
  chosen-Ends flag ctx (some i) r = tt
  chosen-Ends flag ctx none none = tt
  chosen-Ends flag ctx none (some r) =
      Ends-bind (bucket_variation flag r ctx) (λ i. done (some i))
        (bucket_variation-Ends flag r ctx) (λ i. tt)

  module _ (rank : String → ℕ) (store : Store) (ctx : Context) (depth : ℕ) where
    -- The segments that the rules of a flag name are of a rank below the fuel for segments.
    abbrev pub IsShallow : Flag → Type 0
    IsShallow flag = All (λ (r : Rule). All (IsBelow rank depth) r.clauses) flag.config.rules

    -- Every flag of a store is shallow, and its segments are layered.
    pub record IsBounded : Type 0 where
      pub layered : IsLayered rank store
      pub shallow : (k : String) (flag : Flag) → lookup k store.flags ≡ some flag → IsShallow flag

    module _ (h : IsBounded) where
      rule_match-Ends :
          (flag : Flag) (rs : List Rule)
          → All (λ (r : Rule). All (IsBelow rank depth) r.clauses) rs
          → Ends (rule_match store ctx depth flag rs)
      unfolding rule_match
      rule_match-Ends flag [] low = tt
      rule_match-Ends flag (r ∷ rs) (low, lows) =
          let rest = rule_match store ctx depth flag rs in
          let ih = rule_match-Ends flag rs lows in
          Ends-bind (match_clauses store ctx (segment_contains store ctx depth) r.clauses)
            (λ b.
              if b then (chosen flag ctx r.variation r.rollout >>= λ i. or_next i rest) else rest)
            (match_clauses-Ends rank store ctx (segment_contains store ctx depth) depth
              (λ k seg. segment_contains-Ends rank store ctx h.layered depth k seg) r.clauses low)
            (λ b.
              Ends-if b (chosen flag ctx r.variation r.rollout >>= λ i. or_next i rest) rest
                (Ends-bind (chosen flag ctx r.variation r.rollout) (λ i. or_next i rest)
                  (chosen-Ends flag ctx r.variation r.rollout) (λ i. or_next-Ends i rest ih))
                ih)
        where
          or_next-Ends : (i : Option ℤ) (next : Run (Option ℤ)) → Ends next → Ends (or_next i next)
          or_next-Ends none next e = e
          or_next-Ends (some i) next e = tt

      fall_through-Ends : (flag : Flag) (i : Option ℤ) → Ends (fall_through store ctx depth flag i)
      fall_through-Ends flag none = hit-Ends flag _ _
      fall_through-Ends flag (some i) = hit-Ends flag i _

      after_rules-Ends : (flag : Flag) (i : Option ℤ) → Ends (after_rules store ctx depth flag i)
      after_rules-Ends flag (some i) = hit-Ends flag i _
      after_rules-Ends flag none =
          Ends-bind
            (chosen flag ctx flag.config.fallthrough.variation flag.config.fallthrough.rollout)
            (λ i. fall_through store ctx depth flag i) (chosen-Ends flag ctx _ _)
            (λ i. fall_through-Ends flag i)

      after_targets-Ends :
          (flag : Flag)
          → IsShallow flag
          → (i : Option ℤ) → Ends (after_targets store ctx depth flag i)
      after_targets-Ends flag low (some i) = hit-Ends flag i _
      after_targets-Ends flag low none =
          Ends-bind (rule_match store ctx depth flag flag.config.rules)
            (λ i. after_rules store ctx depth flag i) (rule_match-Ends flag flag.config.rules low)
            (λ i. after_rules-Ends flag i)

      module _ (again : Flag → List String → Run Result) (visiting : List String)
          (ends : (k : String) (pf : Flag)
            → lookup k store.flags ≡ some pf
            → contains k visiting ≡ false
            → Ends (again pf (k ∷ visiting))) where
        one_met-Ends :
            (p : Prerequisite) (found : Option Flag) (rest : Run Bool)
            → lookup p.flag_key store.flags ≡ found
            → Ends rest
            → Ends (one_met store ctx depth again visiting p found rest)
        one_met-Ends p none rest at e = tt
        one_met-Ends p (some pf) rest at e = elim (Bool-cases (contains p.flag_key visiting)) [
          | inl seen ↦ rw seen tt
          | inr new ↦ rw new (
              Ends-bind (again pf (p.flag_key ∷ visiting))
                (λ res. if meets store ctx depth p pf res then rest else done false)
                (ends p.flag_key pf at new)
                (λ res. Ends-if (meets store ctx depth p pf res) rest (done false) e tt))
        ]

        all_met-Ends : (ps : List Prerequisite) → Ends (all_met store ctx depth again visiting ps)
        unfolding all_met
        all_met-Ends [] = tt
        all_met-Ends (p ∷ ps) =
            one_met-Ends p (lookup p.flag_key store.flags)
              (all_met store ctx depth again visiting ps) refl (all_met-Ends ps)

      -- Whatever the flags are, their prerequisites cyclic or not, fuel above the number of flags that
      -- are not being visited is enough.
      pub evaluate_from-Ends :
          (fuel : ℕ) (flag : Flag) (visiting : List String)
          → IsShallow flag
          → unvisited visiting store.flags < fuel
          → Ends (evaluate_from store ctx depth fuel flag visiting)
      unfolding evaluate_from
      evaluate_from-Ends zero flag visiting low few = elim few [ ]
      evaluate_from-Ends (suc fuel) flag visiting low few =
          let next = after_targets-Ends flag low (target_match ctx flag.config.targets) in
          let met =
            all_met-Ends (evaluate_from store ctx depth fuel) visiting
              (λ k pf at new.
                evaluate_from-Ends fuel pf (k ∷ visiting) (h.shallow k pf at)
                  (let less = unvisited_lt k visiting store.flags pf at new in omega arith))
              flag.config.prerequisites in
          Ends-if (not flag.config.enabled) _ _ (hit-Ends flag _ _)
            (Ends-bind _ _ met (λ b. Ends-if b _ _ next (hit-Ends flag _ _)))
