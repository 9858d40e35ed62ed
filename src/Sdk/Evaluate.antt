-- ===== src/Sdk/Evaluate.antt =====
-- sdk/go/flageval/eval.go. The recursion over prerequisites takes fuel for its depth, and `depth` is
-- that of segments. The keys that `visiting` has set are a list; what a call sets it deletes again.
pub mod Depth
pub mod Serves
pub mod Total
pub mod Cyclic
use feature_flags.Base.{
  ℕ, zero, suc, ℤ, String, Bool, true, false, not, ◌&&◌, Option, none, some, List, [], ◌∷◌,
  if◌then◌else◌,
}
use feature_flags.Base.Int.{eqb_ℤ}
use feature_flags.Sdk.Values.{Go}
use feature_flags.Sdk.Types.{Rule, Rollout, Target, Prerequisite, Flag, Store, Result}
use feature_flags.Sdk.Attributes.{Context, context_key}
use feature_flags.Sdk.Bucket.{bucket_variation}
use feature_flags.Sdk.Clauses.{match_clauses, segment_contains}
use feature_flags.Sdk.Run.{Run, done, out_of_fuel, ◌>>=◌, index_at, lookup, contains}

module _ ⦃g : Go⦄ where
  -- `hit`
  abbrev pub hit : Flag → ℤ → String → Run Result
  hit flag idx reason = do
    variation ← index_at flag.variations idx
    done (record { variation_index = idx; value = variation.value; reason = reason })

  -- `off`
  abbrev pub off : Flag → String → Run Result
  off flag reason = hit flag flag.config.off_variation reason

  abbrev pub is_listed_key : List String → Option String → Bool
  is_listed_key keys none = false
  is_listed_key keys (some k) = contains k keys

  -- The loop over the targets.
  unfoldable pub target_match : Context → List Target → Option ℤ
  target_match ctx [] = none
  target_match ctx (t ∷ ts) =
      let rest = target_match ctx ts in
      if is_listed_key t.keys (context_key ctx t.context_kind) then some t.variation else rest

  -- A variation or a rollout, where one is set.
  abbrev pub chosen : Flag → Context → Option ℤ → Option Rollout → Run (Option ℤ)
  chosen flag ctx (some idx) r = done (some idx)
  chosen flag ctx none (some r) = bucket_variation flag r ctx >>= λ idx. done (some idx)
  chosen flag ctx none none = done none

  abbrev pub or_next : Option ℤ → Run (Option ℤ) → Run (Option ℤ)
  or_next (some idx) rest = done (some idx)
  or_next none rest = rest

  module _ (store : Store) (ctx : Context) (depth : ℕ) where
    -- The loop over the rules.
    unfoldable pub rule_match : Flag → List Rule → Run (Option ℤ)
    rule_match flag [] = done none
    rule_match flag (r ∷ rs) =
        let rest = rule_match flag rs in
        match_clauses store ctx (segment_contains store ctx depth) r.clauses >>= λ matched.
        if matched
        then (chosen flag ctx r.variation r.rollout >>= λ idx. or_next idx rest)
        else rest

    -- The end of `evaluate`, after the rules.
    abbrev pub fall_through : Flag → Option ℤ → Run Result
    fall_through flag (some idx) = hit flag idx "FALLTHROUGH"
    fall_through flag none = off flag "FALLTHROUGH"

    abbrev pub after_rules : Flag → Option ℤ → Run Result
    after_rules flag (some idx) = hit flag idx "RULE_MATCH"
    after_rules flag none =
        chosen flag ctx flag.config.fallthrough.variation flag.config.fallthrough.rollout >>= λ idx.
        fall_through flag idx

    abbrev pub after_targets : Flag → Option ℤ → Run Result
    after_targets flag (some idx) = hit flag idx "TARGET_MATCH"
    after_targets flag none = rule_match flag flag.config.rules >>= λ idx. after_rules flag idx

    -- The conditions on the flag of a prerequisite and on its result.
    abbrev pub meets : Prerequisite → Flag → Result → Bool
    meets p pf res = pf.config.enabled && eqb_ℤ res.variation_index p.variation

    module _ (again : Flag → List String → Run Result) where
      abbrev pub one_met : List String → Prerequisite → Option Flag → Run Bool → Run Bool
      one_met visiting p none rest = done false
      one_met visiting p (some pf) rest =
          if contains p.flag_key visiting
          then done false
          else again pf (p.flag_key ∷ visiting) >>= λ res.
              if meets p pf res then rest else done false

      -- The loop over the prerequisites: whether all are met.
      unfoldable pub all_met : List String → List Prerequisite → Run Bool
      all_met visiting [] = done true
      all_met visiting (p ∷ ps) =
          let rest = all_met visiting ps in one_met visiting p (lookup p.flag_key store.flags) rest

    -- `evaluate`
    unfoldable pub evaluate_from : ℕ → Flag → List String → Run Result
    unfolding all_met rule_match target_match
    evaluate_from zero flag visiting = out_of_fuel
    evaluate_from (suc fuel) flag visiting =
        if not flag.config.enabled
        then off flag "OFF"
        else (all_met (evaluate_from fuel) visiting flag.config.prerequisites >>= λ met.
            if met
            then after_targets flag (target_match ctx flag.config.targets)
            else off flag "PREREQUISITE_FAILED")

    -- `Evaluate`
    unfoldable pub evaluate : ℕ → Flag → Run Result
    unfolding evaluate_from
    evaluate fuel flag = evaluate_from fuel flag []
