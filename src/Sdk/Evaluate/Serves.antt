-- ===== src/Sdk/Evaluate/Serves.antt =====
-- What an evaluation serves: no index that it uses is out of range where the indices of the flags
-- are not.
use feature_flags.Sdk.Clauses.Calm.{segment_contains-IsCalm, match_clauses-IsCalm}
use feature_flags.Sdk.Clauses.{segment_contains, match_clauses}
use feature_flags.Sdk.Run.Outcomes.{Gives-if, Any, Gives-bind, Gives}
use feature_flags.Api.Flags.IndexLaws.{Exists}
use feature_flags.Sdk.Attributes.{context_key, Context}
use feature_flags.Sdk.Evaluate.{
  meets, one_met, or_next, evaluate_from, all_met, rule_match, off, fall_through, after_targets,
  after_rules, is_listed_key, hit, chosen, target_match,
}
use feature_flags.Sdk.Bucket.{or_last, last_variation, first_above, bucket_variation}
use feature_flags.Sdk.Types.{
  Prerequisite, Store, Rule, Variation, Target, Rollout, Result, WeightedVariation, Flag,
}
use feature_flags.Sdk.Values.{Go}
use feature_flags.Sdk.Run.{◌>>=◌, contains, Run, lookup, or_panic, index_at, done}
use feature_flags.Base.{
  zero, suc, if◌then◌else◌, false, not, Bool, suc, ap, arith, get_elem?-lt, ◌≡◌, refl, length,
  Bool-cases, ◌≢◌, String, All, ℤ, Option, ℕ, List, [], ◌∷◌, some, none, pos, negsuc, inl, inr,
}

index_at-Exists {ℓ} :
    {A : Type ℓ} (l : List A) (i : ℤ) → Exists (length l) i → (a : A) × (index_at l i ≡ done a)
index_at-Exists l (pos n) (low, high) =
    let (a, got) = get_elem?-lt l n (omega arith) in (a, ap or_panic got)
index_at-Exists l (negsuc n) (low, high) = absurd (omega arith)

abbrev pub IsIndex : ℕ → Option ℤ → Type 0
IsIndex n none = Unit
IsIndex n (some i) = Exists n i

-- A rollout over at least one variation, each the index of one of `n`.
abbrev pub IsSpread : ℕ → Option Rollout → Type 0
IsSpread n none = Unit
IsSpread n (some r) =
    (r.variations ≢ []) × All (λ (w : WeightedVariation). Exists n w.variation) r.variations

module _ ⦃g : Go⦄ where
  -- Each index that the configuration of a flag names is that of one of its variations, and its
  -- rollouts are not empty.
  pub record IsSound (flag : Flag) : Type 0 where
    pub off_variation : Exists (length flag.variations) flag.config.off_variation
    pub targets :
        All (λ (t : Target). Exists (length flag.variations) t.variation) flag.config.targets
    pub rules :
        All
          (λ (r : Rule).
            IsIndex (length flag.variations) r.variation
            × IsSpread (length flag.variations) r.rollout)
          flag.config.rules
    pub fallthrough :
        IsIndex (length flag.variations) flag.config.fallthrough.variation
        × IsSpread (length flag.variations) flag.config.fallthrough.rollout

  -- The index of a variation of the flag, with that variation's value.
  pub record IsServed (flag : Flag) (res : Result) : Type 0 where
    pub variation : Variation
    pub at : index_at flag.variations res.variation_index ≡ done variation
    pub value : res.value ≡ variation.value

  hit-IsServed :
      (flag : Flag) (i : ℤ) (reason : String)
      → Exists (length flag.variations) i
      → Gives (IsServed flag) (hit flag i reason)
  hit-IsServed flag i reason h =
      let (v, at) = index_at-Exists flag.variations i h in
      rw at (record { variation = v; at = at; value = refl })

  last_variation-Exists :
      (n : ℕ) (ws : List WeightedVariation)
      → ws ≢ []
      → All (λ (w : WeightedVariation). Exists n w.variation) ws
      → Gives (Exists n) (last_variation ws)
  last_variation-Exists n [] some_one h = some_one refl
  last_variation-Exists n (w ∷ []) some_one h = h.0
  last_variation-Exists n (w ∷ v ∷ ws) some_one h = last_variation-Exists n (v ∷ ws) (λ e. cc) h.1

  first_above-IsIndex :
      (n : ℕ) (b cum : g.floats.F) (ws : List WeightedVariation)
      → All (λ (w : WeightedVariation). Exists n w.variation) ws
      → IsIndex n (first_above b cum ws)
  unfolding first_above
  first_above-IsIndex n b cum [] h = tt
  first_above-IsIndex n b cum (w ∷ ws) (i, h) =
      let next = g.floats.plus cum (g.quotient (g.of_int w.weight) (g.of_int (pos 100000))) in
      elim (Bool-cases (g.floats.below b next)) [
        | inl stops ↦ rw stops i
        | inr goes ↦ rw goes (first_above-IsIndex n b next ws h)
      ]

  or_last-Exists :
      (n : ℕ) (o : Option ℤ) (ws : List WeightedVariation)
      → ws ≢ []
      → All (λ (w : WeightedVariation). Exists n w.variation) ws
      → IsIndex n o
      → Gives (Exists n) (or_last o ws)
  or_last-Exists n none ws some_one h i = last_variation-Exists n ws some_one h
  or_last-Exists n (some idx) ws some_one h i = i

  chosen-IsIndex :
      (n : ℕ) (flag : Flag) (ctx : Context) (v : Option ℤ) (r : Option Rollout)
      → IsIndex n v
      → IsSpread n r
      → Gives (IsIndex n) (chosen flag ctx v r)
  unfolding bucket_variation
  chosen-IsIndex n flag ctx (some i) r h s = h
  chosen-IsIndex n flag ctx none none h s = tt
  chosen-IsIndex n flag ctx none (some r) h (some_one, s) =
      Gives-bind (Exists n) (IsIndex n) (bucket_variation flag r ctx) (λ i. done (some i))
        (or_last-Exists n _ r.variations some_one s (first_above-IsIndex n _ _ r.variations s))
        (λ i at. at)

  target_match-IsIndex :
      (n : ℕ) (ctx : Context) (ts : List Target)
      → All (λ (t : Target). Exists n t.variation) ts
      → IsIndex n (target_match ctx ts)
  unfolding target_match
  target_match-IsIndex n ctx [] h = tt
  target_match-IsIndex n ctx (t ∷ ts) (i, h) =
      elim (Bool-cases (is_listed_key t.keys (context_key ctx t.context_kind))) [
        | inl here ↦ rw here i
        | inr other ↦ rw other (target_match-IsIndex n ctx ts h)
      ]

  module _ (store : Store) (ctx : Context) (depth : ℕ) where
    rule_match-IsIndex :
        (n : ℕ) (flag : Flag) (rs : List Rule)
        → All (λ (r : Rule). IsIndex n r.variation × IsSpread n r.rollout) rs
        → Gives (IsIndex n) (rule_match store ctx depth flag rs)
    unfolding rule_match
    rule_match-IsIndex n flag [] h = tt
    rule_match-IsIndex n flag (r ∷ rs) ((v, s), h) =
        let rest = rule_match store ctx depth flag rs in
        let ih = rule_match-IsIndex n flag rs h in
        Gives-bind Any (IsIndex n)
          (match_clauses store ctx (segment_contains store ctx depth) r.clauses)
          (λ b. if b then (chosen flag ctx r.variation r.rollout >>= λ i. or_next i rest) else rest)
          (match_clauses-IsCalm store ctx (segment_contains store ctx depth)
            (segment_contains-IsCalm store ctx depth) r.clauses)
          (λ b _.
            Gives-if (IsIndex n) b (chosen flag ctx r.variation r.rollout >>= λ i. or_next i rest)
              rest
              (Gives-bind (IsIndex n) (IsIndex n) (chosen flag ctx r.variation r.rollout)
                (λ i. or_next i rest) (chosen-IsIndex n flag ctx r.variation r.rollout v s)
                (λ i at. or_next-IsIndex i rest at ih))
              ih)
      where
        or_next-IsIndex :
            (i : Option ℤ) (next : Run (Option ℤ))
            → IsIndex n i
            → Gives (IsIndex n) next
            → Gives (IsIndex n) (or_next i next)
        or_next-IsIndex none next at e = e
        or_next-IsIndex (some i) next at e = at

    module _ (flag : Flag) (sound : IsSound flag) where
      off-IsServed : (reason : String) → Gives (IsServed flag) (off flag reason)
      off-IsServed reason = hit-IsServed flag flag.config.off_variation reason sound.off_variation

      fall_through-IsServed :
          (i : Option ℤ)
          → IsIndex (length flag.variations) i
          → Gives (IsServed flag) (fall_through store ctx depth flag i)
      fall_through-IsServed none h = off-IsServed "FALLTHROUGH"
      fall_through-IsServed (some i) h = hit-IsServed flag i "FALLTHROUGH" h

      after_rules-IsServed :
          (i : Option ℤ)
          → IsIndex (length flag.variations) i
          → Gives (IsServed flag) (after_rules store ctx depth flag i)
      after_rules-IsServed (some i) h = hit-IsServed flag i "RULE_MATCH" h
      after_rules-IsServed none h =
          Gives-bind (IsIndex (length flag.variations)) (IsServed flag)
            (chosen flag ctx flag.config.fallthrough.variation flag.config.fallthrough.rollout)
            (λ i. fall_through store ctx depth flag i)
            (chosen-IsIndex (length flag.variations) flag ctx flag.config.fallthrough.variation
              flag.config.fallthrough.rollout sound.fallthrough.0 sound.fallthrough.1)
            (λ i. fall_through-IsServed i)

      after_targets-IsServed :
          (i : Option ℤ)
          → IsIndex (length flag.variations) i
          → Gives (IsServed flag) (after_targets store ctx depth flag i)
      after_targets-IsServed (some i) h = hit-IsServed flag i "TARGET_MATCH" h
      after_targets-IsServed none h =
          Gives-bind (IsIndex (length flag.variations)) (IsServed flag)
            (rule_match store ctx depth flag flag.config.rules)
            (λ i. after_rules store ctx depth flag i)
            (rule_match-IsIndex (length flag.variations) flag flag.config.rules sound.rules)
            (λ i. after_rules-IsServed i)

    module _
        (sound : (k : String) (flag : Flag) → lookup k store.flags ≡ some flag → IsSound flag) where
      one_met-IsCalm :
          (again : Flag → List String → Run Result) (visiting : List String) (p : Prerequisite)
          (found : Option Flag) (rest : Run Bool)
          → ((pf : Flag) (v : List String) → IsSound pf → Gives (IsServed pf) (again pf v))
          → lookup p.flag_key store.flags ≡ found
          → Gives Any rest
          → Gives Any (one_met store ctx depth again visiting p found rest)
      one_met-IsCalm again visiting p none rest serves at h = tt
      one_met-IsCalm again visiting p (some pf) rest serves at h =
          Gives-if Any (contains p.flag_key visiting) (done false) _ tt (
            Gives-bind (IsServed pf) Any (again pf (p.flag_key ∷ visiting))
              (λ res. if meets store ctx depth p pf res then rest else done false)
              (serves pf (p.flag_key ∷ visiting) (sound p.flag_key pf at))
              (λ res _. Gives-if Any (meets store ctx depth p pf res) rest (done false) h tt))

      all_met-IsCalm :
          (again : Flag → List String → Run Result) (visiting : List String)
          → ((pf : Flag) (v : List String) → IsSound pf → Gives (IsServed pf) (again pf v))
          → (ps : List Prerequisite) → Gives Any (all_met store ctx depth again visiting ps)
      unfolding all_met
      all_met-IsCalm again visiting serves [] = tt
      all_met-IsCalm again visiting serves (p ∷ ps) =
          one_met-IsCalm again visiting p (lookup p.flag_key store.flags)
            (all_met store ctx depth again visiting ps) serves refl
            (all_met-IsCalm again visiting serves ps)

      pub evaluate_from-IsServed :
          (fuel : ℕ) (flag : Flag) (visiting : List String)
          → IsSound flag
          → Gives (IsServed flag) (evaluate_from store ctx depth fuel flag visiting)
      unfolding evaluate_from
      evaluate_from-IsServed zero flag visiting h = tt
      evaluate_from-IsServed (suc fuel) flag visiting h =
          Gives-if (IsServed flag) (not flag.config.enabled) _ _ (off-IsServed flag h "OFF") (
            Gives-bind Any (IsServed flag) _ _
              (all_met-IsCalm (evaluate_from store ctx depth fuel) visiting
                (λ pf v. evaluate_from-IsServed fuel pf v) flag.config.prerequisites)
              (λ b _.
                Gives-if (IsServed flag) b _ _
                  (after_targets-IsServed flag h (target_match ctx flag.config.targets) (
                    target_match-IsIndex (length flag.variations) ctx flag.config.targets
                      h.targets))
                  (off-IsServed flag h "PREREQUISITE_FAILED")))
