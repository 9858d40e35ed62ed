-- ===== src/Api/Flags/IndexLaws.antt =====
-- What `_validate_indices` of control-plane/app/api/flags.py accepts.
use feature_flags.Base.{
  ℕ, ◌+◌, ℤ, pos, String, ◌≡◌, ◌↔◌, refl, Option, none, some, List, [], ◌∷◌, ◌++◌, All, arith,
}
use feature_flags.Base.Int.{◌≤ℤ◌, ◌<ℤ◌}
use feature_flags.Schemas.Flag.{
  WeightedVariation, Rollout, VariationOrRollout, Rule, Target, FlagConfigUpdate,
}
use feature_flags.Api.Flags.Indices.{
  check, check_weighted, check_choice, check_targets, check_rules, validate_indices,
}

-- Every variation index that a request names.
abbrev pub weighted_indices : List WeightedVariation → List ℤ
weighted_indices [] = []
weighted_indices (w ∷ ws) = w.variation ∷ weighted_indices ws

abbrev pub variation_index : Option ℤ → List ℤ
variation_index none = []
variation_index (some idx) = idx ∷ []

abbrev pub rollout_indices : Option Rollout → List ℤ
rollout_indices none = []
rollout_indices (some r) = weighted_indices r.variations

abbrev pub choice_indices : VariationOrRollout → List ℤ
choice_indices c = variation_index c.variation ++ rollout_indices c.rollout

abbrev pub target_indices : List Target → List ℤ
target_indices [] = []
target_indices (t ∷ ts) = t.variation ∷ target_indices ts

abbrev pub rule_indices : List Rule → List ℤ
rule_indices [] = []
rule_indices (r ∷ rs) = choice_indices r.choice ++ rule_indices rs

abbrev pub references : FlagConfigUpdate → List ℤ
references cfg =
    cfg.off_variation
    ∷ (target_indices cfg.targets ++ (rule_indices cfg.rules ++ choice_indices cfg.fallthrough))

-- The index of one of `n` variations.
abbrev pub Exists : ℕ → ℤ → Type 0
Exists n idx = (pos 0 ≤ℤ idx) × (idx <ℤ pos n)

pub All-append {κ} : (P : ℤ → Type κ) (xs ys : List ℤ) → All P (xs ++ ys) ↔ (All P xs × All P ys)
All-append P [] ys = (λ h. (tt, h), λ h. h.1)
All-append P (x ∷ xs) ys =
    let ih = All-append P xs ys in
    (λ h. ((h.0, (ih.0 h.1).0), (ih.0 h.1).1), λ h. (h.0.0, ih.1 (h.0.1, h.1)))

nil_append : (xs ys : List String) → (xs ++ ys ≡ []) ↔ ((xs ≡ []) × (ys ≡ []))
nil_append [] ys = (λ h. (refl, h), λ h. h.1)
nil_append (x ∷ xs) ys = (λ h. cc, λ h. cc h.0)

-- The two sides of an equivalence that is built along `++`.
both :
    (n : ℕ) (bad other : List String) (xs ys : List ℤ)
    → (bad ≡ []) ↔ All (Exists n) xs
    → (other ≡ []) ↔ All (Exists n) ys
    → (bad ++ other ≡ []) ↔ All (Exists n) (xs ++ ys)
both n bad other xs ys f g = (
  λ h. let (p, q) = (nil_append bad other).0 h in (All-append (Exists n) xs ys).1 (f.0 p, g.0 q),
  λ h. let (p, q) = (All-append (Exists n) xs ys).0 h in (nil_append bad other).1 (f.1 p, g.1 q),
)

module _ (n : ℕ) where
  check_iff : (idx : ℤ) (place : String) → (check n idx place ≡ []) ↔ All (Exists n) (idx ∷ [])
  unfolding check
  check_iff idx place = ground arith

  check_weighted_iff :
      (place : String) (ws : List WeightedVariation)
      → (check_weighted n place ws ≡ []) ↔ All (Exists n) (weighted_indices ws)
  unfolding check_weighted
  check_weighted_iff place [] = (λ h. tt, λ h. refl)
  check_weighted_iff place (w ∷ ws) =
      both n (check n w.variation place) (check_weighted n place ws) (w.variation ∷ [])
        (weighted_indices ws) (check_iff w.variation place) (check_weighted_iff place ws)

  check_choice_iff :
      (place : String) (v : Option ℤ) (r : Option Rollout)
      → (check_choice n place (record { variation = v; rollout = r }) ≡ [])
        ↔ All (Exists n) (choice_indices (record { variation = v; rollout = r }))
  unfolding check_choice
  check_choice_iff place none none = (λ h. tt, λ h. refl)
  check_choice_iff place (some idx) none =
      both n (check n idx place) [] (idx ∷ []) [] (check_iff idx place) (λ h. tt, λ h. refl)
  check_choice_iff place none (some r) = check_weighted_iff _ r.variations
  check_choice_iff place (some idx) (some r) =
      both n (check n idx place) _ (idx ∷ []) (weighted_indices r.variations) (check_iff idx place)
        (check_weighted_iff _ r.variations)

  check_targets_iff :
      (ts : List Target) → (check_targets n ts ≡ []) ↔ All (Exists n) (target_indices ts)
  unfolding check_targets
  check_targets_iff [] = (λ h. tt, λ h. refl)
  check_targets_iff (t ∷ ts) =
      both n _ (check_targets n ts) (t.variation ∷ []) (target_indices ts) (check_iff t.variation _)
        (check_targets_iff ts)

  check_rules_iff :
      (i : ℕ) (rs : List Rule) → (check_rules n i rs ≡ []) ↔ All (Exists n) (rule_indices rs)
  unfolding check_rules
  check_rules_iff i [] = (λ h. tt, λ h. refl)
  check_rules_iff i (r ∷ rs) =
      both n _ (check_rules n (i + 1) rs) (choice_indices r.choice) (rule_indices rs)
        (check_choice_iff _ r.variation r.rollout) (check_rules_iff (i + 1) rs)

-- `_validate_indices` finds nothing to refuse exactly when every variation index that the request
-- names, in the off variation, the targets, the rules, the fallthrough and their rollouts, is the
-- index of one of the flag's variations.
pub validate_indices_iff :
    (cfg : FlagConfigUpdate) (n : ℕ)
    → (validate_indices cfg n ≡ []) ↔ All (Exists n) (references cfg)
unfolding validate_indices
validate_indices_iff cfg n =
    both n _ _ (cfg.off_variation ∷ []) _ (check_iff n cfg.off_variation _) (
      both n _ _ (target_indices cfg.targets) _ (check_targets_iff n cfg.targets) (
        both n _ _ (rule_indices cfg.rules) _ (check_rules_iff n 0 cfg.rules)
          (check_choice_iff n "fallthrough" cfg.fallthrough.variation cfg.fallthrough.rollout)))
