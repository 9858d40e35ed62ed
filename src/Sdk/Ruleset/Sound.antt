-- ===== src/Sdk/Ruleset/Sound.antt =====
-- The control plane's checks of a targeting are what the evaluator relies on.
use feature_flags.Json.{Json}
use feature_flags.Sdk.Values.{Value, Go}
use feature_flags.Sdk.Evaluate.Serves.{IsSound, IsSpread, IsIndex}
use feature_flags.Api.Flags.IndexLaws.{
  references, choice_indices, All-append, rule_indices, target_indices, rollout_indices,
  weighted_indices, variation_index, Exists,
}
use feature_flags.Schemas.Limits.{weights_from}
use feature_flags.Sdk.Ruleset.{
  prerequisite_of, rule_of, config_of, target_of, index_of, where_set, fits_int, weighted_of,
  rollout_of, fallthrough_of,
}
use feature_flags.Sdk.Types.{Flag, Rule, Target, Config, Rollout, WeightedVariation, Fallthrough}
use feature_flags.Base.{
  length, ap, ◌∙◌, sym, refl, arith, ◌≡◌, ◌++◌, pos, ◌≢◌, ℤ, All, List, ℕ, Option, Bool, [], ◌∷◌,
  some, none,
}
use feature_flags.Base.Maybe.{Ensures-some, traverse, Ensures-bind, Ensures, ◌>>◌, guard}
use feature_flags.Schemas.Flag as Schema
use feature_flags.Schemas.Accepted.{IsAccepted, IsRule, IsRollout, OneOf}

Ensures-traverse {ℓ κ} :
    {A : Type ℓ} {B : Type κ} (P : A → Type 0) (Q : B → Type 0) (f : A → Option B)
    → ((a : A) → P a → Ensures Q (f a))
    → (l : List A) → All P l
    → Ensures (All Q) (traverse f l)
Ensures-traverse P Q f sound [] h = Ensures-some [] tt
Ensures-traverse P Q f sound (a ∷ l) h = Ensures-bind (f a) _ λ b e.
    Ensures-bind (traverse f l) _ λ bs es.
      Ensures-some (b ∷ bs) ((sound a h.0).at b e, (Ensures-traverse P Q f sound l h.1).at bs es)

traverse-nonempty {ℓ κ} :
    {A : Type ℓ} {B : Type κ} (f : A → Option B) (l : List A)
    → l ≢ []
    → Ensures (λ (bs : List B). bs ≢ []) (traverse f l)
traverse-nonempty f [] some_one = absurd (some_one refl)
traverse-nonempty f (a ∷ l) some_one =
    Ensures-bind (f a) _
      λ b e. Ensures-bind (traverse f l) _ λ bs es. Ensures-some (b ∷ bs) (λ same. cc)

Ensures-guard {ℓ} :
    {A : Type ℓ} (P : A → Type 0) (b : Bool) (o : Option A) → Ensures P o → Ensures P (guard b >> o)
Ensures-guard P b o h = Ensures-bind (guard b) _ λ u e. h

module _ (n : ℕ) where
  weighted_of-Exists :
      (w : Schema.WeightedVariation)
      → Exists n w.variation
      → Ensures (λ (v : WeightedVariation). Exists n v.variation) (weighted_of w)
  unfolding weighted_of
  weighted_of-Exists w h =
      Ensures-guard _ (fits_int w.variation) _
        (Ensures-guard _ (fits_int w.weight) _ (Ensures-some _ h))

  weighted_indices-All :
      (ws : List Schema.WeightedVariation)
      → All (Exists n) (weighted_indices ws)
      → All (λ (w : Schema.WeightedVariation). Exists n w.variation) ws
  weighted_indices-All [] h = tt
  weighted_indices-All (w ∷ ws) h = (h.0, weighted_indices-All ws h.1)

  -- The weights of an accepted rollout add up to 100000, so there is one.
  rollout-nonempty : (r : Schema.Rollout) → IsRollout r → r.variations ≢ []
  unfolding weights_from
  rollout-nonempty r h empty = absurd (nothing (sym h.total ∙ ap (weights_from (pos 0)) empty))
    where
      nothing : ¬ (pos 100000 ≡ pos 0)
      nothing e = ground arith

  rollout_of-IsSpread :
      (r : Schema.Rollout)
      → IsRollout r
      → All (Exists n) (weighted_indices r.variations)
      → Ensures (λ (s : Rollout). IsSpread n (some s)) (rollout_of r)
  unfolding rollout_of
  rollout_of-IsSpread r accepted h = Ensures-bind (traverse weighted_of r.variations) _ λ ws e.
      Ensures-some _ (
        (traverse-nonempty weighted_of r.variations (rollout-nonempty r accepted)).at ws e,
        (Ensures-traverse _ (λ (v : WeightedVariation). Exists n v.variation) weighted_of
              weighted_of-Exists r.variations (weighted_indices-All r.variations h)).at
            ws e,
      )

  -- A choice that is decoded names indices in range.
  abbrev IsAim : Fallthrough → Type 0
  IsAim c = IsIndex n c.variation × IsSpread n c.rollout

  index_of-IsIndex : (v : Option ℤ) → IsIndex n v → Ensures (IsIndex n) (where_set index_of v)
  index_of-IsIndex none h = Ensures-some none tt
  index_of-IsIndex (some i) h = Ensures-bind (index_of i) _ λ j e.
      Ensures-some (some j)
        ((Ensures-guard (λ k. Exists n k) (fits_int i) (some i) (Ensures-some i h)).at j e)

  fallthrough_of-IsAim :
      (v : Option ℤ) (r : Option Schema.Rollout)
      → OneOf v r
      → All (Exists n) (variation_index v ++ rollout_indices r)
      → Ensures IsAim (fallthrough_of (record { variation = v; rollout = r }))
  unfolding fallthrough_of
  fallthrough_of-IsAim none none one h = elim one [ ]
  fallthrough_of-IsAim (some i) (some r) one h = elim one [ ]
  fallthrough_of-IsAim (some i) none one h =
      Ensures-bind (where_set index_of (some i)) _
        λ v e. Ensures-some _ ((index_of-IsIndex (some i) h.0).at v e, tt)
  fallthrough_of-IsAim none (some r) one h =
      Ensures-bind (where_set rollout_of (some r)) _ λ s e. Ensures-some _ (tt, spread.at s e)
    where
      spread : Ensures (IsSpread n) (where_set rollout_of (some r))
      spread =
          Ensures-bind (rollout_of r) _
            λ s e. Ensures-some (some s) ((rollout_of-IsSpread r one h).at s e)

  target_of-Exists :
      (t : Schema.Target)
      → Exists n t.variation
      → Ensures (λ (u : Target). Exists n u.variation) (target_of t)
  unfolding target_of
  target_of-Exists t h = Ensures-guard _ (fits_int t.variation) _ (Ensures-some _ h)

  target_indices-All :
      (ts : List Schema.Target)
      → All (Exists n) (target_indices ts)
      → All (λ (t : Schema.Target). Exists n t.variation) ts
  target_indices-All [] h = tt
  target_indices-All (t ∷ ts) h = (h.0, target_indices-All ts h.1)

  -- An accepted rule whose indices are in range.
  abbrev IsRuleIn : Schema.Rule → Type 0
  IsRuleIn r =
      OneOf r.choice.variation r.choice.rollout
      × All (Exists n) (variation_index r.choice.variation ++ rollout_indices r.choice.rollout)

  rule_indices-All :
      (rs : List Schema.Rule) → All IsRule rs → All (Exists n) (rule_indices rs) → All IsRuleIn rs
  rule_indices-All [] a h = tt
  rule_indices-All (r ∷ rs) (a, as_) h =
      let (here, later) = (All-append (Exists n) (choice_indices r.choice) (rule_indices rs)).0 h in
      ((a.choice, here), rule_indices-All rs as_ later)

module _ ⦃g : Go⦄ where
  abbrev IsSoundConfig : ℕ → Config → Type 0
  IsSoundConfig n c =
      Exists n c.off_variation
      × All (λ (u : Target). Exists n u.variation) c.targets
      × All (λ (s : Rule). IsIndex n s.variation × IsSpread n s.rollout) c.rules
      × (IsIndex n c.fallthrough.variation × IsSpread n c.fallthrough.rollout)

module _ ⦃g : Go⦄ (value_of : Json → Value) where
  rule_of-IsAim :
      (n : ℕ) (r : Schema.Rule)
      → IsRuleIn n r
      → Ensures (λ (s : Rule). IsIndex n s.variation × IsSpread n s.rollout) (rule_of value_of r)
  unfolding rule_of
  rule_of-IsAim n r (one, h) = Ensures-bind (fallthrough_of r.choice) _ λ c e.
      Ensures-some _ ((fallthrough_of-IsAim n r.choice.variation r.choice.rollout one h).at c e)

  -- A targeting that meets the constraints of the control plane's request model and whose indices
  -- are all those of the flag's variations is sound for the evaluator once it is decoded: every index
  -- that the decoded targeting names is that of one of the variations, and no rollout is empty.
  pub config_of-IsSound :
      (flag : Flag) (b : Schema.FlagConfigUpdate)
      → IsAccepted b
      → All (Exists (length flag.variations)) (references b)
      → config_of value_of b ≡ some flag.config
      → IsSound flag
  unfolding config_of
  config_of-IsSound flag b accepted h decoded =
      let n = length flag.variations in
      let (aimed, later) =
        (All-append (Exists n) (target_indices b.targets)
            (rule_indices b.rules ++ choice_indices b.fallthrough)).0
          h.1 in
      let (ruled, fallen) =
        (All-append (Exists n) (rule_indices b.rules) (choice_indices b.fallthrough)).0 later in
      let sound : Ensures (IsSoundConfig n) (config_of value_of b) =
        Ensures-bind (traverse target_of b.targets) _ λ ts et.
          Ensures-bind (traverse (rule_of value_of) b.rules) _ λ rs er.
            Ensures-bind (fallthrough_of b.fallthrough) _ λ ft ef.
              Ensures-bind (traverse prerequisite_of b.prerequisites) _ λ ps ep. Ensures-some _ (
                h.0,
                (Ensures-traverse _ (λ (u : Target). Exists n u.variation) target_of
                      (target_of-Exists n) b.targets (target_indices-All n b.targets aimed)).at
                    ts et,
                (Ensures-traverse _ (λ (s : Rule). IsIndex n s.variation × IsSpread n s.rollout)
                      (rule_of value_of) (rule_of-IsAim n) b.rules
                      (rule_indices-All n b.rules accepted.rules ruled)).at
                    rs er,
                (fallthrough_of-IsAim n b.fallthrough.variation b.fallthrough.rollout
                      accepted.fallthrough fallen).at
                    ft ef,
              ) in
      let (off, targets, rules, fallthrough) = sound.at flag.config decoded in
      record { off_variation = off; targets = targets; rules = rules; fallthrough = fallthrough }
