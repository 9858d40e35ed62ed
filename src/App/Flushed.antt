-- ===== src/App/Flushed.antt =====
-- The rows that a flush leaves are well formed: each JSON column is the one that was loaded or the
-- one that was set.
use feature_flags.Store.Engine.{Engine}
use feature_flags.Store.Compare.{same_json}
use feature_flags.Store.Session.{Context}
use feature_flags.Json.{Json}
use feature_flags.Models.{FlagEnvironmentConfig, SegmentEnvironmentConfig}
use feature_flags.Schemas.Flag.{FlagConfigUpdate, Target, Rule, Fallthrough}
use feature_flags.Schemas.Segment.{SegmentConfigUpdate}
use feature_flags.Schemas.Accepted.{IsAccepted, IsTarget, IsRule, IsChoice, IsPrerequisite}
use feature_flags.Schemas.Bodies.{IsSegmentRule}
use feature_flags.Schemas.Dump.{
  dump_list, dump_target, dump_rule, dump_fallthrough, dump_prerequisite,
}
use feature_flags.Api.Flags.Config.{apply_update, flushed_config}
use feature_flags.Api.Flags.IndexLaws.{
  Exists, references, All-append, target_indices, rule_indices, choice_indices,
}
use feature_flags.Api.Segments.{apply_segment_update, flushed_segment_config, dump_segment_rule}
use feature_flags.App.Consistent.{IsTargeting, IsMembership}
use feature_flags.Base.{ℕ, ◌≡◌, refl, Bool, true, false, none, some, List, All, ◌++◌, if◌then◌else◌}

-- One of two values, with what holds of both.
pick : {A : Type 0} (P : A → Type 0) (b : Bool) (x y : A) → P x → P y → P (if b then x else y)
pick P true x y h k = h
pick P false x y h k = k

-- One of two JSON columns is the dump of one of two values.
pick_dump :
    {A : Type 0} (dump : A → Json) (b : Bool) (x y : A) (old : Json)
    → old ≡ dump x
    → (if b then old else dump y) ≡ dump (if b then x else y)
pick_dump dump true x y old h = h
pick_dump dump false x y old h = refl

module _ ⦃E : Engine⦄ (c : Context) (n : ℕ) (b : FlagConfigUpdate) (before : FlagEnvironmentConfig)
    (w : IsTargeting n before) where
  kept_targets : Bool
  kept_targets = same_json before.targets (dump_list dump_target b.targets)

  kept_rules : Bool
  kept_rules = same_json before.rules (dump_list dump_rule b.rules)

  kept_fallthrough : Bool
  kept_fallthrough = same_json before.fallthrough (dump_fallthrough b.fallthrough)

  kept_prerequisites : Bool
  kept_prerequisites = same_json before.prerequisites (dump_list dump_prerequisite b.prerequisites)

  -- The targeting that is stored.
  abbrev mixed : FlagConfigUpdate
  mixed = record b {
    targets = if kept_targets then w.body.targets else b.targets;
    rules = if kept_rules then w.body.rules else b.rules;
    fallthrough = if kept_fallthrough then w.body.fallthrough else b.fallthrough;
    prerequisites = if kept_prerequisites then w.body.prerequisites else b.prerequisites;
  }

  mixed-IsAccepted : IsAccepted b → IsAccepted mixed
  mixed-IsAccepted h =
      let k = w.accepted in
      record {
        targets = pick (All IsTarget) kept_targets _ _ k.targets h.targets;
        rules = pick (All IsRule) kept_rules _ _ k.rules h.rules;
        fallthrough = pick IsChoice kept_fallthrough _ _ k.fallthrough h.fallthrough;
        off_variation = h.off_variation;
        prerequisites =
            pick (All IsPrerequisite) kept_prerequisites _ _ k.prerequisites h.prerequisites;
      }

  mixed_indices : All (Exists n) (references b) → All (Exists n) (references mixed)
  mixed_indices (off, h) =
      let P = Exists n in
      let split = λ (u : FlagConfigUpdate).
        (All-append P (target_indices u.targets)
          (rule_indices u.rules ++ choice_indices u.fallthrough)) in
      let (_, old) = w.indices in
      let (t, rest) = (split b).0 h in
      let (t', rest') = (split w.body).0 old in
      let (r, f) = (All-append P (rule_indices b.rules) (choice_indices b.fallthrough)).0 rest in
      let (r', f') =
        (All-append P (rule_indices w.body.rules) (choice_indices w.body.fallthrough)).0 rest' in
      (
        off,
        (split mixed).1 (
          pick (λ (x : List Target). All P (target_indices x)) kept_targets _ _ t' t,
          (All-append P (rule_indices mixed.rules) (choice_indices mixed.fallthrough)).1 (
            pick (λ (x : List Rule). All P (rule_indices x)) kept_rules _ _ r' r,
            pick (λ (x : Fallthrough). All P (choice_indices x)) kept_fallthrough _ _ f' f,
          ),
        ),
      )

  pub flushed_config-IsTargeting :
      IsAccepted b
      → All (Exists n) (references b)
      → IsTargeting n (flushed_config before (apply_update c b before))
  unfolding flushed_config apply_update kept_targets kept_rules kept_fallthrough kept_prerequisites
  flushed_config-IsTargeting accepted indices = record {
    body = mixed;
    accepted = mixed-IsAccepted accepted;
    indices = mixed_indices indices;
    targets = pick_dump (dump_list dump_target) kept_targets _ _ before.targets w.targets;
    rules = pick_dump (dump_list dump_rule) kept_rules _ _ before.rules w.rules;
    fallthrough = pick_dump dump_fallthrough kept_fallthrough _ _ before.fallthrough w.fallthrough;
    off_variation = refl;
    prerequisites =
        pick_dump (dump_list dump_prerequisite) kept_prerequisites _ _ before.prerequisites
          w.prerequisites;
  }

module _ ⦃E : Engine⦄ (c : Context) (b : SegmentConfigUpdate)
    (accepted : All IsSegmentRule b.rules) where
  pub inserted-IsMembership :
      (before : SegmentEnvironmentConfig)
      → IsMembership (flushed_segment_config none (apply_segment_update c b before))
  unfolding apply_segment_update flushed_segment_config
  inserted-IsMembership before = record { body = b.rules; accepted = accepted; rules = refl }

  pub flushed_segment_config-IsMembership :
      (before : SegmentEnvironmentConfig)
      → IsMembership before
      → IsMembership (flushed_segment_config (some before) (apply_segment_update c b before))
  unfolding apply_segment_update flushed_segment_config
  flushed_segment_config-IsMembership before w =
      let kept = same_json before.rules (dump_list dump_segment_rule b.rules) in
      record {
        body = if kept then w.body else b.rules;
        accepted = pick (All IsSegmentRule) kept _ _ w.accepted accepted;
        rules = pick_dump (dump_list dump_segment_rule) kept _ _ before.rules w.rules;
      }
