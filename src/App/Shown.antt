-- ===== src/App/Shown.antt =====
-- Stored rows can be shown: on consistent tables the response models of control-plane/app/schemas
-- accept what they read.
use feature_flags.Api.Segments.Replies.{load-dump_segment_rules}
use feature_flags.Api.Segments.{SegmentConfigOut, segment_config_out}
use feature_flags.Schemas.Flag.{Variation}
use feature_flags.Models.{SegmentEnvironmentConfig, FlagEnvironmentConfig, Flag}
use feature_flags.Schemas.Pydantic.{Pydantic}
use feature_flags.App.Consistent.{IsTargeting, IsMembership, IsFlag}
use feature_flags.Api.Flags.Config.{FlagConfigOut, config_out}
use feature_flags.App.Responses.{FlagOut, flag_out}
use feature_flags.Schemas.FlagCreate.{load_variation, IsVariation}
use feature_flags.Api.Flags.Handlers.{dump_variation}
use feature_flags.Schemas.RoundTrip.{
  load-dump_targets, load-dump_rules, load-dump_fallthrough, load-dump_prerequisites,
}
use feature_flags.Base.Maybe.{is_none, traverse, traverse-map}
use feature_flags.Base.{
  ◌∙◌, inr, not, inl, Option-cases, ◌∷◌, arith, true, String, Elem, ◌&&◌, ℕ, List, Bool, some, ◌≡◌,
  refl, [],
}
use mathlib.Core.List.{Perm, Permᴰ}
use mathlib.Core.Path.{ap₂}
use mathlib.Core.Bool.{Bool-set}
use mathlib.Core.Logic.{∥∥₁_elim}

module _ ⦃p : Pydantic⦄ where
  pub config_out-IsTargeting :
      (n : ℕ) (env_key : String) (cfg : FlagEnvironmentConfig)
      → IsTargeting n cfg
      → (out : FlagConfigOut) × (config_out env_key cfg ≡ some out)
  unfolding config_out
  config_out-IsTargeting n env_key cfg h = (
    record {
      environment_key = env_key;
      enabled = cfg.enabled;
      targets = h.body.targets;
      rules = h.body.rules;
      fallthrough = h.body.fallthrough;
      off_variation = cfg.off_variation;
      prerequisites = h.body.prerequisites;
      version = cfg.version;
      updated_at = cfg.updated_at;
      updated_by = cfg.updated_by;
    },
    rw (
      h.targets,
      h.rules,
      h.fallthrough,
      h.prerequisites,
      load-dump_targets h.body.targets h.accepted.targets,
      load-dump_rules h.body.rules h.accepted.rules,
      load-dump_fallthrough h.body.fallthrough h.accepted.fallthrough,
      load-dump_prerequisites h.body.prerequisites h.accepted.prerequisites,
    ),
  )

  pub segment_config_out-IsMembership :
      (env_key : String) (cfg : SegmentEnvironmentConfig)
      → IsMembership cfg
      → (out : SegmentConfigOut) × (segment_config_out env_key cfg ≡ some out)
  unfolding segment_config_out
  segment_config_out-IsMembership env_key cfg h = (
    record {
      environment_key = env_key;
      context_kind = cfg.context_kind;
      included = cfg.included;
      excluded = cfg.excluded;
      rules = h.body;
      version = cfg.version;
      updated_at = cfg.updated_at;
    },
    rw (h.rules, load-dump_segment_rules h.body h.accepted),
  )

  load_variation-dump_variation :
      (v : Variation) → IsVariation v → load_variation (dump_variation v) ≡ some v
  unfolding load_variation
  load_variation-dump_variation v h = rw (p.as_text-text v.name, h)

  pub flag_out-IsFlag : (f : Flag) → IsFlag f → (out : FlagOut) × (flag_out f ≡ some out)
  unfolding flag_out
  flag_out-IsFlag f h = (
    record {
      id = f.id;
      key = f.key;
      name = f.name;
      description = f.description;
      kind = f.kind;
      variations = h.body;
      salt = f.salt;
      temporary = f.temporary;
      tags = f.tags;
      owner = f.owner;
      client_side_available = f.client_side_available;
      created_at = f.created_at;
      archived_at = f.archived_at;
    },
    rw (
      h.variations,
      traverse-map IsVariation load_variation dump_variation load_variation-dump_variation h.body
          h.names,
    ),
  )

  -- Whether all flags of a list can be shown, which does not turn on their order.
  pub all_shown : List Flag → Bool
  all_shown [] = true
  all_shown (f ∷ fs) = not (is_none (flag_out f)) && all_shown fs

  and_swap : (a b c : Bool) → a && (b && c) ≡ b && (a && c)
  and_swap a b c = ground arith

  all_shown-permᴰ : {xs ys : List Flag} → Permᴰ xs ys → all_shown xs ≡ all_shown ys
  unfolding all_shown
  all_shown-permᴰ Permᴰ.nil = refl
  all_shown-permᴰ (Permᴰ.cons e h) =
      ap₂ (λ (f : Flag) (b : Bool). not (is_none (flag_out f)) && b) e (all_shown-permᴰ h)
  all_shown-permᴰ (Permᴰ.swap {a = a} {b = b} {l = l} e e') =
      and_swap (not (is_none (flag_out a))) (not (is_none (flag_out b))) (all_shown l)
      ∙ ap₂
          (λ (f g : Flag).
            not (is_none (flag_out f)) && (not (is_none (flag_out g)) && all_shown l))
          e' e
  all_shown-permᴰ (Permᴰ.trans h k) = all_shown-permᴰ h ∙ all_shown-permᴰ k

  pub all_shown-perm : {xs ys : List Flag} → Perm xs ys → all_shown xs ≡ all_shown ys
  all_shown-perm h = ∥∥₁_elim h (Bool-set _ _) all_shown-permᴰ

  pub all_shown-of_Elem :
      (fs : List Flag)
      → ((f : Flag) → Elem f fs → (out : FlagOut) × (flag_out f ≡ some out))
      → all_shown fs ≡ true
  unfolding all_shown
  all_shown-of_Elem [] h = refl
  all_shown-of_Elem (f ∷ fs) h =
      let (out, e) = h f (inl refl) in rw e (all_shown-of_Elem fs (λ g m. h g (inr m)))

  pub traverse-all_shown :
      (fs : List Flag)
      → all_shown fs ≡ true
      → (outs : List FlagOut) × (traverse flag_out fs ≡ some outs)
  unfolding all_shown
  traverse-all_shown [] h = ([], refl)
  traverse-all_shown (f ∷ fs) h = elim (Option-cases (flag_out f)) [
    | inl bad ↦ absurd (cc (rw bad at h))
    | inr (out, good) ↦
        let (outs, rest) = traverse-all_shown fs (rw good at h) in (out ∷ outs, rw (good, rest))
  ]
