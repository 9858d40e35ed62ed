-- ===== src/Examples/Decoded.antt =====
-- What the evaluator decodes of a targeting that the control plane stores.
use feature_flags.Examples.Data.{rollout_body}
use feature_flags.Schemas.Accepted.{IsAccepted}
use feature_flags.Schemas.Limits.{weights_from}
use feature_flags.Sdk.Ruleset.Sound.{config_of-IsSound}
use feature_flags.Sdk.Ruleset.{clause_of, config_of}
use feature_flags.Base.Int.{◌+ℤ◌}
use feature_flags.Base.{refl, none, text_key, true, some, false, ◌≡◌, ◌∷◌, pos, arith, []}
use feature_flags.Sdk.Evaluate.Serves.{IsSound}
use feature_flags.Sdk.Types.{Config, Flag}
use feature_flags.Json.{Json}
use feature_flags.Schemas.Dump.{operator_text}
use feature_flags.Sdk.Values.{Value, text}
use feature_flags.Examples.Sdk.{exact, split, paywall}

abbrev value_of : Json → Value
value_of (Json.text s) = text s
value_of _ = text ""

-- What the evaluator decodes of the targeting that the tests of the control plane store.
abbrev decoded : Config
decoded = record {
  enabled = true;
  targets = record { context_kind = "user"; variation = pos 1; keys = "u-1" ∷ [] } ∷ [];
  rules =
      record {
        clauses =
            record {
              context_kind = "user";
              attribute = "country";
              op = "in";
              values = text "US" ∷ text "CA" ∷ [];
              negate = false;
            }
            ∷ [];
        variation = some (pos 0);
        rollout = none;
      }
      ∷ [];
  fallthrough = record { variation = none; rollout = some split };
  off_variation = pos 1;
  prerequisites = [];
}

abbrev targeted : Flag
targeted = record paywall { config = decoded }

rollout_body-IsAccepted : IsAccepted rollout_body
unfolding weights_from ◌+ℤ◌
rollout_body-IsAccepted = ground arith

decodes : config_of value_of rollout_body ≡ some decoded
unfolding config_of clause_of operator_text
decodes = refl

config_of-IsSound_example : IsSound targeted
config_of-IsSound_example =
    config_of-IsSound value_of targeted rollout_body rollout_body-IsAccepted (ground arith) decodes
