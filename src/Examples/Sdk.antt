-- ===== src/Examples/Sdk.antt =====
-- The evaluator of sdk/go/flageval on exact fractions, and each property about it at an input.
use feature_flags.Sdk.Clauses.Depth.{IsBelow}
use feature_flags.Sdk.Evaluate.Total.{evaluate_returns}
use feature_flags.Sdk.Evaluate.Cyclic.{evaluate_cyclic}
use feature_flags.Sdk.Clauses.Cycle.{segment_contains_diverges}
use feature_flags.Sdk.Agreement.{bucket_variation-rollout_variation}
use feature_flags.Sdk.Clauses.{segment_contains, match_clauses}
use feature_flags.Sdk.Evaluate.{after_targets, evaluate, target_match}
use feature_flags.Sdk.Evaluate.Depth.{IsShallow, IsBounded}
use mathlib.Core.Option.{some-injective}
use mathlib.Core.Path.{subst}
use feature_flags.Sdk.Run.{lookup, done, out_of_fuel, index_at}
use feature_flags.Base.Int.{pos_part}
use feature_flags.Base.{
  All, refl, none, inr, text_key, inl, ◌==◌, Bool-cases, ◌/◌, ◌+◌, true, some, nat_eq, false, ◌≡◌,
  ◌∷◌, pos, ltb, if◌then◌else◌, arith, [], ◌*◌, ℕ, String,
}
use feature_flags.Sdk.Evaluate.Serves.{IsServed, IsSound}
use feature_flags.Conformance.Bucket.{Floats, rollout_variation, denom, bucket_int, hex_from}
use feature_flags.Sdk.Attributes.{Context, context_key, attr}
use feature_flags.Sdk.Types.{
  SegmentRule, Result, Store, Segment, Rollout, Prerequisite, Flag, Clause,
}
use feature_flags.Sdk.Bucket.{bucket_variation, bucket, bucket_value}
use feature_flags.Sdk.Values.{as_string, equal_any, Go, text}

abbrev pub fraction_plus : ℕ × ℕ → ℕ × ℕ → ℕ × ℕ
fraction_plus (a, b) (c, d) = if nat_eq c 0 then (a, b) else (a * d + b * c, b * d)

pub fraction_plus_nothing : (x : ℕ × ℕ) → fraction_plus x (0, 100000) ≡ x
fraction_plus_nothing (a, b) = refl

abbrev pub fractions : Floats
fractions = record {
  F = ℕ × ℕ;
  ratio = λ m n. (m, n);
  plus = fraction_plus;
  below = λ x y. ltb (x.0 * y.1) (y.0 * x.1);
  plus_nothing = fraction_plus_nothing;
}

instance abbrev pub exact : Go
exact = record {
  floats = fractions;
  of_int = λ n. (pos_part n, 1);
  quotient = λ x y. (x.0 * y.1, x.1 * y.0);
  equal = λ x y. nat_eq (x.0 * y.1) (y.0 * x.1);
  trunc = λ x. (x.0 / x.1, 1);
  is_inf = λ x. false;
  to_int64 = λ x. pos (x.0 / x.1);
  format_float = λ x. "";
  has_prefix = λ s t. s == t;
  has_suffix = λ s t. s == t;
  contains_text = λ s t. s == t;
  regexp_match = λ p s. some (p == s);
  sha1_hex = λ s. "09af";
  of_int_zero = refl;
  quotient_exact = λ m n small positive small_n. ground arith;
}

-- Whoever is in the US gets the first variation, the segment "beta" too, and the rest by 60 to 40.
abbrev in_us : Clause
in_us = record {
  context_kind = "user";
  attribute = "country";
  op = "in";
  values = text "US" ∷ [];
  negate = false;
}

abbrev in_beta : Clause
in_beta = record {
  context_kind = "user";
  attribute = "";
  op = "segmentMatch";
  values = text "beta" ∷ [];
  negate = false;
}

abbrev pub split : Rollout
split = record {
  context_kind = "user";
  bucket_by = "key";
  variations =
      record { variation = pos 0; weight = pos 60000 }
      ∷ record { variation = pos 1; weight = pos 40000 }
      ∷ [];
}

-- Its only prerequisite is the flag itself, at its off variation.
abbrev self : Prerequisite
self = record { flag_key = "paywall"; variation = pos 1 }

abbrev pub paywall : Flag
paywall = record {
  key = "paywall";
  salt = "salt";
  kind = "string";
  variations =
      record { name = "On"; value = text "on" } ∷ record { name = "Off"; value = text "off" } ∷ [];
  config = record {
    enabled = true;
    targets = [];
    rules = record { clauses = in_beta ∷ []; variation = some (pos 0); rollout = none } ∷ [];
    fallthrough = record { variation = none; rollout = some split };
    off_variation = pos 1;
    prerequisites = self ∷ [];
  };
}

abbrev beta : Segment
beta = record {
  key = "beta";
  context_kind = "user";
  included = [];
  excluded = [];
  rules = record { clauses = in_us ∷ [] } ∷ [];
}

abbrev store : Store
store = record { flags = ("paywall", paywall) ∷ []; segments = ("beta", beta) ∷ [] }

abbrev viewer : Context
viewer = record { kinds = ("user", ("key", text "u1") ∷ ("country", text "US") ∷ []) ∷ [] }

-- A store of one entry.
lookup-single :
    {V : Type 0} (P : V → Type 0) (j k : String) (v x : V)
    → lookup k ((j, v) ∷ []) ≡ some x
    → P v
    → P x
lookup-single P j k v x h p = elim (Bool-cases (j == k)) [
  | inl same ↦ subst P (some-injective v x (rw same at h)) p
  | inr other ↦ absurd (cc (rw other at h))
]

abbrev no_rank : String → ℕ
no_rank k = 0

paywall-IsSound : IsSound paywall
paywall-IsSound = ground arith

store-IsBounded : IsBounded no_rank store viewer 1
store-IsBounded = record {
  layered = record {
    at = λ k seg at.
        lookup-single
          (λ (s : Segment). All (λ (r : SegmentRule). All (IsBelow no_rank 0) r.clauses) s.rules)
          "beta" k beta seg at (((λ is. absurd (cc is)), tt), tt);
  };
  shallow = λ k flag at.
      lookup-single (IsShallow no_rank store viewer 1) "paywall" k paywall flag at shallow;
}
  where
    shallow : IsShallow no_rank store viewer 1 paywall
    shallow = (((λ is. (omega arith, tt)), tt), tt)

evaluate_returns_example :
    (res : Result) × (evaluate store viewer 1 2 paywall ≡ done res) × IsServed paywall res
evaluate_returns_example =
    evaluate_returns no_rank store viewer 1 paywall store-IsBounded
      (λ k flag at. lookup-single IsSound "paywall" k paywall flag at paywall-IsSound)
      (store-IsBounded.shallow "paywall" paywall refl) paywall-IsSound

served :
    evaluate store viewer 1 2 paywall
    ≡ done (record { variation_index = pos 0; value = text "on"; reason = "RULE_MATCH" })
unfolding evaluate match_clauses as_string segment_contains context_key attr equal_any
served = refl

evaluate_cyclic_example :
    evaluate store viewer 1 2 paywall
    ≡ after_targets store viewer 1 paywall (target_match viewer [])
evaluate_cyclic_example = evaluate_cyclic store viewer 1 paywall self refl refl refl refl refl 0

bucket_variation-rollout_variation_example :
    bucket_variation paywall split viewer
    ≡ index_at (pos 0 ∷ pos 1 ∷ []) (rollout_variation fractions (2479, denom) (60000 ∷ 40000 ∷ []))
unfolding bucket bucket_value bucket_int hex_from
bucket_variation-rollout_variation_example =
    bucket_variation-rollout_variation paywall split viewer (60000 ∷ 40000 ∷ [])
      (refl, omega arith, (refl, omega arith, tt))

-- A segment whose only rule asks for the segment itself.
abbrev loop : Segment
loop = record {
  key = "beta";
  context_kind = "user";
  included = [];
  excluded = [];
  rules = record { clauses = in_beta ∷ [] } ∷ [];
}

abbrev looped : Store
looped = record { flags = []; segments = ("beta", loop) ∷ [] }

segment_contains_diverges_example : segment_contains looped viewer 7 loop ≡ out_of_fuel
unfolding as_string context_key attr
segment_contains_diverges_example =
    segment_contains_diverges looped viewer "beta" loop
      (record {
        stored = refl;
        rule = record { clauses = in_beta ∷ [] };
        rules = [];
        rules_are = refl;
        clause = in_beta;
        clauses = [];
        clauses_are = refl;
        op = refl;
        value = text "beta";
        values = [];
        values_are = refl;
        names = refl;
      })
      refl 7
