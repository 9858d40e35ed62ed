-- ===== src/Sdk/Bucket.antt =====
-- sdk/go/flageval/bucket.go. `bucket_int` and the digits of the hash are those of the reference.
use feature_flags.Base.{
  ℤ, pos, String, Option, none, some, List, [], ◌∷◌, ◌==◌, text_key, if◌then◌else◌,
}
use feature_flags.Conformance.Bucket.{bucket_int, denom}
use feature_flags.Sdk.Values.{Go, Value, as_string}
use feature_flags.Sdk.Types.{WeightedVariation, Rollout, Flag}
use feature_flags.Sdk.Attributes.{Context, attr}
use feature_flags.Sdk.Run.{Run, done, panicked}

module _ ⦃g : Go⦄ where
  open g.floats use {F, plus, below}

  unfoldable pub bucket : String → String → String → F
  bucket flag_key salt value =
      g.quotient (g.of_int (pos (bucket_int g.sha1_hex flag_key salt value))) (g.of_int (pos denom))

  -- `r.Variations[len(r.Variations)-1].Variation`
  abbrev pub last_variation : List WeightedVariation → Run ℤ
  last_variation [] = panicked
  last_variation (w ∷ []) = done w.variation
  last_variation (w ∷ v ∷ ws) = last_variation (v ∷ ws)

  -- The loop over the weights; `none` where it ends without a return.
  unfoldable pub first_above : F → F → List WeightedVariation → Option ℤ
  first_above b cum [] = none
  first_above b cum (w ∷ ws) =
      let next = plus cum (g.quotient (g.of_int w.weight) (g.of_int (pos 100000))) in
      let rest = first_above b next ws in if below b next then some w.variation else rest

  abbrev pub or_last : Option ℤ → List WeightedVariation → Run ℤ
  or_last (some idx) ws = done idx
  or_last none ws = last_variation ws

  abbrev pub text_or_empty : Option Value → String
  text_or_empty none = ""
  text_or_empty (some v) = as_string v

  -- The value that a rollout buckets by.
  unfoldable pub bucket_value : Rollout → Context → String
  bucket_value r ctx =
      text_or_empty (attr ctx r.context_kind (if r.bucket_by == "" then "key" else r.bucket_by))

  unfoldable pub bucket_variation : Flag → Rollout → Context → Run ℤ
  unfolding first_above bucket_value bucket
  bucket_variation flag r ctx =
      let b = bucket flag.key flag.salt (bucket_value r ctx) in
      or_last (first_above b (g.of_int (pos 0)) r.variations) r.variations
