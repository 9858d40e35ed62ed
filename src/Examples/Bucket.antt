-- ===== src/Examples/Bucket.antt =====
-- The reference bucketing on whole hundred-thousandths, and each property about it at an input.
use feature_flags.Base.{ℕ, ◌≤◌, ◌+◌, ◌*◌, ◌/◌, pos, String, ◌≡◌, refl, All, [], ◌∷◌, ltb, arith}
use feature_flags.Conformance.Bucket.{
  Floats, codes, bucket_int, hex_from, hex_digit, denom, rollout_variation, variation_from,
}
use feature_flags.Conformance.Bounds.{bucket_int-le, IsHex}
use feature_flags.Conformance.Rollout.{Cut, rollout_variation-Cut}

-- A fraction by its whole hundred-thousandths.
abbrev hundred_thousandths : Floats
hundred_thousandths = record {
  F = ℕ;
  ratio = λ m n. m * 100000 / n;
  plus = ◌+◌;
  below = ltb;
  plus_nothing = λ x. omega arith;
}

-- A digest that does not depend on the text.
abbrev digest : String → String
digest s = "09af"

digest_value : bucket_int digest "paywall" "salt" "u1" ≡ 2479
unfolding bucket_int hex_from hex_digit
digest_value = refl

digest-IsHex : (s : String) → All IsHex (codes (digest s))
digest-IsHex s = ground arith

half : rollout_variation hundred_thousandths 50000 (20000 ∷ 0 ∷ 80000 ∷ []) ≡ pos 2
unfolding rollout_variation variation_from
half = refl

rollout_variation-Cut_example :
    (j : ℕ) × (rollout_variation hundred_thousandths 50000 (20000 ∷ 0 ∷ 80000 ∷ []) ≡ pos j)
    × Cut hundred_thousandths 50000 0 (20000 ∷ 0 ∷ 80000 ∷ []) j
rollout_variation-Cut_example =
    rollout_variation-Cut hundred_thousandths 50000 20000 (0 ∷ 80000 ∷ [])

-- A bucket that no sum exceeds: the last variation is served although its weight is zero.
rest : rollout_variation hundred_thousandths 100000 (100000 ∷ 0 ∷ []) ≡ pos 1
unfolding rollout_variation variation_from
rest = refl

bucket_int-le_example : bucket_int digest "paywall" "salt" "u1" ≤ denom
bucket_int-le_example = bucket_int-le digest digest-IsHex "paywall" "salt" "u1"
