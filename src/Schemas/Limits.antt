-- ===== src/Schemas/Limits.antt =====
-- The constraints that control-plane/app/schemas/flag.py declares: `Field(ge=..., le=...,
-- min_length=...)` and the validators that run after the fields are read.
use feature_flags.Base.{ℤ, pos, Bool, true, false, not, ◌&&◌, List, [], ◌∷◌}
use feature_flags.Base.Int.{◌+ℤ◌, leb_ℤ, eqb_ℤ}
use feature_flags.Base.Maybe.{is_none}
use feature_flags.Schemas.Flag.{WeightedVariation, Rollout, VariationOrRollout}

-- `Field(ge=0)`
abbrev pub is_index : ℤ → Bool
is_index n = leb_ℤ (pos 0) n

-- `Field(ge=0, le=100_000)`
abbrev pub is_weight : ℤ → Bool
is_weight n = leb_ℤ (pos 0) n && leb_ℤ n (pos 100000)

-- `sum(v.weight for v in self.variations)`, which adds from the left.
unfoldable pub weights_from : ℤ → List WeightedVariation → ℤ
weights_from acc [] = acc
weights_from acc (v ∷ vs) = weights_from (acc +ℤ v.weight) vs

-- Whether `_weights_sum_to_100k` accepts.
unfoldable pub weights_sum_to_100k : Rollout → Bool
unfolding weights_from
weights_sum_to_100k r = eqb_ℤ (weights_from (pos 0) r.variations) (pos 100000)

abbrev pub same : Bool → Bool → Bool
same true b = b
same false b = not b

-- Whether `_exactly_one` accepts: it refuses where the two tests agree.
abbrev pub exactly_one : VariationOrRollout → Bool
exactly_one c = not (same (is_none c.variation) (is_none c.rollout))

-- `Field(min_length=1)`
abbrev pub is_nonempty {ℓ} : {A : Type ℓ} → List A → Bool
is_nonempty [] = false
is_nonempty (_ ∷ _) = true
