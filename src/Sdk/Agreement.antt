-- ===== src/Sdk/Agreement.antt =====
-- bucket.go against conformance/reference_bucket.py: the same loop over the weights.
use feature_flags.Base.{◌^◌, Bool-cases, ◌<◌, [], ◌∷◌, some, none, pos, sym, inl, inr}
use feature_flags.Sdk.Attributes.{Context}
use feature_flags.Base.Int.{sub_ℕ}
use feature_flags.Sdk.Run.{or_panic, index_at}
use feature_flags.Conformance.Bucket.{variation_from, rollout_variation}
use feature_flags.Sdk.Bucket.{
  bucket_value, bucket, or_last, last_variation, first_above, bucket_variation,
}
use feature_flags.Sdk.Types.{Rollout, Flag, WeightedVariation}
use feature_flags.Sdk.Values.{Go}
use feature_flags.Base.{
  sym, none, arith, get_elem?, ap, ◌∙◌, suc, pos, some, map, ◌∷◌, ◌≡◌, length, ◌+◌, ℤ, ℕ, Option,
  List, refl,
}

-- The weights of a rollout are these, and a double holds each exactly.
abbrev pub Weights : List WeightedVariation → List ℕ → Type 0
Weights [] [] = Unit
Weights (w ∷ ws) (n ∷ ns) = (w.weight ≡ pos n) × (n < 2 ^ 53) × Weights ws ns
Weights _ _ = ⊥

abbrev variation_of : WeightedVariation → ℤ
variation_of w = w.variation

module _ ⦃g : Go⦄ where
  open g.floats use {F, below}

  -- Where the two loops stand: both have stopped at one index, or neither has.
  abbrev Together : Option ℤ → ℤ → ℕ → ℕ → List WeightedVariation → Type 0
  Together none j count i ws = j ≡ sub_ℕ count 1
  Together (some idx) j count i ws =
      (k : ℕ) × (j ≡ pos (i + k)) × (get_elem? (map variation_of ws) k ≡ some idx)

  Together-suc :
      (found : Option ℤ) (j : ℤ) (count i : ℕ) (w : WeightedVariation) (ws : List WeightedVariation)
      → Together found j count (i + 1) ws
      → Together found j count i (w ∷ ws)
  Together-suc none j count i w ws h = h
  Together-suc (some idx) j count i w ws (k, at, got) = (suc k, at ∙ ap pos (omega arith), got)

  loops-Together :
      (b cum : F) (count i : ℕ) (ws : List WeightedVariation) (ns : List ℕ)
      → Weights ws ns
      → Together (first_above b cum ws) (variation_from g.floats b count i cum ns) count i ws
  unfolding first_above variation_from
  loops-Together b cum count i [] [] h = refl
  loops-Together b cum count i [] (n ∷ ns) h = elim h [ ]
  loops-Together b cum count i (w ∷ ws) [] h = elim h [ ]
  loops-Together b cum count i (w ∷ ws) (n ∷ ns) (is, small, rest) =
      let next = g.floats.plus cum (g.floats.ratio n 100000) in
      let share : g.quotient (g.of_int w.weight) (g.of_int (pos 100000)) ≡ g.floats.ratio n 100000 =
        ap (λ (k : ℤ). g.quotient (g.of_int k) (g.of_int (pos 100000))) is
        ∙ g.quotient_exact n 100000 small (omega arith) (omega arith) in
      elim (Bool-cases (below b next)) [
        | inl stops ↦ rw (share, stops) (0, ap pos (omega arith), refl)
        | inr goes ↦
            rw (share, goes)
              (Together-suc (first_above b next ws)
                (variation_from g.floats b count (i + 1) next ns) count i w ws
                (loops-Together b next count (i + 1) ws ns rest))
      ]

  one_less : (n : ℕ) → sub_ℕ (suc n) 1 ≡ pos n
  one_less n = ground arith

  last_variation-index_at :
      (ws : List WeightedVariation)
      → last_variation ws ≡ index_at (map variation_of ws) (sub_ℕ (length ws) 1)
  last_variation-index_at [] = refl
  last_variation-index_at (w ∷ []) = refl
  last_variation-index_at (w ∷ v ∷ ws) =
      last_variation-index_at (v ∷ ws)
      ∙ ap (index_at (map variation_of (v ∷ ws))) (one_less (length ws))
      ∙ ap (index_at (map variation_of (w ∷ v ∷ ws))) (sym (one_less (suc (length ws))))

  length-Weights :
      (ws : List WeightedVariation) (ns : List ℕ) → Weights ws ns → length ns ≡ length ws
  length-Weights [] [] h = refl
  length-Weights [] (n ∷ ns) h = elim h [ ]
  length-Weights (w ∷ ws) [] h = elim h [ ]
  length-Weights (w ∷ ws) (n ∷ ns) h = ap suc (length-Weights ws ns h.2)

  picked :
      (found : Option ℤ) (j : ℤ) (ws : List WeightedVariation)
      → Together found j (length ws) 0 ws
      → or_last found ws ≡ index_at (map variation_of ws) j
  picked none j ws h = last_variation-index_at ws ∙ ap (index_at (map variation_of ws)) (sym h)
  picked (some idx) j ws (k, at, got) =
      sym (ap or_panic got) ∙ ap (index_at (map variation_of ws)) (sym (at ∙ ap pos (omega arith)))

  -- Where each weight of a rollout is a natural number that a double holds exactly, the evaluator
  -- serves the variation at the index that the reference implementation computes from the weights and
  -- from the evaluator's bucket, and panics where that is the index of no variation.
  pub bucket_variation-rollout_variation :
      (flag : Flag) (r : Rollout) (ctx : Context) (ns : List ℕ)
      → Weights r.variations ns
      → bucket_variation flag r ctx
        ≡ index_at
            (map variation_of r.variations)
            (rollout_variation g.floats (bucket flag.key flag.salt (bucket_value r ctx)) ns)
  unfolding bucket_variation rollout_variation
  bucket_variation-rollout_variation flag r ctx ns h =
      let b = bucket flag.key flag.salt (bucket_value r ctx) in
      let start = g.floats.ratio 0 1 in
      rw (g.of_int_zero, length-Weights r.variations ns h)
        (picked (first_above b start r.variations)
          (variation_from g.floats b (length r.variations) 0 start ns) r.variations
          (loops-Together b start (length r.variations) 0 r.variations ns h))
