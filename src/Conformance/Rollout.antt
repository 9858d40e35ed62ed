-- ===== src/Conformance/Rollout.antt =====
-- Which variation `rollout_variation` of conformance/reference_bucket.py returns.
use mathlib.Core.Path.{subst}
use mathlib.Core.Option.{some-injective}
use feature_flags.Base.{
  ℕ, zero, suc, ◌+◌, ◌<◌, pos, ◌≡◌, ◌⊎◌, inl, inr, refl, ap, ◌∙◌, true, false, some, List, [], ◌∷◌,
  length, take, get_elem?, arith, Bool-cases,
}
use feature_flags.Conformance.Bucket.{Floats, variation_from, rollout_variation}

module _ (floats : Floats) where
  open floats use {F, ratio, plus, below, plus_nothing}

  -- The sum of the weights as fractions, from `cum`, in the order of the list.
  abbrev pub cumulative : F → List ℕ → F
  cumulative cum [] = cum
  cumulative cum (w ∷ ws) = cumulative (plus cum (ratio w 100000)) ws

  -- No sum before index `j` is above `b`, and the sum up to `j` is, unless `j` is the last index.
  pub record Cut (b cum : F) (ws : List ℕ) (j : ℕ) : Type 0 where
    pub inside : j < length ws
    pub earlier : (k : ℕ) → k < j → below b (cumulative cum (take (suc k) ws)) ≡ false
    pub stops : (below b (cumulative cum (take (suc j) ws)) ≡ true) ⊎ (suc j ≡ length ws)

  earlier_suc :
      (b cum : F) (w : ℕ) (ws : List ℕ) (j : ℕ)
      → below b (plus cum (ratio w 100000)) ≡ false
      → ((k : ℕ)
          → k < j
          → below b (cumulative (plus cum (ratio w 100000)) (take (suc k) ws)) ≡ false)
      → (k : ℕ) → k < suc j
      → below b (cumulative cum (take (suc k) (w ∷ ws))) ≡ false
  earlier_suc b cum w ws j low rest zero h = low
  earlier_suc b cum w ws j low rest (suc k) h = rest k (omega arith)

  Cut-suc :
      (b cum : F) (w : ℕ) (ws : List ℕ) (j : ℕ)
      → below b (plus cum (ratio w 100000)) ≡ false
      → Cut b (plus cum (ratio w 100000)) ws j
      → Cut b cum (w ∷ ws) (suc j)
  Cut-suc b cum w ws j low cut = record {
    inside = let h = cut.inside in omega arith;
    earlier = earlier_suc b cum w ws j low cut.earlier;
    stops = elim cut.stops [ inl h ↦ inl h | inr e ↦ inr (ap suc e) ];
  }

  pub variation_from-Cut :
      (b : F) (count i : ℕ) (cum : F) (w : ℕ) (ws : List ℕ)
      → i + suc (length ws) ≡ count
      → (j : ℕ) × (variation_from floats b count i cum (w ∷ ws) ≡ pos (i + j))
        × Cut b cum (w ∷ ws) j
  unfolding variation_from
  variation_from-Cut b count i cum w [] all = (
    0,
    ground arith,
    record { inside = omega arith; earlier = λ k h. elim h [ ]; stops = inr refl },
  )
  variation_from-Cut b count i cum w (v ∷ vs) all =
      let next = plus cum (ratio w 100000) in
      let (j, same, cut) = variation_from-Cut b count (i + 1) next v vs (omega arith) in
      elim (Bool-cases (below b next)) [
        | inl here ↦ (
          0,
          rw here (ap pos (omega arith)),
          record { inside = omega arith; earlier = λ k h. elim h [ ]; stops = inl here },
        )
        | inr later ↦
            (suc j, rw later (same ∙ ap pos (omega arith)), Cut-suc b cum w (v ∷ vs) j later cut)
      ]

  -- A weight of zero does not change the sum.
  cumulative-nothing :
      (cum : F) (ws : List ℕ) (j : ℕ)
      → get_elem? ws j ≡ some 0
      → cumulative cum (take (suc j) ws) ≡ cumulative cum (take j ws)
  cumulative-nothing cum [] j h = cc
  cumulative-nothing cum (w ∷ ws) zero h =
      ap (λ n. plus cum (ratio n 100000)) (some-injective w 0 h) ∙ plus_nothing cum
  cumulative-nothing cum (w ∷ ws) (suc j) h = cumulative-nothing (plus cum (ratio w 100000)) ws j h

  -- A rollout over at least one weight serves one of the indices: the first whose sum of weights,
  -- from the first on, is above the bucket, and the last if there is none.
  pub rollout_variation-Cut :
      (b : F) (w : ℕ) (ws : List ℕ)
      → (j : ℕ) × (rollout_variation floats b (w ∷ ws) ≡ pos j) × Cut b (ratio 0 1) (w ∷ ws) j
  unfolding rollout_variation
  rollout_variation-Cut b w ws =
      let (j, same, cut) =
        variation_from-Cut b (suc (length ws)) 0 (ratio 0 1) w ws (omega arith) in
      (j, same ∙ ap pos (omega arith), cut)

  not_yet :
      (b : F) (ws : List ℕ) (j : ℕ)
      → below b (ratio 0 1) ≡ false
      → Cut b (ratio 0 1) ws j
      → below b (cumulative (ratio 0 1) (take j ws)) ≡ false
  not_yet b ws zero low cut = low
  not_yet b ws (suc j) low cut = cut.earlier j (omega arith)

  -- Where the bucket is not below 0, a variation of weight zero is served only if it is the last.
  pub rollout_variation-nothing :
      (b : F) (w : ℕ) (ws : List ℕ) (j : ℕ)
      → below b (ratio 0 1) ≡ false
      → rollout_variation floats b (w ∷ ws) ≡ pos j
      → get_elem? (w ∷ ws) j ≡ some 0
      → suc j ≡ length (w ∷ ws)
  rollout_variation-nothing b w ws j low served nothing =
      let (k, same, cut) = rollout_variation-Cut b w ws in
      let here : k ≡ j = cc in
      let at_j = subst (Cut b (ratio 0 1) (w ∷ ws)) here cut in
      let before = not_yet b (w ∷ ws) j low at_j in
      elim at_j.stops [
        | inl up ↦ let flat = cumulative-nothing (ratio 0 1) (w ∷ ws) j nothing in cc
        | inr last ↦ last
      ]
