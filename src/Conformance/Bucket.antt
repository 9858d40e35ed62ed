-- ===== src/Conformance/Bucket.antt =====
-- conformance/reference_bucket.py. Python's floats are an interface of the operations that the file
-- uses; SHA-1 is an argument. Weights are natural numbers, as the file's comment says.
use Prim.Native.Char.{code}
use Prim.Native.String.{◌++◌}
use feature_flags.Base.{
  ℕ, ◌+◌, ◌-◌, ◌*◌, ℤ, pos, String, ◌≡◌, Bool, List, [], ◌∷◌, length, take, leb, if◌then◌else◌,
}
use feature_flags.Base.Int.{sub_ℕ}

-- `int / int`, `+`, `<`, and the one law of IEEE addition that the loop rests on.
pub record Floats : Type 1 where
  pub F : Type 0
  pub ratio : ℕ → ℕ → F
  pub plus : F → F → F
  pub below : F → F → Bool
  pub plus_nothing : (x : F) → plus x (ratio 0 100000) ≡ x

-- `_DENOM`
abbrev pub denom : ℕ
denom = 0xFFFFFFFFFFFFFFF

abbrev pub codes : String → List ℕ
codes String.[] = []
codes (String.◌∷◌ c s) = code c ∷ codes s

-- The value of a digit of `hexdigest()`.
unfoldable pub hex_digit : ℕ → ℕ
hex_digit c = if leb b'a' c then c - b'a' + 10 else c - b'0'

-- `int(text, 16)`
unfoldable pub hex_from : ℕ → List ℕ → ℕ
unfolding hex_digit
hex_from acc [] = acc
hex_from acc (c ∷ cs) = hex_from (acc * 16 + hex_digit c) cs

-- `int(h[:15], 16)` of the hash of the three parts.
unfoldable pub bucket_int : (String → String) → String → String → String → ℕ
bucket_int sha1_hex flag_key salt value =
    hex_from 0 (take 15 (codes (sha1_hex (flag_key ++ "." ++ salt ++ "." ++ value))))

module _ (floats : Floats) where
  open floats use {F, ratio, plus, below}

  unfoldable pub bucket : (String → String) → String → String → String → F
  bucket sha1_hex flag_key salt value = ratio (bucket_int sha1_hex flag_key salt value) denom

  -- The loop over the weights, from index `i`; the last line is the catch-all.
  unfoldable pub variation_from : F → ℕ → ℕ → F → List ℕ → ℤ
  variation_from b count i cum [] = sub_ℕ count 1
  variation_from b count i cum (w ∷ ws) =
      let next = plus cum (ratio w 100000) in
      let rest = variation_from b count (i + 1) next ws in if below b next then pos i else rest

  unfoldable pub rollout_variation : F → List ℕ → ℤ
  unfolding variation_from
  rollout_variation b weights = variation_from b (length weights) 0 (ratio 0 1) weights
