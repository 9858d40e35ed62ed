-- ===== src/Conformance/Bounds.antt =====
-- The range of the bucket of conformance/reference_bucket.py.
use native.Mathlib.Nat.{mul-le-mul_right, pow-suc, pow-le-pow_right}
use Prim.Native.String.{◌++◌}
use feature_flags.Base.{
  ℕ, zero, suc, ◌+◌, ◌*◌, ◌^◌, ◌≤◌, ◌<◌, String, ◌⊎◌, List, [], ◌∷◌, All, length, take, arith,
}
use feature_flags.Conformance.Bucket.{denom, codes, hex_digit, hex_from, bucket_int}

-- A lower-case hexadecimal digit.
abbrev pub IsHex : ℕ → Type 0
IsHex c = ((b'0' ≤ c) × (c ≤ b'9')) ⊎ ((b'a' ≤ c) × (c ≤ b'f'))

hex_digit-lt : (c : ℕ) → IsHex c → hex_digit c < 16
unfolding hex_digit
hex_digit-lt c h = ground arith

-- Room for one more digit.
widen : (v m k p : ℕ) → v < m * p → m ≤ k * 16 → v < k * (p * 16)
widen v m k p h room = let grow = mul-le-mul_right {m = m} {n = k * 16} p room in grind arith

-- The digits after `acc` leave it in the span of their number.
hex_from-lt : (acc : ℕ) (cs : List ℕ) → All IsHex cs → hex_from acc cs < (acc + 1) * 16 ^ length cs
unfolding hex_from
hex_from-lt acc [] h = ground arith
hex_from-lt acc (c ∷ cs) (h, hs) =
    let d = hex_digit-lt c h in
    let rest = hex_from-lt (acc * 16 + hex_digit c) cs hs in
    rw (pow-suc 16 (length cs))
      (widen _ (acc * 16 + hex_digit c + 1) (acc + 1) (16 ^ length cs) rest (omega arith))

All-take : (n : ℕ) (cs : List ℕ) → All IsHex cs → All IsHex (take n cs)
All-take zero cs h = tt
All-take (suc n) [] h = tt
All-take (suc n) (c ∷ cs) (h, hs) = (h, All-take n cs hs)

length-take : (n : ℕ) (cs : List ℕ) → length (take n cs) ≤ n
length-take zero cs = omega arith
length-take (suc n) [] = omega arith
length-take (suc n) (c ∷ cs) = let rest = length-take n cs in omega arith

-- Where the digests are in lower-case hexadecimal, the number that the first fifteen digits of a
-- digest make, the dividend of the bucket, is at most the
-- divisor.
pub bucket_int-le :
    (sha1_hex : String → String)
    → ((s : String) → All IsHex (codes (sha1_hex s)))
    → (flag_key salt value : String) → bucket_int sha1_hex flag_key salt value ≤ denom
unfolding bucket_int
bucket_int-le sha1_hex hex flag_key salt value =
    let digest = codes (sha1_hex (flag_key ++ "." ++ salt ++ "." ++ value)) in
    let below = hex_from-lt 0 (take 15 digest) (All-take 15 digest (hex _)) in
    let few = length-take 15 digest in
    let span = pow-le-pow_right {n = 16} (omega arith) few in omega arith
