-- ===== src/Sdk/Values.antt =====
-- sdk/go/flageval/values.go, and the values that `encoding/json` decodes to.
use feature_flags.Base.{
  ℕ, ◌<◌, ◌^◌, ℤ, pos, String, ◌≡◌, Bool, false, not, ◌&&◌, Option, none, some, ◌==◌, text_key,
  if◌then◌else◌,
}
use feature_flags.Base.Text.{show_ℤ}
use feature_flags.Conformance.Bucket.{Floats}

-- What the package takes from Go: `float64`, whose values and arithmetic are the IEEE doubles that
-- Python's floats are, and functions of its standard library. The two laws say that zero is zero and
-- that a quotient of integers that a double holds exactly is the one that Python's `/` gives.
pub record Go : Type 1 where
  pub floats : Floats
  pub of_int : ℤ → floats.F
  pub quotient : floats.F → floats.F → floats.F
  pub equal : floats.F → floats.F → Bool
  -- `math.Trunc`, `math.IsInf(t, 0)`, `int64(t)` and `strconv.FormatFloat(t, 'f', -1, 64)`
  pub trunc : floats.F → floats.F
  pub is_inf : floats.F → Bool
  pub to_int64 : floats.F → ℤ
  pub format_float : floats.F → String
  -- `strings.HasPrefix`, `HasSuffix` and `Contains`, the text first
  pub has_prefix : String → String → Bool
  pub has_suffix : String → String → Bool
  pub contains_text : String → String → Bool
  -- `regexp.Compile` of the first, and `MatchString` of the second where it compiles
  pub regexp_match : String → String → Option Bool
  -- `hex.EncodeToString` of `sha1.Sum`
  pub sha1_hex : String → String
  pub of_int_zero : of_int (pos 0) ≡ floats.ratio 0 1
  pub quotient_exact :
      (m n : ℕ)
      → m < 2 ^ 53
      → 0 < n
      → n < 2 ^ 53
      → quotient (of_int (pos m)) (of_int (pos n)) ≡ floats.ratio m n

module _ ⦃g : Go⦄ where
  open g.floats use {F}

  mutual
    pub data Value : Type 0 where
      null : Value
      boolean : Bool → Value
      float : F → Value
      text : String → Value
      array : Values → Value
      map : Members → Value

    pub data Values : Type 0 where
      nil : Values
      item : Value → Values → Values

    pub data Members : Type 0 where
      end : Members
      member : String → Value → Members → Members

  -- `asString`
  unfoldable pub as_string : Value → String
  as_string (text t) = t
  as_string (boolean t) = if t then "true" else "false"
  as_string (float t) =
      if g.equal t (g.trunc t) && not (g.is_inf t) then show_ℤ (g.to_int64 t) else g.format_float t
  as_string _ = ""

  -- `equalAny`
  unfoldable pub equal_any : Value → Value → Bool
  equal_any (text a) (text b) = a == b
  equal_any (boolean a) (boolean b) = if a then b else not b
  equal_any (float a) (float b) = g.equal a b
  equal_any _ _ = false

  -- `asNumbers`: both numbers, if `ok`.
  unfoldable pub as_numbers : Value → Value → Option (F × F)
  as_numbers (float a) (float b) = some (a, b)
  as_numbers _ _ = none
