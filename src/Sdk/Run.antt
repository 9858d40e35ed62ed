-- ===== src/Sdk/Run.antt =====
-- What a call in Go comes to: a value, a panic, or, for a recursion whose depth is bounded by fuel,
-- nothing yet.
pub mod Outcomes
use feature_flags.Base.{ℤ, pos, negsuc, String, Option, none, some, List, [], ◌∷◌}
use feature_flags.Base.{◌==◌, text_key, if◌then◌else◌, get_elem?, Bool, false, ◌||◌}

pub data Run {ℓ} (A : Type ℓ) : Type ℓ where
  done : A → Run A
  panicked : Run A
  out_of_fuel : Run A

infixl 5 ◌>>=◌
abbrev pub ◌>>=◌ {ℓ κ} : {A : Type ℓ} {B : Type κ} → Run A → (A → Run B) → Run B
done a >>= f = f a
panicked >>= f = panicked
out_of_fuel >>= f = out_of_fuel

abbrev pub or_panic {ℓ} : {A : Type ℓ} → Option A → Run A
or_panic none = panicked
or_panic (some a) = done a

-- `l[i]` for an `int`
abbrev pub index_at {ℓ} : {A : Type ℓ} → List A → ℤ → Run A
index_at l (pos n) = or_panic (get_elem? l n)
index_at l (negsuc n) = panicked

-- `v, ok := m[k]` of a `map[string]V`
abbrev pub lookup {ℓ} : {V : Type ℓ} → String → List (String × V) → Option V
lookup k [] = none
lookup k ((j, v) ∷ m) = if j == k then some v else lookup k m

-- Whether a list of texts has one, as a loop over it finds, or a `map[string]bool` of those that
-- are set.
abbrev pub contains : String → List String → Bool
contains k [] = false
contains k (j ∷ l) = j == k || contains k l
