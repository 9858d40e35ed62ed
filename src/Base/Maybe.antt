-- ===== src/Base/Maybe.antt =====
-- Chains of steps that may fail with no reason given, and the same step over a list.
use mathlib.Core.Path.{◌≡◌, refl, subst}
use mathlib.Core.Bool.{Bool, true, false}
use mathlib.Core.Option.{Option, none, some, some-injective}
use mathlib.Core.List.{List, [], ◌∷◌, map}
use feature_flags.Base.Lists.{All}

infixl 5 ◌>>=◌ ◌>>◌
abbrev pub ◌>>=◌ {ℓ κ} : {A : Type ℓ} {B : Type κ} → Option A → (A → Option B) → Option B
none >>= f = none
some a >>= f = f a

abbrev pub ◌>>◌ {ℓ} : {B : Type ℓ} → Option (Unit {0}) → Option B → Option B
m >> k = m >>= λ _. k

abbrev pub guard : Bool → Option (Unit {0})
guard true = some tt
guard false = none

abbrev pub is_none {ℓ} : {A : Type ℓ} → Option A → Bool
is_none none = true
is_none (some _) = false

-- `[f(a) for a in l]` where `f` may fail.
abbrev pub traverse {ℓ κ} : {A : Type ℓ} {B : Type κ} → (A → Option B) → List A → Option (List B)
traverse f [] = some []
traverse f (a ∷ l) = do b ← f a; bs ← traverse f l; some (b ∷ bs)

pub traverse-map {ℓ κ μ} :
    {A : Type ℓ} {B : Type κ} (P : A → Type μ) (f : B → Option A) (g : A → B)
    → ((a : A) → P a → f (g a) ≡ some a)
    → (l : List A) → All P l
    → traverse f (map g l) ≡ some l
traverse-map P f g inverse [] h = refl
traverse-map P f g inverse (a ∷ l) h = rw (inverse a h.0) (rw (traverse-map P f g inverse l h.1))

both-All {ℓ μ} :
    {B : Type ℓ} (P : B → Type μ) (o : Option B) (r : Option (List B))
    → ((b : B) → o ≡ some b → P b)
    → ((bs : List B) → r ≡ some bs → All P bs)
    → (bs : List B) → (do b ← o; rest ← r; some (b ∷ rest)) ≡ some bs
    → All P bs
both-All P none r p q bs e = cc
both-All P (some b) none p q bs e = cc
both-All P (some b) (some rest) p q [] e = cc
both-All P (some b) (some rest) p q (c ∷ cs) e = (p c (cc), q cs (cc))

-- What a step that succeeds promises of its result holds of all the results.
pub traverse-All {ℓ κ μ} :
    {A : Type ℓ} {B : Type κ} (P : B → Type μ) (f : A → Option B)
    → ((a : A) (b : B) → f a ≡ some b → P b)
    → (l : List A) (bs : List B) → traverse f l ≡ some bs
    → All P bs
traverse-All P f sound [] [] e = tt
traverse-All P f sound [] (b ∷ bs) e = cc
traverse-All P f sound (a ∷ l) bs e =
    both-All P (f a) (traverse f l) (sound a) (traverse-All P f sound l) bs e

-- What holds of the result of a chain, if there is one.
pub record Ensures {ℓ κ} {A : Type ℓ} (P : A → Type κ) (o : Option A) : Type (ℓ ⊔ κ) where
  pub at : (a : A) → o ≡ some a → P a

pub Ensures-bind {ℓ κ μ} :
    {A : Type ℓ} {B : Type κ} {P : B → Type μ} (m : Option A) (f : A → Option B)
    → ((a : A) → m ≡ some a → Ensures P (f a))
    → Ensures P (m >>= f)
Ensures-bind none f h = record { at = λ b e. cc }
Ensures-bind (some a) f h = h a refl

pub Ensures-some {ℓ κ} : {A : Type ℓ} {P : A → Type κ} (a : A) → P a → Ensures P (some a)
Ensures-some {P = P} a h = record { at = λ b e. subst P (some-injective a b e) h }
