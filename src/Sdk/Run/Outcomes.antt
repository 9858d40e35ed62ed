-- ===== src/Sdk/Run/Outcomes.antt =====
-- Postconditions of a call, with a rule for `>>=` and one for a branch.
use feature_flags.Base.{true, false, Bool, if◌then◌else◌}
use feature_flags.Sdk.Run.{Run, done, panicked, out_of_fuel, ◌>>=◌}

-- The fuel was enough.
abbrev pub Ends {ℓ} : {A : Type ℓ} → Run A → Type 0
Ends (done a) = Unit
Ends panicked = Unit
Ends out_of_fuel = ⊥

pub Ends-bind {ℓ κ} :
    {A : Type ℓ} {B : Type κ} (m : Run A) (f : A → Run B)
    → Ends m
    → ((a : A) → Ends (f a))
    → Ends (m >>= f)
Ends-bind (done a) f h k = k a
Ends-bind panicked f h k = tt
Ends-bind out_of_fuel f h k = elim h [ ]

pub Ends-if {ℓ} :
    {A : Type ℓ} (b : Bool) (x y : Run A) → Ends x → Ends y → Ends (if b then x else y)
Ends-if true x y h k = h
Ends-if false x y h k = k

-- A value that the predicate holds of, if the call comes to an end: it does not panic.
abbrev pub Gives {ℓ} : {A : Type ℓ} → (A → Type 0) → Run A → Type 0
Gives P (done a) = P a
Gives P panicked = ⊥
Gives P out_of_fuel = Unit

pub Gives-bind {ℓ κ} :
    {A : Type ℓ} {B : Type κ} (P : A → Type 0) (Q : B → Type 0) (m : Run A) (f : A → Run B)
    → Gives P m
    → ((a : A) → P a → Gives Q (f a))
    → Gives Q (m >>= f)
Gives-bind P Q (done a) f h k = k a h
Gives-bind P Q panicked f h k = elim h [ ]
Gives-bind P Q out_of_fuel f h k = tt

pub Gives-if {ℓ} :
    {A : Type ℓ} (P : A → Type 0) (b : Bool) (x y : Run A)
    → Gives P x
    → Gives P y
    → Gives P (if b then x else y)
Gives-if P true x y h k = h
Gives-if P false x y h k = k

-- Nothing is said of the value.
abbrev pub Any {ℓ} : {A : Type ℓ} → A → Type 0
Any a = Unit
