-- ===== src/Store/Actions.antt =====
-- Laws of actions: how one that begins with a lookup or a test goes on, and what is known where it
-- returned.
use feature_flags.Base.{
  inl, ◌∙◌, inr, ◌⊎◌, ◌≡◌, refl, Bool, true, false, Option, none, some, ap, arith,
}
use feature_flags.Store.Engine.{Engine}
use feature_flags.Store.Session.{
  reads, pure, continue, Transaction, Action, Error, Result, ok, err, raise_if, or_raise, ◌>>=◌,
  ◌>>◌,
}

module _ ⦃E : Engine⦄ {A B : Type 0} where
  pub or_raise-ok :
      (o : Option A) (e : Error) (f : A → Action B) (s : Transaction) {b : B} {s' : Transaction}
      → (or_raise o e >>= f) s ≡ (ok b, s')
      → (a : A) × (o ≡ some a) × (f a s ≡ (ok b, s'))
  or_raise-ok none e f s h = absurd (cc (ap (λ (r : Result B × Transaction). r.0) h))
  or_raise-ok (some a) e f s h = (a, refl, h)

  pub or_raise-some :
      (o : Option A) (e : Error) (f : A → Action B) (s : Transaction) (a : A)
      → o ≡ some a
      → (or_raise o e >>= f) s ≡ f a s
  or_raise-some o e f s a h = rw h

  pub or_raise-none :
      (o : Option A) (e : Error) (f : A → Action B) (s : Transaction)
      → o ≡ none
      → (or_raise o e >>= f) s ≡ (err e, s)
  or_raise-none o e f s h = rw h

module _ ⦃E : Engine⦄ {A : Type 0} where
  -- A lookup at the end of a handler.
  pub or_raise_last :
      (o : Option A) (e : Error) (s : Transaction) {a : A} {s' : Transaction}
      → or_raise o e s ≡ (ok a, s')
      → (o ≡ some a) × (s' ≡ s)
  or_raise_last none e s h = absurd (cc (ap (λ (r : Result A × Transaction). r.0) h))
  or_raise_last (some a) e s h = ground arith

module _ ⦃E : Engine⦄ {B : Type 0} where
  pub raise_if-ok :
      (test : Bool) (e : Error) (m : Action B) (s : Transaction) {b : B} {s' : Transaction}
      → (raise_if test e >> m) s ≡ (ok b, s')
      → (test ≡ false) × (m s ≡ (ok b, s'))
  raise_if-ok true e m s h = absurd (cc (ap (λ (r : Result B × Transaction). r.0) h))
  raise_if-ok false e m s h = (refl, h)

  pub raise_if-false :
      (test : Bool) (e : Error) (m : Action B) (s : Transaction)
      → test ≡ false
      → (raise_if test e >> m) s ≡ m s
  raise_if-false test e m s h = rw h

  pub raise_if-true :
      (test : Bool) (e : Error) (m : Action B) (s : Transaction)
      → test ≡ true
      → (raise_if test e >> m) s ≡ (err e, s)
  raise_if-true test e m s h = rw h

same_err :
    ⦃E : Engine⦄ {A B : Type 0} (x e : Error) (t s : Transaction)
    → ◌≡◌ {A = Result B × Transaction} (err x, t) (err e, s)
    → ◌≡◌ {A = Result A × Transaction} (err x, t) (err e, s)
same_err x e t s k = ground arith

module _ ⦃E : Engine⦄ {A B : Type 0} where
  -- A chain that returned: its first part returned too.
  pub bind-ok :
      (m : Action A) (f : A → Action B) (s : Transaction) {b : B} {s' : Transaction}
      → (m >>= f) s ≡ (ok b, s')
      → (a : A) × (t : Transaction) × (m s ≡ (ok a, t)) × (f a t ≡ (ok b, s'))
  bind-ok m f s {b} {s'} h = go (m s) refl h
    where
      go :
          (r : Result A × Transaction)
          → m s ≡ r
          → continue r.0 f r.1 ≡ (ok b, s')
          → (a : A) × (t : Transaction) × (m s ≡ (ok a, t)) × (f a t ≡ (ok b, s'))
      go (ok a, t) e k = (a, t, e, k)
      go (err x, t) e k = absurd (cc (ap (λ (r : Result B × Transaction). r.0) k))

  pub bind-err :
      (m : Action A) (f : A → Action B) (s : Transaction) {e : Error} {s' : Transaction}
      → (m >>= f) s ≡ (err e, s')
      → (m s ≡ (err e, s'))
        ⊎ ((a : A) × (t : Transaction) × (m s ≡ (ok a, t)) × (f a t ≡ (err e, s')))
  bind-err m f s {e} {s'} h = go (m s) refl h
    where
      go :
          (r : Result A × Transaction)
          → m s ≡ r
          → continue r.0 f r.1 ≡ (err e, s')
          → (m s ≡ (err e, s'))
            ⊎ ((a : A) × (t : Transaction) × (m s ≡ (ok a, t)) × (f a t ≡ (err e, s')))
      go (ok a, t) q k = inr (a, t, q, k)
      go (err x, t) q k = inl (q ∙ same_err x e t s' k)

-- An action that reads: it leaves the transaction as it is, whether it returns or raises.
module _ ⦃E : Engine⦄ where
  pub record Keeps {A : Type 0} (m : Action A) : Type 0 where
    pub at : (s : Transaction) → (m s).1 ≡ s

  pub Keeps-bind :
      {A B : Type 0} (m : Action A) (f : A → Action B)
      → Keeps m
      → ((a : A) → Keeps (f a))
      → Keeps (m >>= f)
  Keeps-bind {A} {B} m f h k = record { at = λ s. go s (m s) (h.at s) }
    where
      go : (s : Transaction) (r : Result A × Transaction) → r.1 ≡ s → (continue r.0 f r.1).1 ≡ s
      go s (ok a, t) same = (k a).at t ∙ same
      go s (err e, t) same = same

  pub Keeps-or_raise : {A : Type 0} (o : Option A) (e : Error) → Keeps (or_raise o e)
  Keeps-or_raise none e = record { at = λ s. refl }
  Keeps-or_raise (some a) e = record { at = λ s. refl }

  -- A lookup in the tables.
  pub Keeps-lookup :
      {A : Type 0} (f : Transaction → Option A) (e : Error)
      → Keeps (reads f >>= λ found. or_raise found e)
  Keeps-lookup f e = record { at = λ s. (Keeps-or_raise (f s) e).at s }

  pub Keeps-raise_if : (test : Bool) (e : Error) → Keeps (raise_if test e)
  Keeps-raise_if true e = record { at = λ s. refl }
  Keeps-raise_if false e = record { at = λ s. refl }

  pub Keeps-reads : {A : Type 0} (f : Transaction → A) → Keeps (reads f)
  Keeps-reads f = record { at = λ s. refl }

  pub Keeps-pure : {A : Type 0} (a : A) → Keeps (pure a)
  Keeps-pure a = record { at = λ s. refl }

pub ok_injective : {A : Type 0} {a b : A} → Result.ok a ≡ Result.ok b → a ≡ b
ok_injective h = cc
