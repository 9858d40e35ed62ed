-- ===== src/Store/Tables.antt =====
-- What follows from the laws of `Engine` for a row that was just added.
use feature_flags.Base.{
  ◌≡◌, refl, sym, ◌∙◌, Bool, true, false, Option, none, some, Key, ◌==◌, arith, Bool-cases, inl,
  inr, Option-cases, not, ◌||◌,
}
use feature_flags.Base.Maybe.{is_none}
use feature_flags.Store.Engine.{Engine}

pub not-is_none-false : {A : Type 0} (o : Option A) → not (is_none o) ≡ false → o ≡ none
not-is_none-false none h = refl
not-is_none-false (some a) h = cc

pub or_false : (a b : Bool) → a || b ≡ false → (a ≡ false) × (b ≡ false)
or_false a b h = ground arith

module _ ⦃E : Engine⦄ {K Row : Type 0} {pk : Row → K} ⦃e : Key K⦄ where
  open E use {Table}

  pub get-add_self : (r : Row) (t : Table pk) → E.get (pk r) (E.add r t) ≡ some r
  get-add_self r t = rw (E.get-add (pk r) r t, (e.same_iff (pk r) (pk r)).1 refl)

  -- Where nothing passed a test, a new row that passes it is the one that is found.
  pub scalar-add_new :
      (test : Row → Bool) (r : Row) (t : Table pk)
      → E.scalar test t ≡ none
      → test r ≡ true
      → E.scalar test (E.add r t) ≡ some r
  scalar-add_new test r t absent passes = elim (Option-cases (E.scalar test (E.add r t))) [
    | inl nothing ↦ absurd (cc (E.scalar_none test (pk r) r (E.add r t) nothing (get-add_self r t)))
    | inr (x, found) ↦
        let (passes_x, at_x) = E.scalar_some test x (E.add r t) found in
        elim (Bool-cases (pk r == pk x)) [
          | inl same ↦ found ∙ sym at_x ∙ E.get-add (pk x) r t ∙ rw same refl
          | inr other ↦
              let older : E.get (pk x) t ≡ some x =
                sym (rw other at (E.get-add (pk x) r t)) ∙ at_x in
              absurd (cc (E.scalar_none test (pk x) x t absent older))
        ]
  ]
