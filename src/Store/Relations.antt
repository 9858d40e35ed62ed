-- ===== src/Store/Relations.antt =====
-- Constraints on tables, which hold the migrations' foreign keys and unique constraints, and how
-- they survive the write of a row.
use mathlib.Core.Option.{some-injective}
use feature_flags.Store.Engine.{Engine}
use mathlib.Core.Path.{subst}
use feature_flags.Base.{
  if◌then◌else◌, sym, ◌==◌, ◌⊎◌, ◌∙◌, false, ap, Bool-cases, ◌≡◌, Bool, Key, refl, none, some, inl,
  inr,
}

module _ ⦃E : Engine⦄ {K Row : Type 0} {pk : Row → K} ⦃e : Key K⦄ where
  open E use {Table}

  -- No stored row passes the test.
  abbrev pub NoRow : (Row → Bool) → Table pk → Type 0
  NoRow test t = (k : K) (r : Row) → E.get k t ≡ some r → test r ≡ false

  -- All stored rows meet a predicate.
  abbrev pub AllRows : (Row → Type 0) → Table pk → Type 0
  AllRows P t = (k : K) (r : Row) → E.get k t ≡ some r → P r

  -- Two stored rows that are related are one row.
  abbrev pub Unique : (Row → Row → Type 0) → Table pk → Type 0
  Unique R t = (j k : K) (p q : Row) → E.get j t ≡ some p → E.get k t ≡ some q → R p q → j ≡ k

  pub NoRow-of_scalar : (test : Row → Bool) (t : Table pk) → E.scalar test t ≡ none → NoRow test t
  NoRow-of_scalar test t h k r at = E.scalar_none test k r t h at

  -- What is stored after a write is the new row or was there before.
  pub get-add-cases :
      (k : K) (r x : Row) (t : Table pk)
      → E.get k (E.add r t) ≡ some x
      → ((x ≡ r) × (k ≡ pk r)) ⊎ (E.get k t ≡ some x)
  get-add-cases k r x t h = elim (Bool-cases (pk r == k)) [
    | inl same ↦
        let here : some r ≡ some x = rw (E.get-add k r t, same, if◌then◌else◌) at h in
        inl (sym (some-injective r x here), sym ((e.same_iff (pk r) k).0 same))
    | inr other ↦ inr (rw (E.get-add k r t, other, if◌then◌else◌) at h)
  ]

  pub AllRows-add :
      (P : Row → Type 0) (r : Row) (t : Table pk) → P r → AllRows P t → AllRows P (E.add r t)
  AllRows-add P r t p h k x at = elim (get-add-cases k r x t at) [
    | inl (here, _) ↦ subst P (sym here) p
    | inr older ↦ h k x older
  ]

  -- A row under an id that is not used yet leaves the others where they are.
  pub get-add_other :
      (k : K) (r x : Row) (t : Table pk)
      → E.get (pk r) t ≡ none
      → E.get k t ≡ some x
      → E.get k (E.add r t) ≡ some x
  get-add_other k r x t fresh at = elim (Bool-cases (pk r == k)) [
    | inl same ↦
        let here = (e.same_iff (pk r) k).0 same in absurd (cc (ap (λ (j : K). E.get j t) here))
    | inr other ↦ E.get-add k r t ∙ rw other at
  ]

  pub get-add_same : (r : Row) (t : Table pk) → E.get (pk r) (E.add r t) ≡ some r
  get-add_same r t = E.get-add (pk r) r t ∙ rw ((e.same_iff (pk r) (pk r)).1 refl) refl

  -- A row that is related to no stored row keeps a unique constraint.
  pub Unique-add :
      (R : Row → Row → Type 0) (r : Row) (t : Table pk)
      → ((p q : Row) → R p q → R q p)
      → ((k : K) (q : Row) → E.get k t ≡ some q → ¬ R q r)
      → Unique R t
      → Unique R (E.add r t)
  Unique-add R r t flip alone h j k p q at_p at_q rel = elim (get-add-cases j r p t at_p) [
    | inl (is_p, at_j) ↦ elim (get-add-cases k r q t at_q) [
      | inl (is_q, at_k) ↦ at_j ∙ sym at_k
      | inr old_q ↦ absurd (alone k q old_q (flip r q (subst (λ x. R x q) is_p rel)))
    ]
    | inr old_p ↦ elim (get-add-cases k r q t at_q) [
      | inl (is_q, at_k) ↦ absurd (alone j p old_p (subst (R p) is_q rel))
      | inr old_q ↦ h j k p q old_p old_q rel
    ]
  ]

-- A column that names rows of another table.
module _ ⦃E : Engine⦄ {J K Row Target : Type 0} {pk : Row → J} {target_pk : Target → K} ⦃i : Key J⦄
    ⦃e : Key K⦄ where
  open E use {Table}

  abbrev pub Refers : (Row → K) → Table pk → Table target_pk → Type 0
  Refers column t u =
      (j : J) (r : Row) → E.get j t ≡ some r → (x : Target) × (E.get (column r) u ≡ some x)

  pub Refers-add :
      (column : Row → K) (r : Row) (x : Target) (t : Table pk) (u : Table target_pk)
      → E.get (column r) u ≡ some x
      → Refers column t u
      → Refers column (E.add r t) u
  Refers-add column r x t u there h j y at = elim (get-add-cases j r y t at) [
    | inl (here, _) ↦ (x, ap (λ (z : Row). E.get (column z) u) here ∙ there)
    | inr older ↦ h j y older
  ]

  pub Refers-add_target :
      (column : Row → K) (x : Target) (t : Table pk) (u : Table target_pk)
      → E.get (target_pk x) u ≡ none
      → Refers column t u
      → Refers column t (E.add x u)
  Refers-add_target column x t u fresh h j r at =
      let (y, there) = h j r at in (y, get-add_other (column r) x y u fresh there)
