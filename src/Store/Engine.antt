-- ===== src/Store/Engine.antt =====
-- What the control plane takes from SQLAlchemy and Postgres: tables of rows by primary key. A row
-- that is written is the row of its key; `scalar` and `scalars` answer a SELECT with the WHERE
-- clause as a test, in no promised order; `order_by` is ORDER BY.
use feature_flags.Base.{
  ℤ, String, ◌≡◌, ◌⊎◌, Bool, true, false, Option, none, some, List, Elem, IsSorted, Key, ◌==◌,
  if◌then◌else◌,
}
use mathlib.Core.List.{Perm}

pub record Engine : Type 1 where
  pub Table : {K Row : Type 0} → (Row → K) → Type 0
  pub empty : {K Row : Type 0} {pk : Row → K} → Table pk
  -- `session.get(Model, key)`
  pub get : {K Row : Type 0} {pk : Row → K} ⦃e : Key K⦄ → K → Table pk → Option Row
  -- `session.add(row)`, and the write of a row that was changed
  pub add : {K Row : Type 0} {pk : Row → K} ⦃e : Key K⦄ → Row → Table pk → Table pk
  -- `session.scalar(select(Model).where(test))`
  pub scalar : {K Row : Type 0} {pk : Row → K} ⦃e : Key K⦄ → (Row → Bool) → Table pk → Option Row
  -- `session.scalars(select(Model).where(test)).all()`
  pub scalars : {K Row : Type 0} {pk : Row → K} ⦃e : Key K⦄ → (Row → Bool) → Table pk → List Row
  pub order_by : {Row : Type 0} → (Row → Row → Bool) → List Row → List Row
  -- Python's `==` of two floats, and of an int and a float, by the texts of the floats
  pub same_reals : String → String → Bool
  pub same_int_real : ℤ → String → Bool
  pub get-empty :
      {K Row : Type 0} {pk : Row → K} ⦃e : Key K⦄ (k : K) → get k (empty {pk = pk}) ≡ none
  pub get_pk :
      {K Row : Type 0} {pk : Row → K} ⦃e : Key K⦄ (k : K) (r : Row) (t : Table pk)
      → get k t ≡ some r
      → pk r ≡ k
  pub get-add :
      {K Row : Type 0} {pk : Row → K} ⦃e : Key K⦄ (k : K) (r : Row) (t : Table pk)
      → get k (add r t) ≡ (if pk r == k then some r else get k t)
  pub scalar_some :
      {K Row : Type 0} {pk : Row → K} ⦃e : Key K⦄ (test : Row → Bool) (r : Row) (t : Table pk)
      → scalar test t ≡ some r
      → (test r ≡ true) × (get (pk r) t ≡ some r)
  pub scalar_none :
      {K Row : Type 0} {pk : Row → K} ⦃e : Key K⦄ (test : Row → Bool) (k : K) (r : Row)
      (t : Table pk)
      → scalar test t ≡ none
      → get k t ≡ some r
      → test r ≡ false
  pub scalars_sound :
      {K Row : Type 0} {pk : Row → K} ⦃e : Key K⦄ (test : Row → Bool) (r : Row) (t : Table pk)
      → Elem r (scalars test t)
      → (test r ≡ true) × (get (pk r) t ≡ some r)
  pub scalars_complete :
      {K Row : Type 0} {pk : Row → K} ⦃e : Key K⦄ (test : Row → Bool) (k : K) (r : Row)
      (t : Table pk)
      → get k t ≡ some r
      → test r ≡ true
      → Elem r (scalars test t)
  pub order_by-perm :
      {Row : Type 0} (before : Row → Row → Bool) (rows : List Row)
      → Perm (order_by before rows) rows
  pub order_by-sorted :
      {Row : Type 0} (before : Row → Row → Bool)
      → ((a b : Row) → (before a b ≡ true) ⊎ (before b a ≡ true))
      → ((a b c : Row) → before a b ≡ true → before b c ≡ true → before a c ≡ true)
      → (rows : List Row) → IsSorted before (order_by before rows)
