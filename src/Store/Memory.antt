-- ===== src/Store/Memory.antt =====
-- Tables as lists in memory. They meet every law of `Engine`, so what is proved of the handlers
-- over an engine holds of something, and the handlers can be run.
use feature_flags.Store.Sorting.{sort_rows, sort_rows-perm, sort_rows-IsSorted}
use feature_flags.Base.{
  text_key, ◌≡◌, ◌⊎◌, inl, inr, refl, Bool, true, false, Option, none, some, List, [], ◌∷◌, Elem,
  Key, ◌==◌, arith, if◌then◌else◌, Bool-cases,
}
use feature_flags.Store.Engine.{Engine}

module _ {K Row : Type 0} (pk : Row → K) ⦃e : Key K⦄ where
  unfoldable pub find : K → List Row → Option Row
  find k [] = none
  find k (r ∷ t) = if pk r == k then some r else find k t

  unfoldable pub without : K → List Row → List Row
  without k [] = []
  without k (r ∷ t) = let rest = without k t in if pk r == k then rest else r ∷ rest

  -- The rows that `find` can return: the first row of each key.
  unfoldable pub live : List Row → List Row
  unfolding without
  live [] = []
  live (r ∷ t) = r ∷ without (pk r) (live t)

  unfoldable pub select : (Row → Bool) → List Row → List Row
  select test [] = []
  select test (r ∷ t) = let rest = select test t in if test r then r ∷ rest else rest

  unfoldable pub first : List Row → Option Row
  first [] = none
  first (r ∷ t) = some r

  pub find_pk : (k : K) (r : Row) (t : List Row) → find k t ≡ some r → pk r ≡ k
  unfolding find
  find_pk k r [] h = cc
  find_pk k r (x ∷ t) h = ground (arith, find_pk k r t, e.same_iff (pk x) k)

  Elem-without_cons :
      (k : K) (r x : Row) (t : List Row)
      → (pk x == k ≡ true) ⊎ (pk x == k ≡ false)
      → (Elem r (without k t) → Elem r t × (pk r == k ≡ false))
      → Elem r (without k (x ∷ t))
      → Elem r (x ∷ t) × (pk r == k ≡ false)
  unfolding without
  Elem-without_cons k r x t (inl same) ih h =
      let (there, ne) = ih (rw (same, if◌then◌else◌) at h) in (inr there, ne)
  Elem-without_cons k r x t (inr other) ih h = elim (rw (other, if◌then◌else◌) at h) [
    | inl here ↦ (inl here, rw here other)
    | inr later ↦ let (there, ne) = ih later in (inr there, ne)
  ]

  Elem-without :
      (k : K) (r : Row) (t : List Row) → Elem r (without k t) → Elem r t × (pk r == k ≡ false)
  Elem-without k r [] h = unfold without in elim h [ ]
  Elem-without k r (x ∷ t) h =
      Elem-without_cons k r x t (Bool-cases (pk x == k)) (Elem-without k r t) h

  without-Elem :
      (k : K) (r : Row) (t : List Row) → Elem r t → pk r == k ≡ false → Elem r (without k t)
  unfolding without
  without-Elem k r [] h ne = elim h [ ]
  without-Elem k r (x ∷ t) (inl here) ne = rw (← here, ne) (inl refl)
  without-Elem k r (x ∷ t) (inr later) ne = elim (Bool-cases (pk x == k)) [
    | inl same ↦ rw same (without-Elem k r t later ne)
    | inr other ↦ rw other (inr (without-Elem k r t later ne))
  ]

  same_sym : (j k : K) → j == k ≡ false → k == j ≡ false
  same_sym j k h = ground (arith, e.same_iff j k, e.same_iff k j)

  same_refl : (k : K) → k == k ≡ true
  same_refl k = (e.same_iff k k).1 refl

  -- Rows of the live view are what `find` returns at their keys, and the other way round.
  find-of_live : (r : Row) (t : List Row) → Elem r (live t) → find (pk r) t ≡ some r
  unfolding find live
  find-of_live r [] h = elim h [ ]
  find-of_live r (x ∷ t) (inl here) = rw (here, same_refl (pk x))
  find-of_live r (x ∷ t) (inr later) =
      let (there, ne) = Elem-without (pk x) r (live t) later in
      rw (same_sym (pk r) (pk x) ne) (find-of_live r t there)

  live-of_find : (k : K) (r : Row) (t : List Row) → find k t ≡ some r → Elem r (live t)
  unfolding find live
  live-of_find k r [] h = cc
  live-of_find k r (x ∷ t) h = elim (Bool-cases (pk x == k)) [
    | inl same ↦ inl (ground arith)
    | inr other ↦ inr (
        without-Elem (pk x) r (live t) (live-of_find k r t (ground arith))
          (rw (find_pk k r t (ground arith)) (same_sym (pk x) k other)))
  ]

  select_sound :
      (test : Row → Bool) (r : Row) (t : List Row)
      → Elem r (select test t)
      → (test r ≡ true) × Elem r t
  unfolding select
  select_sound test r [] h = elim h [ ]
  select_sound test r (x ∷ t) h = elim (Bool-cases (test x)) [
    | inl passes ↦ elim (rw (passes, if◌then◌else◌) at h) [
      | inl here ↦ (rw here passes, inl here)
      | inr later ↦ let (p, there) = select_sound test r t later in (p, inr there)
    ]
    | inr fails ↦
        let (p, there) = select_sound test r t (rw (fails, if◌then◌else◌) at h) in (p, inr there)
  ]

  select_complete :
      (test : Row → Bool) (r : Row) (t : List Row)
      → Elem r t
      → test r ≡ true
      → Elem r (select test t)
  unfolding select
  select_complete test r [] h p = elim h [ ]
  select_complete test r (x ∷ t) (inl here) p = rw (← here, p) (inl refl)
  select_complete test r (x ∷ t) (inr later) p = elim (Bool-cases (test x)) [
    | inl yes_ ↦ rw yes_ (inr (select_complete test r t later p))
    | inr no_ ↦ rw no_ (select_complete test r t later p)
  ]

  first_sound : (r : Row) (t : List Row) → first t ≡ some r → Elem r t
  unfolding first
  first_sound r [] h = cc
  first_sound r (x ∷ t) h = inl (ground arith)

  first-none : (r : Row) (t : List Row) → first t ≡ none → ¬ Elem r t
  unfolding first
  first-none r [] h m = m
  first-none r (x ∷ t) h m = cc

  unfoldable pub scalar_in : (Row → Bool) → List Row → Option Row
  unfolding first select live
  scalar_in test t = first (select test (live t))

  pub scalar_in-some :
      (test : Row → Bool) (r : Row) (t : List Row)
      → scalar_in test t ≡ some r
      → (test r ≡ true) × (find (pk r) t ≡ some r)
  scalar_in-some test r t h =
      let (p, there) =
        select_sound test r (live t)
          (first_sound r (select test (live t)) (unfold scalar_in in h)) in
      (p, find-of_live r t there)

  pub scalar_in-none :
      (test : Row → Bool) (k : K) (r : Row) (t : List Row)
      → scalar_in test t ≡ none
      → find k t ≡ some r
      → test r ≡ false
  scalar_in-none test k r t h g = elim (Bool-cases (test r)) [
    | inl passes ↦ absurd (
        first-none r (select test (live t)) (unfold scalar_in in h)
          (select_complete test r (live t) (live-of_find k r t g) passes))
    | inr fails ↦ fails
  ]

-- `live` and `select` together answer a SELECT.
module _ {K Row : Type 0} (pk : Row → K) ⦃e : Key K⦄ where
  pub scalars_in_sound :
      (test : Row → Bool) (r : Row) (t : List Row)
      → Elem r (select pk test (live pk t))
      → (test r ≡ true) × (find pk (pk r) t ≡ some r)
  scalars_in_sound test r t h =
      let (p, there) = select_sound pk test r (live pk t) h in (p, find-of_live pk r t there)

  pub scalars_in_complete :
      (test : Row → Bool) (k : K) (r : Row) (t : List Row)
      → find pk k t ≡ some r
      → test r ≡ true
      → Elem r (select pk test (live pk t))
  scalars_in_complete test k r t h p =
      select_complete pk test r (live pk t) (live-of_find pk k r t h) p

  pub find-nil : (k : K) → find pk k [] ≡ none
  unfolding find
  find-nil k = refl

  pub find-cons :
      (k : K) (r : Row) (t : List Row)
      → find pk k (r ∷ t) ≡ (if pk r == k then some r else find pk k t)
  unfolding find
  find-cons k r t = refl

-- A write stands before the older row of its key, if there is one, and hides it.
abbrev pub memory : Engine
memory = record {
  Table = λ {K} {Row} pk. List Row;
  empty = [];
  get = λ {K} {Row} {pk} ⦃e⦄ k t. find pk k t;
  add = λ {K} {Row} {pk} ⦃e⦄ r t. r ∷ t;
  scalar = λ {K} {Row} {pk} ⦃e⦄ test t. scalar_in pk test t;
  scalars = λ {K} {Row} {pk} ⦃e⦄ test t. select pk test (live pk t);
  order_by = λ {Row} before rows. sort_rows before rows;
  same_reals = λ s t. s == t;
  same_int_real = λ n t. false;
  get-empty = λ {K} {Row} {pk} ⦃e⦄ k. find-nil pk k;
  get_pk = λ {K} {Row} {pk} ⦃e⦄ k r t h. find_pk pk k r t h;
  get-add = λ {K} {Row} {pk} ⦃e⦄ k r t. find-cons pk k r t;
  scalar_some = λ {K} {Row} {pk} ⦃e⦄ test r t h. scalar_in-some pk test r t h;
  scalar_none = λ {K} {Row} {pk} ⦃e⦄ test k r t h g. scalar_in-none pk test k r t h g;
  scalars_sound = λ {K} {Row} {pk} ⦃e⦄ test r t h. scalars_in_sound pk test r t h;
  scalars_complete = λ {K} {Row} {pk} ⦃e⦄ test k r t h p. scalars_in_complete pk test k r t h p;
  order_by-perm = λ {Row} before rows. sort_rows-perm before rows;
  order_by-sorted = λ {Row} before total trans rows. sort_rows-IsSorted before total trans rows;
}
