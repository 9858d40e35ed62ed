-- ===== src/Store/Sorting.antt =====
-- ORDER BY on a list of rows: insertion sort.
use mathlib.Core.List.{Perm}
use mathlib.Core.List.Perm
use feature_flags.Base.{
  ◌≡◌, ◌⊎◌, inl, inr, Bool, true, List, [], ◌∷◌, All, IsSorted, if◌then◌else◌, Bool-cases,
}

module _ {Row : Type 0} (before : Row → Row → Bool) where
  unfoldable pub insert_before : Row → List Row → List Row
  insert_before x [] = x ∷ []
  insert_before x (y ∷ ys) =
      let rest = insert_before x ys in if before x y then x ∷ y ∷ ys else y ∷ rest

  unfoldable pub sort_rows : List Row → List Row
  unfolding insert_before
  sort_rows [] = []
  sort_rows (x ∷ xs) = insert_before x (sort_rows xs)

  insert_before-perm : (x : Row) (ys : List Row) → Perm (insert_before x ys) (x ∷ ys)
  unfolding insert_before
  insert_before-perm x [] = Perm.refl (x ∷ [])
  insert_before-perm x (y ∷ ys) = elim (Bool-cases (before x y)) [
    | inl p ↦ rw p (Perm.refl (x ∷ y ∷ ys))
    | inr p ↦ rw p (Perm.trans (Perm.cons y (insert_before-perm x ys)) (Perm.swap x y ys))
  ]

  pub sort_rows-perm : (xs : List Row) → Perm (sort_rows xs) xs
  unfolding sort_rows
  sort_rows-perm [] = Perm.refl []
  sort_rows-perm (x ∷ xs) =
      Perm.trans (insert_before-perm x (sort_rows xs)) (Perm.cons x (sort_rows-perm xs))

  module _ (total : (a b : Row) → (before a b ≡ true) ⊎ (before b a ≡ true))
      (trans : (a b c : Row) → before a b ≡ true → before b c ≡ true → before a c ≡ true) where
    All-insert_before :
        (P : Row → Type 0) (x : Row) (ys : List Row) → P x → All P ys → All P (insert_before x ys)
    unfolding insert_before
    All-insert_before P x [] p h = (p, tt)
    All-insert_before P x (y ∷ ys) p h = elim (Bool-cases (before x y)) [
      | inl q ↦ rw q (p, h)
      | inr q ↦ rw q (h.0, All-insert_before P x ys p h.1)
    ]

    All-after :
        (x y : Row) (ys : List Row)
        → before x y ≡ true
        → All (λ z. before y z ≡ true) ys
        → All (λ z. before x z ≡ true) ys
    All-after x y [] p h = tt
    All-after x y (z ∷ ys) p h = (trans x y z p h.0, All-after x y ys p h.1)

    insert_before-IsSorted :
        (x : Row) (ys : List Row) → IsSorted before ys → IsSorted before (insert_before x ys)
    unfolding insert_before
    insert_before-IsSorted x [] s = (tt, tt)
    insert_before-IsSorted x (y ∷ ys) s = elim (Bool-cases (before x y)) [
      | inl q ↦ rw q ((q, All-after x y ys q s.0), s)
      | inr q ↦ rw q (
        All-insert_before (λ z. before y z ≡ true) x ys
            (elim (total x y) [ inl p ↦ cc | inr p ↦ p ]) s.0,
        insert_before-IsSorted x ys s.1,
      )
    ]

    pub sort_rows-IsSorted : (xs : List Row) → IsSorted before (sort_rows xs)
    unfolding sort_rows
    sort_rows-IsSorted [] = tt
    sort_rows-IsSorted (x ∷ xs) = insert_before-IsSorted x (sort_rows xs) (sort_rows-IsSorted xs)
