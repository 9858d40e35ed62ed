-- ===== src/Api/Listings.antt =====
-- What the lists of control-plane/app/api show: which rows, in which order, and how many.
use mathlib.Core.Path.{subst}
use feature_flags.Store.Actions.{raise_if-ok}
use feature_flags.Base.Maybe.{is_none}
use feature_flags.Base.Int.{pos_part}
use feature_flags.Api.Common.{has_key}
use feature_flags.Api.Flags.Handlers.{list_flags}
use feature_flags.Models.{Project, Flag, AuditLog}
use mathlib.Core.List.{Perm, Mem, Memᴰ, Mem-prop}
use mathlib.Core.List.Perm
use mathlib.Core.Logic.{∥∥₁_map, ∥∥₁_elim}
use feature_flags.Base.{
  zero, suc, ◌↔◌, Elem, ◌∙◌, sym, ap, suc, IsSorted, length, ◌&&◌, ◌⊎◌, ◌≤◌, take, leb, false,
  arith, ◌==◌, true, not, List, Bool, ℤ, ℕ, String, some, none, ◌≡◌, refl, inl, inr, id_key,
  text_key, ◌∷◌, [], ◌++◌,
}
use feature_flags.Store.Engine.{Engine}
use feature_flags.Store.Session.{Result, Transaction, ok}
use feature_flags.Api.Lookups.{get_project-ok}
use feature_flags.Api.Audit.{is_limit, list_audit}

-- The first `n` of a list, and the others.
split_at :
    {A : Type 0} (n : ℕ) (l : List A)
    → (rest : List A) × (take n l ++ rest ≡ l)
      × (length (take n l) ≤ n)
      × ((rest ≡ []) ⊎ (length (take n l) ≡ n))
split_at zero l = (l, refl, omega arith, inr refl)
split_at (suc n) [] = ([], refl, omega arith, inl refl)
split_at {A} (suc n) (x ∷ l) =
    let (rest, whole, few, full) = split_at n l in
    (
      rest,
      ap (λ (t : List A). x ∷ t) whole,
      omega arith,
      elim full [ inl e ↦ inl e | inr e ↦ inr (ap suc e) ],
    )

-- The newest entries first.
abbrev pub newer : AuditLog → AuditLog → Bool
newer a b = leb b.id a.id

newer_total : (a b : AuditLog) → (newer a b ≡ true) ⊎ (newer b a ≡ true)
newer_total a b = ground arith

newer_trans : (a b c : AuditLog) → newer a b ≡ true → newer b c ≡ true → newer a c ≡ true
newer_trans a b c h k = ground arith

Elem-of_Memᴰ : {A : Type 0} {a : A} {l : List A} → Memᴰ a l → Elem a l
Elem-of_Memᴰ (Memᴰ.head e) = inl e
Elem-of_Memᴰ (Memᴰ.tail m) = inr (Elem-of_Memᴰ m)

Memᴰ-of_Elem : {A : Type 0} (a : A) (l : List A) → Elem a l → Memᴰ a l
Memᴰ-of_Elem a [] h = elim h [ ]
Memᴰ-of_Elem a (x ∷ l) (inl e) = Memᴰ.head e
Memᴰ-of_Elem a (x ∷ l) (inr m) = Memᴰ.tail (Memᴰ-of_Elem a l m)

limits : (n : ℤ) → not (is_limit n) ≡ false → (1 ≤ pos_part n) × (pos_part n ≤ 500)
limits n h = ground arith

module _ ⦃E : Engine⦄ where
  -- A page of the audit log: with the entries that are left out it makes up the log of the project,
  -- the newest entries first, and nothing is left out while the page has room.
  pub record IsPage (project_key : String) (limit : ℤ) (s : Transaction) (page : List AuditLog)
      : Type 0 where
    pub project : Project
    pub found : E.scalar (has_key project_key) s.projects ≡ some project
    pub left_out : List AuditLog
    pub all_rows :
        Perm (page ++ left_out) (E.scalars (λ r. r.project_id == project.id) s.audit_logs)
    pub newest_first : IsSorted newer (page ++ left_out)
    pub at_most : length page ≤ pos_part limit
    pub room : (left_out ≡ []) ⊎ (length page ≡ pos_part limit)

  -- The audit log that a request is shown is the newest part of the log of its project, as long as
  -- the limit allows, and the limit lies between 1 and 500.
  pub list_audit-IsPage :
      (project_key : String) (limit : ℤ) (s : Transaction) {page : List AuditLog} {s' : Transaction}
      → list_audit project_key limit s ≡ (ok page, s')
      → IsPage project_key limit s page × (1 ≤ pos_part limit) × (pos_part limit ≤ 500)
  unfolding list_audit
  list_audit-IsPage project_key limit s {page} {s'} h =
      let (valid, h1) = raise_if-ok (not (is_limit limit)) _ _ s h in
      let (project, found, h2) = get_project-ok project_key _ s h1 in
      let rows : List AuditLog = E.scalars (λ r. r.project_id == project.id) s.audit_logs in
      let sorted : List AuditLog = E.order_by newer rows in
      let shown : take (pos_part limit) sorted ≡ page =
        cc (ap (λ (o : Result (List AuditLog) × Transaction). o.0) h2) in
      let (rest, whole, few, full) = split_at (pos_part limit) sorted in
      let joined : page ++ rest ≡ sorted =
        ap (λ (l : List AuditLog). l ++ rest) (sym shown) ∙ whole in
      let (low, high) = limits limit valid in
      (
        record {
          project = project;
          found = found;
          left_out = rest;
          all_rows = rw joined (E.order_by-perm newer rows);
          newest_first = rw joined (E.order_by-sorted newer newer_total newer_trans rows);
          at_most = subst (λ (l : List AuditLog). length l ≤ pos_part limit) shown few;
          room =
              subst (λ (l : List AuditLog). (rest ≡ []) ⊎ (length l ≡ pos_part limit)) shown full;
        },
        low,
        high,
      )

  -- The test of `list_flags`.
  abbrev is_listed : ℕ → Flag → Bool
  is_listed project_id r = r.project_id == project_id && is_none r.archived_at

  -- A stored flag of the project that is not archived.
  pub record IsListed (project_id : ℕ) (s : Transaction) (f : Flag) : Type 0 where
    pub stored : E.get f.id s.flags ≡ some f
    pub in_project : f.project_id ≡ project_id
    pub current : f.archived_at ≡ none

  listed_facts :
      (n : ℕ) (f : Flag) → is_listed n f ≡ true → (f.project_id ≡ n) × (f.archived_at ≡ none)
  listed_facts n f h = ground arith

  listed_test : (n : ℕ) (f : Flag) → f.project_id ≡ n → f.archived_at ≡ none → is_listed n f ≡ true
  listed_test n f p a = ground arith

  IsListed-of :
      (n : ℕ) (s : Transaction) (f : Flag)
      → Elem f (E.scalars (is_listed n) s.flags)
      → IsListed n s f
  IsListed-of n s f m =
      let (passes, at) = E.scalars_sound (is_listed n) f s.flags m in
      let (in_project, current) = listed_facts n f passes in
      record { stored = at; in_project = in_project; current = current }

  Mem-of :
      (n : ℕ) (s : Transaction) (f : Flag)
      → IsListed n s f
      → Mem f (E.scalars (is_listed n) s.flags)
  Mem-of n s f h =
      let passes = listed_test n f h.in_project h.current in
      ∣ Memᴰ-of_Elem f (E.scalars (is_listed n) s.flags)
        (E.scalars_complete (is_listed n) f.id f s.flags h.stored passes) ∣₁

  -- Under a total order of keys, the list of flags is ordered by key, and a flag is in it exactly if
  -- it is stored, belongs to the project of the request and is not archived.
  pub list_flags-IsListed :
      (collates : String → String → Bool) (project_key : String) (s : Transaction) {fs : List Flag}
      {s' : Transaction}
      → ((a b : String) → (collates a b ≡ true) ⊎ (collates b a ≡ true))
      → ((a b c : String) → collates a b ≡ true → collates b c ≡ true → collates a c ≡ true)
      → list_flags collates project_key s ≡ (ok fs, s')
      → (project : Project) × (E.scalar (has_key project_key) s.projects ≡ some project)
        × IsSorted (λ a b. collates a.key b.key) fs
        × ((f : Flag) → Mem f fs ↔ ∥ IsListed project.id s f ∥₁)
  unfolding list_flags
  list_flags-IsListed collates project_key s {fs} {s'} total trans h =
      let (project, found, h1) = get_project-ok project_key _ s h in
      let rows : List Flag = E.scalars (is_listed project.id) s.flags in
      let by_key = λ (a b : Flag). collates a.key b.key in
      let shown : E.order_by by_key rows ≡ fs =
        cc (ap (λ (o : Result (List Flag) × Transaction). o.0) h1) in
      let same : Perm fs rows =
        subst (λ (l : List Flag). Perm l rows) shown (E.order_by-perm by_key rows) in
      (
        project,
        found,
        subst (IsSorted by_key) shown (
            E.order_by-sorted by_key (λ a b. total a.key b.key) (λ a b c. trans a.key b.key c.key)
              rows),
        λ f. (
          λ m. ∥∥₁_map ((Perm.mem_iff same).0 m) (λ d. IsListed-of project.id s f (Elem-of_Memᴰ d)),
          λ l. ∥∥₁_elim l Mem-prop (λ listed. (Perm.mem_iff same).1 (Mem-of project.id s f listed)),
        ),
      )
