-- ===== src/DataPlane/Rulesets/Loading.antt =====
-- Which ruleset `LoadAll` of data-plane/internal/store/store.go leaves for an environment.
use mathlib.Core.Option.{some-injective}
use feature_flags.DataPlane.Rulesets.{note_change, is_stale, refresh, load_refs, Rulesets, Ruleset}
use feature_flags.Models.{Environment}
use feature_flags.Base.{
  sym, Option-cases, ap, ◌∙◌, Elem, none, List, some, nat_eq_iff, Bool-cases, ◌≡◌, nat_eq, ℕ,
  Option, refl, inl, inr, [], ◌∷◌, false,
}

module _ {F S : Type 0} (assembled : Environment → Option (Ruleset F S)) where
  -- What is held for an environment has the version of a ruleset.
  pub record Holds (envs : Rulesets F S) (id version : ℕ) : Type 0 where
    pub held : Ruleset F S
    pub at : envs id ≡ some held
    pub same : held.version ≡ version

  -- A turn for another environment, or one that finds the version that it holds.
  refresh_other :
      (id k : ℕ) (rs : Ruleset F S) (envs : Rulesets F S)
      → nat_eq id k ≡ false
      → refresh id rs envs k ≡ envs k
  refresh_other id k rs envs other = elim (Bool-cases (is_stale (envs id) rs)) [
    | inl stale ↦ rw (stale, other) refl
    | inr kept ↦ rw kept refl
  ]

  refresh_current :
      (id : ℕ) (rs : Ruleset F S) (envs : Rulesets F S) {held : Ruleset F S}
      → envs id ≡ some held
      → held.version ≡ rs.version
      → (k : ℕ) → refresh id rs envs k ≡ envs k
  refresh_current id rs envs at same k =
      rw (at, same, (nat_eq_iff rs.version rs.version).1 refl) refl

  refresh-Holds :
      (id : ℕ) (rs : Ruleset F S) (envs : Rulesets F S) → Holds (refresh id rs envs) id rs.version
  refresh-Holds id rs envs = go (envs id) refl
    where
      go : (o : Option (Ruleset F S)) → envs id ≡ o → Holds (refresh id rs envs) id rs.version
      go none at = record { held = rs; at = rw (at, (nat_eq_iff id id).1 refl) refl; same = refl }
      go (some prev) at = elim (Bool-cases (nat_eq prev.version rs.version)) [
        | inl same ↦ record {
          held = prev;
          at = rw (at, same) at;
          same = (nat_eq_iff prev.version rs.version).0 same;
        }
        | inr other ↦ record {
          held = rs;
          at = rw (at, other, (nat_eq_iff id id).1 refl) refl;
          same = refl;
        }
      ]

  one_ruleset :
      (e x : Environment) (rs r : Ruleset F S)
      → e ≡ x
      → assembled e ≡ some rs
      → assembled x ≡ some r
      → rs ≡ r
  one_ruleset e x rs r same made made_x =
      some-injective rs r (sym made ∙ ap assembled same ∙ made_x)

  refresh_keeps :
      (e x : Environment) (rs r held : Ruleset F S) (envs : Rulesets F S)
      → assembled e ≡ some rs
      → assembled x ≡ some r
      → (x.id ≡ e.id → x ≡ e)
      → held.version ≡ rs.version
      → envs e.id ≡ some held
      → refresh x.id r envs e.id ≡ some held
  refresh_keeps e x rs r held envs made made_x one same at = elim (Bool-cases (nat_eq x.id e.id)) [
    | inl here ↦
        let is = one ((nat_eq_iff x.id e.id).0 here) in
        let rs_is = one_ruleset e x rs r (sym is) made made_x in
        refresh_current x.id r envs (ap (λ (y : Environment). envs y.id) is ∙ at)
          (same ∙ ap (λ (y : Ruleset F S). y.version) rs_is) e.id
        ∙ at
    | inr other ↦ refresh_other x.id e.id r envs other ∙ at
  ]

  -- Where an environment is held at the version that its ruleset is assembled with, a load leaves it,
  -- whether it comes to the end or not.
  pub load_refs_keeps :
      (e : Environment) (rs held : Ruleset F S)
      → assembled e ≡ some rs
      → held.version ≡ rs.version
      → (es : List Environment) → ((x : Environment) → Elem x es → x.id ≡ e.id → x ≡ e)
      → (envs : Rulesets F S) (changed : List ℕ) → envs e.id ≡ some held
      → (load_refs assembled es envs changed).1 e.id ≡ some held
  unfolding load_refs
  load_refs_keeps e rs held made same [] one envs changed at = at
  load_refs_keeps e rs held made same (x ∷ es) one envs changed at =
      elim (Option-cases (assembled x)) [
        | inl failed ↦ rw failed at
        | inr (r, made_x) ↦ rw made_x (
            load_refs_keeps e rs held made same es (λ y h. one y (inr h)) (refresh x.id r envs)
              (note_change x.id r envs changed)
              (refresh_keeps e x rs r held envs made made_x (one x (inl refl)) same at))
      ]

  -- A load that comes to the end holds each environment at the version that its ruleset is assembled
  -- with.
  pub load_refs-Holds :
      (e : Environment) (rs : Ruleset F S)
      → assembled e ≡ some rs
      → (es : List Environment) → ((x : Environment) → Elem x es → x.id ≡ e.id → x ≡ e)
      → Elem e es
      → (envs : Rulesets F S) (changed : List ℕ) {now : List ℕ} {after : Rulesets F S}
      → load_refs assembled es envs changed ≡ (some now, after)
      → Holds after e.id rs.version
  unfolding load_refs
  load_refs-Holds e rs made [] one there envs changed h = elim there [ ]
  load_refs-Holds e rs made (x ∷ es) one there envs changed {now} {after} h =
      elim (Option-cases (assembled x)) [
        | inl failed ↦
            absurd (cc (ap (λ (r : Option (List ℕ) × Rulesets F S). r.0) (rw failed at h)))
        | inr (r, made_x) ↦
            let next = refresh x.id r envs in
            let k = rw made_x at h in
            elim there [
              | inl same ↦
                  let w = refresh-Holds x.id r envs in
                  let left =
                    load_refs_keeps x r w.held made_x w.same es
                      (λ y h.
                        λ is. one y (inr h) (is ∙ sym (ap (λ (z : Environment). z.id) same)) ∙ same)
                      next (note_change x.id r envs changed) w.at in
                  record {
                    held = w.held;
                    at =
                        ap (λ (y : Environment). after y.id) same
                        ∙ sym (ap (λ (q : Option (List ℕ) × Rulesets F S). q.1 x.id) k)
                        ∙ left;
                    same =
                        w.same
                        ∙ ap (λ (y : Ruleset F S). y.version)
                            (sym (one_ruleset e x rs r same made made_x));
                  }
              | inr rest ↦
                  load_refs-Holds e rs made es (λ y h. one y (inr h)) rest next
                    (note_change x.id r envs changed) k
            ]
      ]

  -- A load that comes to the end has assembled every environment.
  pub load_refs_assembles :
      (e : Environment) (es : List Environment)
      → Elem e es
      → (envs : Rulesets F S) (changed : List ℕ) {now : List ℕ} {after : Rulesets F S}
      → load_refs assembled es envs changed ≡ (some now, after)
      → (rs : Ruleset F S) × (assembled e ≡ some rs)
  unfolding load_refs
  load_refs_assembles e [] there envs changed h = elim there [ ]
  load_refs_assembles e (x ∷ es) there envs changed h = elim (Option-cases (assembled x)) [
    | inl failed ↦ absurd (cc (ap (λ (r : Option (List ℕ) × Rulesets F S). r.0) (rw failed at h)))
    | inr (r, made) ↦ elim there [
      | inl same ↦ (r, ap assembled same ∙ made)
      | inr rest ↦
          load_refs_assembles e es rest (refresh x.id r envs) (note_change x.id r envs changed)
            (rw made at h)
    ]
  ]
