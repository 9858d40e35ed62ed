-- ===== src/Schemas/RoundTrip.antt =====
-- Reading back what `model_dump` wrote.
use feature_flags.Base.{
  ℤ, String, ◌≡◌, refl, ◌≢◌, true, Option, none, some, List, map, All, arith, ◌∷◌, [],
}
use feature_flags.Base.Maybe.{traverse-map}
use feature_flags.Json.{Json, text, of_items-to_items, end, Fields, field, get_field}
use feature_flags.Schemas.Pydantic.{Pydantic}
use feature_flags.Schemas.Flag.{
  Operator, is_in, Clause, WeightedVariation, Rollout, VariationOrRollout, Rule, Target,
  Prerequisite,
}
use feature_flags.Schemas.Limits.{weights_sum_to_100k, is_nonempty}
use feature_flags.Schemas.Load.{
  operator_of, load_operator, load_list, load_clause, load_weighted_variation, load_rollout,
  load_choice, load_rule, load_fallthrough, load_target, load_prerequisite, check_choice,
}
use feature_flags.Schemas.Dump.{
  operator_text, dump_list, dump_clause, dump_weighted_variation, dump_rollout, dump_choice,
  dump_rule, dump_fallthrough, dump_target, dump_prerequisite,
}
use feature_flags.Schemas.Accepted.{
  IsWeighted, IsRollout, OneOf, IsChoice, IsRule, IsTarget, IsPrerequisite,
}

pub operator_of-operator_text : (o : Operator) → operator_of (operator_text o) ≡ some o
unfolding operator_of operator_text
operator_of-operator_text is_in = refl
operator_of-operator_text _ = refl

abbrev pub Always : {A : Type 0} → A → Type 0
Always a = Unit

pub All-Always : {A : Type 0} (l : List A) → All (Always {A = A}) l
All-Always [] = tt
All-Always (a ∷ l) = (tt, All-Always l)

check_choice-of_choice :
    (v : Option ℤ) (r : Option Rollout)
    → OneOf v r
    → check_choice (record { variation = v; rollout = r }) ≡ some tt
check_choice-of_choice none none h = elim h [ ]
check_choice-of_choice (some n) (some r) h = elim h [ ]
check_choice-of_choice (some n) none h = refl
check_choice-of_choice none (some r) h = refl

pub is_nonempty-of_ne : {A : Type 0} (l : List A) → l ≢ [] → is_nonempty l ≡ true
is_nonempty-of_ne [] h = absurd (h refl)
is_nonempty-of_ne (a ∷ l) h = refl

module _ ⦃p : Pydantic⦄ where
  pub load_list-dump_list :
      {A : Type 0} (P : A → Type 0) (read : Json → Option A) (dump : A → Json)
      → ((a : A) → P a → read (dump a) ≡ some a)
      → (l : List A) → All P l
      → load_list read (dump_list dump l) ≡ some l
  load_list-dump_list P read dump inverse l h =
      rw (of_items-to_items (map dump l)) (traverse-map P read dump inverse l h)

  pub load_clause-dump_clause : (c : Clause) → load_clause (dump_clause c) ≡ some c
  unfolding load_clause dump_clause load_operator
  load_clause-dump_clause c =
      simp (p.as_text-text, p.as_bool-boolean, of_items-to_items, operator_of-operator_text)

  load_weighted_variation-dump :
      (w : WeightedVariation)
      → IsWeighted w
      → load_weighted_variation (dump_weighted_variation w) ≡ some w
  unfolding load_weighted_variation dump_weighted_variation
  load_weighted_variation-dump w h = simp p.as_int-number (ground arith)

  load_rollout-dump_rollout : (r : Rollout) → IsRollout r → load_rollout (dump_rollout r) ≡ some r
  unfolding load_rollout dump_rollout weights_sum_to_100k
  load_rollout-dump_rollout r h = simp p.as_text-text (
      rw
        (load_list-dump_list IsWeighted load_weighted_variation dump_weighted_variation
          load_weighted_variation-dump r.variations h.weighted)
        (ground arith))

  -- `choice_of v r` by cases, since the two options decide what is written.
  load_choice-dump_choice :
      (variation : Option ℤ) (rollout : Option Rollout) (rest : Fields)
      → get_field "variation" rest ≡ none
      → get_field "rollout" rest ≡ none
      → IsChoice (record { variation = variation; rollout = rollout })
      → load_choice (dump_choice (record { variation = variation; rollout = rollout }) rest)
        ≡ some (record { variation = variation; rollout = rollout })
  unfolding load_choice dump_choice
  load_choice-dump_choice none none rest e f h = elim h [ ]
  load_choice-dump_choice (some n) (some r) rest e f h = elim h [ ]
  load_choice-dump_choice (some n) none rest e f h = rw (f, p.as_int-number n) (ground arith)
  load_choice-dump_choice none (some r) rest e f h =
      unfold dump_rollout in rw (e, load_rollout-dump_rollout r h)

  load_target-dump_target : (t : Target) → IsTarget t → load_target (dump_target t) ≡ some t
  unfolding load_target dump_target
  load_target-dump_target t h =
      simp (p.as_text-text, p.as_int-number)
        (rw
          (load_list-dump_list (Always {A = String}) p.as_text text (λ s _. p.as_text-text s) t.keys
            (All-Always t.keys))
          (ground arith))

  load_prerequisite-dump :
      (q : Prerequisite) → IsPrerequisite q → load_prerequisite (dump_prerequisite q) ≡ some q
  unfolding load_prerequisite dump_prerequisite
  load_prerequisite-dump q h = simp (p.as_text-text, p.as_int-number) (ground arith)

  load_fallthrough-dump_fallthrough :
      (c : VariationOrRollout) → IsChoice c → load_fallthrough (dump_fallthrough c) ≡ some c
  unfolding load_fallthrough dump_fallthrough
  load_fallthrough-dump_fallthrough c h =
      rw (load_choice-dump_choice c.variation c.rollout end refl refl h)
        (rw (check_choice-of_choice c.variation c.rollout h))

  clauses-dump_choice :
      (c : VariationOrRollout) (j : Json)
      → get_field "clauses" (dump_choice c (field "clauses" j end)) ≡ some j
  unfolding dump_choice
  clauses-dump_choice c j = ground arith

  load_rule-dump_rule : (r : Rule) → IsRule r → load_rule (dump_rule r) ≡ some r
  unfolding load_rule dump_rule
  load_rule-dump_rule r h =
      rw
        (load_choice-dump_choice r.variation r.rollout
          (field "clauses" (dump_list dump_clause r.clauses) end) refl refl h.choice)
        (rw (clauses-dump_choice r.choice (dump_list dump_clause r.clauses)) (
          rw (
            load_list-dump_list (Always {A = Clause}) load_clause dump_clause
                (λ c _. load_clause-dump_clause c) r.clauses (All-Always r.clauses),
            is_nonempty-of_ne r.clauses h.clauses,
            check_choice-of_choice r.variation r.rollout h.choice,
          )))

  -- What `model_dump` stores in each targeting column is read back as the list that was dumped.
  pub load-dump_targets :
      (ts : List Target)
      → All IsTarget ts
      → load_list load_target (dump_list dump_target ts) ≡ some ts
  load-dump_targets = load_list-dump_list IsTarget load_target dump_target load_target-dump_target

  -- The rules of an accepted request, as `model_dump` stores them, are read back as they were.
  pub load-dump_rules :
      (rs : List Rule) → All IsRule rs → load_list load_rule (dump_list dump_rule rs) ≡ some rs
  load-dump_rules = load_list-dump_list IsRule load_rule dump_rule load_rule-dump_rule

  pub load-dump_prerequisites :
      (qs : List Prerequisite)
      → All IsPrerequisite qs
      → load_list load_prerequisite (dump_list dump_prerequisite qs) ≡ some qs
  load-dump_prerequisites =
      load_list-dump_list IsPrerequisite load_prerequisite dump_prerequisite load_prerequisite-dump

  pub load-dump_fallthrough :
      (c : VariationOrRollout) → IsChoice c → load_fallthrough (dump_fallthrough c) ≡ some c
  load-dump_fallthrough = load_fallthrough-dump_fallthrough
