-- ===== src/Services/Outbox.antt =====
-- What a handler that calls `env_changed` of control-plane/app/services/notify.py has notified.
use feature_flags.Base.{
  ℕ, String, ◌≡◌, ◌⊎◌, inl, inr, refl, ap, false, Option, none, some, List, [], ◌∷◌, ◌++◌, ◌==◌,
  text_key, eq_iff, Bool-cases, if◌then◌else◌,
}
use feature_flags.Services.Notify.{channel, env_changed}
use feature_flags.Store.Engine.{Engine}
use feature_flags.Store.Session.{Context, Transaction, Action, Result, ok, ◌>>◌}

-- What the transaction has notified after a change of an environment: one more message where
-- the backend is `postgres`, nothing where it is `log`; there is no other backend.
abbrev pub outbox : Context → ℕ → List (String × ℕ) → Option (List (String × ℕ))
outbox c env_id sent =
    if c.backend == "postgres"
    then some (sent ++ (channel, env_id) ∷ [])
    else if c.backend == "log"
    then some sent
    else none

log_is_not_postgres : (b : String) → b ≡ "log" → (b == "postgres") ≡ false
log_is_not_postgres b e = rw e refl

module _ ⦃E : Engine⦄ where
  pub env_changed_bind-ok :
      {B : Type 0} (c : Context) (env_id : ℕ) (k : Action B) (s : Transaction) {b : B}
      {s' : Transaction}
      → (env_changed c env_id >> k) s ≡ (ok b, s')
      → (sent : List (String × ℕ)) × (outbox c env_id s.notified ≡ some sent)
        × (k (record s { notified = sent }) ≡ (ok b, s'))
  unfolding env_changed
  env_changed_bind-ok {B} c env_id k s h = elim (Bool-cases (c.backend == "postgres")) [
    | inl postgres ↦ (s.notified ++ (channel, env_id) ∷ [], rw postgres, rw postgres at h)
    | inr other ↦ elim (Bool-cases (c.backend == "log")) [
      | inl log ↦ (s.notified, rw (other, log), rw (other, log) at h)
      | inr unknown ↦
          absurd (cc (ap (λ (r : Result B × Transaction). r.0) (rw (other, unknown) at h)))
    ]
  ]

  pub env_changed_known :
      {B : Type 0} (c : Context) (env_id : ℕ) (k : Action B) (s : Transaction)
      → (c.backend ≡ "postgres") ⊎ (c.backend ≡ "log")
      → (sent : List (String × ℕ)) × ((env_changed c env_id >> k) s
          ≡ k (record s { notified = sent }))
  unfolding env_changed
  env_changed_known c env_id k s (inl e) =
      (s.notified ++ (channel, env_id) ∷ [], rw ((eq_iff c.backend "postgres").1 e))
  env_changed_known c env_id k s (inr e) =
      (s.notified, rw (log_is_not_postgres c.backend e, (eq_iff c.backend "log").1 e))
