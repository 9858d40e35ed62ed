-- ===== src/App/History.antt =====
-- What no request undoes: the version of a flag's configuration in an environment grows with each
-- change of it.
use feature_flags.App.Invariant.{Step-IsConsistent}
use feature_flags.App.Requests.{handle, Request, Reply}
use feature_flags.Schemas.Pydantic.{Pydantic}
use feature_flags.App.Served.{refused, carried_out, handle-Outcome, Outcome, serve}
use mathlib.Core.Path.{subst}
use mathlib.Core.Option.{some-injective}
use feature_flags.Schemas.Flag.{FlagConfigUpdate}
use feature_flags.Api.Flags.Handlers.{add_defaults}
use feature_flags.Store.Session.{Result, Server, Database, Context}
use feature_flags.Api.Flags.Config.{default_config, apply_update, flushed_config}
use feature_flags.Models.{Environment, flag_config_pk, FlagEnvironmentConfig}
use feature_flags.Store.Engine.{Engine}
use feature_flags.App.Steps.{Step}
use feature_flags.App.Consistent.{IsConsistent}
use feature_flags.Base.{
  Bool, pair_eq_iff, sym, ap, false, String, Bool-cases, ◌∙◌, pair_eq, List, ◌≤◌, ◌≢◌, arith, ℕ,
  some, none, ◌≡◌, id_key, pair_key, inl, inr, refl, ◌∷◌, [],
}

-- A row that is kept, or that is replaced by one at the next version.
pub record Later (cfg cfg' : FlagEnvironmentConfig) : Type 0 where
  pub grows : cfg.version ≤ cfg'.version
  pub same : cfg.version ≡ cfg'.version → cfg ≡ cfg'

Later-refl : (cfg : FlagEnvironmentConfig) → Later cfg cfg
Later-refl cfg = record { grows = omega arith; same = λ e. refl }

Later-trans : (a b c : FlagEnvironmentConfig) → Later a b → Later b c → Later a c
Later-trans a b c h k = record {
  grows = omega arith;
  same = λ e.
      h.same (let l = h.grows in let m = k.grows in omega arith)
      ∙ k.same (let l = h.grows in let m = k.grows in omega arith);
}

flushed_config-Later :
    ⦃E : Engine⦄ (c : Context) (b : FlagConfigUpdate) (cfg : FlagEnvironmentConfig)
    → Later cfg (flushed_config cfg (apply_update c b cfg))
unfolding apply_update flushed_config
flushed_config-Later c b cfg = record { grows = omega arith; same = λ e. absurd (omega arith) }

flushed_config_pk :
    ⦃E : Engine⦄ (c : Context) (b : FlagConfigUpdate) (cfg : FlagEnvironmentConfig)
    → flag_config_pk cfg ≡ flag_config_pk (flushed_config cfg (apply_update c b cfg))
unfolding apply_update flushed_config
flushed_config_pk c b cfg = refl

other_pair : (f e : ℕ) (k : ℕ × ℕ) → f ≢ k.0 → pair_eq (f, e) k ≡ false
other_pair f e (a, b) ne = ground arith

module _ ⦃E : Engine⦄ where
  open E use {Table}

  -- The row of a key afterwards.
  abbrev Next : ℕ × ℕ → FlagEnvironmentConfig → Table flag_config_pk → Type 0
  Next k cfg t = (cfg' : FlagEnvironmentConfig) × (E.get k t ≡ some cfg') × Later cfg cfg'

  -- New defaults for a flag other than that of the row.
  add_defaults_other :
      (c : Context) (f : ℕ) (k : ℕ × ℕ) (envs : List Environment) (t : Table flag_config_pk)
      → f ≢ k.0
      → E.get k (add_defaults c f envs t) ≡ E.get k t
  unfolding add_defaults
  add_defaults_other c f k [] t ne = refl
  add_defaults_other c f k (env ∷ envs) t ne =
      add_defaults_other c f k envs (E.add (default_config c f env.id) t) ne
      ∙ E.get-add k (default_config c f env.id) t
      ∙ rw (other_pair f env.id k ne) refl

  -- The write of an update meets the row of its own key and no other.
  updated-Next :
      (c : Context) (b : FlagConfigUpdate) (j : ℕ × ℕ) (before : FlagEnvironmentConfig)
      (t : Table flag_config_pk)
      → E.get j t ≡ some before
      → (k : ℕ × ℕ) (cfg : FlagEnvironmentConfig) → E.get k t ≡ some cfg
      → Next k cfg (E.add (flushed_config before (apply_update c b before)) t)
  updated-Next c b j before t stored k cfg at =
      let after = flushed_config before (apply_update c b before) in
      elim (Bool-cases (pair_eq (flag_config_pk after) k)) [
        | inl same ↦
            let here : j ≡ k =
              sym (E.get_pk j before t stored)
              ∙ flushed_config_pk c b before
              ∙ (pair_eq_iff (flag_config_pk after) k).0 same in
            let is : before ≡ cfg =
              some-injective before cfg (sym stored ∙ ap (λ (i : ℕ × ℕ). E.get i t) here ∙ at) in
            (
              after,
              E.get-add k after t ∙ rw same refl,
              subst (λ x. Later x after) is (flushed_config-Later c b before),
            )
        | inr other ↦ (cfg, E.get-add k after t ∙ rw other at, Later-refl cfg)
      ]

  Step-Later :
      {c : Context} {d d' : Database} {sent : List (String × ℕ)}
      → Step c d sent d'
      → IsConsistent d
      → (k : ℕ × ℕ) (cfg : FlagEnvironmentConfig) → E.get k d.flag_configs ≡ some cfg
      → Next k cfg d'.flag_configs
  Step-Later Step.unchanged h k cfg at = (cfg, at, Later-refl cfg)
  Step-Later (Step.project_created b named fresh free) h k cfg at = (cfg, at, Later-refl cfg)
  Step-Later (Step.environment_created project b named there fresh free) h k cfg at =
      (cfg, at, Later-refl cfg)
  Step-Later {c} {d} (Step.flag_created project b good there fresh free) h k cfg at =
      let owner = h.flag_configs k cfg at in
      let key = E.get_pk k cfg d.flag_configs at in
      let ne : c.uuid ≢ k.0 = λ same.
        let gone : E.get cfg.flag_id d.flags ≡ none =
          rw (ap (λ (j : ℕ × ℕ). j.0) key ∙ sym same) fresh in
        cc (sym gone ∙ owner.flag_stored) in
      (cfg, add_defaults_other c c.uuid k _ d.flag_configs ne ∙ at, Later-refl cfg)
  Step-Later {c} {d}
        (Step.flag_config_updated project flag env before b sent here there in_project stored
          accepted indices out)
        h k cfg at =
      updated-Next c b (flag.id, env.id) before d.flag_configs stored k cfg at
  Step-Later (Step.segment_created project b named there fresh free) h k cfg at =
      (cfg, at, Later-refl cfg)
  Step-Later
        (Step.segment_config_updated project seg env found b sent here there in_project stored
          accepted out)
        h k cfg at =
      (cfg, at, Later-refl cfg)
  Step-Later (Step.credential_issued project env b here fresh) h k cfg at =
      (cfg, at, Later-refl cfg)
  Step-Later (Step.credential_revoked project env cred here there at_env active) h k cfg at =
      (cfg, at, Later-refl cfg)

  Outcome-Later :
      {c : Context} {v : Server} {o : Result Reply × Server}
      → Outcome c v o
      → IsConsistent v.database
      → (k : ℕ × ℕ) (cfg : FlagEnvironmentConfig) → E.get k v.flag_configs ≡ some cfg
      → IsConsistent o.1.database × Next k cfg o.1.flag_configs
  Outcome-Later (refused e) h k cfg at = (h, (cfg, at, Later-refl cfg))
  Outcome-Later (carried_out reply step) h k cfg at =
      (Step-IsConsistent step h, Step-Later step h k cfg at)

  -- On a server whose tables are consistent, a stored flag configuration stays stored under its key
  -- whatever requests are taken; its version never falls, and while the version is the same, so is
  -- the whole configuration.
  pub serve-Later :
      ⦃p : Pydantic⦄ (collates : String → String → Bool) (rs : List (Context × Request))
      (v : Server)
      → IsConsistent v.database
      → (k : ℕ × ℕ) (cfg : FlagEnvironmentConfig) → E.get k v.flag_configs ≡ some cfg
      → (cfg' : FlagEnvironmentConfig) × (E.get k (serve collates rs v).flag_configs ≡ some cfg')
        × Later cfg cfg'
  unfolding serve
  serve-Later collates [] v h k cfg at = (cfg, at, Later-refl cfg)
  serve-Later collates ((c, r) ∷ rs) v h k cfg at =
      let (h', next) = Outcome-Later (handle-Outcome collates c r v) h k cfg at in
      let (cfg', at', later) = next in
      let (last, at_last, later') =
        serve-Later collates rs (handle collates c r v).1 h' k cfg' at' in
      (last, at_last, Later-trans cfg cfg' last later later')
