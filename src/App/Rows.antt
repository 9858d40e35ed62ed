-- ===== src/App/Rows.antt =====
-- The rows that the handlers of control-plane/app/api write are well formed.
use feature_flags.Api.Flags.Handlers.{dump_variation, flag_of, add_defaults}
use feature_flags.Models.{flag_config_pk, Environment, environment_pk, flag_pk, Flag}
use feature_flags.Schemas.Dump.{dump_choice, dump_fallthrough}
use feature_flags.Api.Flags.Config.{default_config}
use feature_flags.Schemas.Flag.{FlagConfigUpdate}
use feature_flags.Store.Engine.{Engine}
use feature_flags.Store.Session.{Context}
use feature_flags.App.Consistent.{IsTargeting, IsFlag, ConfigIn}
use feature_flags.Store.Relations.{NoRow, AllRows, AllRows-add}
use feature_flags.Schemas.FlagCreate.{FlagCreate, IsFlagCreate}
use feature_flags.Base.{
  Elem, suc, arith, ap, ◌∷◌, ◌≤◌, pos, map, Bool, ℕ, length, [], List, some, none, true, false, ◌≡◌,
  id_key, pair_key, text_key, inl, inr, refl,
}

-- A list as long as another one.
pub length-map : {A B : Type 0} (f : A → B) (l : List A) → length (map f l) ≡ length l
length-map f [] = refl
length-map f (x ∷ l) = ap suc (length-map f l)

pub flag_of-IsFlag :
    (c : Context) (project_id : ℕ) (b : FlagCreate)
    → IsFlagCreate b
    → IsFlag (flag_of c project_id b)
flag_of-IsFlag c project_id b h = record {
  body = b.variations;
  names = h.names;
  variations = refl;
  enough = h.variations;
  boolean = h.boolean;
}

-- The request that would store what a new configuration holds.
abbrev default_body : FlagConfigUpdate
default_body = record {
  enabled = false;
  targets = [];
  rules = [];
  fallthrough = record { variation = some (pos 0); rollout = none };
  off_variation = pos 0;
  prerequisites = [];
}

pub default_config-IsTargeting :
    (c : Context) (f e n : ℕ) → 2 ≤ n → IsTargeting n (default_config c f e)
unfolding dump_fallthrough dump_choice
default_config-IsTargeting c f e n h = record {
  body = default_body;
  accepted = omega arith;
  indices = omega arith;
  targets = refl;
  rules = refl;
  fallthrough = refl;
  off_variation = refl;
  prerequisites = refl;
}

module _ ⦃E : Engine⦄ where
  open E use {Table}

  -- No stored row has the key of the new one.
  pub alone :
      {Row : Type 0} {pk : Row → ℕ} (R : Row → Row → Type 0) (test : Row → Bool) (r : Row)
      (t : Table pk)
      → NoRow test t
      → ((q : Row) → R q r → test q ≡ true)
      → (k : ℕ) (q : Row) → E.get k t ≡ some q
      → ¬ R q r
  alone R test r t free covers k q at rel =
      let refused = free k q at in let passed = covers q rel in cc

  -- A stored flag has as many variations as its body.
  pub enough_variations : (f : Flag) → IsFlag f → 2 ≤ length f.variations
  enough_variations f h = rw (h.variations, length-map dump_variation h.body) h.enough

  pub add_defaults-ConfigIn :
      (c : Context) (f : ℕ) (flags : Table flag_pk) (environments : Table environment_pk)
      (envs : List Environment) (t : Table flag_config_pk)
      → ((env : Environment)
          → Elem env envs
          → ConfigIn flags environments (default_config c f env.id))
      → AllRows (ConfigIn flags environments) t
      → AllRows (ConfigIn flags environments) (add_defaults c f envs t)
  unfolding add_defaults
  add_defaults-ConfigIn c f flags environments [] t new h = h
  add_defaults-ConfigIn c f flags environments (env ∷ envs) t new h =
      add_defaults-ConfigIn c f flags environments envs (E.add (default_config c f env.id) t)
        (λ e m. new e (inr m))
        (AllRows-add (ConfigIn flags environments) (default_config c f env.id) t
          (new env (inl refl)) h)
