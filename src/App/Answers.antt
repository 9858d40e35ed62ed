-- ===== src/App/Answers.antt =====
-- How the GET handlers of control-plane/app/api answer on consistent tables: where they raise, it is
-- an error of the client.
use feature_flags.Api.Lookups.{
  get_segment_found, get_project_found, get_flag_found, get_environment_found, get_segment-missing,
  get_project-missing, get_flag-missing, get_environment-missing,
}
use feature_flags.Api.Common.{
  missing, get_segment, get_project, get_flag, get_environment, is_segment, is_flag, is_environment,
  has_key,
}
use mathlib.Core.Path.{subst}
use feature_flags.Models.{
  SegmentEnvironmentConfig, Segment, Project, FlagEnvironmentConfig, Flag, Environment,
}
use feature_flags.Api.Segments.{no_segment_config, get_segment_row}
use feature_flags.Api.Flags.Handlers.{no_config, get_config}
use feature_flags.Store.Engine.{Engine}
use feature_flags.Store.Session.{
  pure, continue, or_raise, ◌>>=◌, ok, err, Action, Error, status, Result, Transaction,
}
use feature_flags.Store.Actions.{or_raise-some, or_raise-none}
use feature_flags.Base.{
  Option-cases, ◌⊎◌, ℕ, String, Option, some, ◌≡◌, refl, inl, inr, id_key, text_key, pair_key,
}

-- A resource that is missing, or a query that is refused.
abbrev pub IsClientError : Error → Type 0
IsClientError e = (status e ≡ 404) ⊎ (status e ≡ 422)

err_injective : {A : Type 0} (e x : Error) → ◌≡◌ {A = Result A} (err e) (err x) → e ≡ x
err_injective e x h = cc

module _ ⦃E : Engine⦄ where
  pub record Answers {A : Type 0} (o : Result A × Transaction) : Type 0 where
    pub at : (e : Error) → o.0 ≡ err e → IsClientError e

  pub Answers-ok : {A : Type 0} (a : A) (s : Transaction) → Answers (ok a, s)
  Answers-ok a s = record { at = λ e h. cc }

  pub Answers-err :
      {A : Type 0} (e : Error) (s : Transaction) → IsClientError e → Answers {A = A} (err e, s)
  Answers-err {A} e s h = record { at = λ x same. subst IsClientError (err_injective e x same) h }

  pub Answers-bind :
      {A B : Type 0} (m : Action A) (f : A → Action B) (s : Transaction)
      → Answers (m s)
      → ((a : A) (t : Transaction) → m s ≡ (ok a, t) → Answers (f a t))
      → Answers ((m >>= f) s)
  Answers-bind {A} {B} m f s h k = go (m s) refl h
    where
      go : (o : Result A × Transaction) → m s ≡ o → Answers o → Answers (continue o.0 f o.1)
      go (ok a, t) ran g = k a t ran
      go (err e, t) ran g = Answers-err e t (g.at e refl)

  pub Answers-pure :
      {A B : Type 0} (m : Action A) (f : A → B) (s : Transaction)
      → Answers (m s)
      → Answers ((m >>= λ a. pure (f a)) s)
  Answers-pure m f s h = Answers-bind m (λ a. pure (f a)) s h λ a t ran. Answers-ok (f a) t

  -- The end of a handler that shows a row which can be shown.
  pub Answers-shown :
      {A : Type 0} (o : Option A) (e : Error) (s : Transaction)
      → (a : A) × (o ≡ some a)
      → Answers (or_raise o e s)
  Answers-shown o e s (a, h) = rw h (Answers-ok a s)

  module _ {B : Type 0} (s : Transaction) where
    pub project-Answers :
        (key : String) (f : Project → Action B)
        → ((r : Project) → E.scalar (has_key key) s.projects ≡ some r → Answers (f r s))
        → Answers ((get_project key >>= f) s)
    project-Answers key f h = elim (Option-cases (E.scalar (has_key key) s.projects)) [
      | inl gone ↦
          rw (get_project-missing key f s gone) (Answers-err (missing "project" key) s (inl refl))
      | inr (r, found) ↦ rw (get_project_found key f s r found) (h r found)
    ]

    pub environment-Answers :
        (project_id : ℕ) (key : String) (f : Environment → Action B)
        → ((r : Environment)
            → E.scalar (is_environment project_id key) s.environments ≡ some r
            → Answers (f r s))
        → Answers ((get_environment project_id key >>= f) s)
    environment-Answers project_id key f h =
        elim (Option-cases (E.scalar (is_environment project_id key) s.environments)) [
          | inl gone ↦
              rw (get_environment-missing project_id key f s gone)
                (Answers-err (missing "environment" key) s (inl refl))
          | inr (r, found) ↦ rw (get_environment_found project_id key f s r found) (h r found)
        ]

    pub flag-Answers :
        (project_id : ℕ) (key : String) (f : Flag → Action B)
        → ((r : Flag) → E.scalar (is_flag project_id key) s.flags ≡ some r → Answers (f r s))
        → Answers ((get_flag project_id key >>= f) s)
    flag-Answers project_id key f h =
        elim (Option-cases (E.scalar (is_flag project_id key) s.flags)) [
          | inl gone ↦
              rw (get_flag-missing project_id key f s gone)
                (Answers-err (missing "flag" key) s (inl refl))
          | inr (r, found) ↦ rw (get_flag_found project_id key f s r found) (h r found)
        ]

    pub segment-Answers :
        (project_id : ℕ) (key : String) (f : Segment → Action B)
        → ((r : Segment)
            → E.scalar (is_segment project_id key) s.segments ≡ some r
            → Answers (f r s))
        → Answers ((get_segment project_id key >>= f) s)
    segment-Answers project_id key f h =
        elim (Option-cases (E.scalar (is_segment project_id key) s.segments)) [
          | inl gone ↦
              rw (get_segment-missing project_id key f s gone)
                (Answers-err (missing "segment" key) s (inl refl))
          | inr (r, found) ↦ rw (get_segment_found project_id key f s r found) (h r found)
        ]

    pub config-Answers :
        (flag_id env_id : ℕ) (f : FlagEnvironmentConfig → Action B)
        → ((cfg : FlagEnvironmentConfig)
            → E.get (flag_id, env_id) s.flag_configs ≡ some cfg
            → Answers (f cfg s))
        → Answers ((get_config flag_id env_id >>= f) s)
    unfolding get_config
    config-Answers flag_id env_id f h =
        elim (Option-cases (E.get (flag_id, env_id) s.flag_configs)) [
          | inl gone ↦ rw (or_raise-none _ no_config f s gone) (Answers-err no_config s (inl refl))
          | inr (r, found) ↦ rw (or_raise-some _ no_config f s r found) (h r found)
        ]

    pub segment_row-Answers :
        (segment_id env_id : ℕ) (f : SegmentEnvironmentConfig → Action B)
        → ((cfg : SegmentEnvironmentConfig)
            → E.get (segment_id, env_id) s.segment_configs ≡ some cfg
            → Answers (f cfg s))
        → Answers ((get_segment_row segment_id env_id >>= f) s)
    unfolding get_segment_row
    segment_row-Answers segment_id env_id f h =
        elim (Option-cases (E.get (segment_id, env_id) s.segment_configs)) [
          | inl gone ↦
              rw (or_raise-none _ no_segment_config f s gone)
                (Answers-err no_segment_config s (inl refl))
          | inr (r, found) ↦ rw (or_raise-some _ no_segment_config f s r found) (h r found)
        ]
