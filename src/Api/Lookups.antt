-- ===== src/Api/Lookups.antt =====
-- The lookups of control-plane/app/api/_common.py at the head of a handler: how a handler goes on
-- where the row is there or is missing, and what a handler that returned has found.
use feature_flags.Base.{ℕ, String, ◌≡◌, none, some, id_key, text_key}
use feature_flags.Models.{Project, Environment, Flag, Segment}
use feature_flags.Store.Engine.{Engine}
use feature_flags.Store.Session.{Transaction, Action, ok, err, ◌>>=◌}
use feature_flags.Store.Actions.{or_raise-ok, or_raise-some, or_raise-none}
use feature_flags.Api.Common.{
  has_key, is_environment, is_flag, is_segment, get_project, get_environment, get_flag, get_segment,
  missing,
}

module _ ⦃E : Engine⦄ {B : Type 0} where
  module _ (key : String) (f : Project → Action B) (s : Transaction) where
    pub get_project_found :
        (r : Project)
        → E.scalar (has_key key) s.projects ≡ some r
        → (get_project key >>= f) s ≡ f r s
    unfolding get_project
    get_project_found r e = or_raise-some _ (missing "project" key) f s r e

    pub get_project-missing :
        E.scalar (has_key key) s.projects ≡ none
        → (get_project key >>= f) s ≡ (err (missing "project" key), s)
    unfolding get_project
    get_project-missing e = or_raise-none _ (missing "project" key) f s e

    pub get_project-ok :
        {b : B} {s' : Transaction}
        → (get_project key >>= f) s ≡ (ok b, s')
        → (r : Project) × (E.scalar (has_key key) s.projects ≡ some r) × (f r s ≡ (ok b, s'))
    unfolding get_project
    get_project-ok h = or_raise-ok (E.scalar (has_key key) s.projects) (missing "project" key) f s h

  module _ (project_id : ℕ) (key : String) (f : Environment → Action B) (s : Transaction) where
    pub get_environment_found :
        (r : Environment)
        → E.scalar (is_environment project_id key) s.environments ≡ some r
        → (get_environment project_id key >>= f) s ≡ f r s
    unfolding get_environment
    get_environment_found r e = or_raise-some _ (missing "environment" key) f s r e

    pub get_environment-missing :
        E.scalar (is_environment project_id key) s.environments ≡ none
        → (get_environment project_id key >>= f) s ≡ (err (missing "environment" key), s)
    unfolding get_environment
    get_environment-missing e = or_raise-none _ (missing "environment" key) f s e

    pub get_environment-ok :
        {b : B} {s' : Transaction}
        → (get_environment project_id key >>= f) s ≡ (ok b, s')
        → (r : Environment) × (E.scalar (is_environment project_id key) s.environments ≡ some r)
          × (f r s ≡ (ok b, s'))
    unfolding get_environment
    get_environment-ok h =
        or_raise-ok (E.scalar (is_environment project_id key) s.environments)
          (missing "environment" key) f s h

  module _ (project_id : ℕ) (key : String) (f : Flag → Action B) (s : Transaction) where
    pub get_flag_found :
        (r : Flag)
        → E.scalar (is_flag project_id key) s.flags ≡ some r
        → (get_flag project_id key >>= f) s ≡ f r s
    unfolding get_flag
    get_flag_found r e = or_raise-some _ (missing "flag" key) f s r e

    pub get_flag-missing :
        E.scalar (is_flag project_id key) s.flags ≡ none
        → (get_flag project_id key >>= f) s ≡ (err (missing "flag" key), s)
    unfolding get_flag
    get_flag-missing e = or_raise-none _ (missing "flag" key) f s e

    pub get_flag-ok :
        {b : B} {s' : Transaction}
        → (get_flag project_id key >>= f) s ≡ (ok b, s')
        → (r : Flag) × (E.scalar (is_flag project_id key) s.flags ≡ some r) × (f r s ≡ (ok b, s'))
    unfolding get_flag
    get_flag-ok h =
        or_raise-ok (E.scalar (is_flag project_id key) s.flags) (missing "flag" key) f s h

  module _ (project_id : ℕ) (key : String) (f : Segment → Action B) (s : Transaction) where
    pub get_segment_found :
        (r : Segment)
        → E.scalar (is_segment project_id key) s.segments ≡ some r
        → (get_segment project_id key >>= f) s ≡ f r s
    unfolding get_segment
    get_segment_found r e = or_raise-some _ (missing "segment" key) f s r e

    pub get_segment-missing :
        E.scalar (is_segment project_id key) s.segments ≡ none
        → (get_segment project_id key >>= f) s ≡ (err (missing "segment" key), s)
    unfolding get_segment
    get_segment-missing e = or_raise-none _ (missing "segment" key) f s e

    pub get_segment-ok :
        {b : B} {s' : Transaction}
        → (get_segment project_id key >>= f) s ≡ (ok b, s')
        → (r : Segment) × (E.scalar (is_segment project_id key) s.segments ≡ some r)
          × (f r s ≡ (ok b, s'))
    unfolding get_segment
    get_segment-ok h =
        or_raise-ok (E.scalar (is_segment project_id key) s.segments) (missing "segment" key) f s h

-- A lookup that is a whole handler.
module _ ⦃E : Engine⦄ where
  pub get_project_at :
      (key : String) (s : Transaction) (r : Project)
      → E.scalar (has_key key) s.projects ≡ some r
      → get_project key s ≡ (ok r, s)
  unfolding get_project
  get_project_at key s r e = rw e
