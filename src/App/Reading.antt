-- ===== src/App/Reading.antt =====
-- Each GET request on consistent tables is answered, or refused as an error of the client.
use feature_flags.App.Responses.{flag_out}
use feature_flags.Base.Maybe.{is_none, traverse}
use feature_flags.Store.Actions.{or_raise_last}
use feature_flags.Api.Lookups.{get_project-ok}
use feature_flags.Api.Flags.Config.{config_out}
use feature_flags.Models.{Flag}
use feature_flags.Api.Credentials.{list_credentials}
use feature_flags.Api.Audit.{is_limit, list_audit}
use feature_flags.Api.Segments.{segment_config_out, list_segments, get_segment_config}
use feature_flags.Api.Projects.{list_projects, list_environments, get_one_project}
use feature_flags.Api.Flags.Handlers.{list_flags, get_one_flag, get_flag_config}
use feature_flags.Api.Common.{missing, is_flag, has_key, get_project, get_flag}
use feature_flags.Store.Session.{
  request_validation_error, or_raise, begin, err, response_validation_error, ok, finish, Context,
  Error, Result, get_session, Server, Transaction,
}
use feature_flags.Schemas.Pydantic.{Pydantic}
use feature_flags.Store.Engine.{Engine}
use feature_flags.App.Consistent.{IsFlag, IsConsistent}
use feature_flags.App.Shown.{
  config_out-IsTargeting, segment_config_out-IsMembership, flag_out-IsFlag, all_shown-perm,
  all_shown-of_Elem, traverse-all_shown, all_shown,
}
use feature_flags.App.Answers.{
  Answers-err, IsClientError, Answers, Answers-ok, Answers-bind, Answers-pure, Answers-shown,
  project-Answers, environment-Answers, flag-Answers, segment-Answers, config-Answers,
  segment_row-Answers,
}
use feature_flags.App.Requests.{
  limit_or_default, segment_config_reply, flag_config_reply, flag_reply, flags_reply, project_reply,
  Request, handle, route, is_get,
}
use feature_flags.Base.{
  ◌∙◌, sym, ◌&&◌, ap, ◌==◌, not, List, Bool-cases, ℤ, Option-cases, Bool, ℕ, String, ◌≡◌, refl, inl,
  inr, id_key, text_key, pair_key, true,
}

module _ ⦃E : Engine⦄ (s : Transaction) where
  get_project-Answers : (key : String) → Answers (get_project key s)
  unfolding get_project
  get_project-Answers key = elim (Option-cases (E.scalar (has_key key) s.projects)) [
    | inl gone ↦ rw gone (Answers-err (missing "project" key) s (inl refl))
    | inr (r, found) ↦ rw found (Answers-ok r s)
  ]

  get_flag-Answers : (project_id : ℕ) (key : String) → Answers (get_flag project_id key s)
  unfolding get_flag
  get_flag-Answers project_id key =
      elim (Option-cases (E.scalar (is_flag project_id key) s.flags)) [
        | inl gone ↦ rw gone (Answers-err (missing "flag" key) s (inl refl))
        | inr (r, found) ↦ rw found (Answers-ok r s)
      ]

  list_audit-Answers : (key : String) (limit : ℤ) → Answers (list_audit key limit s)
  unfolding list_audit
  list_audit-Answers key limit = elim (Bool-cases (not (is_limit limit))) [
    | inl bad ↦ rw bad (Answers-err request_validation_error s (inr refl))
    | inr good ↦ rw good (project-Answers s key _ λ r found. Answers-ok _ s)
  ]

  list_environments-Answers :
      (collates : String → String → Bool) (key : String)
      → Answers (list_environments collates key s)
  unfolding list_environments
  list_environments-Answers collates key = project-Answers s key _ λ r found. Answers-ok _ s

  list_segments-Answers :
      (collates : String → String → Bool) (key : String) → Answers (list_segments collates key s)
  unfolding list_segments
  list_segments-Answers collates key = project-Answers s key _ λ r found. Answers-ok _ s

  list_credentials-Answers : (key env_key : String) → Answers (list_credentials key env_key s)
  unfolding list_credentials
  list_credentials-Answers key env_key =
      project-Answers s key _
        λ r found. environment-Answers s r.id env_key _ λ e there. Answers-ok _ s

  get_one_flag-Answers : (key flag_key : String) → Answers (get_one_flag key flag_key s)
  unfolding get_one_flag
  get_one_flag-Answers key flag_key =
      project-Answers s key _ λ r found. get_flag-Answers r.id flag_key

  list_flags-Answers :
      (collates : String → String → Bool) (key : String) → Answers (list_flags collates key s)
  unfolding list_flags
  list_flags-Answers collates key = project-Answers s key _ λ r found. Answers-ok _ s

  module _ ⦃p : Pydantic⦄ (h : IsConsistent s.tables) where
    get_flag_config-Answers :
        (key flag_key env_key : String) → Answers (get_flag_config key flag_key env_key s)
    unfolding get_flag_config
    get_flag_config-Answers key flag_key env_key = project-Answers s key _ λ r found.
        flag-Answers s r.id flag_key _ λ f _. environment-Answers s r.id env_key _ λ e _.
          config-Answers s f.id e.id _ λ cfg there.
            Answers-shown (config_out e.key cfg) response_validation_error s
              (config_out-IsTargeting _ e.key cfg (h.flag_configs (f.id, e.id) cfg there).targeting)

    get_segment_config-Answers :
        (key segment_key env_key : String) → Answers (get_segment_config key segment_key env_key s)
    unfolding get_segment_config
    get_segment_config-Answers key segment_key env_key = project-Answers s key _ λ r found.
        segment-Answers s r.id segment_key _ λ f _. environment-Answers s r.id env_key _ λ e _.
          segment_row-Answers s f.id e.id _ λ cfg there.
            Answers-shown (segment_config_out e.key cfg) response_validation_error s (
              segment_config_out-IsMembership e.key cfg
                (h.segment_configs (f.id, e.id) cfg there).membership)

    -- The flags that a list shows are stored.
    listed_shown :
        (collates : String → String → Bool) (key : String) {fs : List Flag} {t : Transaction}
        → list_flags collates key s ≡ (ok fs, t)
        → all_shown fs ≡ true
    unfolding list_flags
    listed_shown collates key {fs} {t} ran =
        let (project, _, rest) = get_project-ok key _ s ran in
        let test = λ (r : Flag). r.project_id == project.id && is_none r.archived_at in
        let rows : List Flag = E.scalars test s.flags in
        let same : E.order_by (λ a b. collates a.key b.key) rows ≡ fs =
          cc (ap (λ (o : Result (List Flag) × Transaction). o.0) rest) in
        ap all_shown (sym same)
        ∙ all_shown-perm (E.order_by-perm (λ a b. collates a.key b.key) rows)
        ∙ all_shown-of_Elem rows
            λ f m. flag_out-IsFlag f (h.flags f.id f (E.scalars_sound test f s.flags m).1)

    flag_found_IsFlag :
        (key flag_key : String) {f : Flag} {t : Transaction}
        → get_one_flag key flag_key s ≡ (ok f, t)
        → IsFlag f
    unfolding get_one_flag get_flag
    flag_found_IsFlag key flag_key {f} {t} ran =
        let (project, _, rest) = get_project-ok key _ s ran in
        let (found, _) =
          or_raise_last (E.scalar (is_flag project.id flag_key) s.flags) (missing "flag" flag_key) s
            rest in
        h.flags f.id f (E.scalar_some (is_flag project.id flag_key) f s.flags found).1

    -- Every GET request.
    route-Answers :
        (collates : String → String → Bool) (c : Context) (r : Request)
        → is_get r ≡ true
        → Answers (route collates c r s)
    unfolding route get_one_project list_projects
    route-Answers collates c Request.projects_get g = Answers-ok _ s
    route-Answers collates c (Request.project_get k) g =
        Answers-pure (get_project k) project_reply s (get_project-Answers k)
    route-Answers collates c (Request.environments_get k) g =
        Answers-pure (list_environments collates k) _ s (list_environments-Answers collates k)
    route-Answers collates c (Request.flags_get k) g =
        Answers-bind (list_flags collates k) _ s (list_flags-Answers collates k) λ fs t ran.
          Answers-pure (or_raise (traverse flag_out fs) response_validation_error) flags_reply t (
            Answers-shown (traverse flag_out fs) response_validation_error t
              (traverse-all_shown fs (listed_shown collates k ran)))
    route-Answers collates c (Request.flag_get k f) g =
        Answers-bind (get_one_flag k f) _ s (get_one_flag-Answers k f) λ flag t ran.
          Answers-pure (or_raise (flag_out flag) response_validation_error) flag_reply t (
            Answers-shown (flag_out flag) response_validation_error t
              (flag_out-IsFlag flag (flag_found_IsFlag k f ran)))
    route-Answers collates c (Request.flag_config_get k f e) g =
        Answers-pure (get_flag_config k f e) flag_config_reply s (get_flag_config-Answers k f e)
    route-Answers collates c (Request.segments_get k) g =
        Answers-pure (list_segments collates k) _ s (list_segments-Answers collates k)
    route-Answers collates c (Request.segment_config_get k f e) g =
        Answers-pure (get_segment_config k f e) segment_config_reply s
          (get_segment_config-Answers k f e)
    route-Answers collates c (Request.credentials_get k e) g =
        Answers-pure (list_credentials k e) _ s (list_credentials-Answers k e)
    route-Answers collates c (Request.audit_get k n) g =
        Answers-pure (list_audit k (limit_or_default n)) _ s
          (list_audit-Answers k (limit_or_default n))
    route-Answers collates c _ g = cc

module _ ⦃E : Engine⦄ ⦃p : Pydantic⦄ where
  finish_err :
      {A : Type 0} (v : Server) (o : Result A × Transaction) (e : Error) {w : Server}
      → finish v o ≡ (err e, w)
      → o.0 ≡ err e
  finish_err {A} v (ok a, t) e h = absurd (cc (ap (λ (r : Result A × Server). r.0) h))
  finish_err {A} v (err x, t) e h = ap (λ (r : Result A × Server). r.0) h

  -- On consistent tables a GET request is answered, or refused with 404 or 422: it is never an
  -- internal error.
  pub handle-IsClientError :
      (collates : String → String → Bool) (c : Context) (r : Request) (v : Server) {e : Error}
      {w : Server}
      → IsConsistent v.database
      → is_get r ≡ true
      → handle collates c r v ≡ (err e, w)
      → IsClientError e
  unfolding handle get_session
  handle-IsClientError collates c r v {e} h g refused =
      (route-Answers (begin v) h collates c r g).at e
        (finish_err v (route collates c r (begin v)) e refused)
