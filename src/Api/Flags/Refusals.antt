-- ===== src/Api/Flags/Refusals.antt =====
-- Updates that control-plane/app/api/flags.py refuses although their bodies were accepted.
use feature_flags.Api.Flags.Replies.{get_config_found}
use feature_flags.Api.Flags.Indices.{validate_indices}
use feature_flags.Api.Flags.IndexLaws.{validate_indices_iff, references, Exists}
use feature_flags.Models.{FlagEnvironmentConfig}
use feature_flags.Api.Flags.Handlers.{replace_config, update_flag_config, is_empty}
use feature_flags.Schemas.Flag.{FlagConfigUpdate}
use feature_flags.Schemas.Pydantic.{Pydantic}
use feature_flags.Store.Engine.{Engine}
use feature_flags.Base.{
  ◌∙◌, length, All, true, not, String, List, some, ◌≡◌, refl, id_key, text_key, pair_key, ◌∷◌, [],
  ◌≢◌,
}
use feature_flags.Api.Flags.Update.{Located}
use feature_flags.Store.Actions.{raise_if-true}
use feature_flags.Store.Session.{index_out_of_range, http_exception, Transaction, err, Context}
use feature_flags.Api.Lookups.{get_project_found, get_flag_found, get_environment_found}

not-is_empty : (bad : List String) → bad ≢ [] → not (is_empty bad) ≡ true
not-is_empty [] h = absurd (h refl)
not-is_empty (x ∷ bad) h = refl

module _ ⦃E : Engine⦄ ⦃p : Pydantic⦄ (c : Context) (project_key flag_key env_key : String)
    (body : FlagConfigUpdate) (s : Transaction) where
  -- Where the rows are stored and the request names an index that is none of the flag's variations,
  -- an update is answered with 422 and at least one complaint, and nothing is written.
  pub update_flag_config_refused :
      (at : Located project_key flag_key env_key s) (before : FlagEnvironmentConfig)
      → E.get (at.flag.id, at.env.id) s.flag_configs ≡ some before
      → ¬ All (Exists (length at.flag.variations)) (references body)
      → (bad : List String) × (bad ≢ [])
        × (update_flag_config c project_key flag_key env_key body s
            ≡ (err (http_exception 422 (index_out_of_range bad)), s))
  unfolding update_flag_config replace_config
  update_flag_config_refused at before stored wrong =
      let bad = validate_indices body (length at.flag.variations) in
      let some_bad : bad ≢ [] =
        λ none_bad. wrong ((validate_indices_iff body (length at.flag.variations)).0 none_bad) in
      (
        bad,
        some_bad,
        get_project_found project_key _ s at.project at.project_found
            ∙ get_flag_found at.project.id flag_key _ s at.flag at.flag_found
            ∙ get_environment_found at.project.id env_key _ s at.env at.env_found
            ∙ get_config_found at.flag.id at.env.id _ s before stored
            ∙ raise_if-true (not (is_empty bad)) _ _ s (not-is_empty bad some_bad),
      )
