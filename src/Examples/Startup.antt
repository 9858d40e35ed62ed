-- ===== src/Examples/Startup.antt =====
-- The configuration: a document as control-plane/config.yaml has it, and the properties about it.
use feature_flags.Startup.Precedence.{load_config-no_default, load_config-Settings, Settings}
use feature_flags.Examples.Data.{text_of, int_of}
use feature_flags.Json.{number, field, end, text, object, Json}
use feature_flags.Startup.Config.{
  assembled_url, build_database_url, load_config, index, Python, Env, Config,
}
use feature_flags.Base.{inr, text_key, none, ◌≡◌, some, pos, ◌==◌, if◌then◌else◌, refl}

-- Numbers and texts as they are, nothing of anything else.
abbrev python : Python
python = record {
  int_of = int_of;
  str_of = λ j. elim (text_of j) [ none ↦ "" | some s ↦ s ];
  int_of-number = λ n. refl;
  str_of-text = λ s. refl;
}

abbrev notify_only : Env
notify_only name = if name == "FUBO_FLAGS_NOTIFY" then some "log" else none

abbrev document : Json → Json
document notify = object (
    field "server" (object (field "host" (text "0.0.0.0") (field "port" (number (pos 8080)) end))) (
      field "database"
        (object (
          field "host" (text "localhost") (
            field "port" (text "5432") (
              field "name" (text "flags")
                (field "user" (text "fubo") (field "pool_size" (number (pos 10)) end))))))
        (field "logging" (object (field "level" (text "INFO") (field "format" (text "json") end)))
          (field "notify" notify end))))

abbrev whole : Json
whole = document (object (field "backend" (text "postgres") end))

abbrev loaded : Config
loaded = record {
  server = record { host = text "0.0.0.0"; port = pos 8080 };
  database = record { url = "postgresql+psycopg://fubo@localhost:5432/flags"; pool_size = pos 10 };
  logging = record { level = text "INFO"; format = text "json" };
  notify_backend = text "log";
}

load_config-Settings_example : Settings python notify_only whole loaded
unfolding load_config build_database_url assembled_url index
load_config-Settings_example = load_config-Settings python notify_only whole loaded refl

-- `FUBO_FLAGS_NOTIFY` is set, but the document has no key `backend`.
load_config-no_default_example : load_config python notify_only (document (object end)) ≡ none
unfolding index
load_config-no_default_example =
    load_config-no_default python notify_only (document (object end)) (inr (inr (inr (inr refl))))
