-- ===== src/Startup/Process.antt =====
-- What `create_app` of control-plane/app/main.py sets up in the process: the engine of
-- control-plane/app/db.py, the backend of control-plane/app/services/notify.py and the levels of
-- control-plane/app/logging_setup.py.
use feature_flags.Base.{Bool, false, not, Option, none, some, ◌==◌, text_key}
use feature_flags.Json.{Json, text}
use feature_flags.Startup.Config.{Config, DatabaseConfig, LoggingConfig}

pub record Process : Type 0 where
  -- the settings of `_SessionFactory`, if `init_engine` ran
  pub engine : Option DatabaseConfig
  pub notify_backend : Json
  -- what `logging.basicConfig` is called with
  pub logging : Option LoggingConfig
  -- whether the log of SQLAlchemy is held at WARNING
  pub quiet_engine : Bool

-- The module globals before `create_app`.
abbrev pub imported : Process
imported = record {
  engine = none;
  notify_backend = text "log";
  logging = none;
  quiet_engine = false;
}

-- `cfg.level != "DEBUG"`
abbrev pub is_debug : Json → Bool
is_debug (text s) = s == "DEBUG"
is_debug _ = false

unfoldable pub configure_logging : LoggingConfig → Process → Process
configure_logging cfg p = record p { logging = some cfg; quiet_engine = not (is_debug cfg.level) }

unfoldable pub init_engine : DatabaseConfig → Process → Process
init_engine cfg p = record p { engine = some cfg }

-- `notify.configure`
unfoldable pub configure : Json → Process → Process
configure backend p = record p { notify_backend = backend }

unfoldable pub create_app : Config → Process → Process
create_app cfg p =
    configure cfg.notify_backend (init_engine cfg.database (configure_logging cfg.logging p))
