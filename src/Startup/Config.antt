-- ===== src/Startup/Config.antt =====
-- control-plane/app/config.py: the configuration from a YAML document and the environment. The
-- document is the value that `yaml.safe_load` returns; `none` is an exception, such as the
-- `KeyError` of a key that the document lacks.
use Prim.Native.String.{◌++◌}
use feature_flags.Base.{ℤ, String, ◌≡◌, Option, none, some, ◌==◌, text_key, if◌then◌else◌}
use feature_flags.Base.Maybe.{◌>>=◌}
use feature_flags.Json.{Json, number, text, object, get_field}

-- What Python does with a value of the document: `int(v)`, and its text in an f-string.
pub record Python : Type 0 where
  pub int_of : Json → Option ℤ
  pub str_of : Json → String
  pub int_of-number : (n : ℤ) → int_of (number n) ≡ some n
  pub str_of-text : (s : String) → str_of (text s) ≡ s

-- `os.getenv(name)`
abbrev pub Env : Type 0
Env = String → Option String

-- `v[key]`
unfoldable pub index : String → Json → Option Json
index key (object fs) = get_field key fs
index key _ = none

pub record ServerConfig : Type 0 where
  pub host : Json
  pub port : ℤ

pub record DatabaseConfig : Type 0 where
  pub url : String
  pub pool_size : ℤ

pub record LoggingConfig : Type 0 where
  pub level : Json
  pub format : Json

pub record Config : Type 0 where
  pub server : ServerConfig
  pub database : DatabaseConfig
  pub logging : LoggingConfig
  pub notify_backend : Json

-- `os.getenv(name, default)`
abbrev pub or_default : Option String → Json → Json
or_default none default = default
or_default (some s) default = text s

module _ (python : Python) (env : Env) where
  open python use {int_of, str_of}

  abbrev pub getenv : String → Json → Json
  getenv name default = or_default (env name) default

  -- `f"{db['user']}:{password}" if password else db["user"]`
  abbrev pub auth_part : String → String → String
  auth_part user password = if password == "" then user else user ++ ":" ++ password

  abbrev pub password_or_empty : Option String → String
  password_or_empty none = ""
  password_or_empty (some s) = s

  -- The assembled URL, where `DATABASE_URL` is not set or empty.
  unfoldable pub assembled_url : Json → Option String
  assembled_url db = do
    user ← index "user" db
    host ← index "host" db
    port ← index "port" db
    name ← index "name" db
    let auth = auth_part (str_of user) (password_or_empty (env "DATABASE_PASSWORD"))
    some (
        "postgresql+psycopg://"
        ++ auth
        ++ "@"
        ++ str_of host
        ++ ":"
        ++ str_of port
        ++ "/"
        ++ str_of name)

  -- `if url := os.getenv("DATABASE_URL")`: an empty text counts as unset.
  abbrev pub given_or : Option String → Option String → Option String
  given_or none assembled = assembled
  given_or (some url) assembled = if url == "" then assembled else some url

  unfoldable pub build_database_url : Json → Option String
  build_database_url db = given_or (env "DATABASE_URL") (assembled_url db)

  unfoldable pub load_config : Json → Option Config
  load_config raw = do
    srv ← index "server" raw
    db ← index "database" raw
    log ← index "logging" raw
    host ← index "host" srv
    port_value ← index "port" srv
    port ← int_of (getenv "FUBO_FLAGS_PORT" port_value)
    url ← build_database_url db
    pool_value ← index "pool_size" db
    pool_size ← int_of (getenv "FUBO_FLAGS_DB_POOL" pool_value)
    level ← index "level" log
    format ← index "format" log
    notify ← index "notify" raw
    backend ← index "backend" notify
    some (record {
      server = record { host = getenv "FUBO_FLAGS_HOST" host; port = port };
      database = record { url = url; pool_size = pool_size };
      logging = record { level = getenv "FUBO_FLAGS_LOG_LEVEL" level; format = format };
      notify_backend = getenv "FUBO_FLAGS_NOTIFY" backend;
    })
