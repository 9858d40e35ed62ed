-- ===== src/Startup/Precedence.antt =====
-- Where each setting of control-plane/app/config.py comes from.
use feature_flags.Base.Maybe.{◌>>=◌, Ensures, Ensures-bind, Ensures-some}
use feature_flags.Json.{Json}
use feature_flags.Base.{
  ◌⊎◌, ◌∙◌, sym, inr, inl, Option, String, Option-cases, some, none, ◌≡◌, refl,
}
use feature_flags.Startup.Config.{
  Python, Env, Config, index, getenv, load_config, build_database_url, or_default,
}
use feature_flags.Startup.Url.{IsUrl, build_database_url-IsUrl}

-- A path of two keys into the document.
abbrev pub setting : String → String → Json → Option Json
setting section key raw = do part ← index section raw; index key part

module _ (python : Python) (env : Env) (raw : Json) where
  open python use {int_of}

  -- A setting that the environment may override: the value of the document, unless the variable is
  -- set. The document has the key in either case.
  pub record Overrides (section key variable : String) (value : Json) : Type 0 where
    pub default : Json
    pub in_document : setting section key raw ≡ some default
    pub chosen : value ≡ or_default (env variable) default

  pub record Settings (cfg : Config) : Type 0 where
    pub host : Overrides "server" "host" "FUBO_FLAGS_HOST" cfg.server.host
    pub port :
        (v : Json) × (int_of v ≡ some cfg.server.port)
        × Overrides "server" "port" "FUBO_FLAGS_PORT" v
    pub pool_size :
        (v : Json) × (int_of v ≡ some cfg.database.pool_size)
        × Overrides "database" "pool_size" "FUBO_FLAGS_DB_POOL" v
    pub level : Overrides "logging" "level" "FUBO_FLAGS_LOG_LEVEL" cfg.logging.level
    pub format : setting "logging" "format" raw ≡ some cfg.logging.format
    pub notify_backend : Overrides "notify" "backend" "FUBO_FLAGS_NOTIFY" cfg.notify_backend
    pub url : (db : Json) × (index "database" raw ≡ some db) × IsUrl python env db cfg.database.url

  override :
      (section key variable : String) {part v : Json}
      → index section raw ≡ some part
      → index key part ≡ some v
      → Overrides section key variable (getenv python env variable v)
  override section key variable {v = v} here at = record {
    default = v;
    in_document = rw here at;
    chosen = refl;
  }

  load_config-Ensures : Ensures Settings (load_config python env raw)
  unfolding load_config
  load_config-Ensures = Ensures-bind (index "server" raw) _ λ srv es.
      Ensures-bind (index "database" raw) _ λ db ed. Ensures-bind (index "logging" raw) _ λ log el.
        Ensures-bind (index "host" srv) _ λ host eh.
          Ensures-bind (index "port" srv) _ λ port_value ep.
            Ensures-bind (int_of (getenv python env "FUBO_FLAGS_PORT" port_value)) _ λ port ip.
              Ensures-bind (build_database_url python env db) _ λ url eu.
                Ensures-bind (index "pool_size" db) _ λ pool_value eo.
                  Ensures-bind (int_of (getenv python env "FUBO_FLAGS_DB_POOL" pool_value)) _
                    λ pool io. Ensures-bind (index "level" log) _ λ level ev.
                      Ensures-bind (index "format" log) _ λ format ef.
                        Ensures-bind (index "notify" raw) _ λ notify en.
                          Ensures-bind (index "backend" notify) _ λ backend eb.
                            Ensures-some _ (record {
                              host = override "server" "host" "FUBO_FLAGS_HOST" es eh;
                              port = (_, ip, override "server" "port" "FUBO_FLAGS_PORT" es ep);
                              pool_size = (
                                _,
                                io,
                                override "database" "pool_size" "FUBO_FLAGS_DB_POOL" ed eo,
                              );
                              level = override "logging" "level" "FUBO_FLAGS_LOG_LEVEL" el ev;
                              format = rw el ef;
                              notify_backend =
                                  override "notify" "backend" "FUBO_FLAGS_NOTIFY" en eb;
                              url = (db, ed, build_database_url-IsUrl python env db eu);
                            })

  -- A configuration that is loaded takes the server's host and port, the pool size, the log level and
  -- the notify backend from their environment variables, where these are set, and otherwise from the
  -- document, which has these five keys in either case. The log format is that of the document. The
  -- database URL is `DATABASE_URL`, where that is set and not empty, and otherwise assembled from the
  -- user, the host, the port and the name that the document has, and `DATABASE_PASSWORD`, where that
  -- is set and not empty.
  pub load_config-Settings : (cfg : Config) → load_config python env raw ≡ some cfg → Settings cfg
  load_config-Settings cfg h = load_config-Ensures.at cfg h

  -- The document lacks one of the five keys.
  abbrev pub LacksSetting : Type 0
  LacksSetting =
      (setting "server" "host" raw ≡ none)
      ⊎ (setting "server" "port" raw ≡ none)
      ⊎ (setting "database" "pool_size" raw ≡ none)
      ⊎ (setting "logging" "level" raw ≡ none)
      ⊎ (setting "notify" "backend" raw ≡ none)

  absent :
      (section key variable : String) (value : Json)
      → Overrides section key variable value
      → ¬ (setting section key raw ≡ none)
  absent section key variable value o missing = cc (sym missing ∙ o.in_document)

  -- Where the document lacks the server's host or port, the pool size, the log level or the notify
  -- backend, nothing is loaded, even if the environment variable that overrides it is set.
  pub load_config-no_default : LacksSetting → load_config python env raw ≡ none
  load_config-no_default lacks = elim (Option-cases (load_config python env raw)) [
    | inl nothing ↦ nothing
    | inr (cfg, loaded) ↦ absurd (contradicts (load_config-Settings cfg loaded) lacks)
  ]
    where
      contradicts : {cfg : Config} → Settings cfg → LacksSetting → ⊥
      contradicts s (inl h) = absent _ _ _ _ s.host h
      contradicts s (inr (inl h)) = absent _ _ _ _ s.port.2 h
      contradicts s (inr (inr (inl h))) = absent _ _ _ _ s.pool_size.2 h
      contradicts s (inr (inr (inr (inl h)))) = absent _ _ _ _ s.level h
      contradicts s (inr (inr (inr (inr h)))) = absent _ _ _ _ s.notify_backend h
