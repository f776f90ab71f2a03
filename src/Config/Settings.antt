-- ===== src/Config/Settings.antt =====
-- src/app/config/app_config.py: `AppConfig()`, from the variables of the environment. How pydantic
-- reads a number or a truth value is a parameter.
use fastapi_polyrepo_templat.Prelude.{
  ℕ, Bool, true, false, Option, none, some, Text, codes, text_eq, if◌then◌else◌,
}
use fastapi_polyrepo_templat.Effects.{Result, err, value_error}
use fastapi_polyrepo_templat.World.{LogLevel}
use fastapi_polyrepo_templat.Models.{FeatureFlagConfig}
use fastapi_polyrepo_templat.Config.{
  Environment, local, dev, staging, prod, SslMode, disable, require, verify_full, ServerConfig,
  LoggerConfig, RedisConfig, PostgresConfig, PrometheusConfig, AppConfig, validate,
}

-- What the environment, or `.env` behind it, has under a name.
abbrev pub Variables : Type 0
Variables = Text → Option Text

-- pydantic's readers; none is a ValidationError.
pub record Readers : Type 0 where
  pub read_int : Text → Option ℕ
  pub read_bool : Text → Option Bool
  pub dsn_builds : PostgresConfig → Bool
  pub report : Text

-- The member of an enumeration with a value.
unfoldable pub read_environment : Text → Option Environment
read_environment s =
    if text_eq s (codes "local")
    then some local
    else (if text_eq s (codes "dev")
        then some dev
        else (if text_eq s (codes "staging")
            then some staging
            else (if text_eq s (codes "prod") then some prod else none)))

unfoldable pub read_log_level : Text → Option LogLevel
read_log_level s =
    if text_eq s (codes "debug")
    then some LogLevel.debug
    else (if text_eq s (codes "info")
        then some LogLevel.info
        else (if text_eq s (codes "warning")
            then some LogLevel.warning
            else (if text_eq s (codes "error")
                then some LogLevel.error
                else (if text_eq s (codes "critical") then some LogLevel.critical else none))))

unfoldable pub read_ssl_mode : Text → Option SslMode
read_ssl_mode s =
    if text_eq s (codes "disable")
    then some disable
    else (if text_eq s (codes "require")
        then some require
        else (if text_eq s (codes "verify-full") then some verify_full else none))

abbrev pub bind : {A B : Type 0} → Option A → (A → Option B) → Option B
bind none f = none
bind (some a) f = f a

infixl 5 ◌>>=◌
abbrev pub ◌>>=◌ : {A B : Type 0} → Option A → (A → Option B) → Option B
o >>= f = bind o f

-- A field with a default, and one without.
abbrev pub defaulted : {A : Type 0} → (Text → Option A) → A → Option Text → Option A
defaulted read default none = some default
defaulted read default (some s) = read s

abbrev secret : Option Text → Option (Option Text)
secret password = some password

-- A model of its fields' models.
abbrev pub assemble :
    Option Environment
    → Option ServerConfig
    → Option LoggerConfig
    → Option RedisConfig
    → Option PostgresConfig
    → Option FeatureFlagConfig
    → Option PrometheusConfig
    → Option AppConfig
assemble e s l r p f m = do
  environment ← e
  server ← s
  logger ← l
  redis ← r
  postgres ← p
  feature_flag ← f
  prometheus ← m
  some (record {
    env = environment;
    server = server;
    logger = logger;
    redis = redis;
    postgres = postgres;
    feature_flag = feature_flag;
    prometheus = prometheus;
  })

module _ (readers : Readers) (env : Variables) where
  unfoldable pub read_server : Option ServerConfig
  read_server = do
    host ← defaulted some (codes "0.0.0.0") (env (codes "SERVER__HOST"))
    port ← defaulted readers.read_int 8080 (env (codes "SERVER__PORT"))
    some (record { host = host; port = port })

  unfoldable pub read_logger : Option LoggerConfig
  unfolding read_log_level
  read_logger = do
    min_log_level ← defaulted read_log_level LogLevel.info (env (codes "LOGGER__MIN_LOG_LEVEL"))
    enable ← defaulted readers.read_bool true (env (codes "LOGGER__ENABLE_UVICORN_ACCESS_LOGS"))
    some (record { min_log_level = min_log_level; enable_uvicorn_access_logs = enable })

  unfoldable pub read_redis : Option RedisConfig
  read_redis = do
    host ← env (codes "REDIS__HOST")
    port ← defaulted readers.read_int 6379 (env (codes "REDIS__PORT"))
    db ← defaulted readers.read_int 0 (env (codes "REDIS__DB"))
    password ← secret (env (codes "REDIS__PASSWORD"))
    use_tls ← defaulted readers.read_bool false (env (codes "REDIS__USE_TLS"))
    connect ← defaulted readers.read_int 5 (env (codes "REDIS__CONNECT_TIMEOUT_SECONDS"))
    command ← defaulted readers.read_int 5 (env (codes "REDIS__COMMAND_TIMEOUT_SECONDS"))
    some (record {
      host = host;
      port = port;
      db = db;
      password = password;
      use_tls = use_tls;
      connect_timeout_seconds = connect;
      command_timeout_seconds = command;
    })

  unfoldable pub read_postgres : Option PostgresConfig
  unfolding read_ssl_mode
  read_postgres = do
    host ← env (codes "POSTGRES__HOST")
    port ← defaulted readers.read_int 5432 (env (codes "POSTGRES__PORT"))
    database ← env (codes "POSTGRES__DATABASE")
    user ← env (codes "POSTGRES__USER")
    password ← env (codes "POSTGRES__PASSWORD")
    ssl_mode ← defaulted read_ssl_mode require (env (codes "POSTGRES__SSL_MODE"))
    connect ← defaulted readers.read_int 5 (env (codes "POSTGRES__CONNECT_TIMEOUT_SECONDS"))
    statement ← defaulted readers.read_int 5000 (env (codes "POSTGRES__STATEMENT_TIMEOUT_MS"))
    pool ← defaulted readers.read_int 30 (env (codes "POSTGRES__POOL_TIMEOUT_SECONDS"))
    some (record {
      host = host;
      port = port;
      database = database;
      user = user;
      password = password;
      ssl_mode = ssl_mode;
      connect_timeout_seconds = connect;
      statement_timeout_ms = statement;
      pool_timeout_seconds = pool;
    })

  unfoldable pub read_feature_flag : Option FeatureFlagConfig
  read_feature_flag = do
    ttl ← defaulted readers.read_int 300 (env (codes "FEATURE_FLAG__CACHE_TTL_SECONDS"))
    some (record { cache_ttl_seconds = ttl })

  unfoldable pub read_prometheus : Option PrometheusConfig
  read_prometheus = do
    should_gzip ← defaulted readers.read_bool false (env (codes "PROMETHEUS__SHOULD_GZIP"))
    some (record { should_gzip = should_gzip })

  unfoldable pub read_app_config : Option AppConfig
  unfolding read_environment read_server read_logger read_redis read_postgres read_feature_flag
      read_prometheus
  read_app_config =
      assemble (defaulted read_environment dev (env (codes "ENV"))) read_server read_logger
        read_redis read_postgres read_feature_flag read_prometheus

  abbrev pub checked : Option AppConfig → Result AppConfig
  checked none = err (value_error readers.report)
  checked (some config) = validate readers.dsn_builds readers.report config

  -- `AppConfig()`
  unfoldable pub load_app_config : Result AppConfig
  unfolding read_app_config
  load_app_config = checked read_app_config
