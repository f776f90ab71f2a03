-- ===== src/Config.antt =====
-- src/app/config: the settings, their bounds and the rules that span them. What pydantic reads
-- from the environment is a value of these records.
pub mod Safety
pub mod Quote
pub mod Credentials
pub mod Settings
pub mod Loaded
use fastapi_polyrepo_templat.Prelude.{
  ℕ, ◌≡◌, Bool, true, false, not, ◌&&◌, ◌||◌, leb, Option, none, some, List, [], ◌∷◌, ◌++◌, Text,
  codes, str, is_empty, if◌then◌else◌,
}
use fastapi_polyrepo_templat.Effects.{Result, ok, err, value_error}
use fastapi_polyrepo_templat.Models.{FeatureFlagConfig}
use fastapi_polyrepo_templat.World.{LogLevel}

pub data Environment : Type 0 where
  local dev staging prod : Environment

abbrev pub env_value : Environment → Text
env_value local = codes "local"
env_value dev = codes "dev"
env_value staging = codes "staging"
env_value prod = codes "prod"

-- `self in (Environment.LOCAL, Environment.DEV)`
unfoldable pub include_probes_in_schema : Environment → Bool
include_probes_in_schema local = true
include_probes_in_schema dev = true
include_probes_in_schema staging = false
include_probes_in_schema prod = false

pub data SslMode : Type 0 where
  disable require verify_full : SslMode

pub record ServerConfig : Type 0 where
  pub host : Text
  pub port : ℕ

pub record LoggerConfig : Type 0 where
  pub min_log_level : LogLevel
  pub enable_uvicorn_access_logs : Bool

-- `password` is what `get_secret_value()` gives.
pub record RedisConfig : Type 0 where
  pub host : Text
  pub port : ℕ
  pub db : ℕ
  pub password : Option Text
  pub use_tls : Bool
  pub connect_timeout_seconds : ℕ
  pub command_timeout_seconds : ℕ

pub record PostgresConfig : Type 0 where
  pub host : Text
  pub port : ℕ
  pub database : Text
  pub user : Text
  pub password : Text
  pub ssl_mode : SslMode
  pub connect_timeout_seconds : ℕ
  pub statement_timeout_ms : ℕ
  pub pool_timeout_seconds : ℕ

pub record PrometheusConfig : Type 0 where
  pub should_gzip : Bool

pub record AppConfig : Type 0 where
  pub env : Environment
  pub server : ServerConfig
  pub logger : LoggerConfig
  pub redis : RedisConfig
  pub postgres : PostgresConfig
  pub feature_flag : FeatureFlagConfig
  pub prometheus : PrometheusConfig

-- `Field(ge=1, le=65535)`
unfoldable pub is_port : ℕ → Bool
is_port port = leb 1 port && leb port 65535

unfoldable pub server_config_fields : ServerConfig → Bool
unfolding is_port is_empty
server_config_fields server = not (is_empty server.host) && is_port server.port

unfoldable pub redis_config_fields : RedisConfig → Bool
unfolding is_port is_empty
redis_config_fields redis =
    not (is_empty redis.host)
    && is_port redis.port
    && leb 1 redis.connect_timeout_seconds
    && leb 1 redis.command_timeout_seconds

unfoldable pub postgres_config_fields : PostgresConfig → Bool
unfolding is_port is_empty
postgres_config_fields postgres =
    not (is_empty postgres.host)
    && is_port postgres.port
    && not (is_empty postgres.database)
    && not (is_empty postgres.user)
    && leb 1 postgres.connect_timeout_seconds
    && leb 1 postgres.statement_timeout_ms
    && leb 1 postgres.pool_timeout_seconds

unfoldable pub feature_flag_config_fields : FeatureFlagConfig → Bool
feature_flag_config_fields feature_flag = leb 1 feature_flag.cache_ttl_seconds

unfoldable pub is_debug : LogLevel → Bool
is_debug LogLevel.debug = true
is_debug _ = false

unfoldable pub is_disable : SslMode → Bool
is_disable disable = true
is_disable require = false
is_disable verify_full = false

unfoldable pub is_prod : Environment → Bool
is_prod prod = true
is_prod local = false
is_prod dev = false
is_prod staging = false

unfoldable pub enforce_production_invariants : AppConfig → Result AppConfig
unfolding is_prod is_debug is_disable
enforce_production_invariants config =
    if not (is_prod config.env)
    then ok config
    else (if is_debug config.logger.min_log_level
        then err (
            value_error (
              codes
                "LOGGER__MIN_LOG_LEVEL=debug is not allowed when ENV=prod: debug logging risks writing sensitive payloads to the log stream."))
        else (if is_disable config.postgres.ssl_mode
            then err (
                value_error (
                  codes
                    "POSTGRES__SSL_MODE=disable is not allowed when ENV=prod: database traffic must be encrypted in production."))
            else ok config))

-- `_validate_dsn_is_constructible`: `dsn_builds` is whether pydantic can build the URL.
unfoldable pub validate_dsn_is_constructible : (PostgresConfig → Bool) → PostgresConfig → Bool
validate_dsn_is_constructible dsn_builds postgres = dsn_builds postgres

-- `AppConfig()` on the values of the environment: each model's own fields, then the rules that span
-- the models. pydantic reports a field out of its bounds as a ValidationError, a ValueError; whether
-- it can build the URL of PostgreSQL is `dsn_builds`.
unfoldable pub validate : (PostgresConfig → Bool) → Text → AppConfig → Result AppConfig
unfolding server_config_fields redis_config_fields postgres_config_fields feature_flag_config_fields
    validate_dsn_is_constructible enforce_production_invariants
validate dsn_builds report config =
    if server_config_fields config.server
      && redis_config_fields config.redis
      && postgres_config_fields config.postgres
      && validate_dsn_is_constructible dsn_builds config.postgres
      && feature_flag_config_fields config.feature_flag
    then enforce_production_invariants config
    else err (value_error report)

-- The `options` of `connect_args`.
unfoldable pub connect_options : PostgresConfig → Text
connect_options postgres = codes "-c statement_timeout=" ++ str postgres.statement_timeout_ms

-- A value of `connect_args`: `int | str`.
pub data ConnectArg : Type 0 where
  int_arg : ℕ → ConnectArg
  str_arg : Text → ConnectArg

unfoldable pub connect_args : PostgresConfig → List (Text × ConnectArg)
unfolding connect_options
connect_args postgres =
    (codes "connect_timeout", int_arg postgres.connect_timeout_seconds)
    ∷ (codes "options", str_arg (connect_options postgres))
    ∷ []
