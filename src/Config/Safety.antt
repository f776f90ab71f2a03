-- ===== src/Config/Safety.antt =====
-- The bounds of the settings and the rules of production, as predicates, against the validation
-- of src/app/config.
use fastapi_polyrepo_templat.Prelude.{
  ℕ, ◌≡◌, ◌≢◌, ◌⊎◌, ◌≤◌, ◌↔◌, refl, Bool, true, not, [], ◌∷◌, Text, is_empty, arith,
}
use fastapi_polyrepo_templat.Effects.{ok}
use fastapi_polyrepo_templat.World.{LogLevel}
use fastapi_polyrepo_templat.Config.{
  Environment, local, dev, staging, prod, SslMode, disable, require, verify_full, ServerConfig,
  RedisConfig, PostgresConfig, AppConfig, is_port, server_config_fields, redis_config_fields,
  postgres_config_fields, feature_flag_config_fields, is_debug, is_disable, is_prod,
  enforce_production_invariants, validate,
}

abbrev pub IsPort : ℕ → Type 0
IsPort port = (1 ≤ port) × (port ≤ 65535)

-- The bounds that the fields document.
abbrev pub IsInBounds : AppConfig → Type 0
IsInBounds config =
    (config.server.host ≢ [])
    × IsPort config.server.port
    × (config.redis.host ≢ [])
    × IsPort config.redis.port
    × (1 ≤ config.redis.connect_timeout_seconds)
    × (1 ≤ config.redis.command_timeout_seconds)
    × (config.postgres.host ≢ [])
    × IsPort config.postgres.port
    × (config.postgres.database ≢ [])
    × (config.postgres.user ≢ [])
    × (1 ≤ config.postgres.connect_timeout_seconds)
    × (1 ≤ config.postgres.statement_timeout_ms)
    × (1 ≤ config.postgres.pool_timeout_seconds)
    × (1 ≤ config.feature_flag.cache_ttl_seconds)

-- Debug logging and an unencrypted database are for other environments.
abbrev pub IsProductionSafe : AppConfig → Type 0
IsProductionSafe config =
    (config.env ≢ prod)
    ⊎ ((config.logger.min_log_level ≢ LogLevel.debug) × (config.postgres.ssl_mode ≢ disable))

is_empty_iff : (t : Text) → (not (is_empty t) ≡ true) ↔ (t ≢ [])
unfolding is_empty
is_empty_iff [] = (λ e. cc, λ n. ground arith)
is_empty_iff (c ∷ t) = (λ e z. cc, λ n. refl)

server-ok_iff :
    (server : ServerConfig)
    → (server_config_fields server ≡ true) ↔ ((server.host ≢ []) × IsPort server.port)
unfolding server_config_fields is_port
server-ok_iff server = ground (arith, is_empty_iff server.host)

is_prod_iff : (env : Environment) → (is_prod env ≡ true) ↔ (env ≡ prod)
unfolding is_prod
is_prod_iff local = (λ e. ground arith, λ e. ground arith)
is_prod_iff dev = (λ e. ground arith, λ e. ground arith)
is_prod_iff staging = (λ e. ground arith, λ e. ground arith)
is_prod_iff prod = (λ e. ground arith, λ e. ground arith)

is_debug_iff : (level : LogLevel) → (is_debug level ≡ true) ↔ (level ≡ LogLevel.debug)
unfolding is_debug
is_debug_iff LogLevel.debug = (λ e. ground arith, λ e. ground arith)
is_debug_iff LogLevel.info = (λ e. ground arith, λ e. ground arith)
is_debug_iff LogLevel.warning = (λ e. ground arith, λ e. ground arith)
is_debug_iff LogLevel.error = (λ e. ground arith, λ e. ground arith)
is_debug_iff LogLevel.critical = (λ e. ground arith, λ e. ground arith)

is_disable_iff : (mode : SslMode) → (is_disable mode ≡ true) ↔ (mode ≡ disable)
unfolding is_disable
is_disable_iff disable = (λ e. ground arith, λ e. ground arith)
is_disable_iff require = (λ e. ground arith, λ e. ground arith)
is_disable_iff verify_full = (λ e. ground arith, λ e. ground arith)

-- The rules that span the models give a configuration back exactly if it is safe for production.
enforce_production_invariants-ok_iff :
    (config loaded : AppConfig)
    → (enforce_production_invariants config ≡ ok loaded)
      ↔ ((config ≡ loaded) × IsProductionSafe config)
unfolding enforce_production_invariants
enforce_production_invariants-ok_iff config loaded = ground (
  arith,
  is_prod_iff config.env,
  is_debug_iff config.logger.min_log_level,
  is_disable_iff config.postgres.ssl_mode,
)

redis-ok_iff :
    (redis : RedisConfig)
    → (redis_config_fields redis ≡ true) ↔ (
        (redis.host ≢ [])
        × IsPort redis.port
        × (1 ≤ redis.connect_timeout_seconds)
        × (1 ≤ redis.command_timeout_seconds))
unfolding redis_config_fields is_port
redis-ok_iff redis = ground (arith, is_empty_iff redis.host)

postgres-ok_iff :
    (postgres : PostgresConfig)
    → (postgres_config_fields postgres ≡ true) ↔ (
        (postgres.host ≢ [])
        × IsPort postgres.port
        × (postgres.database ≢ [])
        × (postgres.user ≢ [])
        × (1 ≤ postgres.connect_timeout_seconds)
        × (1 ≤ postgres.statement_timeout_ms)
        × (1 ≤ postgres.pool_timeout_seconds))
unfolding postgres_config_fields is_port
postgres-ok_iff postgres =
    ground (
      arith,
      is_empty_iff postgres.host,
      is_empty_iff postgres.database,
      is_empty_iff postgres.user,
    )

-- A configuration loads exactly if every field is in its bounds, the URL of PostgreSQL can be
-- built and the configuration is safe for production; it loads unchanged.
pub validate-ok_iff :
    (dsn_builds : PostgresConfig → Bool) (report : Text) (config loaded : AppConfig)
    → (validate dsn_builds report config ≡ ok loaded) ↔ (
        (config ≡ loaded)
        × IsInBounds config
        × (dsn_builds config.postgres ≡ true)
        × IsProductionSafe config)
unfolding validate feature_flag_config_fields
validate-ok_iff dsn_builds report config loaded = ground (
  arith,
  server-ok_iff config.server,
  redis-ok_iff config.redis,
  postgres-ok_iff config.postgres,
  enforce_production_invariants-ok_iff config loaded,
)
