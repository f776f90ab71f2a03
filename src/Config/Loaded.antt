-- ===== src/Config/Loaded.antt =====
-- What `AppConfig()` of src/app/config gives back.
use fastapi_polyrepo_templat.Prelude.{
  ◌≢◌, inl, false, List, [], ◌∷◌, text_eq, if◌then◌else◌, ◌≡◌, refl, sym, ap, ◌∙◌, subst, true,
  Option, none, some, Text, codes, arith,
}
use fastapi_polyrepo_templat.Effects.{ok, ok-ne-err}
use fastapi_polyrepo_templat.Config.{
  Environment, dev, require, ServerConfig, LoggerConfig, RedisConfig, PostgresConfig,
  PrometheusConfig, AppConfig,
}
use fastapi_polyrepo_templat.Models.{FeatureFlagConfig}
use fastapi_polyrepo_templat.World.{LogLevel}
use fastapi_polyrepo_templat.Config.Safety.{IsInBounds, IsProductionSafe, validate-ok_iff}
use fastapi_polyrepo_templat.Config.Settings.{
  Variables, Readers, defaulted, assemble, checked, read_environment, read_server, read_logger,
  read_feature_flag, read_prometheus, read_redis, read_postgres, read_app_config, load_app_config,
}

assemble_parts :
    (e : Option Environment) (s : Option ServerConfig) (l : Option LoggerConfig)
    (r : Option RedisConfig) (p : Option PostgresConfig) (f : Option FeatureFlagConfig)
    (m : Option PrometheusConfig) (c : AppConfig)
    → assemble e s l r p f m ≡ some c
    → (r ≡ some c.redis) × (p ≡ some c.postgres)
assemble_parts e s l r p f m c h = ground arith

module _ (readers : Readers) (env : Variables) where
  read_redis_host :
      (r : RedisConfig) → read_redis readers env ≡ some r → env (codes "REDIS__HOST") ≡ some r.host
  unfolding read_redis
  read_redis_host r e = ground arith

  read_postgres_fields :
      (r : PostgresConfig)
      → read_postgres readers env ≡ some r
      → (env (codes "POSTGRES__HOST") ≡ some r.host)
        × (env (codes "POSTGRES__DATABASE") ≡ some r.database)
        × (env (codes "POSTGRES__USER") ≡ some r.user)
        × (env (codes "POSTGRES__PASSWORD") ≡ some r.password)
  unfolding read_postgres
  read_postgres_fields r e = ground arith

  read_app_config_parts :
      (c : AppConfig)
      → read_app_config readers env ≡ some c
      → (read_redis readers env ≡ some c.redis) × (read_postgres readers env ≡ some c.postgres)
  unfolding read_app_config
  read_app_config_parts c =
      assemble_parts (defaulted read_environment dev (env (codes "ENV"))) (read_server readers env)
        (read_logger readers env) (read_redis readers env) (read_postgres readers env)
        (read_feature_flag readers env) (read_prometheus readers env) c

  -- A configuration that loads from the environment is in its bounds, its PostgreSQL URL can be
  -- built, it is safe for production, and the hosts, the database, the user and the password of
  -- PostgreSQL are the values of their variables.
  pub load_app_config-ok :
      (c : AppConfig)
      → load_app_config readers env ≡ ok c
      → IsInBounds c
        × (readers.dsn_builds c.postgres ≡ true)
        × IsProductionSafe c
        × (env (codes "REDIS__HOST") ≡ some c.redis.host)
        × (env (codes "POSTGRES__HOST") ≡ some c.postgres.host)
        × (env (codes "POSTGRES__DATABASE") ≡ some c.postgres.database)
        × (env (codes "POSTGRES__USER") ≡ some c.postgres.user)
        × (env (codes "POSTGRES__PASSWORD") ≡ some c.postgres.password)
  unfolding load_app_config
  load_app_config-ok c = by_read (read_app_config readers env) refl
    where
      by_read :
          (o : Option AppConfig)
          → read_app_config readers env ≡ o
          → checked readers env o ≡ ok c
          → IsInBounds c
            × (readers.dsn_builds c.postgres ≡ true)
            × IsProductionSafe c
            × (env (codes "REDIS__HOST") ≡ some c.redis.host)
            × (env (codes "POSTGRES__HOST") ≡ some c.postgres.host)
            × (env (codes "POSTGRES__DATABASE") ≡ some c.postgres.database)
            × (env (codes "POSTGRES__USER") ≡ some c.postgres.user)
            × (env (codes "POSTGRES__PASSWORD") ≡ some c.postgres.password)
      by_read none e h = absurd (ok-ne-err (sym h))
      by_read (some d) e h =
          let (same, bounds, builds, safe) =
            (validate-ok_iff readers.dsn_builds readers.report d c).0 h in
          let (redis, postgres) = read_app_config_parts c (e ∙ ap some same) in
          let (host, database, user, password) = read_postgres_fields c.postgres postgres in
          (
            subst (λ x. IsInBounds x) same bounds,
            subst (λ x. readers.dsn_builds x.postgres ≡ true) same builds,
            subst (λ x. IsProductionSafe x) same safe,
            read_redis_host c.redis redis,
            host,
            database,
            user,
            password,
          )

-- An environment with the variables that have no default, and no other.
abbrev find_variable : Text → List (Text × Text) → Option Text
find_variable name [] = none
find_variable name ((n, v) ∷ variables) =
    let rest = find_variable name variables in if text_eq name n then some v else rest

abbrev pub required_only : Text → Text → Text → Text → Text → Variables
required_only redis_host host database user password name = find_variable name (
    (codes "REDIS__HOST", redis_host)
    ∷ (codes "POSTGRES__HOST", host)
    ∷ (codes "POSTGRES__DATABASE", database)
    ∷ (codes "POSTGRES__USER", user)
    ∷ (codes "POSTGRES__PASSWORD", password)
    ∷ [])

-- The documented defaults.
abbrev pub documented_defaults : Text → Text → Text → Text → Text → AppConfig
documented_defaults redis_host host database user password = record {
  env = dev;
  server = record { host = codes "0.0.0.0"; port = 8080 };
  logger = record { min_log_level = LogLevel.info; enable_uvicorn_access_logs = true };
  redis = record {
    host = redis_host;
    port = 6379;
    db = 0;
    password = none;
    use_tls = false;
    connect_timeout_seconds = 5;
    command_timeout_seconds = 5;
  };
  postgres = record {
    host = host;
    port = 5432;
    database = database;
    user = user;
    password = password;
    ssl_mode = require;
    connect_timeout_seconds = 5;
    statement_timeout_ms = 5000;
    pool_timeout_seconds = 30;
  };
  feature_flag = record { cache_ttl_seconds = 300 };
  prometheus = record { should_gzip = false };
}

-- If the five variables without a default are all that the environment has, the hosts, the
-- database and the user are not empty and the PostgreSQL URL can be built, then the configuration
-- loads with the documented defaults.
pub load_app_config-required_only :
    (readers : Readers) (redis_host host database user password : Text)
    → redis_host ≢ []
    → host ≢ []
    → database ≢ []
    → user ≢ []
    → let defaults = documented_defaults redis_host host database user password in
      readers.dsn_builds defaults.postgres ≡ true
      → load_app_config readers (required_only redis_host host database user password) ≡ ok defaults
unfolding load_app_config read_app_config read_server read_logger read_redis read_postgres
    read_feature_flag read_prometheus text_eq
load_app_config-required_only readers redis_host host database user password r h d u builds =
    let defaults = documented_defaults redis_host host database user password in
    (validate-ok_iff readers.dsn_builds readers.report defaults defaults).1
      (refl, ground arith, builds, inl (λ e. (ground arith)))
