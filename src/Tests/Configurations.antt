-- ===== src/Tests/Configurations.antt =====
-- Configurations and the environments they come from.
use fastapi_polyrepo_templat.Prelude.{
  ℕ, ◌≡◌, ◌↔◌, refl, Bool, true, false, Option, none, some, [], ◌∷◌, ◌++◌, Text, codes, text_eq,
  is_empty, if◌then◌else◌, str, arith,
}
use fastapi_polyrepo_templat.Effects.{ok}
use fastapi_polyrepo_templat.World.{LogLevel}
use fastapi_polyrepo_templat.Config.Settings.{
  Variables, Readers, load_app_config, read_app_config, read_server, read_logger, read_redis,
  read_postgres, read_feature_flag, read_prometheus,
}
use fastapi_polyrepo_templat.Config.Loaded.{
  required_only, documented_defaults, load_app_config-ok, load_app_config-required_only,
}
use fastapi_polyrepo_templat.Config.{
  server_config_fields, redis_config_fields, postgres_config_fields, feature_flag_config_fields,
  enforce_production_invariants, is_port, is_prod, local, require, PostgresConfig, AppConfig,
  validate,
}
use fastapi_polyrepo_templat.Config.Safety.{IsInBounds, IsProductionSafe, validate-ok_iff}
use fastapi_polyrepo_templat.Config.Credentials.{
  DsnParts, DsnContract, postgres_dsn_parts, postgres_dsn-injective,
}

-- A configuration for a laptop.
abbrev pub postgres_config : PostgresConfig
postgres_config = record {
  host = codes "db";
  port = 5432;
  database = codes "flags";
  user = codes "app";
  password = codes "p@ss";
  ssl_mode = require;
  connect_timeout_seconds = 5;
  statement_timeout_ms = 5000;
  pool_timeout_seconds = 30;
}

abbrev pub app_config : AppConfig
app_config = record {
  env = local;
  server = record { host = codes "0.0.0.0"; port = 8080 };
  logger = record { min_log_level = LogLevel.info; enable_uvicorn_access_logs = true };
  redis = record {
    host = codes "cache";
    port = 6379;
    db = 0;
    password = none;
    use_tls = false;
    connect_timeout_seconds = 5;
    command_timeout_seconds = 5;
  };
  postgres = postgres_config;
  feature_flag = record { cache_ttl_seconds = 300 };
  prometheus = record { should_gzip = false };
}

abbrev pub always_builds : PostgresConfig → Bool
always_builds config = true

validate-ok_iff_example : (validate always_builds (codes "bad") app_config ≡ ok app_config) ↔ (
    (app_config ≡ app_config) × IsInBounds app_config × (true ≡ true) × IsProductionSafe app_config)
validate-ok_iff_example = validate-ok_iff always_builds (codes "bad") app_config app_config

-- A URL with its credentials, if there are any.
abbrev pub with_credentials : Option Text → Option Text → Text → Text
with_credentials (some username) (some password) rest = username ++ b':' ∷ (password ++ b'@' ∷ rest)
with_credentials (some username) none rest = username ++ b'@' ∷ rest
with_credentials none (some password) rest = b':' ∷ (password ++ b'@' ∷ rest)
with_credentials none none rest = rest

abbrev pub location : Text → ℕ → Text → Option Text → Text
location host port path query =
    host
    ++ (codes ":"
        ++ (str port
            ++ (codes "/" ++ (path ++ elim query [ none ↦ [] | some q ↦ codes "?" ++ q ]))))

abbrev pub build : DsnParts → Text
build parts =
    parts.scheme
    ++ (codes "://"
        ++ with_credentials parts.username parts.password
            (location parts.host parts.port parts.path parts.query))

abbrev dsn_contract : DsnContract build
dsn_contract = record {
  location = location;
  build_lem = λ scheme host path username password port query. refl;
}

postgres_dsn-injective_example :
    (codes "app" ≡ codes "app")
    × (codes "p@ss" ≡ codes "p@ss")
    × (location (codes "db") 5432 (codes "flags") (postgres_dsn_parts postgres_config).query
        ≡ location (codes "db") 5432 (codes "flags") (postgres_dsn_parts postgres_config).query)
postgres_dsn-injective_example =
    postgres_dsn-injective build dsn_contract postgres_config postgres_config (ground arith)
      (ground arith) (ground arith) (ground arith) refl

-- Readers that know one number and nothing else.
abbrev readers : Readers
readers = record {
  read_int = λ s. if text_eq s (codes "9000") then some 9000 else none;
  read_bool = λ s. none;
  dsn_builds = always_builds;
  report = codes "bad";
}

abbrev with_port : Variables
with_port name =
    if text_eq name (codes "SERVER__PORT")
    then some (codes "9000")
    else required_only (codes "cache") (codes "db") (codes "flags") (codes "app") (codes "p@ss")
        name

abbrev on_port_9000 : AppConfig
on_port_9000 =
    record (documented_defaults (codes "cache") (codes "db") (codes "flags") (codes "app")
      (codes "p@ss")) { server = record { host = codes "0.0.0.0"; port = 9000 } }

loaded : load_app_config readers with_port ≡ ok on_port_9000
unfolding load_app_config read_app_config read_server read_logger read_redis read_postgres
    read_feature_flag read_prometheus text_eq validate server_config_fields redis_config_fields
    postgres_config_fields feature_flag_config_fields enforce_production_invariants is_port is_empty
    is_prod
loaded = refl

load_app_config-ok_example :
    IsInBounds on_port_9000
    × (true ≡ true)
    × IsProductionSafe on_port_9000
    × (with_port (codes "REDIS__HOST") ≡ some (codes "cache"))
    × (with_port (codes "POSTGRES__HOST") ≡ some (codes "db"))
    × (with_port (codes "POSTGRES__DATABASE") ≡ some (codes "flags"))
    × (with_port (codes "POSTGRES__USER") ≡ some (codes "app"))
    × (with_port (codes "POSTGRES__PASSWORD") ≡ some (codes "p@ss"))
load_app_config-ok_example = load_app_config-ok readers with_port on_port_9000 loaded

load_app_config-required_only_example :
    load_app_config readers
      (required_only (codes "cache") (codes "db") (codes "flags") (codes "app") (codes "p@ss"))
    ≡ ok (
        documented_defaults
          (codes "cache")
          (codes "db")
          (codes "flags")
          (codes "app")
          (codes "p@ss"))
load_app_config-required_only_example =
    load_app_config-required_only readers (codes "cache") (codes "db") (codes "flags") (codes "app")
      (codes "p@ss") (λ e. cc) (λ e. cc) (λ e. cc) (λ e. cc) refl
