-- ===== src/Startup/Objects.antt =====
-- What the process builds and keeps: the constructors of the clients and of the service, and
-- src/app/state/app_state.py. A client of redis-py or an engine of SQLAlchemy is what it was made from.
use fastapi_polyrepo_templat.Prelude.{ℕ, Bool, true, false, Option, none, some, List, Text}
use fastapi_polyrepo_templat.Models.{FeatureFlagConfig}
use fastapi_polyrepo_templat.Config.{RedisConfig, PostgresConfig, ConnectArg, connect_args}
use fastapi_polyrepo_templat.Config.Credentials.{DsnParts, redis_dsn_parts, postgres_dsn_parts}
use fastapi_polyrepo_templat.Logger.Stream.{LogManager}

-- The arguments of `Redis.from_url`.
pub record RedisArgs : Type 0 where
  pub url : Text
  pub decode_responses : Bool
  pub socket_connect_timeout : ℕ
  pub socket_timeout : ℕ
  pub retry_on_timeout : Bool

pub data Redis : Type 0 where
  from_url : RedisArgs → Redis
  stand_in : Text → Redis

pub record RedisClient : Type 0 where
  pub logger : Text
  pub client : Redis

-- `RedisClient(config, logger, client=…)`, given what `str(RedisDsn.build(…))` is.
unfoldable pub new_redis_client :
    (DsnParts → Text) → RedisConfig → Text → Option Redis → RedisClient
unfolding redis_dsn_parts
new_redis_client build config logger (some client) = record { logger = logger; client = client }
new_redis_client build config logger none = record {
  logger = logger;
  client = from_url (record {
    url = build (redis_dsn_parts config);
    decode_responses = true;
    socket_connect_timeout = config.connect_timeout_seconds;
    socket_timeout = config.command_timeout_seconds;
    retry_on_timeout = false;
  });
}

-- `RedisClient.raw`
unfoldable pub raw_redis : RedisClient → Redis
raw_redis client = client.client

-- The arguments of `create_async_engine`.
pub record AsyncEngineArgs : Type 0 where
  pub url : Text
  pub connect_args : List (Text × ConnectArg)
  pub pool_pre_ping : Bool
  pub pool_timeout : ℕ

pub data AsyncEngine : Type 0 where
  create_async_engine : AsyncEngineArgs → AsyncEngine
  stand_in_engine : Text → AsyncEngine

-- `async_sessionmaker(engine, expire_on_commit=…)`
pub record SessionFactory : Type 0 where
  pub engine : AsyncEngine
  pub expire_on_commit : Bool

pub record PostgresClient : Type 0 where
  pub logger : Text
  pub engine : AsyncEngine
  pub session_factory : SessionFactory

abbrev creator_or_default : Option (AsyncEngineArgs → AsyncEngine) → AsyncEngineArgs → AsyncEngine
creator_or_default none = create_async_engine
creator_or_default (some engine_creator) = engine_creator

-- `PostgresClient(config, logger, engine_creator=…)`, given what `str(PostgresDsn.build(…))` is.
unfoldable pub new_postgres_client :
    (DsnParts → Text)
    → PostgresConfig
    → Text
    → Option (AsyncEngineArgs → AsyncEngine)
    → PostgresClient
unfolding postgres_dsn_parts connect_args
new_postgres_client build config logger engine_creator =
    let engine = creator_or_default engine_creator (record {
      url = build (postgres_dsn_parts config);
      connect_args = connect_args config;
      pool_pre_ping = true;
      pool_timeout = config.pool_timeout_seconds;
    }) in
    record {
      logger = logger;
      engine = engine;
      session_factory = record { engine = engine; expire_on_commit = false };
    }

-- `PostgresClient.raw`
unfoldable pub raw_postgres : PostgresClient → AsyncEngine
raw_postgres client = client.engine

-- FeatureFlagMetrics: its two counters, by their series.
pub record FeatureFlagMetrics : Type 0 where
  pub reads_total : Text
  pub writes_total : Text

pub record FeatureFlagService : Type 0 where
  pub postgres : PostgresClient
  pub redis : RedisClient
  pub config : FeatureFlagConfig
  pub logger : Text
  pub metrics : FeatureFlagMetrics
  pub cache_ttl_seconds : ℕ

-- `FeatureFlagService(postgres, redis, config, logger, metrics)`
unfoldable pub new_feature_flag_service :
    PostgresClient
    → RedisClient
    → FeatureFlagConfig
    → Text
    → FeatureFlagMetrics
    → FeatureFlagService
new_feature_flag_service postgres redis config logger metrics = record {
  postgres = postgres;
  redis = redis;
  config = config;
  logger = logger;
  metrics = metrics;
  cache_ttl_seconds = config.cache_ttl_seconds;
}

pub record AppClients : Type 0 where
  pub redis : RedisClient
  pub postgres : PostgresClient

pub record AppServices : Type 0 where
  pub feature_flag : FeatureFlagService

pub record AppState : Type 0 where
  pub clients : AppClients
  pub services : AppServices
  pub log_manager : LogManager
