-- ===== src/Startup/Built.antt =====
-- What `create_app` registers on the application, and a second call of it.
use fastapi_polyrepo_templat.Prelude.{
  ◌≡◌, ◌≢◌, true, false, List, [], ◌∷◌, Text, codes, str, ◌++◌, some, arith,
}
use fastapi_polyrepo_templat.Effects.{ok}
use fastapi_polyrepo_templat.Config.{
  RedisConfig, PostgresConfig, include_probes_in_schema, int_arg, str_arg, connect_args,
  connect_options,
}
use fastapi_polyrepo_templat.Config.Credentials.{redis_dsn_parts, postgres_dsn_parts}
use fastapi_polyrepo_templat.Startup.Objects.{
  AppState, RedisClient, from_url, PostgresClient, AsyncEngine, create_async_engine,
  new_redis_client, new_postgres_client, new_feature_flag_service,
}
use fastapi_polyrepo_templat.Startup.{
  Registries, Process, FastApi, prometheus, secure_asgi, correlation_id, k8s_probe_router,
  feature_flag_router, metrics_endpoint,
}
use fastapi_polyrepo_templat.Startup.Manager.{install_middleware, add_metrics_router}
use fastapi_polyrepo_templat.Startup.Lifecycle.{
  LifecycleManager, new_metrics, create_app, build_app_state, add_middlewares_in_order,
  register_routers, get_child_logger,
}

module _ (registries : Registries) where
  -- The registry takes every series.
  abbrev pub IsAccepting : Type 0
  IsAccepting =
      (name : Text) (registry : registries.Registry) → (registries.register name registry).0 ≡ ok tt

  -- The clients of an application: texts in place of bytes, no retry, and the bounds of the
  -- configuration.
  abbrev pub redis_client : RedisConfig → RedisClient
  redis_client config = record {
    logger = codes "RedisClient";
    client = from_url (record {
      url = registries.build_redis_dsn (redis_dsn_parts config);
      decode_responses = true;
      socket_connect_timeout = config.connect_timeout_seconds;
      socket_timeout = config.command_timeout_seconds;
      retry_on_timeout = false;
    });
  }

  abbrev engine : PostgresConfig → AsyncEngine
  engine config = create_async_engine (record {
    url = registries.build_postgres_dsn (postgres_dsn_parts config);
    connect_args =
        (codes "connect_timeout", int_arg config.connect_timeout_seconds)
        ∷ (
          codes "options",
          str_arg (codes "-c statement_timeout=" ++ str config.statement_timeout_ms),
        )
        ∷ [];
    pool_pre_ping = true;
    pool_timeout = config.pool_timeout_seconds;
  })

  abbrev pub postgres_client : PostgresConfig → PostgresClient
  postgres_client config = record {
    logger = codes "PostgresClient";
    engine = engine config;
    session_factory = record { engine = engine config; expire_on_commit = false };
  }

  abbrev pub built_state : LifecycleManager → AppState
  built_state manager = record {
    clients = record {
      redis = redis_client manager.app_config.redis;
      postgres = postgres_client manager.app_config.postgres;
    };
    services = record {
      feature_flag = record {
        postgres = postgres_client manager.app_config.postgres;
        redis = redis_client manager.app_config.redis;
        config = manager.app_config.feature_flag;
        logger = codes "FeatureFlagService";
        metrics = record {
          reads_total = codes "feature_flag_reads_total";
          writes_total = codes "feature_flag_writes_total";
        };
        cache_ttl_seconds = manager.app_config.feature_flag.cache_ttl_seconds;
      };
    };
    log_manager = manager.log_manager;
  }

  -- The application that is built: a request passes the correlation id, then the security headers,
  -- then Prometheus; the probes are in the schema as the environment says and /metrics never is.
  abbrev pub built : LifecycleManager → List Text → FastApi
  built manager callbacks = record {
    title = codes "FastAPI Polyrepo Template";
    version = manager.app_version;
    docs_url = codes "/docs";
    redoc_url = codes "/redoc";
    app_state = some (built_state manager);
    exception_handlers = codes "uvicorn" ∷ [];
    user_middleware = correlation_id ∷ secure_asgi ∷ prometheus callbacks ∷ [];
    routes =
        k8s_probe_router (include_probes_in_schema manager.app_config.env)
        ∷ feature_flag_router
        ∷ metrics_endpoint (codes "/metrics") false manager.app_config.prometheus.should_gzip
        ∷ [];
  }

  -- A manager that has not installed its middleware builds the application, when the registry takes
  -- the counters, and is then one that has.
  pub create_app_lem :
      (manager : LifecycleManager) (p : Process registries)
      → IsAccepting
      → p.prometheus.middleware_installed ≡ false
      → ((create_app registries manager p).0 ≡ ok tt)
        × ((create_app registries manager p).1.app ≡ built manager p.prometheus.callbacks)
        × ((create_app registries manager p).1.prometheus.middleware_installed ≡ true)
  unfolding create_app build_app_state add_middlewares_in_order register_routers install_middleware
      add_metrics_router get_child_logger new_metrics new_redis_client new_postgres_client
      new_feature_flag_service connect_args connect_options
  create_app_lem manager p accepting fresh = ground (
    arith,
    accepting (codes "feature_flag_reads_total") p.registry,
    accepting (codes "feature_flag_writes_total")
        (registries.register (codes "feature_flag_reads_total") p.registry).1,
  )

  -- The hooks of the process and the servers that ran are not its business.
  pub create_app-hooks :
      (manager : LifecycleManager) (p : Process registries)
      → ((create_app registries manager p).1.runs ≡ p.runs)
        × ((create_app registries manager p).1.excepthook ≡ p.excepthook)
        × ((create_app registries manager p).1.uvicorn_error ≡ p.uvicorn_error)
        × ((create_app registries manager p).1.uvicorn_access ≡ p.uvicorn_access)
  unfolding create_app build_app_state add_middlewares_in_order register_routers install_middleware
      add_metrics_router get_child_logger new_metrics new_redis_client new_postgres_client
      new_feature_flag_service connect_args connect_options
  create_app-hooks manager p = ground arith

  create_app-installed :
      (manager : LifecycleManager) (p : Process registries)
      → (create_app registries manager p).0 ≡ ok tt
      → (p.prometheus.middleware_installed ≡ false)
        × ((create_app registries manager p).1.prometheus.middleware_installed ≡ true)
  unfolding create_app build_app_state add_middlewares_in_order register_routers install_middleware
      add_metrics_router get_child_logger new_metrics new_redis_client new_postgres_client
      new_feature_flag_service connect_args connect_options
  create_app-installed manager p e = ground arith

  -- Once a manager has built an application, it never builds another: a further call does not
  -- return.
  pub create_app_once :
      (manager later : LifecycleManager) (p : Process registries)
      → (create_app registries manager p).0 ≡ ok tt
      → (create_app registries later (create_app registries manager p).1).0 ≢ ok tt
  create_app_once manager later p e f = ground (
    arith,
    create_app-installed manager p e,
    create_app-installed later (create_app registries manager p).1 f,
  )
