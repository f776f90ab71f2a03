-- ===== src/Startup/Lifecycle.antt =====
-- src/app/lifecycle/lifecycle_manager.py: the construction of the application.
use fastapi_polyrepo_templat.Prelude.{
  ◌+◌, false, Bool, none, some, ◌++◌, [], ◌∷◌, Text, codes, is_empty, if◌then◌else◌,
}
use fastapi_polyrepo_templat.Effects.{Result, ok, err, lift, pure, modify, value_error, ◌>>=◌, ◌>>◌}
use fastapi_polyrepo_templat.Config.{AppConfig, env_value, include_probes_in_schema}
use fastapi_polyrepo_templat.Startup.{
  Registries, FastApi, Building, register, log, add_middleware, include, secure_asgi,
  correlation_id, k8s_probe_router, feature_flag_router,
}
use fastapi_polyrepo_templat.Logger.Stream.{LogManager, new_log_manager}
use fastapi_polyrepo_templat.Startup.Objects.{
  FeatureFlagMetrics, AppState, new_redis_client, new_postgres_client, new_feature_flag_service,
}
use fastapi_polyrepo_templat.Middlewares.SecureHeaders.{swagger_docs_endpoint, redoc_endpoint}
use fastapi_polyrepo_templat.Startup.Manager.{
  new_manager, add_http_instrumentation, install_middleware, add_metrics_router,
  make_inbound_request_id_instrumentation,
}

abbrev pub logger_name : Text
logger_name = codes "LifecycleManager"

abbrev pub redis_logger_name : Text
redis_logger_name = codes "RedisClient"

abbrev pub postgres_logger_name : Text
postgres_logger_name = codes "PostgresClient"

abbrev pub feature_flag_logger_name : Text
feature_flag_logger_name = codes "FeatureFlagService"

abbrev pub uvicorn_logger_name : Text
uvicorn_logger_name = codes "uvicorn"

abbrev pub uvicorn_access_logger_name : Text
uvicorn_access_logger_name = codes "uvicorn.access"

abbrev pub sys_excepthook_logger_name : Text
sys_excepthook_logger_name = codes "sys.excepthook"

abbrev pub openapi_title : Text
openapi_title = codes "FastAPI Polyrepo Template"

-- `LogManager.get_child_logger`: a child logger is its name.
unfoldable pub get_child_logger : Text → Result Text
unfolding is_empty
get_child_logger name =
    if is_empty name
    then err (value_error (codes "A child logger needs a name to be traceable."))
    else ok name

-- What a LifecycleManager keeps, beside the PrometheusManager of the process and its logger.
pub record LifecycleManager : Type 0 where
  pub app_config : AppConfig
  pub app_version : Text
  pub log_manager : LogManager

module _ (registries : Registries) where
  abbrev child : Text → Building registries Text
  child name = lift (get_child_logger name)

  -- `LifecycleManager(app_config)`; the version is what `installed_app_version()` gives or raises.
  unfoldable pub new_lifecycle_manager :
      AppConfig → Result Text → Building registries LifecycleManager
  unfolding get_child_logger new_log_manager make_inbound_request_id_instrumentation
  new_lifecycle_manager config installed_version = do
    version ← lift installed_version
    logger ← child logger_name
    new_manager registries
    callback ← make_inbound_request_id_instrumentation registries
    add_http_instrumentation registries (callback ∷ [])
    pure (record {
      app_config = config;
      app_version = version;
      log_manager =
          new_log_manager config.logger.min_log_level config.env version registries.hostname;
    })

  -- `FeatureFlagMetrics(registry=…)`
  unfoldable pub new_metrics : Building registries FeatureFlagMetrics
  new_metrics = do
    register registries (codes "feature_flag_reads_total")
    register registries (codes "feature_flag_writes_total")
    pure (record {
      reads_total = codes "feature_flag_reads_total";
      writes_total = codes "feature_flag_writes_total";
    })

  unfoldable pub build_app_state : LifecycleManager → Building registries AppState
  unfolding get_child_logger new_metrics new_redis_client new_postgres_client
      new_feature_flag_service
  build_app_state manager = do
    log registries logger_name (codes "lifecycle.app_state.building") []
    redis_logger ← child redis_logger_name
    let redis =
        new_redis_client registries.build_redis_dsn manager.app_config.redis redis_logger none
    postgres_logger ← child postgres_logger_name
    let postgres =
        new_postgres_client registries.build_postgres_dsn manager.app_config.postgres
          postgres_logger none
    feature_flag_logger ← child feature_flag_logger_name
    metrics ← new_metrics
    pure (record {
      clients = record { redis = redis; postgres = postgres };
      services = record {
        feature_flag =
            new_feature_flag_service postgres redis manager.app_config.feature_flag
              feature_flag_logger metrics;
      };
      log_manager = manager.log_manager;
    })

  unfoldable pub add_middlewares_in_order : Building registries Unit
  add_middlewares_in_order = do
    log registries logger_name (codes "lifecycle.middlewares.registering") []
    install_middleware registries
    add_middleware registries secure_asgi
    add_middleware registries correlation_id

  unfoldable pub register_routers : AppConfig → Building registries Unit
  register_routers config = do
    log registries logger_name (codes "lifecycle.routers.registering") []
    include registries (k8s_probe_router (include_probes_in_schema config.env))
    include registries feature_flag_router
    add_metrics_router registries config.prometheus

  -- `FastAPI(…)`, with the state attached.
  abbrev new_app : Text → AppState → FastApi
  new_app version state = record {
    title = openapi_title;
    version = version;
    docs_url = swagger_docs_endpoint;
    redoc_url = redoc_endpoint;
    app_state = some state;
    exception_handlers = [];
    user_middleware = [];
    routes = [];
  }

  abbrev add_exception_handler : Text → Building registries Unit
  add_exception_handler logger = modify (λ p. record p {
    app = record p.app { exception_handlers = logger ∷ p.app.exception_handlers };
  })

  unfoldable pub create_app : LifecycleManager → Building registries Unit
  unfolding build_app_state add_middlewares_in_order register_routers get_child_logger
  create_app manager = do
    log registries logger_name (codes "lifecycle.app.creating")
        ((codes "env", env_value manager.app_config.env) ∷ [])
    state ← build_app_state manager
    modify (λ p. record p { app = new_app manager.app_version state })
    logger ← child uvicorn_logger_name
    add_exception_handler logger
    add_middlewares_in_order
    register_routers manager.app_config

  -- `install_uvicorn_error_logging`: the filter, the handler, level DEBUG, no propagation
  unfoldable pub install_uvicorn_error_logging : Text → Building registries Unit
  install_uvicorn_error_logging child_name = modify (λ p. record p {
    uvicorn_error = record {
      filters = p.uvicorn_error.filters + 1;
      handlers = p.uvicorn_error.handlers ++ child_name ∷ [];
      level = 10;
      propagate = false;
    };
  })

  -- `install_uvicorn_access_logging`: the same without the filter
  unfoldable pub install_uvicorn_access_logging : Text → Building registries Unit
  install_uvicorn_access_logging child_name = modify (λ p. record p {
    uvicorn_access = record p.uvicorn_access {
      handlers = p.uvicorn_access.handlers ++ child_name ∷ [];
      level = 10;
      propagate = false;
    };
  })

  -- The access lines are bridged only if they are switched on.
  unfoldable pub bridge_access_lines : Bool → Building registries Unit
  unfolding get_child_logger install_uvicorn_access_logging
  bridge_access_lines enabled process =
      if enabled
      then (child uvicorn_access_logger_name >>= install_uvicorn_access_logging) process
      else pure tt process

  unfoldable pub install_process_logging : LifecycleManager → Building registries Unit
  unfolding get_child_logger install_uvicorn_error_logging bridge_access_lines
  install_process_logging manager = do
    hook ← child sys_excepthook_logger_name
    modify (λ p. record p { excepthook = some hook })
    error ← child uvicorn_logger_name
    install_uvicorn_error_logging error
    bridge_access_lines manager.app_config.logger.enable_uvicorn_access_logs
