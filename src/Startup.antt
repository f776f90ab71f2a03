-- ===== src/Startup.antt =====
-- What the process builds before it serves: src/app/main.py, src/app/lifecycle/lifecycle_manager.py
-- and src/app/prometheus. The application is what is registered on it.
pub mod Objects
pub mod Manager
pub mod Lifecycle
pub mod Main
pub mod Instrumentation
pub mod Built
pub mod Served
pub mod State
pub mod Stack
pub mod Requests
pub mod Unhandled
pub mod UnhandledLine
pub mod AccessLines
pub mod FailedRequests
use fastapi_polyrepo_templat.Prelude.{ℕ, Bool, Option, List, ◌++◌, [], ◌∷◌, Text, codes}
use fastapi_polyrepo_templat.Config.Credentials.{DsnParts}
use fastapi_polyrepo_templat.Startup.Objects.{AppState}
use fastapi_polyrepo_templat.Effects.{Result, Exec, ok, err, modify}

-- prometheus_client: a registry, and the registration of a series by its name. pydantic: the URLs of
-- the two stores. The standard library: `socket.gethostname()`.
pub record Registries : Type 1 where
  pub Registry : Type 0
  pub register : Text → Registry → Result (Unit {0}) × Registry
  pub build_redis_dsn : DsnParts → Text
  pub build_postgres_dsn : DsnParts → Text
  pub hostname : Text

-- The middlewares of this program; that of Prometheus keeps the callbacks it captured.
pub data Middleware : Type 0 where
  prometheus : List Text → Middleware
  secure_asgi correlation_id : Middleware

-- What is mounted, and whether it is in the OpenAPI schema.
pub data Mounted : Type 0 where
  k8s_probe_router : Bool → Mounted
  feature_flag_router : Mounted
  -- path, in the schema, gzip
  metrics_endpoint : Text → Bool → Bool → Mounted

-- A FastAPI application: `user_middleware` has the outermost first.
pub record FastApi : Type 0 where
  pub title : Text
  pub version : Text
  pub docs_url : Text
  pub redoc_url : Text
  pub app_state : Option AppState
  pub exception_handlers : List Text
  pub user_middleware : List Middleware
  pub routes : List Mounted

-- The instrumentator's excluded handlers and callbacks, and `_middleware_installed`.
pub record PrometheusManager : Type 0 where
  pub excluded_handlers : List Text
  pub callbacks : List Text
  pub middleware_installed : Bool

-- A logger of the standard library: how many of this program's filters it has, its handlers by the
-- child logger that each forwards to, its level, and whether it propagates.
pub record StdLogger : Type 0 where
  pub filters : ℕ
  pub handlers : List Text
  pub level : ℕ
  pub propagate : Bool

-- A call of `uvicorn.run`.
pub record Run : Type 0 where
  pub app : FastApi
  pub host : Text
  pub port : ℕ
  pub log_config : Option Text
  pub access_log : Bool
  pub loop : Text

-- `sys.excepthook`, by the name of its child logger, and the loggers of uvicorn.
pub record Process (registries : Registries) : Type 0 where
  pub registry : registries.Registry
  pub prometheus : PrometheusManager
  pub app : FastApi
  -- logger, event and keyword arguments
  pub log : List (Text × Text × List (Text × Text))
  pub excepthook : Option Text
  pub uvicorn_error : StdLogger
  pub uvicorn_access : StdLogger
  pub runs : List Run

module _ (registries : Registries) where
  abbrev pub Building : Type 0 → Type 0
  Building A = Exec (Process registries) A

  -- `Counter(name, …, registry=registry)`
  abbrev pub register : Text → Building Unit
  register name p = (
    (registries.register name p.registry).0,
    record p { registry = (registries.register name p.registry).1 },
  )

  abbrev pub log : Text → Text → List (Text × Text) → Building Unit
  log logger event fields = modify (λ p. record p { log = p.log ++ (logger, event, fields) ∷ [] })

  -- `app.add_middleware(…)`: the last one is the outermost.
  abbrev pub add_middleware : Middleware → Building Unit
  add_middleware m =
      modify (λ p. record p { app = record p.app { user_middleware = m ∷ p.app.user_middleware } })

  -- `app.include_router(…)` and what mounts a path.
  abbrev pub include : Mounted → Building Unit
  include m = modify (λ p. record p { app = record p.app { routes = p.app.routes ++ m ∷ [] } })
