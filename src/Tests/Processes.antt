-- ===== src/Tests/Processes.antt =====
-- Starts of the process.
use fastapi_polyrepo_templat.Prelude.{refl, true, false, none, List, [], ◌∷◌, Text, codes}
use fastapi_polyrepo_templat.Effects.{ok}
use fastapi_polyrepo_templat.Startup.{StdLogger, Registries, Process, FastApi}
use fastapi_polyrepo_templat.Startup.Lifecycle.{LifecycleManager}
use fastapi_polyrepo_templat.Startup.Served.{main_manager}
use fastapi_polyrepo_templat.Startup.Instrumentation.{
  add_callbacks, add_prometheus, add_secure, Operation, after, layers, IsCaptured, after-IsCaptured,
}
use fastapi_polyrepo_templat.Tests.Configurations.{app_config, build}

-- A registry is the list of its series.
abbrev pub registries : Registries
registries = record {
  Registry = List Text;
  register = λ name registry. (ok tt, name ∷ registry);
  build_redis_dsn = build;
  build_postgres_dsn = build;
  hostname = codes "pod";
}

abbrev pub no_app : FastApi
no_app = record {
  title = [];
  version = [];
  docs_url = [];
  redoc_url = [];
  app_state = none;
  exception_handlers = [];
  user_middleware = [];
  routes = [];
}

abbrev pub std_logger : StdLogger
std_logger = record { filters = 0; handlers = []; level = 0; propagate = true }

abbrev pub process : Process registries
process = record {
  registry = [];
  prometheus = record { excluded_handlers = []; callbacks = []; middleware_installed = false };
  app = no_app;
  log = [];
  excepthook = none;
  uvicorn_error = std_logger;
  uvicorn_access = std_logger;
  runs = [];
}

abbrev pub manager : LifecycleManager
manager = main_manager registries app_config (codes "1.0")

abbrev operations : List Operation
operations =
    add_callbacks (codes "a" ∷ [])
    ∷ add_prometheus
    ∷ add_callbacks (codes "b" ∷ [])
    ∷ add_secure
    ∷ add_prometheus
    ∷ []

IsCaptured-process : IsCaptured registries process
unfolding layers
IsCaptured-process = refl

after-IsCaptured_example : IsCaptured registries (after registries operations process)
after-IsCaptured_example = after-IsCaptured registries operations process IsCaptured-process
