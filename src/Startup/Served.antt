-- ===== src/Startup/Served.antt =====
-- What `main` serves.
use fastapi_polyrepo_templat.Prelude.{
  ◌+◌, ◌≡◌, refl, Bool, false, List, ◌++◌, [], ◌∷◌, Text, codes, if◌then◌else◌,
}
use fastapi_polyrepo_templat.Effects.{BaseException, Result, ok, err}
use fastapi_polyrepo_templat.Config.{AppConfig, PostgresConfig, validate}
use fastapi_polyrepo_templat.Config.Safety.{IsProductionSafe, validate-ok_iff}
use fastapi_polyrepo_templat.Startup.{Registries, Process, StdLogger}
use fastapi_polyrepo_templat.Startup.Manager.{default_metrics, inbound_request_id_metric}
use fastapi_polyrepo_templat.Startup.Lifecycle.{
  LifecycleManager, new_lifecycle_manager, install_process_logging,
}
use fastapi_polyrepo_templat.Logger.LogManager.{resource_fields}
use fastapi_polyrepo_templat.Startup.Main.{main}

-- The logger of uvicorn's own messages, filtered and bridged.
abbrev pub error_bridged : StdLogger → StdLogger
error_bridged logger = record {
  filters = logger.filters + 1;
  handlers = logger.handlers ++ codes "uvicorn" ∷ [];
  level = 10;
  propagate = false;
}

-- The logger of the access lines, bridged if they are switched on.
abbrev pub access_bridged : Bool → StdLogger → StdLogger
access_bridged enabled logger =
    if enabled
    then record {
      filters = logger.filters;
      handlers = logger.handlers ++ codes "uvicorn.access" ∷ [];
      level = 10;
      propagate = false;
    }
    else logger

module _ (registries : Registries) where
  -- The callbacks of the manager that `main` makes.
  abbrev pub main_callbacks : List Text
  main_callbacks = default_metrics ∷ inbound_request_id_metric ∷ []

  -- The manager that `main` makes of a configuration and a version.
  abbrev pub main_manager : AppConfig → Text → LifecycleManager
  main_manager config version = record {
    app_config = config;
    app_version = version;
    log_manager = record {
      min_level = config.logger.min_log_level;
      resource = resource_fields config.env registries.hostname version;
    };
  }

  abbrev entered : Text → AppConfig → Process registries → Process registries
  entered version config p =
      (install_process_logging registries (main_manager config version)
        (new_lifecycle_manager registries config (ok version) p).1).1

  -- A configuration that does not load.
  pub main_refused :
      (is_win32 : Bool) (version : Result Text) (e : BaseException) (p : Process registries)
      → main registries is_win32 version (err e) p ≡ (err e, p)
  unfolding main
  main_refused is_win32 version e p = refl

  -- A configuration that is not safe for production stops main with an error, and the process is
  -- as it was: no hook is installed and nothing is built or served.
  pub main_unsafe :
      (is_win32 : Bool) (version : Result Text) (dsn_builds : PostgresConfig → Bool) (report : Text)
      (config : AppConfig) (p : Process registries)
      → ¬ IsProductionSafe config
      → (e : BaseException) × (main registries is_win32 version
            (validate dsn_builds report config)
            p
          ≡ (err e, p))
  main_unsafe is_win32 version dsn_builds report config p unsafe =
      by_result (validate dsn_builds report config) refl
    where
      by_result :
          (r : Result AppConfig)
          → validate dsn_builds report config ≡ r
          → (e : BaseException) × (main registries is_win32 version
                (validate dsn_builds report config)
                p
              ≡ (err e, p))
      by_result (ok loaded) same =
          let (unchanged, bounds, dsn, safe) =
            (validate-ok_iff dsn_builds report config loaded).0 same in
          absurd (unsafe safe)
      by_result (err e) same = (e, rw same (main_refused is_win32 version e p))
