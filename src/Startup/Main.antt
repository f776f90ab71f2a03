-- ===== src/Startup/Main.antt =====
-- src/app/main.py
use fastapi_polyrepo_templat.Prelude.{Bool, none, ◌++◌, [], ◌∷◌, Text, codes, if◌then◌else◌}
use fastapi_polyrepo_templat.Effects.{Result, lift, modify, ◌>>=◌, ◌>>◌}
use fastapi_polyrepo_templat.Config.{AppConfig}
use fastapi_polyrepo_templat.Startup.{Registries, Building}
use fastapi_polyrepo_templat.Startup.Lifecycle.{
  new_lifecycle_manager, create_app, install_process_logging,
}

-- `loop=`: "app.main:make_selector_event_loop" on Windows
abbrev pub loop_argument : Bool → Text
loop_argument is_win32 =
    if is_win32 then codes "app.main:make_selector_event_loop" else codes "auto"

module _ (registries : Registries) where
  unfoldable pub main : Bool → Result Text → Result AppConfig → Building registries Unit
  unfolding new_lifecycle_manager create_app install_process_logging
  main is_win32 installed_version loaded_config = do
    config ← lift loaded_config
    manager ← new_lifecycle_manager registries config installed_version
    install_process_logging registries manager
    create_app registries manager
    modify (λ p. record p {
      runs =
          p.runs
          ++ record {
            app = p.app;
            host = config.server.host;
            port = config.server.port;
            log_config = none;
            access_log = config.logger.enable_uvicorn_access_logs;
            loop = loop_argument is_win32;
          }
            ∷ [];
    })
