-- ===== src/Lifecycle.antt =====
-- src/app/lifecycle/lifecycle_manager.py: the lifespan of the application. The time that the
-- server serves is a parameter.
pub mod Lifespan
use fastapi_polyrepo_templat.Prelude.{ℕ, Option, none, some, [], ◌∷◌, Text, codes, length}
use fastapi_polyrepo_templat.Effects.{ok, modify, ◌>>◌, try_finally}
use fastapi_polyrepo_templat.World.{Libraries, World, App, log, LogLevel}
use fastapi_polyrepo_templat.Clients.Redis
use fastapi_polyrepo_templat.Clients.Postgres

abbrev pub logger_name : Text
logger_name = codes "LifecycleManager"

abbrev pub asyncio_logger_name : Text
asyncio_logger_name = codes "asyncio"

module _ (lib : Libraries) where
  -- `LogManager.flush`: all that was logged is on the stream.
  unfoldable pub flush : App lib Unit
  flush = modify (λ w. record w { flushed = length w.log })

  unfoldable pub init_by_topological_order : App lib Unit
  init_by_topological_order = do
    log lib logger_name LogLevel.info (codes "lifecycle.resources.initializing") []
    Redis.start lib
    Postgres.start lib

  unfoldable pub teardown_by_reverse_topological_order : App lib Unit
  unfolding flush
  teardown_by_reverse_topological_order = do
    log lib logger_name LogLevel.info (codes "lifecycle.resources.tearing_down") []
    try_finally (Postgres.stop lib) (try_finally (Redis.stop lib) flush)

  -- `loop.set_exception_handler(…)`
  unfoldable pub set_exception_handler : Option Text → App lib Unit
  set_exception_handler handler = modify (λ w. record w { loop_handler = handler })

  unfoldable pub lifespan : App lib Unit → App lib Unit
  unfolding init_by_topological_order teardown_by_reverse_topological_order set_exception_handler
  lifespan serve w =
      (set_exception_handler (some asyncio_logger_name)
          >> try_finally
              (init_by_topological_order >> try_finally serve teardown_by_reverse_topological_order)
              (set_exception_handler w.loop_handler))
        w
