-- ===== src/Tests/Lifespans.antt =====
-- Lifespans that serve, and that fail to start.
use fastapi_polyrepo_templat.Prelude.{◌≡◌, refl, none, some, [], ◌∷◌, length, codes}
use fastapi_polyrepo_templat.Effects.{ok, err, library_error, is_exception, pure}
use fastapi_polyrepo_templat.World.{World, App}
use fastapi_polyrepo_templat.Sample.{libraries, world, healthy, down}
use fastapi_polyrepo_templat.Clients.Redis.{ping, start}
use fastapi_polyrepo_templat.Clients.Postgres
use fastapi_polyrepo_templat.Lifecycle.{init_by_topological_order, lifespan}
use fastapi_polyrepo_templat.Lifecycle.Lifespan.{lifespan_not_started, lifespan_released}
use fastapi_polyrepo_templat.Tests.Service.{row}

-- The server is up and serves one log line.
abbrev serve : App (libraries healthy) Unit
serve = pure tt

abbrev idle : World (libraries healthy)
idle = world healthy (row ∷ [])

abbrev idle_entered : World (libraries healthy)
idle_entered = record idle { loop_handler = some (codes "asyncio") }

started : (init_by_topological_order (libraries healthy) idle_entered).0 ≡ ok tt
unfolding init_by_topological_order start ping Postgres.start Postgres.ping
started = refl

lifespan_released_example :
    ((lifespan (libraries healthy) serve idle).1.cache
      ≡ (serve (init_by_topological_order (libraries healthy) idle_entered).1).1.cache)
    × ((lifespan (libraries healthy) serve idle).1.database
        ≡ (serve (init_by_topological_order (libraries healthy) idle_entered).1).1.database)
    × ((lifespan (libraries healthy) serve idle).1.flushed
        ≡ length (lifespan (libraries healthy) serve idle).1.log)
    × ((lifespan (libraries healthy) serve idle).1.loop_handler ≡ none)
lifespan_released_example = lifespan_released (libraries healthy) serve idle started

-- No server answers.
abbrev dark : World (libraries down)
dark = world down []

abbrev dark_serve : App (libraries down) Unit
dark_serve = pure tt

abbrev dark_entered : World (libraries down)
dark_entered = record dark { loop_handler = some (codes "asyncio") }

not_started :
    (init_by_topological_order (libraries down) dark_entered).0 ≡ err (library_error (codes "down"))
unfolding init_by_topological_order start ping is_exception
not_started = refl

lifespan_not_started_example : lifespan (libraries down) dark_serve dark ≡ (
  err (library_error (codes "down")),
  record (init_by_topological_order (libraries down) dark_entered).1 { loop_handler = none },
)
lifespan_not_started_example =
    lifespan_not_started (libraries down) dark_serve dark (library_error (codes "down")) not_started
