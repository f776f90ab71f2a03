-- ===== src/Tests/Outage.antt =====
-- A PUT of a flag while Redis refuses to write.
use fastapi_polyrepo_templat.Prelude.{refl, false, [], ◌∷◌, codes}
use fastapi_polyrepo_templat.Effects.{BaseException, library_error, ok}
use fastapi_polyrepo_templat.World.{World}
use fastapi_polyrepo_templat.Asgi.{Asgi}
use fastapi_polyrepo_templat.Models.{FeatureFlagSetRequest}
use fastapi_polyrepo_templat.Sample.{libraries, world, read_only}
use fastapi_polyrepo_templat.Sample.Layers.{plain_layers, plain_layer_laws}
use fastapi_polyrepo_templat.Sample.Fastapi.{fastapi}
use fastapi_polyrepo_templat.Startup.Requests.{inside}
use fastapi_polyrepo_templat.Routes.FeatureFlagRouter.{set_request}
use fastapi_polyrepo_templat.Http.Application.{application}
use fastapi_polyrepo_templat.Tests.Service.{dark_mode, row}
use fastapi_polyrepo_templat.Tests.Processes.{registries, process, manager}

abbrev start : World (libraries read_only)
start = world read_only (row ∷ [])

abbrev refusal : BaseException
refusal = library_error (codes "redis")

abbrev off : FeatureFlagSetRequest
off = record { enabled = false }

abbrev put : Asgi (libraries read_only)
put =
    application (libraries read_only) (plain_layers read_only) (plain_layer_laws read_only)
      (fastapi read_only) registries manager process (λ name registry. refl) refl

abbrev ran : World (libraries read_only)
ran =
    (set_request (libraries read_only) manager.app_config.feature_flag (codes " t") (codes "ann")
      dark_mode off (inside (libraries read_only) (codes "r") start)).1
