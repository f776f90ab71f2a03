-- ===== src/Startup/State.antt =====
-- src/app/state/app_state_getters.py and src/app/routes/route_child_logger.py: how a request reaches
-- what the process built.
use fastapi_polyrepo_templat.Prelude.{◌≡◌, refl, none, some, Text, codes, false}
use fastapi_polyrepo_templat.Effects.{Result, ok, err, attribute_error}
use fastapi_polyrepo_templat.Startup.Objects.{AppState, AppServices, FeatureFlagService}
use fastapi_polyrepo_templat.Startup.{Registries, Process, FastApi}
use fastapi_polyrepo_templat.Startup.Lifecycle.{LifecycleManager, create_app, get_child_logger}
use fastapi_polyrepo_templat.Startup.Built.{IsAccepting, built_state, create_app_lem}

-- `getattr(app.state, "app_state")`, of the application or of the request's application.
unfoldable pub get_app_state : FastApi → Result AppState
get_app_state app = elim app.app_state [
  | none ↦ err (attribute_error (codes "app_state"))
  | some state ↦ ok state
]

unfoldable pub get_app_services : FastApi → Result AppServices
unfolding get_app_state
get_app_services app = elim (get_app_state app) [ ok state ↦ ok state.services | err e ↦ err e ]

unfoldable pub get_feature_flag_service : FastApi → Result FeatureFlagService
unfolding get_app_services
get_feature_flag_service app = elim (get_app_services app) [
  | ok services ↦ ok services.feature_flag
  | err e ↦ err e
]

-- The logger of the matched route.
unfoldable pub get_route_logger : FastApi → Text → Result Text
unfolding get_app_state get_child_logger
get_route_logger app route_name = elim (get_app_state app) [
  | ok state ↦ get_child_logger route_name
  | err e ↦ err e
]

-- If the registry takes every series and the manager has not installed its middleware, then on
-- the application that create_app builds a request finds the state and the service; the service
-- works on the clients of that state, and its entries live as long as the configuration says.
pub get_feature_flag_service-create_app :
    (registries : Registries) (manager : LifecycleManager) (p : Process registries)
    → IsAccepting registries
    → p.prometheus.middleware_installed ≡ false
    → (state : AppState) × ((get_app_state (create_app registries manager p).1.app ≡ ok state)
        × (get_feature_flag_service (create_app registries manager p).1.app
            ≡ ok state.services.feature_flag)
        × (state.services.feature_flag.redis ≡ state.clients.redis)
        × (state.services.feature_flag.postgres ≡ state.clients.postgres)
        × (state.services.feature_flag.cache_ttl_seconds
            ≡ manager.app_config.feature_flag.cache_ttl_seconds))
unfolding get_feature_flag_service get_app_services get_app_state
get_feature_flag_service-create_app registries manager p accepting fresh =
    let (built_ok, app, installed) = create_app_lem registries manager p accepting fresh in
    (built_state registries manager, (rw app refl, rw app refl, refl, refl, refl))
