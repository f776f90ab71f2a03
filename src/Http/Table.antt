-- ===== src/Http/Table.antt =====
-- The path operations of src/app/routes, as the routers declare them: paths, methods, names, the
-- declared parameters and the dependencies.
use fastapi_polyrepo_templat.Prelude.{Bool, true, List, [], ◌∷◌, ◌++◌, Text, codes}
use fastapi_polyrepo_templat.Effects.{lift, ◌>>=◌}
use fastapi_polyrepo_templat.Models.{UserDetails}
use fastapi_polyrepo_templat.World.{Libraries, App}
use fastapi_polyrepo_templat.Asgi.{Scope}
use fastapi_polyrepo_templat.Startup.{
  FastApi, Mounted, k8s_probe_router, feature_flag_router, metrics_endpoint,
}
use fastapi_polyrepo_templat.Startup.Manager.{livez_endpoint, readyz_endpoint}
use fastapi_polyrepo_templat.Startup.State.{get_feature_flag_service, get_route_logger}
use fastapi_polyrepo_templat.Routes.GetUserDetails.{get_user_details}
use fastapi_polyrepo_templat.Routes.FeatureFlagRouter.{get_feature_flag, set_feature_flag}
use fastapi_polyrepo_templat.Routes.ProbeRouter.{liveness_probe, readiness_probe}
use fastapi_polyrepo_templat.Http.Fastapi.{Endpoint, Route, Fastapi, flag, probe}

abbrev pub tenant_id_header : Text
tenant_id_header = codes "X-Tenant-ID"

abbrev pub user_id_header : Text
user_id_header = codes "X-User-ID"

-- The prefix of the router, and its path.
abbrev pub flags_prefix : Text
flags_prefix = codes "/api/v1/feature-flags"

abbrev pub flag_path : Text
flag_path = flags_prefix ++ codes "/{name}"

abbrev pub get_route_name : Text
get_route_name = codes "feature-flag-router.get"

abbrev pub set_route_name : Text
set_route_name = codes "feature-flag-router.set"

module _ (lib : Libraries) (fastapi : Fastapi lib) (app : FastApi) where
  -- `UserDetailsDep`: the two headers, and the generator around the rest of the request.
  unfoldable pub user_details_dep : Scope → (UserDetails → App lib Unit) → App lib Unit
  user_details_dep scope body = do
    tenant_id ← lift (fastapi.header tenant_id_header scope.headers)
    user_id ← lift (fastapi.header user_id_header scope.headers)
    get_user_details lib tenant_id user_id body

  -- `_FlagName`
  unfoldable pub flag_name : List (Text × Text) → App lib Text
  flag_name params = lift (fastapi.path_param (codes "name") 1 params)

  unfoldable pub get_flag_endpoint : Endpoint lib
  unfolding user_details_dep flag_name get_feature_flag_service get_route_logger
  get_flag_endpoint params scope respond = user_details_dep scope (λ user. do
    service ← lift (get_feature_flag_service app)
    lift (get_route_logger app get_route_name) >>= λ logger. do
      name ← flag_name params
      value ← get_feature_flag lib service.config name user
      respond (flag value))

  -- FastAPI parses the body before it solves the dependencies.
  unfoldable pub set_flag_endpoint : Endpoint lib
  unfolding user_details_dep flag_name get_feature_flag_service get_route_logger
  set_flag_endpoint params scope respond = do
    json ← lift (fastapi.parse_body scope.body)
    user_details_dep scope (λ user. do
      service ← lift (get_feature_flag_service app)
      lift (get_route_logger app set_route_name) >>= λ logger. do
        name ← flag_name params
        body ← lift (fastapi.set_request_body json)
        value ← set_feature_flag lib service.config name body user
        respond (flag value))

  unfoldable pub livez : Endpoint lib
  unfolding liveness_probe
  livez params scope respond = liveness_probe lib >>= λ status. respond (probe status)

  unfoldable pub readyz : Endpoint lib
  unfolding readiness_probe
  readyz params scope respond = readiness_probe lib >>= λ status. respond (probe status)

  abbrev get_route : Text → Text → Bool → Endpoint lib → Route lib
  get_route path name in_schema endpoint = record {
    method = codes "GET";
    path = path;
    name = name;
    status_code = 200;
    in_schema = in_schema;
    endpoint = endpoint;
  }

  abbrev pub get_flag_route : Route lib
  get_flag_route = get_route flag_path get_route_name true get_flag_endpoint

  abbrev pub set_flag_route : Route lib
  set_flag_route = record get_flag_route {
    method = codes "PUT";
    name = set_route_name;
    endpoint = set_flag_endpoint;
  }

  abbrev pub livez_route : Bool → Route lib
  livez_route in_schema = get_route livez_endpoint (codes "liveness_probe") in_schema livez

  abbrev pub readyz_route : Bool → Route lib
  readyz_route in_schema = get_route readyz_endpoint (codes "readiness_probe") in_schema readyz

  abbrev pub metrics_route : Text → Bool → Bool → Route lib
  metrics_route path in_schema gzip =
      get_route path (codes "metrics") in_schema (fastapi.expose gzip)

  -- The path operations of what was mounted.
  abbrev pub routes_of : Mounted → List (Route lib)
  routes_of (k8s_probe_router in_schema) = livez_route in_schema ∷ readyz_route in_schema ∷ []
  routes_of feature_flag_router = get_flag_route ∷ set_flag_route ∷ []
  routes_of (metrics_endpoint path in_schema gzip) = metrics_route path in_schema gzip ∷ []

  abbrev pub all_routes : List Mounted → List (Route lib)
  all_routes [] = []
  all_routes (m ∷ mounted) = routes_of m ++ all_routes mounted

  -- The routes of the application.
  unfoldable pub table : List (Route lib)
  table = all_routes app.routes
