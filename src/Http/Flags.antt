-- ===== src/Http/Flags.antt =====
-- A GET and a PUT of a flag, from the server through the middlewares and the routes and back: what
-- is sent, and what becomes of the stores, by the requests of src/app/routes/feature_flag_router.py.
use fastapi_polyrepo_templat.Prelude.{
  ◌≡◌, refl, ap, ◌∙◌, false, some, Text, codes, starts_with, text_eq,
}
use fastapi_polyrepo_templat.Effects.{Result, ok}
use fastapi_polyrepo_templat.Models.{FeatureFlag, FeatureFlagSetRequest}
use fastapi_polyrepo_templat.World.{Libraries, World}
use fastapi_polyrepo_templat.Asgi.{Scope}
use fastapi_polyrepo_templat.Middlewares.CorrelationId.{correlation_id_from_headers}
use fastapi_polyrepo_templat.Middlewares.SecureHeaders.{is_docs_path}
use fastapi_polyrepo_templat.Startup.{Registries, Process}
use fastapi_polyrepo_templat.Startup.Lifecycle.{LifecycleManager}
use fastapi_polyrepo_templat.Startup.Built.{IsAccepting}
use fastapi_polyrepo_templat.Startup.Stack.{Layers}
use fastapi_polyrepo_templat.Startup.Unhandled.{ServerErrorContract, PassesBy}
use fastapi_polyrepo_templat.Startup.Requests.{inside}
use fastapi_polyrepo_templat.Routes.FeatureFlagRouter.{get_request, set_request}
use fastapi_polyrepo_templat.Http.Fastapi.{Fastapi, FastapiContract, IsBody, flag, handled, respond}
use fastapi_polyrepo_templat.Http.Table.{tenant_id_header, user_id_header}
use fastapi_polyrepo_templat.Http.Routing.{path_of, IsSegment, serve_get_flag, serve_set_flag}
use fastapi_polyrepo_templat.Http.Endpoints.{get_flag_endpoint_lem, set_flag_endpoint_lem}
use fastapi_polyrepo_templat.Http.Silence.{get_request-sent, set_request-sent}
use fastapi_polyrepo_templat.Http.Application.{LayersContract, ended}
use fastapi_polyrepo_templat.Http.Answers.{Answers, answers_lem, send, quiet}

-- The path of a flag is no page of the documentation.
pub flag_path_plain : (path name : Text) → path ≡ path_of name → is_docs_path path ≡ false
unfolding is_docs_path text_eq starts_with
flag_path_plain path name e = rw e refl

-- The request of a flag: its method, its path and its caller.
pub record IsFlagRequest (lib : Libraries) (method tenant_id user_id name : Text) (scope : Scope)
    : Type 0 where
  pub http : scope.kind ≡ codes "http"
  pub has_method : scope.method ≡ method
  pub has_path : scope.path ≡ path_of name
  pub is_segment : IsSegment name
  pub has_tenant : lib.header_get scope.headers tenant_id_header ≡ some tenant_id
  pub has_user : lib.header_get scope.headers user_id_header ≡ some user_id

module _ (lib : Libraries) (layers : Layers lib) (layer_laws : LayersContract lib layers)
    (server_errors : ServerErrorContract lib layers)
    (fastapi : Fastapi lib) (contract : FastapiContract lib fastapi) (registries : Registries)
    (manager : LifecycleManager) (p : Process registries) (accepting : IsAccepting registries)
    (fresh : p.prometheus.middleware_installed ≡ false) (scope : Scope) (w : World lib)
    (tenant_id user_id name id : Text)
    (chosen : correlation_id_from_headers lib scope.headers w.uuid ≡ id) where
  abbrev IsAnsweredBy : Result FeatureFlag × World lib → Type 0
  IsAnsweredBy =
      Answers lib layers layer_laws server_errors fastapi registries manager p accepting fresh scope w id chosen
        flag

  pub get_over_http :
      IsFlagRequest lib (codes "GET") tenant_id user_id name scope
      → PassesBy (ended lib layers layer_laws fastapi scope (get_request lib manager.app_config.feature_flag tenant_id user_id name (inside lib id w)).0)
      → IsAnsweredBy
          (get_request lib manager.app_config.feature_flag tenant_id user_id name (inside lib id w))
  get_over_http request passes =
      answers_lem lib layers layer_laws server_errors fastapi registries manager p accepting fresh scope w id
        chosen flag
        (get_request lib manager.app_config.feature_flag tenant_id user_id name (inside lib id w))
        request.http (flag_path_plain scope.path name request.has_path) passes
        (get_request-sent lib manager.app_config.feature_flag tenant_id user_id name
          (inside lib id w))
        (serve_get_flag lib fastapi contract registries manager p.prometheus.callbacks scope
            (send lib layers layer_laws server_errors fastapi registries manager p accepting fresh scope w id
              chosen)
            (inside lib id w) request.http (λ m v. refl) name request.has_method request.has_path
            request.is_segment
          ∙ ap
              (handled lib fastapi scope (
                send lib layers layer_laws server_errors fastapi registries manager p accepting fresh scope w id
                  chosen))
              (get_flag_endpoint_lem lib fastapi contract registries manager p.prometheus.callbacks
                scope tenant_id user_id name request.has_tenant request.has_user request.is_segment
                (respond lib fastapi 200 (
                  send lib layers layer_laws server_errors fastapi registries manager p accepting fresh scope w id
                    chosen))
                _
                (quiet lib layers layer_laws server_errors fastapi registries manager p accepting fresh scope w id
                  chosen)
                (inside lib id w)))

  pub set_over_http :
      (body : FeatureFlagSetRequest)
      → IsFlagRequest lib (codes "PUT") tenant_id user_id name scope
      → IsBody lib fastapi scope.body body
      → PassesBy (ended lib layers layer_laws fastapi scope (set_request lib manager.app_config.feature_flag tenant_id user_id name body (inside lib id w)).0)
      → IsAnsweredBy (
          set_request lib manager.app_config.feature_flag tenant_id user_id name body
            (inside lib id w))
  set_over_http body request parsed passes =
      answers_lem lib layers layer_laws server_errors fastapi registries manager p accepting fresh scope w id
        chosen flag
        (set_request lib manager.app_config.feature_flag tenant_id user_id name body
          (inside lib id w))
        request.http (flag_path_plain scope.path name request.has_path) passes
        (set_request-sent lib manager.app_config.feature_flag tenant_id user_id name body
          (inside lib id w))
        (serve_set_flag lib fastapi contract registries manager p.prometheus.callbacks scope
            (send lib layers layer_laws server_errors fastapi registries manager p accepting fresh scope w id
              chosen)
            (inside lib id w) request.http (λ m v. refl) name request.has_method request.has_path
            request.is_segment
          ∙ ap
              (handled lib fastapi scope (
                send lib layers layer_laws server_errors fastapi registries manager p accepting fresh scope w id
                  chosen))
              (set_flag_endpoint_lem lib fastapi contract registries manager p.prometheus.callbacks
                scope tenant_id user_id name request.has_tenant request.has_user request.is_segment
                (respond lib fastapi 200 (
                  send lib layers layer_laws server_errors fastapi registries manager p accepting fresh scope w id
                    chosen))
                _
                (quiet lib layers layer_laws server_errors fastapi registries manager p accepting fresh scope w id
                  chosen)
                body (inside lib id w) parsed))
