-- ===== src/Http/Failed.antt =====
-- A request of a flag that raises, through all the layers of the application: what the caller
-- gets, and what stays behind.
use fastapi_polyrepo_templat.Prelude.{
  ◌≡◌, ◌≢◌, refl, ap, ◌∙◌, true, false, [], Text, codes, text_eq_refl,
}
use fastapi_polyrepo_templat.Effects.{BaseException, is_exception, ok, err}
use fastapi_polyrepo_templat.World.{Libraries, World}
use fastapi_polyrepo_templat.Asgi.{Scope, Asgi, send_all}
use fastapi_polyrepo_templat.Middlewares.CorrelationId.{state_key, correlation_id_from_headers}
use fastapi_polyrepo_templat.Startup.{Registries, Process, FastApi}
use fastapi_polyrepo_templat.Startup.Lifecycle.{LifecycleManager, create_app}
use fastapi_polyrepo_templat.Startup.Built.{IsAccepting, built, create_app_lem}
use fastapi_polyrepo_templat.Startup.Stack.{Layers, state_value, served}
use fastapi_polyrepo_templat.Startup.Requests.{inside}
use fastapi_polyrepo_templat.Startup.Unhandled.{ServerErrorContract, Raises, served_unhandled}
use fastapi_polyrepo_templat.Routes.FeatureFlagRouter.{get_request}
use fastapi_polyrepo_templat.Http.Fastapi.{Fastapi, FastapiContract, error_response, handled}
use fastapi_polyrepo_templat.Http.Table.{table}
use fastapi_polyrepo_templat.Http.Routing.{serve_get_flag_raised}
use fastapi_polyrepo_templat.Http.Endpoints.{get_flag_endpoint_raised}
use fastapi_polyrepo_templat.Http.Silence.{get_request-sent, get_request-scope_state}
use fastapi_polyrepo_templat.Http.Application.{LayersContract}
use fastapi_polyrepo_templat.Http.Raised.{IsFailed, raised_lem}
use fastapi_polyrepo_templat.Http.Flags.{IsFlagRequest}

module _ (lib : Libraries) (layers : Layers lib) (layer_laws : LayersContract lib layers)
    (server_errors : ServerErrorContract lib layers) (fastapi : Fastapi lib)
    (contract : FastapiContract lib fastapi) (registries : Registries) (manager : LifecycleManager)
    (p : Process registries) (accepting : IsAccepting registries)
    (fresh : p.prometheus.middleware_installed ≡ false) where
  -- The same of a GET.
  pub get_flag_failed :
      (scope : Scope) (w : World lib) (tenant_id user_id name id : Text) (exc : BaseException)
      → IsFlagRequest lib (codes "GET") tenant_id user_id name scope
      → error_response lib fastapi scope exc ≡ ([], err exc)
      → is_exception exc ≡ true
      → w.uuid ≢ []
      → correlation_id_from_headers lib scope.headers w.uuid ≡ id
      → (get_request lib manager.app_config.feature_flag tenant_id user_id name (inside lib id w)).0
        ≡ err exc
      → IsFailed lib layers layer_laws server_errors fastapi contract registries manager p accepting
          fresh scope w id exc
          (get_request lib manager.app_config.feature_flag tenant_id user_id name
            (inside lib id w)).1
  get_flag_failed scope w tenant_id user_id name id exc request passes is_exc named chosen raised =
      let v = inside lib id w in
      let cfg = manager.app_config.feature_flag in
      let ran = (get_request lib cfg tenant_id user_id name v).1 in
      raised_lem lib layers layer_laws server_errors fastapi contract registries manager p accepting
        fresh scope w ran id exc request.http passes is_exc named chosen
        (λ send.
          serve_get_flag_raised lib fastapi contract registries manager p.prometheus.callbacks scope
            send v request.http name ran exc request.has_method request.has_path request.is_segment
            (get_flag_endpoint_raised lib fastapi contract registries manager p.prometheus.callbacks
              scope tenant_id user_id name request.has_tenant request.has_user request.is_segment v
              ran exc (ap (λ r. (r, ran)) raised)))
        (get_request-sent lib cfg tenant_id user_id name v)
        (get_request-scope_state lib cfg tenant_id user_id name v)
