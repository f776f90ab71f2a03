-- ===== src/Http/Raised.antt =====
-- A request that the routes raise on, through all the layers of the application: what the caller
-- gets, and what stays behind.
use fastapi_polyrepo_templat.Prelude.{
  ◌≡◌, ◌≢◌, refl, ap, ◌∙◌, true, false, some, [], ◌∷◌, ◌++◌, Text, codes, text_eq_refl,
}
use fastapi_polyrepo_templat.Effects.{BaseException, is_exception, ok, err}
use fastapi_polyrepo_templat.Models.{FeatureFlagSetRequest}
use fastapi_polyrepo_templat.World.{Libraries, World, HeaderList, response_start, response_body}
use fastapi_polyrepo_templat.Asgi.{Scope, Send, Asgi, server_send, send_all}
use fastapi_polyrepo_templat.Middlewares.CorrelationId.{
  request_id_header, state_key, correlation_id_from_headers,
}
use fastapi_polyrepo_templat.Startup.{Registries, Process, FastApi}
use fastapi_polyrepo_templat.Startup.Lifecycle.{LifecycleManager, create_app}
use fastapi_polyrepo_templat.Startup.Built.{IsAccepting, built, create_app_lem}
use fastapi_polyrepo_templat.Startup.Stack.{Layers, state_value, served}
use fastapi_polyrepo_templat.Startup.Requests.{inside}
use fastapi_polyrepo_templat.Startup.Unhandled.{
  ServerErrorContract, Raises, unhandled_call, left, served_unhandled,
}
use fastapi_polyrepo_templat.Routes.FeatureFlagRouter.{set_request}
use fastapi_polyrepo_templat.Http.Fastapi.{Fastapi, FastapiContract, IsBody, error_response, handled}
use fastapi_polyrepo_templat.Http.Table.{table}
use fastapi_polyrepo_templat.Http.Routing.{serve_set_flag_raised}
use fastapi_polyrepo_templat.Http.Endpoints.{set_flag_endpoint_raised}
use fastapi_polyrepo_templat.Http.Silence.{set_request-sent, set_request-scope_state}
use fastapi_polyrepo_templat.Http.Application.{LayersContract, with_headers, application}
use fastapi_polyrepo_templat.Http.Flags.{IsFlagRequest}

module _ (lib : Libraries) (layers : Layers lib) (layer_laws : LayersContract lib layers)
    (server_errors : ServerErrorContract lib layers) (fastapi : Fastapi lib)
    (contract : FastapiContract lib fastapi) (registries : Registries) (manager : LifecycleManager)
    (p : Process registries) (accepting : IsAccepting registries)
    (fresh : p.prometheus.middleware_installed ≡ false) where
  abbrev app : FastApi
  app = built registries manager p.prometheus.callbacks

  abbrev routes : Asgi lib
  routes = fastapi.serve app (table lib fastapi app)

  -- The layers around the routes raise what the routes raise and FastAPI lets pass.
  routes-Raises :
      (scope : Scope) (v z : World lib) (exc : BaseException)
      → scope.kind ≡ codes "http"
      → error_response lib fastapi scope exc ≡ ([], err exc)
      → ((send : Send lib) → routes scope send v ≡ handled lib fastapi scope send (err exc, z))
      → Raises lib layers server_errors registries manager p routes accepting fresh exc
          (λ w. z)
          scope
          v
  unfolding handled send_all
  routes-Raises scope v z exc http passes raised send =
      layer_laws.secure_sends (layers.instrumented p.prometheus.callbacks routes) scope send v http
      ∙ ap (λ a. a scope (λ message. send (with_headers layer_laws.secured message)) v)
          (layer_laws.instrumented_sends p.prometheus.callbacks routes)
      ∙ raised (λ message. send (with_headers layer_laws.secured message))
      ∙ ap
          (λ answer.
            send_all lib answer.0 (λ message. send (with_headers layer_laws.secured message))
              answer.1 z)
          passes

  -- What is left of a request that ends with an exception, given the world `ran` that its route
  -- left: the one 500, the log call and the stores.
  abbrev pub IsFailed : Scope → World lib → Text → BaseException → World lib → Type 0
  IsFailed scope w id exc ran =
      let run =
        application lib layers layer_laws fastapi registries manager p accepting fresh scope
          (server_send lib) w in
      (hs : HeaderList) × ((lib.header_get hs request_id_header ≡ some id)
        × (run.0 ≡ err exc)
        × (run.1.sent
            ≡ w.sent
              ++ (response_start 500 hs ∷ response_body (codes "Internal Server Error") ∷ []))
        × (run.1.cache ≡ ran.cache)
        × (run.1.database ≡ ran.database)
        × (run.1.log ≡ ran.log ++ unhandled_call lib exc id (left lib (λ v. ran) id w) ∷ []))

  pub raised_lem :
      (scope : Scope) (w ran : World lib) (id : Text) (exc : BaseException)
      → scope.kind ≡ codes "http"
      → error_response lib fastapi scope exc ≡ ([], err exc)
      → is_exception exc ≡ true
      → w.uuid ≢ []
      → correlation_id_from_headers lib scope.headers w.uuid ≡ id
      → ((send : Send lib)
          → routes scope send (inside lib id w) ≡ handled lib fastapi scope send (err exc, ran))
      → ran.sent ≡ w.sent
      → ran.scope_state ≡ (inside lib id w).scope_state
      → IsFailed scope w id exc ran
  raised_lem scope w ran id exc http passes is_exc named chosen raised silent untouched =
      let kept : state_value state_key (left lib (λ u. ran) id w).scope_state ≡ some id =
        ap (state_value state_key) untouched
        ∙ (unfold state_value in rw (text_eq_refl state_key) refl) in
      let (hs, (has, run)) =
        served_unhandled lib layers server_errors registries manager p routes accepting fresh exc
          (λ u. ran) scope w id http named chosen
          (routes-Raises scope (inside lib id w) ran exc http passes raised) is_exc kept in
      let same =
        ap
          (λ a.
            served lib layers (create_app registries manager p).1.app.user_middleware
              (fastapi.serve a (table lib fastapi a)) scope (server_send lib) w)
          (create_app_lem registries manager p accepting fresh).1
        ∙ run in
      (
        hs,
        (
          has,
          ap (λ r. r.0) same,
          ap (λ r. r.1.sent) same
              ∙ ap
                  (λ s.
                    s
                    ++ (response_start 500 hs ∷ response_body (codes "Internal Server Error") ∷ []))
                  silent,
          ap (λ r. r.1.cache) same,
          ap (λ r. r.1.database) same,
          ap (λ r. r.1.log) same,
        ),
      )
