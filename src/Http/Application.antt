-- ===== src/Http/Application.antt =====
-- The application that src/app/lifecycle/lifecycle_manager.py builds, with its routes behind its
-- middlewares, and what it makes of the outcome of an endpoint.
use fastapi_polyrepo_templat.Prelude.{
  ◌≡◌, ap, ◌∙◌, false, List, [], ◌∷◌, ◌++◌, map, Text, codes, text_eq_iff,
}
use fastapi_polyrepo_templat.Effects.{Result, ok, err, and_then, finish, modify}
use fastapi_polyrepo_templat.World.{
  Libraries, World, HeaderList, Message, response_start, response_body, other_event,
  bound_contextvars,
}
use fastapi_polyrepo_templat.Asgi.{Scope, Send, Asgi, server_send, rewriting, send_all-rewriting}
use fastapi_polyrepo_templat.Middlewares.CorrelationId.{
  state_key, correlation_id_from_headers, with_request_id,
}
use fastapi_polyrepo_templat.Middlewares.SecureHeaders.{is_docs_path, secure_middleware}
use fastapi_polyrepo_templat.Middlewares.RequestIds.{entered}
use fastapi_polyrepo_templat.Startup.{Registries, Process}
use fastapi_polyrepo_templat.Startup.Lifecycle.{LifecycleManager, create_app}
use fastapi_polyrepo_templat.Startup.Built.{IsAccepting, built, create_app_lem}
use fastapi_polyrepo_templat.Startup.Stack.{Layers, served}
use fastapi_polyrepo_templat.Startup.Requests.{inside, user_stack, user_stack_http}
use fastapi_polyrepo_templat.Http.Fastapi.{
  Fastapi, Payload, error_response, handled, json_response, respond,
}
use fastapi_polyrepo_templat.Http.Table.{table}

-- An event with other headers on the start of its response.
abbrev pub with_headers : (HeaderList → HeaderList) → Message → Message
with_headers f (response_start status headers) = response_start status (f headers)
with_headers f (response_body body) = response_body body
with_headers f (other_event kind) = other_event kind

-- The layers of the libraries, as they are documented: `secure` sets its headers on the start of a
-- response, and the instrumentator measures and hands on.
pub record LayersContract (lib : Libraries) (layers : Layers lib) : Type 0 where
  pub secured : HeaderList → HeaderList
  pub secure_sends :
      (app : Asgi lib) (scope : Scope) (send : Send lib) (w : World lib)
      → scope.kind ≡ codes "http"
      → layers.secure layers.with_default_headers app scope send w
        ≡ app scope (λ message. send (with_headers secured message)) w
  pub instrumented_sends :
      (callbacks : List Text) (app : Asgi lib) → layers.instrumented callbacks app ≡ app

module _ (lib : Libraries) (layers : Layers lib) (contract : LayersContract lib layers)
    (fastapi : Fastapi lib) where
  -- What the middlewares make of an event that an endpoint sends.
  abbrev pub decorated : Text → Message → Message
  decorated id message = with_request_id lib id (with_headers contract.secured message)

  -- What is sent of a handler's outcome, and how the application ends.
  abbrev pub reply : {A : Type 0} → Scope → (A → Payload) → Result A → List Message
  reply scope payload (ok value) = json_response lib fastapi 200 (fastapi.rendered (payload value))
  reply scope payload (err exc) = (error_response lib fastapi scope exc).0

  abbrev pub ended : {A : Type 0} → Scope → Result A → Result (Unit {0})
  ended scope (ok value) = ok tt
  ended scope (err exc) = (error_response lib fastapi scope exc).1

  pub handled_lem :
      {A : Type 0} (f : Message → Message) (scope : Scope) (payload : A → Payload)
      (r : Result A × World lib)
      → handled lib fastapi scope
          (rewriting lib f)
          (and_then r (λ value. respond lib fastapi 200 (rewriting lib f) (payload value)))
        ≡ (ended scope r.0, record r.1 { sent = r.1.sent ++ map f (reply scope payload r.0) })
  unfolding handled
  handled_lem f scope payload (ok value, v) =
      ap (handled lib fastapi scope (rewriting lib f))
        (send_all-rewriting lib f (reply scope payload (ok value)) (ok tt) v)
  handled_lem f scope payload (err exc, v) =
      send_all-rewriting lib f (error_response lib fastapi scope exc).0
        (error_response lib fastapi scope exc).1 v

  through_library :
      (app : Asgi lib) (callbacks : List Text) (scope : Scope) (send : Send lib) (w : World lib)
      → scope.kind ≡ codes "http"
      → is_docs_path scope.path ≡ false
      → secure_middleware lib
          (layers.secure layers.with_default_headers)
          (layers.instrumented callbacks app)
          scope
          send
          w
        ≡ app scope (λ message. send (with_headers contract.secured message)) w
  unfolding secure_middleware
  through_library app callbacks scope send w http page =
      rw ((text_eq_iff scope.kind (codes "http")).1 http, page)
        (contract.secure_sends (layers.instrumented callbacks app) scope send w http
          ∙ ap (λ a. a scope (λ message. send (with_headers contract.secured message)) w)
              (contract.instrumented_sends callbacks app))

  module _ (registries : Registries) (manager : LifecycleManager) (p : Process registries)
      (accepting : IsAccepting registries) (fresh : p.prometheus.middleware_installed ≡ false) where
    -- The routes behind the middlewares.
    abbrev pub routed : Asgi lib
    routed =
        let app = (create_app registries manager p).1.app in
        user_stack lib layers registries manager p (fastapi.serve app (table lib fastapi app))

    -- The application with its routes, in the server: ServerErrorMiddleware, with the handler of
    -- `Exception`, stands in front of the middlewares.
    abbrev pub application : Asgi lib
    application =
        let app = (create_app registries manager p).1.app in
        served lib layers app.user_middleware (fastapi.serve app (table lib fastapi app))

    -- A request that is not for the documentation reaches FastAPI, its events decorated, between
    -- the binding of the id and its reset.
    pub routed_http :
        (scope : Scope) (w : World lib) (id : Text)
        → scope.kind ≡ codes "http"
        → is_docs_path scope.path ≡ false
        → correlation_id_from_headers lib scope.headers w.uuid ≡ id
        → routed scope (server_send lib) w
          ≡ bound_contextvars lib
              ((state_key, id) ∷ [])
              (fastapi.serve
                (built registries manager p.prometheus.callbacks)
                (table lib fastapi (built registries manager p.prometheus.callbacks))
                scope
                (rewriting lib (decorated id)))
              (entered lib id w)
    routed_http scope w id http page chosen =
        let app_built = (create_app_lem registries manager p accepting fresh).1 in
        let app = built registries manager p.prometheus.callbacks in
        ap
          (λ a.
            user_stack lib layers registries manager p (fastapi.serve a (table lib fastapi a)) scope
              (server_send lib) w)
          app_built
        ∙ user_stack_http lib layers registries manager p
            (fastapi.serve app (table lib fastapi app)) accepting fresh scope (server_send lib) w id
            http chosen
        ∙ ap
            (λ r. finish r (
              modify (λ v. record v {
                context = lib.reset_contextvars w.context ((state_key, id) ∷ []) v.context;
              })))
            (through_library (fastapi.serve app (table lib fastapi app)) p.prometheus.callbacks
              scope (λ m. server_send lib (with_request_id lib id m)) (inside lib id w) http page)
