-- ===== src/Startup/Unhandled.antt =====
-- An exception that no route of src/app handled, through all the layers of the application.
use fastapi_polyrepo_templat.Prelude.{
  false, ◌≡◌, ◌≢◌, refl, sym, ap, ◌∙◌, true, some, [], ◌∷◌, ◌++◌, Text, codes, arith, append_assoc,
}
use fastapi_polyrepo_templat.Effects.{BaseException, is_exception, Result, ok, err, and_then}
use fastapi_polyrepo_templat.World.{
  Libraries, World, App, LogCall, HeaderList, Message, response_start, response_body, LogLevel,
  exception, text,
}
use fastapi_polyrepo_templat.Asgi.{Scope, Send, Asgi, server_send, send_all}
use fastapi_polyrepo_templat.Middlewares.CorrelationId.{
  request_id_header, state_key, correlation_id_from_headers, with_request_id,
}
use fastapi_polyrepo_templat.Middlewares.SecureHeaders.{omit_csp, secure_middleware}
use fastapi_polyrepo_templat.Middlewares.UnhandledException.{
  Response, handle_unhandled_http_exception,
}
use fastapi_polyrepo_templat.Middlewares.ErrorResponses.{error_response_carries_id}
use fastapi_polyrepo_templat.Startup.{Registries, Process}
use fastapi_polyrepo_templat.Startup.Lifecycle.{LifecycleManager, create_app}
use fastapi_polyrepo_templat.Startup.Built.{IsAccepting}
use fastapi_polyrepo_templat.Startup.Stack.{Layers, state_value, on_unhandled, served}
use fastapi_polyrepo_templat.Startup.Requests.{user_stack, user_stack_http, inside}

-- An application that returns, or raises what is no Exception.
abbrev pub PassesBy : Result (Unit {0}) → Type 0
PassesBy (ok u) = Unit {0}
PassesBy (err exc) = is_exception exc ≡ false

-- What Starlette documents of ServerErrorMiddleware and of PlainTextResponse: an application that
-- raises no Exception runs as it would without it; if the application raises an Exception before
-- it sends anything, the handler's response is sent, and then the exception is raised again; and
-- a header of the response stands in its start.
pub record ServerErrorContract (lib : Libraries) (layers : Layers lib) : Type 0 where
  pub not_raised :
      (handler : BaseException → App lib Response) (app : Asgi lib) (scope : Scope)
      (send : Send lib) (w : World lib)
      → PassesBy (app scope send w).0
      → layers.server_error handler app scope send w ≡ app scope send w
  pub before_start :
      (handler : BaseException → App lib Response) (app : Asgi lib) (scope : Scope)
      (send : Send lib) (w after : World lib) (exc : BaseException)
      → is_exception exc ≡ true
      → ((any : Send lib) → app scope any w ≡ (err exc, after))
      → layers.server_error handler app scope send w
        ≡ and_then
            (handler exc after)
            (λ response. send_all lib (layers.respond response) send (err exc))
  pub respond_header :
      (response : Response) (k v : Text)
      → response.headers ≡ (k, v) ∷ []
      → (hs : HeaderList) × ((layers.respond response
            ≡ response_start response.status_code hs ∷ response_body response.body ∷ [])
          × (lib.header_get hs k ≡ some v))

-- The world that is left behind the middlewares, given what becomes of the world below them.
abbrev pub left : (lib : Libraries) → (World lib → World lib) → Text → World lib → World lib
left lib after id w =
    let v = after (inside lib id w) in
    record v { context = lib.reset_contextvars w.context ((state_key, id) ∷ []) v.context }

-- What is logged of an exception, with the id in its fields.
abbrev pub unhandled_call : (lib : Libraries) → BaseException → Text → World lib → LogCall lib
unhandled_call lib exc id w = record {
  logger = codes "uvicorn";
  level = LogLevel.error;
  event = codes "http.unhandled_exception";
  fields = (codes "exc_info", exception exc) ∷ (codes "correlation_id", text id) ∷ [];
  context = w.context;
}

module _ (lib : Libraries) (layers : Layers lib) (server_errors : ServerErrorContract lib layers)
    (registries : Registries) (manager : LifecycleManager) (p : Process registries) (app : Asgi lib)
    (accepting : IsAccepting registries) (fresh : p.prometheus.middleware_installed ≡ false)
    (exc : BaseException) (after : World lib → World lib) where
  -- The layers around the routes raise the exception before they send anything.
  abbrev pub Raises : Scope → World lib → Type 0
  Raises scope v =
      (send : Send lib)
      → layers.secure layers.with_default_headers (layers.instrumented p.prometheus.callbacks app)
          scope send v
        ≡ (err exc, after v)

  secure_middleware-Raises :
      (scope : Scope) (send : Send lib) (v : World lib)
      → Raises scope v
      → secure_middleware lib
          (layers.secure layers.with_default_headers)
          (layers.instrumented p.prometheus.callbacks app)
          scope
          send
          v
        ≡ (err exc, after v)
  unfolding secure_middleware
  secure_middleware-Raises scope send v raises =
      ground (arith, raises send, raises (λ message. send (omit_csp message)))

  user_stack-Raises :
      (scope : Scope) (send : Send lib) (w : World lib) (id : Text)
      → scope.kind ≡ codes "http"
      → correlation_id_from_headers lib scope.headers w.uuid ≡ id
      → Raises scope (inside lib id w)
      → user_stack lib layers registries manager p app scope send w ≡ (err exc, left lib after id w)
  user_stack-Raises scope send w id http chosen raises =
      user_stack_http lib layers registries manager p app accepting fresh scope send w id http
        chosen
      ∙ rw
          (secure_middleware-Raises scope (λ message. send (with_request_id lib id message))
            (inside lib id w) raises)
          refl

  abbrev pub served_app : Asgi lib
  served_app = served lib layers (create_app registries manager p).1.app.user_middleware app

  generic_500 : Text → Response
  generic_500 id = record {
    status_code = 500;
    headers = (request_id_header, id) ∷ [];
    body = codes "Internal Server Error";
  }

  on_unhandled-state :
      (headers : HeaderList) (uuid id : Text) (v : World lib)
      → uuid ≢ []
      → correlation_id_from_headers lib headers uuid ≡ id
      → state_value state_key v.scope_state ≡ some id
      → on_unhandled lib layers exc v
        ≡ (ok (generic_500 id), record v { log = v.log ++ unhandled_call lib exc id v ∷ [] })
  unfolding on_unhandled generic_500
  on_unhandled-state headers uuid id v named chosen kept =
      ap (λ o. handle_unhandled_http_exception lib o exc v) (kept ∙ ap some (sym chosen))
      ∙ error_response_carries_id lib headers uuid exc v named
      ∙ rw chosen refl

  send_all_two :
      (a b : Message) (v : World lib)
      → send_all lib (a ∷ b ∷ []) (server_send lib) (err exc) v
        ≡ (err exc, record v { sent = v.sent ++ (a ∷ b ∷ []) })
  unfolding send_all
  send_all_two a b v =
      ap (λ s. (err exc, record v { sent = s })) (append_assoc v.sent (a ∷ []) (b ∷ []))

  -- The same with any `send` of the server: what it is given.
  pub served_unhandled-sends :
      (scope : Scope) (send : Send lib) (w : World lib) (id : Text)
      → scope.kind ≡ codes "http"
      → w.uuid ≢ []
      → correlation_id_from_headers lib scope.headers w.uuid ≡ id
      → Raises scope (inside lib id w)
      → is_exception exc ≡ true
      → state_value state_key (left lib after id w).scope_state ≡ some id
      → (hs : HeaderList) × ((lib.header_get hs request_id_header ≡ some id)
          × (served_app scope send w
              ≡ send_all lib
                  (response_start 500 hs ∷ response_body (codes "Internal Server Error") ∷ [])
                  send
                  (err exc)
                  (record (left lib after id w) {
                    log =
                        (left lib after id w).log
                        ++ unhandled_call lib exc id (left lib after id w) ∷ [];
                  })))
  unfolding served generic_500
  served_unhandled-sends scope send w id http named chosen raises is_exc kept =
      let (hs, (shape, has)) =
        server_errors.respond_header (generic_500 id) request_id_header id refl in
      let v = left lib after id w in
      (
        hs,
        (
          has,
          server_errors.before_start (on_unhandled lib layers)
                (user_stack lib layers registries manager p app) scope send w v exc is_exc
                (λ any. user_stack-Raises scope any w id http chosen raises)
              ∙ ap
                  (λ r.
                    and_then r (λ response. send_all lib (layers.respond response) send (err exc)))
                  (on_unhandled-state scope.headers w.uuid id v named chosen kept)
              ∙ ap
                  (λ messages.
                    send_all lib messages send (err exc)
                      (record v { log = v.log ++ unhandled_call lib exc id v ∷ [] }))
                  shape,
        ),
      )

  -- If the registry takes every series, the manager has not installed its middleware,
  -- ServerErrorMiddleware does what Starlette documents, the new UUID is not empty, the layers
  -- around the routes raise an Exception before they send anything and the state of the request
  -- still has the chosen id, then an HTTP request to the application that create_app builds ends
  -- with that exception, after one log call with the exception and the id and after one response:
  -- a 500 with the id as its X-Request-ID and the generic body.
  pub served_unhandled :
      (scope : Scope) (w : World lib) (id : Text)
      → scope.kind ≡ codes "http"
      → w.uuid ≢ []
      → correlation_id_from_headers lib scope.headers w.uuid ≡ id
      → Raises scope (inside lib id w)
      → is_exception exc ≡ true
      → state_value state_key (left lib after id w).scope_state ≡ some id
      → (hs : HeaderList) × ((lib.header_get hs request_id_header ≡ some id)
          × (served_app scope (server_send lib) w ≡ (
            err exc,
            record (left lib after id w) {
              log =
                  (left lib after id w).log ++ unhandled_call lib exc id (left lib after id w) ∷ [];
              sent =
                  (left lib after id w).sent
                  ++ (response_start 500 hs ∷ response_body (codes "Internal Server Error") ∷ []);
            },
          )))
  served_unhandled scope w id http named chosen raises is_exc kept =
      let (hs, (has, run)) =
        served_unhandled-sends scope (server_send lib) w id http named chosen raises is_exc kept in
      let v = left lib after id w in
      (
        hs,
        (
          has,
          run
              ∙ send_all_two (response_start 500 hs) (response_body (codes "Internal Server Error"))
                  (record v { log = v.log ++ unhandled_call lib exc id v ∷ [] }),
        ),
      )
