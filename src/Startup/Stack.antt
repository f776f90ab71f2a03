-- ===== src/Startup/Stack.antt =====
-- The layers around the routes, as Starlette builds them from `user_middleware` and from the handler
-- of `Exception`; the layers of the libraries are parameters.
use fastapi_polyrepo_templat.Prelude.{
  Option, none, some, List, [], ◌∷◌, Text, text_eq, if◌then◌else◌,
}
use fastapi_polyrepo_templat.Effects.{BaseException}
use fastapi_polyrepo_templat.World.{Libraries, App, Message}
use fastapi_polyrepo_templat.Asgi.{Asgi}
use fastapi_polyrepo_templat.Middlewares.CorrelationId.{state_key, correlation_id_middleware}
use fastapi_polyrepo_templat.Middlewares.SecureHeaders.{secure_middleware}
use fastapi_polyrepo_templat.Middlewares.UnhandledException.{
  Response, handle_unhandled_http_exception,
}
use fastapi_polyrepo_templat.Startup.{Middleware, prometheus, secure_asgi, correlation_id}

-- The layers that libraries bring: that of `secure`, with its header set, the instrumentator's with its callbacks, and
-- Starlette's ServerErrorMiddleware with its handler; and the events of a plain-text response.
pub record Layers (lib : Libraries) : Type 1 where
  pub Secure : Type 0
  -- `Secure.with_default_headers()`
  pub with_default_headers : Secure
  pub secure : Secure → Asgi lib → Asgi lib
  pub instrumented : List Text → Asgi lib → Asgi lib
  pub server_error : (BaseException → App lib Response) → Asgi lib → Asgi lib
  pub respond : Response → List Message

-- `getattr(request.state, key, None)`
unfoldable pub state_value : Text → List (Text × Text) → Option Text
state_value k [] = none
state_value k ((j, v) ∷ entries) =
    let rest = state_value k entries in if text_eq k j then some v else rest

module _ (lib : Libraries) (layers : Layers lib) where
  abbrev pub default_secure_headers : layers.Secure
  default_secure_headers = layers.with_default_headers

  -- `SecureASGIMiddleware(app, secure=default_secure_headers())`: its inner layer is the library's.
  abbrev pub secure_asgi_middleware : Asgi lib → Asgi lib
  secure_asgi_middleware = secure_middleware lib (layers.secure default_secure_headers)

  unfoldable pub wrap : Middleware → Asgi lib → Asgi lib
  wrap (prometheus callbacks) = layers.instrumented callbacks
  wrap secure_asgi = secure_asgi_middleware
  wrap correlation_id = correlation_id_middleware lib

  -- The first middleware is the outermost.
  unfoldable pub stack : List Middleware → Asgi lib → Asgi lib
  unfolding wrap
  stack [] app = app
  stack (m ∷ ms) app = wrap m (stack ms app)

  -- The handler of `create_app`, on a request whose state is in the world.
  unfoldable pub on_unhandled : BaseException → App lib Response
  unfolding state_value
  on_unhandled exc w =
      handle_unhandled_http_exception lib (state_value state_key w.scope_state) exc w

  unfoldable pub served : List Middleware → Asgi lib → Asgi lib
  unfolding stack on_unhandled
  served ms app = layers.server_error on_unhandled (stack ms app)
