-- ===== src/Startup/FailedRequests.antt =====
-- A request that raises: uvicorn's report of its exception and its access line, through the bridges
-- of src/app/logger/uvicorn_error_log_handler.py and src/app/logger/uvicorn_access_log_handler.py.
use fastapi_polyrepo_templat.Prelude.{
  ℕ, ◌≡◌, ◌≢◌, inl, inr, refl, ap, ◌∙◌, true, false, some, [], ◌∷◌, ◌++◌, Text, codes, text_eq_refl,
  append_assoc,
}
use fastapi_polyrepo_templat.Effects.{BaseException, is_exception, Result, ok, err}
use fastapi_polyrepo_templat.World.{Libraries, World, App, response_start, response_body}
use fastapi_polyrepo_templat.World.Contextvars.{restore_bound}
use fastapi_polyrepo_templat.Contracts.{ContextContract}
use fastapi_polyrepo_templat.Asgi.{Scope, Asgi}
use fastapi_polyrepo_templat.Logger.{asgi_exception_prefix, uvicorn_error}
use fastapi_polyrepo_templat.Logger.Bridges.{uvicorn_error_lem}
use fastapi_polyrepo_templat.Middlewares.CorrelationId.{state_key, correlation_id_from_headers}
use fastapi_polyrepo_templat.Startup.{Registries, Process}
use fastapi_polyrepo_templat.Startup.Built.{IsAccepting}
use fastapi_polyrepo_templat.Startup.Lifecycle.{LifecycleManager, create_app}
use fastapi_polyrepo_templat.Startup.Stack.{Layers, state_value, served}
use fastapi_polyrepo_templat.Startup.Requests.{inside}
use fastapi_polyrepo_templat.Startup.Unhandled.{
  Raises, ServerErrorContract, left, unhandled_call, served_unhandled-sends,
}
use fastapi_polyrepo_templat.Startup.AccessLines.{
  accessed_send, access_call, access_calls, after_sending, send_all-accessed,
}

module _ (lib : Libraries) (handle_error : App lib Unit) (line : ℕ → Text) where
  -- What uvicorn does with what leaves the application: an exception is reported on `uvicorn.error`,
  -- with a sentence that starts with the prefix.
  unfoldable pub report : Text → Result (Unit {0}) × World lib → Result (Unit {0}) × World lib
  report rest (ok u, w) = (ok u, w)
  report rest (err exc, w) =
      uvicorn_error lib handle_error
        (record { levelno = 40; message = ok (asgi_exception_prefix ++ rest); exc_info = some exc })
        w

  report-dropped :
      (rest : Text) (exc : BaseException) (w : World lib) → report rest (err exc, w) ≡ (ok tt, w)
  unfolding report
  report-dropped rest exc w =
      elim (uvicorn_error_lem lib handle_error 40 (asgi_exception_prefix ++ rest) (some exc) w) [
        | inl (starts, same) ↦ same
        | inr (other, logged) ↦ absurd (other (rest, refl))
      ]

  module _ (context : ContextContract lib) (layers : Layers lib)
      (server_errors : ServerErrorContract lib layers) (registries : Registries)
      (manager : LifecycleManager) (p : Process registries) (app : Asgi lib)
      (accepting : IsAccepting registries) (fresh : p.prometheus.middleware_installed ≡ false)
      (exc : BaseException) (after : World lib → World lib) where
    -- If the registry takes every series, the manager has not installed its middleware,
    -- ServerErrorMiddleware and the context variables do what their libraries document, the new
    -- UUID is not empty, the layers around the routes raise an Exception before they send
    -- anything and the state of the request still has the chosen id, then an HTTP request to the
    -- application that create_app builds, with uvicorn's report of its exception, leaves two log
    -- calls more than those layers did: the exception with the chosen id, and the access line of
    -- the 500; and in the context of both the variable of the id is as it was before the request.
    pub failed_request_lines :
        (rest : Text) (scope : Scope) (w : World lib) (id : Text)
        → scope.kind ≡ codes "http"
        → w.uuid ≢ []
        → correlation_id_from_headers lib scope.headers w.uuid ≡ id
        → Raises lib layers server_errors registries manager p app accepting fresh exc after scope
            (inside lib id w)
        → is_exception exc ≡ true
        → state_value state_key (left lib after id w).scope_state ≡ some id
        → let v = left lib after id w in
          ((report rest (
              served lib layers
                (create_app registries manager p).1.app.user_middleware
                app
                scope
                (accessed_send lib handle_error line)
                w)).1.log
            ≡ v.log
              ++ (unhandled_call lib exc id v
                  ∷ access_call lib handle_error line v.context 500
                  ∷ []))
          × (lib.context_get v.context state_key ≡ lib.context_get w.context state_key)
    unfolding access_calls
    failed_request_lines rest scope w id http named chosen raises is_exc kept =
        let (hs, (has, run)) =
          served_unhandled-sends lib layers server_errors registries manager p app accepting fresh
            exc after scope (accessed_send lib handle_error line) w id http named chosen raises
            is_exc kept in
        let v = left lib after id w in
        let logged = record v { log = v.log ++ unhandled_call lib exc id v ∷ [] } in
        let messages = response_start 500 hs ∷ response_body (codes "Internal Server Error") ∷ [] in
        (
          ap (λ r. (report rest r).1.log)
                (run ∙ send_all-accessed lib handle_error line (λ m. m) messages (err exc) logged)
              ∙ ap (λ r. r.1.log)
                  (report-dropped rest exc (after_sending lib handle_error line messages logged))
              ∙ append_assoc v.log (unhandled_call lib exc id v ∷ [])
                  (access_call lib handle_error line v.context 500 ∷ []),
          context.get-reset w.context ((state_key, id) ∷ []) (after (inside lib id w)).context
                state_key
              ∙ restore_bound state_key id ((state_key, id) ∷ []) _ _
                  (rw (text_eq_refl state_key) refl),
        )
