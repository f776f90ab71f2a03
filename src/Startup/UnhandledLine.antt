-- ===== src/Startup/UnhandledLine.antt =====
-- The line that an exception no route of src/app handled leaves on the stream of the log.
use fastapi_polyrepo_templat.Prelude.{
  ◌≡◌, ◌≢◌, refl, sym, ap, ◌∙◌, true, false, Option, some, List, [], ◌∷◌, ◌++◌, Text, codes,
  text_eq, arith,
}
use fastapi_polyrepo_templat.Effects.{BaseException, is_exception}
use fastapi_polyrepo_templat.World.{Libraries, World, LogCall, text}
use fastapi_polyrepo_templat.Asgi.{Scope, Asgi, server_send}
use fastapi_polyrepo_templat.Config.{Environment}
use fastapi_polyrepo_templat.Logger.LogManager.{
  EventDict, get, add_resource_fields, resource_fields,
}
use fastapi_polyrepo_templat.Logger.ResourceFields.{
  StructlogContract, get-process, get-add_resource_fields,
}
use fastapi_polyrepo_templat.Logger.Json.Values.{all_as_read}
use fastapi_polyrepo_templat.Logger.Stream.{Writers, LogManager, processed, emit_all}
use fastapi_polyrepo_templat.Logger.Stream.Lines.{
  WritersContract, read_records, records, is_written, read_records-emit_all,
}
use fastapi_polyrepo_templat.Logger.Stream.Identity.{get-all_as_read}
use fastapi_polyrepo_templat.Middlewares.CorrelationId.{state_key, correlation_id_from_headers}
use fastapi_polyrepo_templat.Startup.{Registries, Process}
use fastapi_polyrepo_templat.Startup.Built.{IsAccepting}
use fastapi_polyrepo_templat.Startup.Lifecycle.{LifecycleManager, create_app}
use fastapi_polyrepo_templat.Startup.Stack.{Layers, state_value, served}
use fastapi_polyrepo_templat.Startup.Requests.{inside}
use fastapi_polyrepo_templat.Startup.Unhandled.{
  Raises, ServerErrorContract, left, unhandled_call, served_unhandled,
}

-- What structlog documents of the record of a call: a keyword stands in it, and a context variable
-- does not replace what stands in it.
pub record RecordContract (lib : Libraries) (structlog : Writers lib) : Type 0 where
  pub keyword :
      (bound fields : EventDict) (event k v : Text)
      → text_eq k (codes "event") ≡ false
      → get k fields ≡ some (text v)
      → get k (structlog.event_dict bound event fields) ≡ some (text v)
  pub merged :
      (call : LogCall lib) (d : EventDict) (k v : Text)
      → get k d ≡ some (text v)
      → get k ((structlog.processors call).merge_contextvars d) ≡ some (text v)

module _ (lib : Libraries) (structlog : Writers lib) (manager : LogManager) where
  records-append :
      (xs ys : List (LogCall lib))
      → records lib structlog manager (xs ++ ys)
        ≡ records lib structlog manager xs ++ records lib structlog manager ys
  unfolding records
  records-append [] ys = refl
  records-append (call ∷ xs) ys = ground (arith, records-append xs ys)

  records-one :
      (call : LogCall lib)
      → is_written lib structlog manager call ≡ true
      → records lib structlog manager (call ∷ [])
        ≡ some (all_as_read structlog.fallback (processed lib structlog manager call)) ∷ []
  unfolding records
  records-one call h = rw h refl

  -- A call that is written adds one line.
  pub read_records-more :
      (contract : WritersContract lib structlog) (calls : List (LogCall lib)) (call : LogCall lib)
      → is_written lib structlog manager call ≡ true
      → read_records (emit_all lib structlog manager (calls ++ call ∷ []) [])
        ≡ read_records (emit_all lib structlog manager calls [])
          ++ some (all_as_read structlog.fallback (processed lib structlog manager call)) ∷ []
  read_records-more contract calls call h =
      read_records-emit_all lib structlog contract manager (calls ++ call ∷ [])
      ∙ records-append calls (call ∷ [])
      ∙ ap (λ r. records lib structlog manager calls ++ r) (records-one call h)
      ∙ ap
          (λ r.
            r ++ some (all_as_read structlog.fallback (processed lib structlog manager call)) ∷ [])
          (sym (read_records-emit_all lib structlog contract manager calls))

  get-processed_correlation_id :
      (record_contract : RecordContract lib structlog)
      (processors : (call : LogCall lib) → StructlogContract (structlog.processors call))
      (env : Environment) (hostname app_version id : Text) (call : LogCall lib)
      → manager.resource ≡ resource_fields env hostname app_version
      → get state_key call.fields ≡ some (text id)
      → get state_key (processed lib structlog manager call) ≡ some (text id)
  unfolding processed text_eq
  get-processed_correlation_id record_contract processors env hostname app_version id call same
        has =
      let bound : EventDict = (codes "context", text call.logger) ∷ [] in
      let d = structlog.event_dict bound call.event call.fields in
      let merged = (structlog.processors call).merge_contextvars d in
      get-process (structlog.processors call) (processors call) manager.resource d state_key
        (refl, refl, refl, refl, refl, refl, refl, refl)
      ∙ ap (λ fields. get state_key (add_resource_fields fields merged)) same
      ∙ get-add_resource_fields state_key env hostname app_version merged
      ∙ record_contract.merged call d state_key id
          (record_contract.keyword bound call.fields call.event state_key id refl has)

unhandled_call-id :
    (lib : Libraries) (exc : BaseException) (id : Text) (w : World lib)
    → get state_key (unhandled_call lib exc id w).fields ≡ some (text id)
unfolding get text_eq
unhandled_call-id lib exc id w = refl

module _ (lib : Libraries) (layers : Layers lib) (server_errors : ServerErrorContract lib layers)
    (registries : Registries) (manager : LifecycleManager) (p : Process registries) (app : Asgi lib)
    (accepting : IsAccepting registries) (fresh : p.prometheus.middleware_installed ≡ false)
    (exc : BaseException) (after : World lib → World lib) (structlog : Writers lib)
    (writers : WritersContract lib structlog) (record_contract : RecordContract lib structlog)
    (processors : (call : LogCall lib) → StructlogContract (structlog.processors call))
    (env : Environment) (hostname app_version : Text)
    (same : manager.log_manager.resource ≡ resource_fields env hostname app_version) where
  abbrev lines : List (LogCall lib) → List (Option EventDict)
  lines calls = read_records (emit_all lib structlog manager.log_manager calls [])

  -- If the registry takes every series, the manager has not installed its middleware,
  -- ServerErrorMiddleware and structlog do what they document, the manager's identity is that of
  -- an environment, a host and a version, the new UUID is not empty, the layers around the routes
  -- raise an Exception before they send anything, the state of the request still has the chosen
  -- id, and the record of the exception has a level that is enough and characters that UTF-8 has,
  -- then an HTTP request to the application that create_app builds leaves one more line on the
  -- stream of the log than those layers did, and a reader finds the chosen id in it as its
  -- correlation_id.
  pub served_unhandled-line :
      (scope : Scope) (w : World lib) (id : Text)
      → scope.kind ≡ codes "http"
      → w.uuid ≢ []
      → correlation_id_from_headers lib scope.headers w.uuid ≡ id
      → Raises lib layers server_errors registries manager p app accepting fresh exc after scope
          (inside lib id w)
      → is_exception exc ≡ true
      → state_value state_key (left lib after id w).scope_state ≡ some id
      → is_written lib structlog manager.log_manager
          (unhandled_call lib exc id (left lib after id w))
        ≡ true
      → (d : EventDict) × ((lines
              (served lib layers
                (create_app registries manager p).1.app.user_middleware
                app
                scope
                (server_send lib)
                w).1.log
            ≡ lines (left lib after id w).log ++ some d ∷ [])
          × (get state_key d ≡ some (text id)))
  served_unhandled-line scope w id http named chosen raises is_exc kept written =
      let (hs, (has, run)) =
        served_unhandled lib layers server_errors registries manager p app accepting fresh exc after
          scope w id http named chosen raises is_exc kept in
      let call = unhandled_call lib exc id (left lib after id w) in
      (
        all_as_read structlog.fallback (processed lib structlog manager.log_manager call),
        (
          ap (λ r. lines r.1.log) run
              ∙ read_records-more lib structlog manager.log_manager writers
                  (left lib after id w).log call written,
          get-all_as_read structlog.fallback state_key id
              (processed lib structlog manager.log_manager call)
              (get-processed_correlation_id lib structlog manager.log_manager record_contract
                processors env hostname app_version id call same
                (unhandled_call-id lib exc id (left lib after id w))),
        ),
      )
