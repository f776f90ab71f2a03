-- ===== src/Startup/Requests.antt =====
-- A request through all the layers of the application that src/app/lifecycle/lifecycle_manager.py
-- builds.
use fastapi_polyrepo_templat.Prelude.{
  ◌≡◌, ◌≢◌, refl, ap, ◌∙◌, Bool, true, false, List, [], ◌∷◌, map, Text, codes, lower, text_eq_iff,
  All, if◌then◌else◌,
}
use fastapi_polyrepo_templat.Effects.{Result}
use fastapi_polyrepo_templat.World.{
  Libraries, World, Message, response_start, response_body, other_event, bound_contextvars,
}
use fastapi_polyrepo_templat.Contracts.{HeaderContract}
use fastapi_polyrepo_templat.Asgi.{Script, Scope, Send, Asgi, scripted, send_all}
use fastapi_polyrepo_templat.Middlewares.CorrelationId.{
  state_key, correlation_id_from_headers, with_request_id,
}
use fastapi_polyrepo_templat.Middlewares.SecureHeaders.{
  csp_header, is_docs_path, omit_csp, secure_middleware,
}
use fastapi_polyrepo_templat.Middlewares.RequestIds.{entered, correlation_id_middleware_http}
use fastapi_polyrepo_templat.Startup.{Registries, Process}
use fastapi_polyrepo_templat.Startup.Lifecycle.{LifecycleManager, create_app}
use fastapi_polyrepo_templat.Startup.Built.{IsAccepting, create_app_lem}
use fastapi_polyrepo_templat.Startup.Stack.{Layers, stack, wrap}

-- No response start among the events has a content security policy.
abbrev pub HasNoPolicy : Message → Type 0
HasNoPolicy (response_start status headers) = All (λ h. lower h.0 ≢ csp_header) headers
HasNoPolicy (response_body body) = Unit {0}
HasNoPolicy (other_event kind) = Unit {0}

-- What the stack does to an event.
abbrev pub rewritten : (lib : Libraries) → Text → Bool → Message → Message
rewritten lib id docs m = with_request_id lib id (if docs then omit_csp m else m)

pub map_compose :
    {A B C : Type 0} (f : B → C) (g : A → B) (xs : List A)
    → map f (map g xs) ≡ map (λ x. f (g x)) xs
map_compose f g [] = refl
map_compose f g (x ∷ xs) = ap (λ ys. f (g x) ∷ ys) (map_compose f g xs)

module _ (lib : Libraries) (library : Asgi lib → Asgi lib) (app : Asgi lib)
    (messages : Script (List Message)) (end : Script (Result (Unit {0})))
    (inner : (scope : Scope) (send : Send lib) (w : World lib)
      → library app scope send w ≡ scripted lib messages end scope send w) where
  -- The security headers in front of any `send`.
  pub secure_middleware-scripted :
      (send : Send lib) (scope : Scope) (w : World lib)
      → scope.kind ≡ codes "http"
      → secure_middleware lib library app scope send w
        ≡ send_all lib
            (messages scope w.scope_state)
            (λ m. send (if is_docs_path scope.path then omit_csp m else m))
            (end scope w.scope_state)
            w
  unfolding secure_middleware scripted
  secure_middleware-scripted send scope w http = by_path (is_docs_path scope.path) refl
    where
      by_path :
          (b : Bool)
          → is_docs_path scope.path ≡ b
          → secure_middleware lib library app scope send w
            ≡ send_all lib
                (messages scope w.scope_state)
                (λ m. send (if is_docs_path scope.path then omit_csp m else m))
                (end scope w.scope_state)
                w
      by_path true docs =
          rw ((text_eq_iff scope.kind (codes "http")).1 http, docs)
            (inner scope (λ m. send (omit_csp m)) w)
      by_path false docs =
          rw ((text_eq_iff scope.kind (codes "http")).1 http, docs) (inner scope send w)

-- The world below the middlewares.
abbrev pub inside : (lib : Libraries) → Text → World lib → World lib
inside lib id w = record (entered lib id w) {
  context = lib.bind_contextvars ((state_key, id) ∷ []) w.context;
}

module _ (lib : Libraries) (layers : Layers lib) (registries : Registries)
    (manager : LifecycleManager) (p : Process registries) (app : Asgi lib) where
  abbrev pub user_stack : Asgi lib
  user_stack = stack lib layers (create_app registries manager p).1.app.user_middleware app

  pub user_stack_http :
      IsAccepting registries
      → p.prometheus.middleware_installed ≡ false
      → (scope : Scope) (send : Send lib) (w : World lib) (id : Text) → scope.kind ≡ codes "http"
      → correlation_id_from_headers lib scope.headers w.uuid ≡ id
      → user_stack scope send w
        ≡ bound_contextvars lib
            ((state_key, id) ∷ [])
            (secure_middleware lib
              (layers.secure layers.with_default_headers)
              (layers.instrumented p.prometheus.callbacks app)
              scope
              (λ message. send (with_request_id lib id message)))
            (entered lib id w)
  unfolding stack wrap
  user_stack_http accepting fresh scope send w id http chosen =
      let (created, app_built, installed) = create_app_lem registries manager p accepting fresh in
      ap (λ a. stack lib layers a.user_middleware app scope send w) app_built
      ∙ correlation_id_middleware_http lib
          (secure_middleware lib (layers.secure layers.with_default_headers)
            (layers.instrumented p.prometheus.callbacks app))
          scope send w id http chosen

module _ (lib : Libraries) (headers : HeaderContract lib) (layers : Layers lib)
    (registries : Registries) (manager : LifecycleManager) (p : Process registries)
    (app : Asgi lib) where
  abbrev requested : Asgi lib
  requested = user_stack lib layers registries manager p app
