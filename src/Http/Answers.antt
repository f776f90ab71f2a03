-- ===== src/Http/Answers.antt =====
-- What the application makes of the outcome of the route that takes a request.
use fastapi_polyrepo_templat.Prelude.{◌≡◌, sym, subst, ap, ◌∙◌, false, [], ◌∷◌, ◌++◌, map, Text, codes}
use fastapi_polyrepo_templat.Effects.{Result, ok, and_then, finish, modify}
use fastapi_polyrepo_templat.World.{Libraries, World}
use fastapi_polyrepo_templat.Asgi.{Scope, Send, server_send, rewriting, send_all-rewriting}
use fastapi_polyrepo_templat.Middlewares.CorrelationId.{state_key, correlation_id_from_headers}
use fastapi_polyrepo_templat.Middlewares.SecureHeaders.{is_docs_path}
use fastapi_polyrepo_templat.Startup.{Registries, Process, FastApi}
use fastapi_polyrepo_templat.Startup.Lifecycle.{LifecycleManager}
use fastapi_polyrepo_templat.Startup.Built.{IsAccepting, built}
use fastapi_polyrepo_templat.Startup.Stack.{Layers, served, on_unhandled}
use fastapi_polyrepo_templat.Startup.Unhandled.{ServerErrorContract, PassesBy}
use fastapi_polyrepo_templat.Startup.Requests.{inside}
use fastapi_polyrepo_templat.Http.Fastapi.{Fastapi, Payload, handled, respond, json_response}
use fastapi_polyrepo_templat.Http.Table.{table}
use fastapi_polyrepo_templat.Http.Application.{
  LayersContract, decorated, reply, ended, handled_lem, routed, application, routed_http,
}

module _ (lib : Libraries) (layers : Layers lib) (layer_laws : LayersContract lib layers)
    (server_errors : ServerErrorContract lib layers) (fastapi : Fastapi lib) (registries : Registries) (manager : LifecycleManager)
    (p : Process registries) (accepting : IsAccepting registries)
    (fresh : p.prometheus.middleware_installed ≡ false) (scope : Scope) (w : World lib) (id : Text)
    (chosen : correlation_id_from_headers lib scope.headers w.uuid ≡ id) where
  abbrev pub app : FastApi
  app = built registries manager p.prometheus.callbacks

  abbrev pub send : Send lib
  send = rewriting lib (decorated lib layers layer_laws fastapi id)

  pub quiet :
      (payload : Payload) (v : World lib)
      → respond lib fastapi 200 send payload v ≡ (
        ok tt,
        record v {
          sent =
              v.sent
              ++ map
                  (decorated lib layers layer_laws fastapi id)
                  (json_response lib fastapi 200 (fastapi.rendered payload));
        },
      )
  quiet payload v =
      send_all-rewriting lib (decorated lib layers layer_laws fastapi id)
        (json_response lib fastapi 200 (fastapi.rendered payload)) (ok tt) v

  -- What the application answers with, given what the request returns.
  abbrev pub Answers : {A : Type 0} → (A → Payload) → Result A × World lib → Type 0
  Answers payload r =
      let run =
        application lib layers layer_laws fastapi registries manager p accepting fresh scope
          (server_send lib) w in
      (run.0 ≡ ended lib layers layer_laws fastapi scope r.0)
      × (run.1.sent
          ≡ w.sent
            ++ map (decorated lib layers layer_laws fastapi id)
                (reply lib layers layer_laws fastapi scope payload r.0))
      × (run.1.cache ≡ r.1.cache)
      × (run.1.database ≡ r.1.database)
      × (run.1.log ≡ r.1.log)

  pub answers_lem :
      {A : Type 0} (payload : A → Payload) (r : Result A × World lib)
      → scope.kind ≡ codes "http"
      → is_docs_path scope.path ≡ false
      → PassesBy (ended lib layers layer_laws fastapi scope r.0)
      → r.1.sent ≡ w.sent
      → fastapi.serve app (table lib fastapi app) scope send (inside lib id w)
        ≡ handled lib fastapi scope send
            (and_then r (λ value. respond lib fastapi 200 send (payload value)))
      → Answers payload r
  unfolding served
  answers_lem payload r http plain passes same answered =
      let app_routed = routed lib layers layer_laws fastapi registries manager p accepting fresh in
      let inner =
        routed_http lib layers layer_laws fastapi registries manager p accepting fresh scope w id
          http plain chosen
        ∙ ap
            (λ o. finish o (
              modify (λ v. record v {
                context = lib.reset_contextvars w.context ((state_key, id) ∷ []) v.context;
              })))
            (answered
              ∙ handled_lem lib layers layer_laws fastapi
                  (decorated lib layers layer_laws fastapi id) scope payload r) in
      let run =
        server_errors.not_raised (on_unhandled lib layers) app_routed scope (server_send lib) w
          (subst PassesBy (sym (ap (λ o. o.0) inner)) passes)
        ∙ inner in
      (
        ap (λ o. o.0) run,
        ap (λ o. o.1.sent) run
            ∙ ap
                (λ s.
                  s
                  ++ map (decorated lib layers layer_laws fastapi id)
                      (reply lib layers layer_laws fastapi scope payload r.0))
                same,
        ap (λ o. o.1.cache) run,
        ap (λ o. o.1.database) run,
        ap (λ o. o.1.log) run,
      )
