-- ===== src/Http/Probed.antt =====
-- GET /readyz from the server, through the middlewares and src/app/routes/k8s_probe_router.py, to the
-- two stores and back.
use fastapi_polyrepo_templat.Prelude.{
  ◌≡◌, Bool, true, false, sym, subst, refl, ap, ◌∙◌, ◌++◌, map, Text, codes, starts_with, text_eq, All,
}
use fastapi_polyrepo_templat.Effects.{
  is_exception, cancelled_error, keyboard_interrupt, system_exit, Result, ok, err,
}
use fastapi_polyrepo_templat.World.{Libraries, World}
use fastapi_polyrepo_templat.Contracts.{HeaderContract}
use fastapi_polyrepo_templat.Asgi.{Scope, server_send}
use fastapi_polyrepo_templat.Middlewares.CorrelationId.{correlation_id_from_headers}
use fastapi_polyrepo_templat.Middlewares.SecureHeaders.{is_docs_path}
use fastapi_polyrepo_templat.Middlewares.RequestIds.{HasRequestId}
use fastapi_polyrepo_templat.Startup.{Registries, Process}
use fastapi_polyrepo_templat.Startup.Manager.{readyz_endpoint}
use fastapi_polyrepo_templat.Startup.Lifecycle.{LifecycleManager}
use fastapi_polyrepo_templat.Startup.Built.{IsAccepting}
use fastapi_polyrepo_templat.Startup.Stack.{Layers}
use fastapi_polyrepo_templat.Startup.Unhandled.{ServerErrorContract, PassesBy}
use fastapi_polyrepo_templat.Startup.Requests.{inside}
use fastapi_polyrepo_templat.Routes.ProbeRouter.{readiness_probe}
use fastapi_polyrepo_templat.Routes.Probes.{readiness, readiness_probe_lem}
use fastapi_polyrepo_templat.Http.Fastapi.{Fastapi, FastapiContract, error_response, probe}
use fastapi_polyrepo_templat.Http.Table.{readyz}
use fastapi_polyrepo_templat.Http.Routing.{serve_readyz}
use fastapi_polyrepo_templat.Http.Silence.{readiness_probe-sent}
use fastapi_polyrepo_templat.Http.Application.{LayersContract, decorated, reply, ended, application}
use fastapi_polyrepo_templat.Http.Answers.{answers_lem, send}
use fastapi_polyrepo_templat.Http.Reads.{decorated-HasRequestId}

readyz_plain : (path : Text) → path ≡ readyz_endpoint → is_docs_path path ≡ false
unfolding is_docs_path text_eq starts_with
readyz_plain path e = rw e refl

-- A probe ends with no Exception: its 503 is an answer.
readiness-PassesBy :
    (lib : Libraries) (layers : Layers lib) (layer_laws : LayersContract lib layers)
    (fastapi : Fastapi lib) (scope : Scope) (redis : Result Bool) (postgres : Result (Unit {0}))
    → PassesBy (ended lib layers layer_laws fastapi scope (readiness redis postgres))
unfolding readiness error_response is_exception
readiness-PassesBy lib layers layer_laws fastapi scope (ok true) (ok u) = tt
readiness-PassesBy lib layers layer_laws fastapi scope (ok false) postgres = tt
readiness-PassesBy lib layers layer_laws fastapi scope (ok true) (err cancelled_error) = refl
readiness-PassesBy lib layers layer_laws fastapi scope (ok true) (err keyboard_interrupt) = refl
readiness-PassesBy lib layers layer_laws fastapi scope (ok true) (err system_exit) = refl
readiness-PassesBy lib layers layer_laws fastapi scope (ok true) (err _) = tt
readiness-PassesBy lib layers layer_laws fastapi scope (err cancelled_error) postgres = refl
readiness-PassesBy lib layers layer_laws fastapi scope (err keyboard_interrupt) postgres = refl
readiness-PassesBy lib layers layer_laws fastapi scope (err system_exit) postgres = refl
readiness-PassesBy lib layers layer_laws fastapi scope (err _) postgres = tt

module _ (lib : Libraries) (headers : HeaderContract lib) (layers : Layers lib)
    (layer_laws : LayersContract lib layers)
    (server_errors : ServerErrorContract lib layers) (fastapi : Fastapi lib)
    (contract : FastapiContract lib fastapi) (registries : Registries) (manager : LifecycleManager)
    (p : Process registries) (accepting : IsAccepting registries)
    (fresh : p.prometheus.middleware_installed ≡ false) where
  -- On the application that create_app builds, with a registry that takes every series, a manager
  -- that has not installed its middleware and libraries that do what they document: a GET of
  -- /readyz, without caller headers, sends the server the decorated 200 if Redis answers PING
  -- with True and PostgreSQL answers SELECT 1, and otherwise the 503 that names the first of them
  -- that fails with an Exception or does not answer True; each response start carries the chosen
  -- id as its X-Request-ID; what is no Exception ends the application and sends nothing.
  pub readyz_served :
      (scope : Scope) (w : World lib) (id : Text)
      → scope.kind ≡ codes "http"
      → scope.method ≡ codes "GET"
      → scope.path ≡ readyz_endpoint
      → correlation_id_from_headers lib scope.headers w.uuid ≡ id
      → let run =
          application lib layers layer_laws fastapi registries manager p accepting fresh scope
            (server_send lib)
            w in
        let answer = readiness (lib.redis_ping w.cache).0 (lib.select_one w.database).0 in
        let sent =
          map
            (decorated lib layers layer_laws fastapi id)
            (reply lib layers layer_laws fastapi scope probe answer) in
        (run.0 ≡ ended lib layers layer_laws fastapi scope answer)
        × (run.1.sent ≡ w.sent ++ sent)
        × All (HasRequestId lib id) sent
  unfolding readyz
  readyz_served scope w id http get path chosen =
      let v = inside lib id w in
      let answered = readiness_probe_lem lib v in
      let over =
        answers_lem lib layers layer_laws server_errors fastapi registries manager p accepting fresh scope w id
          chosen probe (readiness_probe lib v) http (readyz_plain scope.path path)
          (subst (λ r. PassesBy (ended lib layers layer_laws fastapi scope r)) (sym answered) (readiness-PassesBy lib layers layer_laws fastapi scope (lib.redis_ping w.cache).0 (lib.select_one w.database).0))
          (readiness_probe-sent lib v)
          (serve_readyz lib fastapi contract registries manager p.prometheus.callbacks scope
            (send lib layers layer_laws server_errors fastapi registries manager p accepting fresh scope w id
              chosen)
            v http (λ m u. refl) get path) in
      (
        over.0 ∙ ap (ended lib layers layer_laws fastapi scope) answered,
        over.1
            ∙ ap
                (λ r.
                  w.sent
                  ++ map (decorated lib layers layer_laws fastapi id)
                      (reply lib layers layer_laws fastapi scope probe r))
                answered,
        decorated-HasRequestId lib headers layers layer_laws fastapi id _,
      )
