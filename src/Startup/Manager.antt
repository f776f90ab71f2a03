-- ===== src/Startup/Manager.antt =====
-- src/app/prometheus: the manager of the instrumentator, and the counter of inbound request ids.
use fastapi_polyrepo_templat.Prelude.{
  ℕ, suc, true, false, List, ◌++◌, [], ◌∷◌, Text, codes, is_empty, if◌then◌else◌,
}
use fastapi_polyrepo_templat.Effects.{raise, pure, modify, runtime_error, ◌>>◌}
use fastapi_polyrepo_templat.World.{Libraries, HeaderList}
use fastapi_polyrepo_templat.Config.{PrometheusConfig}
use fastapi_polyrepo_templat.Middlewares.CorrelationId.{request_id_header, header_value}
use fastapi_polyrepo_templat.Startup.{
  Registries, PrometheusManager, Building, register, add_middleware, include, prometheus,
  metrics_endpoint,
}

abbrev pub metrics_path : Text
metrics_path = codes "/metrics"

abbrev pub livez_endpoint : Text
livez_endpoint = codes "/livez"

abbrev pub readyz_endpoint : Text
readyz_endpoint = codes "/readyz"

-- `_EXCLUDED_HANDLERS`
abbrev pub excluded_paths : List Text
excluded_paths = metrics_path ∷ livez_endpoint ∷ readyz_endpoint ∷ []

abbrev pub inbound_request_id_metric : Text
inbound_request_id_metric = codes "http_requests_with_inbound_request_id_total"

abbrev pub default_metrics : Text
default_metrics = codes "metrics.default"

module _ (registries : Registries) where
  abbrev pub set_manager : PrometheusManager → Building registries Unit
  set_manager manager = modify (λ p. record p { prometheus = manager })

  -- `PrometheusManager()`
  unfoldable pub new_manager : Building registries Unit
  new_manager = do
    register registries default_metrics
    set_manager (record {
      excluded_handlers = excluded_paths;
      callbacks = default_metrics ∷ [];
      middleware_installed = false;
    })

  -- The counter is registered, and the callback that counts is known by it.
  unfoldable pub make_inbound_request_id_instrumentation : Building registries Text
  make_inbound_request_id_instrumentation = do
    register registries inbound_request_id_metric
    pure inbound_request_id_metric

  -- `add_http_instrumentation`
  unfoldable pub add_http_instrumentation : List Text → Building registries Unit
  add_http_instrumentation callbacks p =
      if p.prometheus.middleware_installed
      then raise
          (runtime_error (
            codes
              "HTTP instrumentation callbacks must be registered before add_middleware: the middleware already captured the callback list."))
          p
      else set_manager (record p.prometheus { callbacks = p.prometheus.callbacks ++ callbacks }) p

  -- `PrometheusManager.add_middleware`
  unfoldable pub install_middleware : Building registries Unit
  install_middleware p =
      if p.prometheus.middleware_installed
      then raise (runtime_error (codes "Prometheus middleware is already installed.")) p
      else (add_middleware registries (prometheus p.prometheus.callbacks)
            >> set_manager (record p.prometheus { middleware_installed = true }))
          p

  -- `add_metrics_router`
  unfoldable pub add_metrics_router : PrometheusConfig → Building registries Unit
  add_metrics_router config =
      include registries (metrics_endpoint metrics_path false config.should_gzip)

-- What the callback does to its counter.
unfoldable pub record_inbound_request_id : Libraries → HeaderList → ℕ → ℕ
unfolding header_value is_empty
record_inbound_request_id lib headers count =
    if is_empty (header_value lib headers request_id_header) then count else suc count
