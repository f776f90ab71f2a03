-- ===== src/Startup/Instrumentation.antt =====
-- The middleware of src/app/prometheus under any order of calls, and the counter of inbound
-- request ids beside the choice of the correlation id.
use fastapi_polyrepo_templat.Prelude.{
  ℕ, suc, ◌≡◌, ◌⊎◌, inl, inr, List, [], ◌∷◌, Text, strip, is_empty, if◌then◌else◌, arith,
}
use fastapi_polyrepo_templat.World.{Libraries, HeaderList}
use fastapi_polyrepo_templat.Startup.{
  Registries, Process, Middleware, prometheus, secure_asgi, correlation_id, Building,
  add_middleware,
}
use fastapi_polyrepo_templat.Startup.Manager.{
  add_http_instrumentation, install_middleware, record_inbound_request_id,
}
use fastapi_polyrepo_templat.Middlewares.CorrelationId.{
  request_id_header, correlation_id_from_headers,
}
use fastapi_polyrepo_templat.Middlewares.RequestIds.{
  IsUsable, IsUnusable, IsUsable-cases, header_value_usable, header_value_unusable,
}

-- The callbacks that the Prometheus layers of an application captured.
unfoldable pub layers : List Middleware → List (List Text)
layers [] = []
layers (prometheus callbacks ∷ ms) = callbacks ∷ layers ms
layers (secure_asgi ∷ ms) = layers ms
layers (correlation_id ∷ ms) = layers ms

-- What a caller does with the manager and the application, in any order, errors caught.
pub data Operation : Type 0 where
  add_callbacks : List Text → Operation
  add_prometheus add_secure add_correlation : Operation

module _ (registries : Registries) where
  unfoldable pub perform : Operation → Building registries Unit
  perform (add_callbacks callbacks) = add_http_instrumentation registries callbacks
  perform add_prometheus = install_middleware registries
  perform add_secure = add_middleware registries secure_asgi
  perform add_correlation = add_middleware registries correlation_id

  unfoldable pub after : List Operation → Process registries → Process registries
  unfolding perform
  after [] p = p
  after (operation ∷ operations) p = after operations (perform operation p).1

  -- No layer before the installation; afterwards one, with all the callbacks of the manager.
  abbrev pub IsCaptured : Process registries → Type 0
  unfolding layers
  IsCaptured p =
      layers p.app.user_middleware
      ≡ (if p.prometheus.middleware_installed then p.prometheus.callbacks ∷ [] else [])

  perform-IsCaptured :
      (operation : Operation) (p : Process registries)
      → IsCaptured p
      → IsCaptured (perform operation p).1
  unfolding perform IsCaptured layers add_http_instrumentation install_middleware
  perform-IsCaptured (add_callbacks callbacks) p h = ground arith
  perform-IsCaptured add_prometheus p h = ground arith
  perform-IsCaptured add_secure p h = h
  perform-IsCaptured add_correlation p h = h

  -- However callbacks and middlewares are added, in any order and with the errors caught: if at
  -- the start there is no Prometheus layer before the installation and one with all callbacks of
  -- the manager after it, then that is so at the end.
  pub after-IsCaptured :
      (operations : List Operation) (p : Process registries)
      → IsCaptured p
      → IsCaptured (after operations p)
  unfolding after
  after-IsCaptured [] p h = h
  after-IsCaptured (operation ∷ operations) p h =
      after-IsCaptured operations (perform operation p).1 (perform-IsCaptured operation p h)

-- A request whose X-Request-ID is there and not blank adds one to the counter and keeps its own
-- id, stripped; any other request leaves the counter alone.
pub record_inbound_request_id_cases :
    (lib : Libraries) (headers : HeaderList) (count : ℕ) (uuid : Text)
    → ((value : Text) × (IsUsable lib headers request_id_header value
          × ((record_inbound_request_id lib headers count ≡ suc count)
              × (correlation_id_from_headers lib headers uuid ≡ strip value))))
      ⊎ (IsUnusable lib headers request_id_header
          × (record_inbound_request_id lib headers count ≡ count))
unfolding record_inbound_request_id correlation_id_from_headers is_empty
record_inbound_request_id_cases lib headers count uuid =
    elim (IsUsable-cases lib headers request_id_header) [
      | inl (value, h) ↦
          inl
            (value, (h, ground (arith, header_value_usable lib headers request_id_header value h)))
      | inr h ↦ inr (h, ground (arith, header_value_unusable lib headers request_id_header h))
    ]
