-- ===== src/Tests/Middlewares.antt =====
-- Requests through the middlewares.
use fastapi_polyrepo_templat.Prelude.{
  ◌≡◌, ◌⊎◌, ◌≢◌, refl, none, List, [], ◌∷◌, Text, codes, is_space, strip, lower, is_empty, text_eq,
}
use fastapi_polyrepo_templat.Effects.{Result, ok}
use fastapi_polyrepo_templat.World.{HeaderList, Message, response_start, response_body}
use fastapi_polyrepo_templat.Asgi.{Script, Scope, server_send, scripted}
use fastapi_polyrepo_templat.Sample.{libraries, healthy, header_get}
use fastapi_polyrepo_templat.Sample.Headers.{context_contract}
use fastapi_polyrepo_templat.Middlewares.CorrelationId.{
  request_id_header, correlation_id_header, state_key, correlation_id_from_headers,
  correlation_id_middleware, header_value, first_usable,
}
use fastapi_polyrepo_templat.Middlewares.RequestIds.{
  IsUsable, IsUnusable, correlation_id_from_headers_lem, correlation_id_middleware-context,
}
use fastapi_polyrepo_templat.Tests.Service.{start, run}

abbrev inbound_headers : HeaderList
inbound_headers = (codes "x-request-id", codes " ") ∷ (codes "x-correlation-id", codes " c ") ∷ []

abbrev docs : Scope
docs = record {
  kind = codes "http";
  method = codes "GET";
  path = codes "/docs";
  headers = inbound_headers;
  body = [];
}

abbrev messages : Script (List Message)
messages scope state =
    response_start 200 ((codes "Content-Security-Policy", codes "x") ∷ [])
    ∷ response_body (codes "b")
    ∷ []

abbrev end : Script (Result (Unit {0}))
end scope state = ok tt

correlation_id_from_headers_example :
    ((value : Text) × (IsUsable (libraries healthy) inbound_headers request_id_header value
        × (correlation_id_from_headers (libraries healthy) inbound_headers (codes "u")
            ≡ strip value)))
    ⊎ ((IsUnusable (libraries healthy) inbound_headers request_id_header
          × ((value : Text) × (IsUsable
                  (libraries healthy)
                  inbound_headers
                  correlation_id_header
                  value
                × (correlation_id_from_headers (libraries healthy) inbound_headers (codes "u")
                    ≡ strip value))))
        ⊎ (IsUnusable (libraries healthy) inbound_headers request_id_header
            × (IsUnusable (libraries healthy) inbound_headers correlation_id_header
                × (correlation_id_from_headers (libraries healthy) inbound_headers (codes "u")
                    ≡ codes "u"))))
correlation_id_from_headers_example =
    correlation_id_from_headers_lem (libraries healthy) inbound_headers (codes "u")

chosen : correlation_id_from_headers (libraries healthy) inbound_headers (codes "u") ≡ codes "c"
unfolding correlation_id_from_headers first_usable header_value strip is_space lower run is_empty
    text_eq header_get
chosen = refl

correlation_id_middleware-context_example :
    (correlation_id_middleware
        (libraries healthy)
        (scripted (libraries healthy) messages end)
        docs
        (server_send (libraries healthy))
        start).1.context
      state_key
    ≡ none
correlation_id_middleware-context_example =
    correlation_id_middleware-context (libraries healthy) (context_contract healthy)
      (scripted (libraries healthy) messages end) docs (server_send (libraries healthy)) start refl

-- The header is not empty.
abbrev IsFilled : Text × Text → Type 0
IsFilled h = h.1 ≢ []
