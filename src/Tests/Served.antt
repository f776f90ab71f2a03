-- ===== src/Tests/Served.antt =====
-- Complete requests of flags and of a probe on the application.
use fastapi_polyrepo_templat.Prelude.{
  ◌≡◌, refl, true, false, List, [], ◌∷◌, map, All, Text, codes, strip, is_space, is_empty, text_eq,
  lower,
}
use fastapi_polyrepo_templat.Effects.{BaseException, http_exception, Result, ok}
use fastapi_polyrepo_templat.World.{World, Message, HeaderList}
use fastapi_polyrepo_templat.Asgi.{Scope, Asgi, server_send}
use fastapi_polyrepo_templat.Models.{FeatureFlag}
use fastapi_polyrepo_templat.Sample.{libraries, healthy, header_get}
use fastapi_polyrepo_templat.Sample.Lawful.{contracts}
use fastapi_polyrepo_templat.Sample.Headers.{header_contract}
use fastapi_polyrepo_templat.Sample.Layers.{plain_layers, plain_layer_laws, plain_server_errors}
use fastapi_polyrepo_templat.Startup.Unhandled.{ServerErrorContract}
use fastapi_polyrepo_templat.Sample.Fastapi.{fastapi, fastapi_contract}
use fastapi_polyrepo_templat.Middlewares.CorrelationId.{
  correlation_id_from_headers, header_value, first_usable,
}
use fastapi_polyrepo_templat.Startup.Stack.{Layers}
use fastapi_polyrepo_templat.Http.Application.{LayersContract, decorated, reply, ended, application}
use fastapi_polyrepo_templat.Http.Routing.{path_of}
use fastapi_polyrepo_templat.Http.Table.{table}
use fastapi_polyrepo_templat.Http.Exclusive.{IsExclusive, table-IsExclusive}
use fastapi_polyrepo_templat.Startup.Lifecycle.{create_app}
use fastapi_polyrepo_templat.Http.Probed.{readyz_served}
use fastapi_polyrepo_templat.Http.Fastapi.{flag, probe, json_response}
use fastapi_polyrepo_templat.Middlewares.RequestIds.{HasRequestId}
use fastapi_polyrepo_templat.Service.Coherence.{row_of}
use fastapi_polyrepo_templat.Service.ReadAfterWrite.{written_flag}
use fastapi_polyrepo_templat.Routes.Requests.{response, caller}
use fastapi_polyrepo_templat.Routes.Probes.{readiness}
use fastapi_polyrepo_templat.Tests.Service.{dark_mode, start}
use fastapi_polyrepo_templat.Tests.Processes.{registries, process, manager}

abbrev layers : Layers (libraries healthy)
layers = plain_layers healthy

abbrev layer_laws : LayersContract (libraries healthy) layers
layer_laws = plain_layer_laws healthy

abbrev server_errors : ServerErrorContract (libraries healthy) layers
server_errors = plain_server_errors healthy

abbrev pub headers : HeaderList
headers =
    (codes "x-tenant-id", codes " t")
    ∷ (codes "x-user-id", codes "ann")
    ∷ (codes "x-request-id", codes "r")
    ∷ []

abbrev pub request : Text → Text → Scope
request method body = record {
  kind = codes "http";
  method = method;
  path = path_of dark_mode;
  headers = headers;
  body = body;
}

abbrev serve : Asgi (libraries healthy)
serve =
    application (libraries healthy) layers layer_laws (fastapi healthy) registries manager process
      (λ name registry. refl) refl

chosen : (uuid : Text) → correlation_id_from_headers (libraries healthy) headers uuid ≡ codes "r"
unfolding correlation_id_from_headers first_usable header_value strip is_space lower is_empty
    text_eq header_get
chosen uuid = refl

abbrev get_scope : Scope
get_scope = request (codes "GET") []

abbrev answer : Result FeatureFlag
answer =
    response (libraries healthy).is_printable dark_mode
      (row_of (libraries healthy) (contracts healthy) start (strip (codes " t")) dark_mode)

abbrev decorate : Message → Message
decorate = decorated (libraries healthy) layers layer_laws (fastapi healthy) (codes "r")

abbrev pub put_scope : Scope
put_scope = request (codes "PUT") (codes "false")

abbrev written : Result (Unit {0}) × World (libraries healthy)
written = serve put_scope (server_send (libraries healthy)) start

abbrev sent_flag : List Message
sent_flag = json_response (libraries healthy) (fastapi healthy) 200 (
    (fastapi healthy).rendered
      (flag (written_flag dark_mode false 5 (caller (codes " t") (codes "ann")))))

abbrev probe_scope : Scope
probe_scope = record {
  kind = codes "http";
  method = codes "GET";
  path = codes "/readyz";
  headers = headers;
  body = [];
}

readyz_served_example :
    ((serve probe_scope (server_send (libraries healthy)) start).0
      ≡ ended
          (libraries healthy)
          layers
          layer_laws
          (fastapi healthy)
          probe_scope
          (readiness (ok true) (ok tt)))
    × ((serve probe_scope (server_send (libraries healthy)) start).1.sent
        ≡ map decorate (
            reply
              (libraries healthy)
              layers
              layer_laws
              (fastapi healthy)
              probe_scope
              probe
              (readiness (ok true) (ok tt))))
    × All (HasRequestId (libraries healthy) (codes "r")) (
        map decorate (
          reply
            (libraries healthy)
            layers
            layer_laws
            (fastapi healthy)
            probe_scope
            probe
            (readiness (ok true) (ok tt))))
readyz_served_example =
    readyz_served (libraries healthy) (header_contract healthy) layers layer_laws server_errors (fastapi healthy)
      (fastapi_contract healthy) registries manager process (λ name registry. refl) refl probe_scope
      start (codes "r") refl refl refl (chosen (codes "u"))

-- The user is missing, and the body is no UTF-8.
abbrev unnamed_scope : Scope
unnamed_scope = record put_scope {
  body = 255 ∷ [];
  headers = (codes "x-tenant-id", codes " t") ∷ (codes "x-request-id", codes "r") ∷ [];
}

abbrev undecodable : BaseException
undecodable = http_exception 400 (codes "There was an error parsing the body")

table-IsExclusive_example :
    IsExclusive
      (libraries healthy)
      (fastapi healthy)
      (fastapi_contract healthy)
      get_scope
      (table (libraries healthy) (fastapi healthy) (create_app registries manager process).1.app)
table-IsExclusive_example =
    table-IsExclusive (libraries healthy) (fastapi healthy) (fastapi_contract healthy) get_scope
      registries manager process (λ name registry. refl) refl
