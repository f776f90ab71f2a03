-- ===== src/Http/Reads.antt =====
-- A GET of a flag from the server to the table and back.
use fastapi_polyrepo_templat.Prelude.{some, [], ◌∷◌, ◌≡◌, sym, List, ◌++◌, map, Text, codes, All}
use fastapi_polyrepo_templat.Effects.{BaseException, Result, ok, err}
use fastapi_polyrepo_templat.World.{
  Libraries, World, HeaderList, Message, response_start, response_body,
}
use fastapi_polyrepo_templat.Contracts.{Contracts, HeaderContract}
use fastapi_polyrepo_templat.Middlewares.CorrelationId.{request_id_header, with_request_id}
use fastapi_polyrepo_templat.Middlewares.RequestIds.{HasRequestId, with_request_id-HasRequestId}
use fastapi_polyrepo_templat.Startup.Stack.{Layers}
use fastapi_polyrepo_templat.Startup.Requests.{map_compose}
use fastapi_polyrepo_templat.Http.Fastapi.{Fastapi}
use fastapi_polyrepo_templat.Http.Application.{LayersContract, with_headers, decorated}

-- Every response start that the middlewares hand on carries the id.
pub decorated-HasRequestId :
    (lib : Libraries) (headers : HeaderContract lib) (layers : Layers lib)
    (layer_laws : LayersContract lib layers) (fastapi : Fastapi lib) (id : Text)
    (messages : List Message)
    → All (HasRequestId lib id) (map (decorated lib layers layer_laws fastapi id) messages)
decorated-HasRequestId lib headers layers layer_laws fastapi id messages =
    rw (sym (map_compose (with_request_id lib id) (with_headers layer_laws.secured) messages))
      (with_request_id-HasRequestId lib headers id (map (with_headers layer_laws.secured) messages))

-- What the server gets of a request, by the result with which FastAPI ends it: of one that returns,
-- the given messages as the middlewares decorate them; of one that raises, one 500 with the generic
-- body. Each response start has the id.
abbrev pub IsServed :
    (lib : Libraries)
    → (Message → Message)
    → World lib
    → Text
    → List Message
    → Result (Unit {0})
    → Result (Unit {0}) × World lib
    → Type 0
IsServed lib decorate w id messages (ok u) run =
    (run.0 ≡ ok tt)
    × (run.1.sent ≡ w.sent ++ map decorate messages)
    × All (HasRequestId lib id) (map decorate messages)
IsServed lib decorate w id messages (err exc) run =
    (hs : HeaderList) × ((lib.header_get hs request_id_header ≡ some id)
      × (run.0 ≡ err exc)
      × (run.1.sent
          ≡ w.sent
            ++ (response_start 500 hs ∷ response_body (codes "Internal Server Error") ∷ [])))
