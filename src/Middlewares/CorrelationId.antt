-- ===== src/Middlewares/CorrelationId.antt =====
-- src/app/middlewares/correlation_id_middleware.py
use fastapi_polyrepo_templat.Prelude.{
  none, some, List, [], ◌∷◌, Text, codes, strip, is_empty, text_eq, if◌then◌else◌,
}
use fastapi_polyrepo_templat.World.{
  Libraries, HeaderList, Message, response_start, response_body, other_event, bound_contextvars,
}
use fastapi_polyrepo_templat.Asgi.{Asgi}

abbrev pub request_id_header : Text
request_id_header = codes "X-Request-ID"

abbrev pub correlation_id_header : Text
correlation_id_header = codes "X-Correlation-ID"

abbrev pub state_key : Text
state_key = codes "correlation_id"

module _ (lib : Libraries) where
  -- `headers.get(name, "").strip()`
  unfoldable pub header_value : HeaderList → Text → Text
  header_value headers name = elim (lib.header_get headers name) [
    | none ↦ strip []
    | some value ↦ strip value
  ]

  -- The loop over the names of the headers; `uuid` is `str(uuid4())`.
  unfoldable pub first_usable : HeaderList → Text → List Text → Text
  unfolding header_value
  first_usable headers uuid [] = uuid
  first_usable headers uuid (name ∷ names) =
      let rest = first_usable headers uuid names in
      if is_empty (header_value headers name) then rest else header_value headers name

  unfoldable pub correlation_id_from_headers : HeaderList → Text → Text
  unfolding first_usable is_empty
  correlation_id_from_headers headers uuid =
      first_usable headers uuid (request_id_header ∷ correlation_id_header ∷ [])

  -- What `send_with_request_id` hands on.
  unfoldable pub with_request_id : Text → Message → Message
  with_request_id id (response_start status headers) =
      response_start status (lib.header_set headers request_id_header id)
  with_request_id id (response_body body) = response_body body
  with_request_id id (other_event kind) = other_event kind

  unfoldable pub correlation_id_middleware : Asgi lib → Asgi lib
  unfolding correlation_id_from_headers with_request_id
  correlation_id_middleware app scope send w =
      if text_eq scope.kind (codes "http")
      then (let id = correlation_id_from_headers scope.headers w.uuid in
          bound_contextvars lib ((state_key, id) ∷ [])
            (app scope (λ message. send (with_request_id id message)))
            (record w { scope_state = (state_key, id) ∷ w.scope_state }))
      else app scope send w
