-- ===== src/Middlewares/UnhandledException.antt =====
-- src/app/middlewares/unhandled_http_exception_handler.py
use fastapi_polyrepo_templat.Prelude.{
  ℕ, Option, none, some, List, [], ◌∷◌, Text, codes, is_empty, if◌then◌else◌,
}
use fastapi_polyrepo_templat.Effects.{BaseException, pure, ◌>>◌}
use fastapi_polyrepo_templat.World.{
  Libraries, App, HeaderList, LogLevel, LogValue, exception, text, log,
}
use fastapi_polyrepo_templat.Middlewares.CorrelationId.{request_id_header}

abbrev pub unhandled_http_event : Text
unhandled_http_event = codes "http.unhandled_exception"

abbrev pub generic_500_body : Text
generic_500_body = codes "Internal Server Error"

-- A plain-text response.
pub record Response : Type 0 where
  pub status_code : ℕ
  pub headers : HeaderList
  pub body : Text

-- `{}`, or the header of an id that is not empty
unfoldable pub response_headers : Option Text → HeaderList
response_headers none = []
response_headers (some id) = if is_empty id then [] else (request_id_header, id) ∷ []

unfoldable pub log_fields : BaseException → Option Text → List (Text × LogValue)
log_fields exc none = (codes "exc_info", exception exc) ∷ []
log_fields exc (some id) =
    (codes "exc_info", exception exc) ∷ (codes "correlation_id", text id) ∷ []

module _ (lib : Libraries) where
  -- `correlation_id` is `getattr(request.state, CORRELATION_ID_STATE_KEY, None)`.
  unfoldable pub handle_unhandled_http_exception : Option Text → BaseException → App lib Response
  unfolding response_headers log_fields is_empty
  handle_unhandled_http_exception correlation_id exc = do
    log lib (codes "uvicorn") LogLevel.error unhandled_http_event (log_fields exc correlation_id)
    pure (record {
      status_code = 500;
      headers = response_headers correlation_id;
      body = generic_500_body;
    })
