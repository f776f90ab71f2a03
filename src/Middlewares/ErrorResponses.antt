-- ===== src/Middlewares/ErrorResponses.antt =====
-- The 500 of src/app/middlewares/unhandled_http_exception_handler.py, with the id of the request.
use fastapi_polyrepo_templat.Prelude.{
  ◌≡◌, ◌≢◌, refl, some, List, [], ◌∷◌, ◌++◌, Text, codes, is_empty, arith,
}
use fastapi_polyrepo_templat.Effects.{BaseException, ok}
use fastapi_polyrepo_templat.World.{Libraries, World, HeaderList, LogLevel, exception, text}
use fastapi_polyrepo_templat.Middlewares.CorrelationId.{
  request_id_header, correlation_id_header, header_value, first_usable, correlation_id_from_headers,
}
use fastapi_polyrepo_templat.Middlewares.UnhandledException.{
  response_headers, log_fields, handle_unhandled_http_exception,
}

module _ (lib : Libraries) where
  -- The chosen id is empty only if the new UUID is.
  pub first_usable-ne-nil :
      (headers : HeaderList) (uuid : Text) (names : List Text)
      → uuid ≢ []
      → first_usable lib headers uuid names ≢ []
  unfolding first_usable is_empty
  first_usable-ne-nil headers uuid [] n = n
  first_usable-ne-nil headers uuid (name ∷ names) n =
      by_value (first_usable-ne-nil headers uuid names n) (header_value lib headers name) refl
    where
      by_value :
          first_usable lib headers uuid names ≢ []
          → (v : Text) → header_value lib headers name ≡ v
          → first_usable lib headers uuid (name ∷ names) ≢ []
      by_value rest [] e = rw e rest
      by_value rest (c ∷ v) e = rw e (λ z. cc)

  -- If the new UUID is not empty, the answer to an exception that nobody handled is a 500 with
  -- the generic body and, as its only header, the id that the middleware chose for the request;
  -- the exception and the id are logged once, on the uvicorn child.
  pub error_response_carries_id :
      (headers : HeaderList) (uuid : Text) (exc : BaseException) (w : World lib)
      → uuid ≢ []
      → let id = correlation_id_from_headers lib headers uuid in
        handle_unhandled_http_exception lib (some id) exc w ≡ (
          ok (record {
            status_code = 500;
            headers = (request_id_header, id) ∷ [];
            body = codes "Internal Server Error";
          }),
          record w {
            log =
                w.log
                ++ record {
                  logger = codes "uvicorn";
                  level = LogLevel.error;
                  event = codes "http.unhandled_exception";
                  fields =
                      (codes "exc_info", exception exc) ∷ (codes "correlation_id", text id) ∷ [];
                  context = w.context;
                }
                  ∷ [];
          },
        )
  unfolding handle_unhandled_http_exception correlation_id_from_headers is_empty response_headers
      log_fields
  error_response_carries_id headers uuid exc w n =
      ground
        (arith, first_usable-ne-nil headers uuid (request_id_header ∷ correlation_id_header ∷ []) n)
