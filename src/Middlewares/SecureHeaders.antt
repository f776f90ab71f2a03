-- ===== src/Middlewares/SecureHeaders.antt =====
-- src/app/middlewares/secure_headers.py; the library's own middleware is a parameter.
use fastapi_polyrepo_templat.Prelude.{
  Bool, false, ◌||◌, ◌&&◌, List, [], ◌∷◌, ◌++◌, Text, codes, lower, starts_with, text_eq,
  if◌then◌else◌,
}
use fastapi_polyrepo_templat.World.{
  Libraries, HeaderList, Message, response_start, response_body, other_event,
}
use fastapi_polyrepo_templat.Asgi.{Asgi}

abbrev pub swagger_docs_endpoint : Text
swagger_docs_endpoint = codes "/docs"

abbrev pub redoc_endpoint : Text
redoc_endpoint = codes "/redoc"

abbrev pub docs_path_prefixes : List Text
docs_path_prefixes = swagger_docs_endpoint ∷ redoc_endpoint ∷ []

abbrev pub csp_header : Text
csp_header = codes "content-security-policy"

-- `any(path == prefix or path.startswith(f"{prefix}/") for prefix in prefixes)`
unfoldable pub any_prefix : Text → List Text → Bool
any_prefix path [] = false
any_prefix path (prefix ∷ prefixes) =
    text_eq path prefix || starts_with (prefix ++ codes "/") path || any_prefix path prefixes

unfoldable pub is_docs_path : Text → Bool
unfolding any_prefix
is_docs_path path = any_prefix path docs_path_prefixes

-- The headers whose name, in lower case, is not the policy's.
unfoldable pub without_csp : HeaderList → HeaderList
without_csp [] = []
without_csp ((name, value) ∷ headers) =
    let rest = without_csp headers in
    if text_eq (lower name) csp_header then rest else (name, value) ∷ rest

-- What `send_without_csp` hands on.
unfoldable pub omit_csp : Message → Message
unfolding without_csp
omit_csp (response_start status headers) = response_start status (without_csp headers)
omit_csp (response_body body) = response_body body
omit_csp (other_event kind) = other_event kind

module _ (lib : Libraries) (library : Asgi lib → Asgi lib) where
  unfoldable pub secure_middleware : Asgi lib → Asgi lib
  unfolding is_docs_path omit_csp
  secure_middleware app scope send =
      if text_eq scope.kind (codes "http") && is_docs_path scope.path
      then library app scope (λ message. send (omit_csp message))
      else library app scope send
