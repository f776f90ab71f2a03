-- ===== src/Middlewares/DocsPaths.antt =====
-- The documentation pages of src/app/middlewares/secure_headers.py, and the headers of their
-- responses.
use fastapi_polyrepo_templat.Prelude.{
  ◌≡◌, ◌↔◌, ◌⊎◌, refl, ap, ◌∙◌, Bool, true, false, ◌||◌, List, [], ◌∷◌, ◌++◌, map, Text, codes,
  lower, starts_with, starts_with_iff, text_eq, text_eq_iff, All, if◌then◌else◌, arith,
}
use fastapi_polyrepo_templat.Effects.{Result}
use fastapi_polyrepo_templat.World.{Libraries, World, HeaderList, Message}
use fastapi_polyrepo_templat.Asgi.{Script, Scope, Asgi, scripted, server_send, send_all-rewriting}
use fastapi_polyrepo_templat.Middlewares.SecureHeaders.{
  csp_header, any_prefix, is_docs_path, without_csp, omit_csp, secure_middleware,
}

-- The path of a page, or below it.
abbrev pub IsUnder : Text → Text → Type 0
IsUnder page path = (path ≡ page) ⊎ ((rest : Text) × (path ≡ (page ++ codes "/") ++ rest))

one_prefix_iff :
    (path page : Text)
    → ((text_eq path page || starts_with (page ++ codes "/") path) ≡ true) ↔ IsUnder page path
one_prefix_iff path page =
    ground (arith, text_eq_iff path page, starts_with_iff (page ++ codes "/") path)

-- A path is one of the documentation exactly if it is /docs or /redoc, or one of these, a slash
-- and any rest.
pub is_docs_path_iff :
    (path : Text)
    → (is_docs_path path ≡ true) ↔ (IsUnder (codes "/docs") path ⊎ IsUnder (codes "/redoc") path)
unfolding is_docs_path any_prefix
is_docs_path_iff path =
    ground (arith, one_prefix_iff path (codes "/docs"), one_prefix_iff path (codes "/redoc"))

-- A predicate holds of every header that stays exactly if every header of the response has the
-- policy's name in lower case or satisfies it.
pub without_csp_iff :
    (P : Text × Text → Type 0) (headers : HeaderList)
    → All P (without_csp headers) ↔ All (λ h. (lower h.0 ≡ csp_header) ⊎ P h) headers
unfolding without_csp
without_csp_iff P [] = (λ a. tt, λ a. tt)
without_csp_iff P ((name, value) ∷ headers) =
    ground (arith, without_csp_iff P headers, text_eq_iff (lower name) csp_header)

map_identity : (messages : List Message) → map (λ m. m) messages ≡ messages
map_identity [] = refl
map_identity (m ∷ messages) = ap (λ s. m ∷ s) (map_identity messages)

module _ (lib : Libraries) (messages : Script (List Message))
    (end : Script (Result (Unit {0}))) where
  -- For an HTTP request, around a library middleware that runs an application which sends given
  -- events, the middleware sends those events and ends the same way; on a documentation page,
  -- with the policy's header taken out of each response start.
  pub secure_middleware_sends :
      (app : Asgi lib) (scope : Scope) (w : World lib)
      → scope.kind ≡ codes "http"
      → secure_middleware lib (λ a. scripted lib messages end) app scope (server_send lib) w ≡ (
        end scope w.scope_state,
        record w {
          sent =
              w.sent
              ++ (if is_docs_path scope.path
                  then map omit_csp (messages scope w.scope_state)
                  else messages scope w.scope_state);
        },
      )
  unfolding secure_middleware scripted
  secure_middleware_sends app scope w http = by_path (is_docs_path scope.path) refl
    where
      by_path :
          (b : Bool)
          → is_docs_path scope.path ≡ b
          → secure_middleware lib (λ a. scripted lib messages end) app scope (server_send lib) w ≡ (
            end scope w.scope_state,
            record w {
              sent =
                  w.sent
                  ++ (if is_docs_path scope.path
                      then map omit_csp (messages scope w.scope_state)
                      else messages scope w.scope_state);
            },
          )
      by_path true docs =
          rw ((text_eq_iff scope.kind (codes "http")).1 http, docs)
            (send_all-rewriting lib omit_csp (messages scope w.scope_state)
              (end scope w.scope_state) w)
      by_path false docs =
          rw ((text_eq_iff scope.kind (codes "http")).1 http, docs)
            (send_all-rewriting lib (λ m. m) (messages scope w.scope_state)
                (end scope w.scope_state) w
              ∙ ap (λ s. (end scope w.scope_state, record w { sent = w.sent ++ s }))
                  (map_identity (messages scope w.scope_state)))
