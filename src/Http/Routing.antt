-- ===== src/Http/Routing.antt =====
-- Which route of the application takes a request.
use fastapi_polyrepo_templat.Prelude.{
  ◌≡◌, ◌≢◌, inl, inr, refl, sym, ap, ◌∙◌, Bool, false, true, some, List, [], ◌∷◌, ◌++◌, Text, codes,
  starts_with, text_eq, text_eq_iff, All, arith,
}
use fastapi_polyrepo_templat.Effects.{BaseException, ok, err}
use fastapi_polyrepo_templat.World.{Libraries, App, World, Message}
use fastapi_polyrepo_templat.Asgi.{Scope, Send}
use fastapi_polyrepo_templat.Config.{include_probes_in_schema}
use fastapi_polyrepo_templat.Startup.{Registries, FastApi}
use fastapi_polyrepo_templat.Startup.Manager.{livez_endpoint, readyz_endpoint}
use fastapi_polyrepo_templat.Startup.Lifecycle.{LifecycleManager}
use fastapi_polyrepo_templat.Startup.Built.{built}
use fastapi_polyrepo_templat.Http.Fastapi.{
  Route, Fastapi, FastapiContract, Payload, respond, Misses, docs_paths, handled,
}
use fastapi_polyrepo_templat.Http.Table.{
  flags_prefix, flag_path, get_flag_endpoint, set_flag_endpoint, readyz, get_flag_route,
  set_flag_route, livez_route, readyz_route, table,
}

-- The path of a flag: what `{name}` takes has no slash and is not empty.
abbrev pub path_of : Text → Text
path_of name = flags_prefix ++ codes "/" ++ name

abbrev pub IsSegment : Text → Type 0
IsSegment name = (name ≢ []) × All (λ c. c ≢ b'/') name

abbrev pub name_param : Text → List (Text × Text)
name_param name = (codes "name", name) ∷ []

pub get-ne-put : codes "GET" ≢ codes "PUT"
unfolding text_eq
get-ne-put e = let same : text_eq (codes "GET") (codes "PUT") ≡ true = (text_eq_iff _ _).1 e in cc

module _ (lib : Libraries) (fastapi : Fastapi lib) (contract : FastapiContract lib fastapi)
    (registries : Registries) (manager : LifecycleManager) (callbacks : List Text) where
  abbrev app : FastApi
  app = built registries manager callbacks

  module _ (scope : Scope) (send : Send lib) (w : World lib)
      (http : scope.kind ≡ codes "http") where
    flag_path_apart :
        (name : Text)
        → scope.path ≡ path_of name
        → All (λ path. starts_with path scope.path ≡ false) (docs_paths app)
    unfolding starts_with
    flag_path_apart name e = rw e (refl, (refl, (refl, (refl, tt))))

    -- No probe takes the path of a flag.
    probes_miss :
        (name : Text) (in_schema : Bool)
        → scope.path ≡ path_of name
        → All
            (Misses lib fastapi scope)
            (livez_route lib fastapi app in_schema ∷ readyz_route lib fastapi app in_schema ∷ [])
    unfolding starts_with
    probes_miss name in_schema e = (
      inl (contract.match_apart livez_endpoint [] scope.path (omega arith) (rw e refl)),
      (inl (contract.match_apart readyz_endpoint [] scope.path (omega arith) (rw e refl)), tt),
    )

    flag_path_matches :
        (name : Text)
        → scope.path ≡ path_of name
        → IsSegment name
        → fastapi.match_path flag_path scope.path ≡ some (name_param name)
    flag_path_matches name e (named, segment) =
        ap (fastapi.match_path flag_path) e
        ∙ contract.match_param (flags_prefix ++ codes "/") (codes "name") name (omega arith)
            (omega arith) named segment

    pub serve_get_flag :
        ((message : Message) (v : World lib) → (send message v).0 ≡ ok tt)
        → (name : Text) → scope.method ≡ codes "GET"
        → scope.path ≡ path_of name
        → IsSegment name
        → fastapi.serve app (table lib fastapi app) scope send w
          ≡ handled lib fastapi scope send (
              get_flag_endpoint lib fastapi app
                (name_param name)
                scope
                (respond lib fastapi 200 send)
                w)
    unfolding table
    serve_get_flag sends name get e segment =
        let in_schema = include_probes_in_schema manager.app_config.env in
        contract.first_match app
          (livez_route lib fastapi app in_schema ∷ readyz_route lib fastapi app in_schema ∷ [])
          (get_flag_route lib fastapi app) _ (name_param name) scope send w http
          (flag_path_apart name e) (probes_miss name in_schema e) (flag_path_matches name e segment)
          (sym get) sends

    pub serve_get_flag_raised :
        (name : Text) (v : World lib) (exc : BaseException)
        → scope.method ≡ codes "GET"
        → scope.path ≡ path_of name
        → IsSegment name
        → ((answer : Payload → App lib Unit)
            → get_flag_endpoint lib fastapi app (name_param name) scope answer w ≡ (err exc, v))
        → fastapi.serve app (table lib fastapi app) scope send w
          ≡ handled lib fastapi scope send (err exc, v)
    unfolding table
    serve_get_flag_raised name v exc get e segment raised =
        let in_schema = include_probes_in_schema manager.app_config.env in
        contract.first_match_raised app
          (livez_route lib fastapi app in_schema ∷ readyz_route lib fastapi app in_schema ∷ [])
          (get_flag_route lib fastapi app) _ (name_param name) scope send v w exc http
          (flag_path_apart name e) (probes_miss name in_schema e) (flag_path_matches name e segment)
          (sym get) raised

    abbrev before_set_flag : List (Route lib)
    before_set_flag =
        let in_schema = include_probes_in_schema manager.app_config.env in
        livez_route lib fastapi app in_schema
        ∷ readyz_route lib fastapi app in_schema
        ∷ get_flag_route lib fastapi app
        ∷ []

    before_set_flag-Misses :
        (name : Text)
        → scope.method ≡ codes "PUT"
        → scope.path ≡ path_of name
        → All (Misses lib fastapi scope) before_set_flag
    before_set_flag-Misses name put e =
        let misses = probes_miss name (include_probes_in_schema manager.app_config.env) e in
        (misses.0, (misses.1.0, (inr (rw put (λ g. get-ne-put g)), tt)))

    pub serve_set_flag :
        ((message : Message) (v : World lib) → (send message v).0 ≡ ok tt)
        → (name : Text) → scope.method ≡ codes "PUT"
        → scope.path ≡ path_of name
        → IsSegment name
        → fastapi.serve app (table lib fastapi app) scope send w
          ≡ handled lib fastapi scope send (
              set_flag_endpoint lib fastapi app
                (name_param name)
                scope
                (respond lib fastapi 200 send)
                w)
    unfolding table
    serve_set_flag sends name put e segment =
        contract.first_match app before_set_flag (set_flag_route lib fastapi app) _
          (name_param name) scope send w http (flag_path_apart name e)
          (before_set_flag-Misses name put e) (flag_path_matches name e segment) (sym put) sends

    pub serve_set_flag_raised :
        (name : Text) (v : World lib) (exc : BaseException)
        → scope.method ≡ codes "PUT"
        → scope.path ≡ path_of name
        → IsSegment name
        → ((answer : Payload → App lib Unit)
            → set_flag_endpoint lib fastapi app (name_param name) scope answer w ≡ (err exc, v))
        → fastapi.serve app (table lib fastapi app) scope send w
          ≡ handled lib fastapi scope send (err exc, v)
    unfolding table
    serve_set_flag_raised name v exc put e segment raised =
        contract.first_match_raised app before_set_flag (set_flag_route lib fastapi app) _
          (name_param name) scope send v w exc http (flag_path_apart name e)
          (before_set_flag-Misses name put e) (flag_path_matches name e segment) (sym put) raised

    pub serve_readyz :
        ((message : Message) (v : World lib) → (send message v).0 ≡ ok tt)
        → scope.method ≡ codes "GET"
        → scope.path ≡ readyz_endpoint
        → fastapi.serve app (table lib fastapi app) scope send w
          ≡ handled lib fastapi scope send
              (readyz lib fastapi app [] scope (respond lib fastapi 200 send) w)
    unfolding table starts_with
    serve_readyz sends get e =
        let in_schema = include_probes_in_schema manager.app_config.env in
        contract.first_match app (livez_route lib fastapi app in_schema ∷ [])
          (readyz_route lib fastapi app in_schema) _ [] scope send w http
          (rw e (refl, (refl, (refl, (refl, tt)))))
          (inl (contract.match_apart livez_endpoint [] scope.path (omega arith) (rw e refl)), tt)
          (ap (fastapi.match_path readyz_endpoint) e
            ∙ contract.match_literal readyz_endpoint (omega arith))
          (sym get) sends
