-- ===== src/Http/Fastapi.antt =====
-- What the routes of src/app/routes use of FastAPI: path templates, declared parameters and the
-- answers. FastAPI is a parameter with the contract of its documentation.
use fastapi_polyrepo_templat.Prelude.{
  ℕ, ◌≤◌, Bool, ◌≡◌, ◌≢◌, ◌⊎◌, false, none, some, Option, List, [], ◌∷◌, ◌++◌, Text, codes,
  starts_with, length, All,
}
use fastapi_polyrepo_templat.Effects.{
  BaseException, http_exception, request_validation_error, Result, ok, err,
}
use fastapi_polyrepo_templat.Models.{FeatureFlag, FeatureFlagSetRequest, K8sProbeResponse}
use fastapi_polyrepo_templat.World.{
  Libraries, World, App, HeaderList, Message, response_start, response_body,
}
use fastapi_polyrepo_templat.Asgi.{Scope, Send, Asgi, send_all}
use fastapi_polyrepo_templat.Startup.{FastApi}

-- What a handler returns, by its response model.
pub data Payload : Type 0 where
  flag : FeatureFlag → Payload
  probe : K8sProbeResponse → Payload

module _ (lib : Libraries) where
  -- What FastAPI calls for a request: given the parameters of the path and the scope, the
  -- dependencies are entered, the handler runs, its value is sent, and the dependencies are left.
  abbrev pub Endpoint : Type 0
  Endpoint = List (Text × Text) → Scope → (Payload → App lib Unit) → App lib Unit

  -- A path operation of a router.
  pub record Route : Type 0 where
    pub method : Text
    pub path : Text
    pub name : Text
    pub status_code : ℕ
    pub in_schema : Bool
    pub endpoint : Endpoint

  -- The operations of FastAPI.
  pub record Fastapi : Type 1 where
    -- A JSON value that was parsed.
    pub Json : Type 0
    -- A path template against a path: the parameters that it takes out of it.
    pub match_path : Text → Text → Option (List (Text × Text))
    -- `Header(alias=…)` and `Path(min_length=…)`
    pub header : Text → HeaderList → Result Text
    pub path_param : Text → ℕ → List (Text × Text) → Result Text
    -- A body, before anything else of the request is looked at, and then its model.
    pub parse_body : Text → Result Json
    pub set_request_body : Json → Result FeatureFlagSetRequest
    -- The JSON of a value, of an HTTPException's detail and of a RequestValidationError
    pub rendered : Payload → Text
    pub detail_body : Text → Text
    pub validation_body : Scope → Text
    -- The headers of a JSON response with this body.
    pub json_headers : Text → HeaderList
    -- The instrumentator's endpoint of /metrics, with gzip or without.
    pub expose : Bool → Endpoint
    -- The application behind its middlewares, for a list of routes in the order they were mounted.
    pub serve : FastApi → List Route → Asgi lib

-- The paths of the documentation, which FastAPI mounts in front of all routers.
abbrev pub docs_paths : FastApi → List Text
docs_paths app =
    codes "/openapi.json"
    ∷ app.docs_url
    ∷ (app.docs_url ++ codes "/oauth2-redirect")
    ∷ app.redoc_url
    ∷ []

-- A character of a template outside of its parameters.
abbrev pub IsPlain : ℕ → Type 0
IsPlain c = (c ≢ b'{') × (c ≢ b'}')

module _ (lib : Libraries) (fastapi : Fastapi lib) where
  -- The events of a JSON response.
  abbrev pub json_response : ℕ → Text → List Message
  json_response status body =
      response_start status (fastapi.json_headers body) ∷ response_body body ∷ []

  -- How the value of a route is sent.
  abbrev pub respond : ℕ → Send lib → Payload → App lib Unit
  respond status send payload =
      send_all lib (json_response status (fastapi.rendered payload)) send (ok tt)

  -- The answer to what an endpoint raised.
  unfoldable pub error_response : Scope → BaseException → List Message × Result (Unit {0})
  error_response scope (http_exception status detail) =
      (json_response status (fastapi.detail_body detail), ok tt)
  error_response scope request_validation_error =
      (json_response 422 (fastapi.validation_body scope), ok tt)
  error_response scope exc = ([], err exc)

  -- FastAPI sends that answer, or lets the exception pass.
  unfoldable pub handled :
      Scope → Send lib → Result (Unit {0}) × World lib → Result (Unit {0}) × World lib
  unfolding error_response send_all
  handled scope send (ok u, w) = (ok u, w)
  handled scope send (err exc, w) =
      send_all lib (error_response scope exc).0 send (error_response scope exc).1 w

  -- A body that is JSON, of the model.
  abbrev pub IsBody : Text → FeatureFlagSetRequest → Type 0
  IsBody text body =
      (json : fastapi.Json) × ((fastapi.parse_body text ≡ ok json) × (fastapi.set_request_body json ≡ ok body))

  abbrev pub Misses : Scope → Route lib → Type 0
  Misses scope route =
      (fastapi.match_path route.path scope.path ≡ none) ⊎ (route.method ≢ scope.method)

  -- The documentation of FastAPI and Starlette.
  pub record FastapiContract : Type 0 where
    -- A template matches itself, and no path that does not start with the text in front of its
    -- parameters. A parameter at its end takes a rest that has no slash.
    pub match_literal : (path : Text) → All IsPlain path → fastapi.match_path path path ≡ some []
    pub match_apart :
        (prefix rest path : Text)
        → All IsPlain prefix
        → starts_with prefix path ≡ false
        → fastapi.match_path (prefix ++ rest) path ≡ none
    pub match_param :
        (prefix argument value : Text)
        → All IsPlain prefix
        → All IsPlain argument
        → value ≢ []
        → All (λ c. c ≢ b'/') value
        → fastapi.match_path (prefix ++ codes "{" ++ argument ++ codes "}") (prefix ++ value)
          ≡ some ((argument, value) ∷ [])
    -- A required header is the value under its alias, and a request without it is refused.
    pub header_given :
        (alias value : Text) (headers : HeaderList)
        → lib.header_get headers alias ≡ some value
        → fastapi.header alias headers ≡ ok value
    pub header_missing :
        (alias : Text) (headers : HeaderList)
        → lib.header_get headers alias ≡ none
        → fastapi.header alias headers ≡ err request_validation_error
    pub path_param_given :
        (argument value : Text) (min_length : ℕ)
        → min_length ≤ length value
        → fastapi.path_param argument min_length ((argument, value) ∷ []) ≡ ok value
    -- A body that is no JSON is refused as invalid, and one that cannot even be decoded with a 400.
    pub parse_body_refused :
        (text : Text) (exc : BaseException)
        → fastapi.parse_body text ≡ err exc
        → (exc ≡ request_validation_error)
          ⊎ (exc ≡ http_exception 400 (codes "There was an error parsing the body"))
    -- The first route that matches the path and the method answers. What it raises before it sends
    -- anything is answered, or passes.
    pub first_match :
        (app : FastApi) (before : List (Route lib)) (route : Route lib) (after : List (Route lib))
        (params : List (Text × Text)) (scope : Scope) (send : Send lib) (w : World lib)
        → scope.kind ≡ codes "http"
        → All (λ path. starts_with path scope.path ≡ false) (docs_paths app)
        → All (Misses scope) before
        → fastapi.match_path route.path scope.path ≡ some params
        → route.method ≡ scope.method
        → ((message : Message) (v : World lib) → (send message v).0 ≡ ok tt)
        → fastapi.serve app (before ++ route ∷ after) scope send w
          ≡ handled scope send (route.endpoint params scope (respond route.status_code send) w)
    pub first_match_raised :
        (app : FastApi) (before : List (Route lib)) (route : Route lib) (after : List (Route lib))
        (params : List (Text × Text)) (scope : Scope) (send : Send lib) (v w : World lib)
        (exc : BaseException)
        → scope.kind ≡ codes "http"
        → All (λ path. starts_with path scope.path ≡ false) (docs_paths app)
        → All (Misses scope) before
        → fastapi.match_path route.path scope.path ≡ some params
        → route.method ≡ scope.method
        → ((answer : Payload → App lib Unit) → route.endpoint params scope answer w ≡ (err exc, v))
        → fastapi.serve app (before ++ route ∷ after) scope send w ≡ handled scope send (err exc, v)
