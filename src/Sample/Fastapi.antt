-- ===== src/Sample/Fastapi.antt =====
-- A FastAPI that meets its contract: routes in order, one parameter at the end of a path, and the
-- JSON of the libraries in memory. It serves no documentation.
use fastapi_polyrepo_templat.Prelude.{
  ◌≡◌, ◌≢◌, inl, inr, Bool-cases, ◌⊎◌, refl, ap, ◌∙◌, Bool, true, false, not, ◌&&◌, Option, none,
  some, List, [], ◌∷◌, ◌++◌, Text, codes, starts_with, text_eq, text_eq_iff, text_eq_refl, is_empty,
  length, leb, ◌==◌, All, if◌then◌else◌, arith,
}
use fastapi_polyrepo_templat.Effects.{BaseException, Result, ok, err, request_validation_error, http_exception}
use fastapi_polyrepo_templat.World.{World}
use fastapi_polyrepo_templat.Asgi.{Scope, Send, Asgi, send_all}
use fastapi_polyrepo_templat.Sample.{Health, libraries, dump, header_get}
use fastapi_polyrepo_templat.Http.Fastapi.{
  Route, Fastapi, FastapiContract, flag, probe, IsPlain, Misses, json_response, respond,
  error_response, handled,
}

-- The name in front of the closing brace.
argument_of : Text → Text
argument_of [] = []
argument_of (c ∷ s) = let rest = argument_of s in if c == b'}' then [] else c ∷ rest

no_slash : Text → Bool
no_slash [] = true
no_slash (c ∷ s) = not (c == b'/') && no_slash s

unfoldable pub is_ascii : Text → Bool
is_ascii [] = true
is_ascii (c ∷ s) = leb c 127 && is_ascii s

taken : Text → Text → Option (List (Text × Text))
taken argument value =
    if is_empty value then none else if no_slash value then some ((argument, value) ∷ []) else none

unfoldable pub match_path : Text → Text → Option (List (Text × Text))
unfolding argument_of no_slash taken is_empty
match_path [] [] = some []
match_path [] (d ∷ path) = none
match_path (c ∷ template) [] = none
match_path (c ∷ template) (d ∷ path) =
    let rest = match_path template path in
    if c == b'{' then taken (argument_of template) (d ∷ path) else if c == d then rest else none

-- A required parameter.
abbrev required : Option Text → Result Text
required none = err request_validation_error
required (some value) = ok value

match_path_self : (path : Text) → All IsPlain path → match_path path path ≡ some []
unfolding match_path
match_path_self [] h = refl
match_path_self (c ∷ path) h = ground (arith, match_path_self path h.1)

match_path-apart :
    (prefix rest path : Text)
    → All IsPlain prefix
    → starts_with prefix path ≡ false
    → match_path (prefix ++ rest) path ≡ none
unfolding match_path starts_with
match_path-apart [] rest path h e = cc
match_path-apart (c ∷ prefix) rest [] h e = refl
match_path-apart (c ∷ prefix) rest (d ∷ path) h e =
    ground (arith, match_path-apart prefix rest path h.1)

argument_of-append :
    (argument : Text) → All IsPlain argument → argument_of (argument ++ codes "}") ≡ argument
unfolding argument_of
argument_of-append [] h = refl
argument_of-append (c ∷ s) h = ground (arith, argument_of-append s h.1)

no_slash-All : (value : Text) → All (λ c. c ≢ b'/') value → no_slash value ≡ true
unfolding no_slash
no_slash-All [] h = refl
no_slash-All (c ∷ s) h = ground (arith, no_slash-All s h.1)

match_path-param :
    (prefix argument value : Text)
    → All IsPlain prefix
    → All IsPlain argument
    → value ≢ []
    → All (λ c. c ≢ b'/') value
    → match_path (prefix ++ codes "{" ++ argument ++ codes "}") (prefix ++ value)
      ≡ some ((argument, value) ∷ [])
unfolding match_path taken is_empty
match_path-param [] argument [] h g n v = absurd (n refl)
match_path-param [] argument (c ∷ s) h g n v =
    rw (argument_of-append argument g, no_slash-All (c ∷ s) v) refl
match_path-param (c ∷ prefix) argument value h g n v =
    ground (arith, match_path-param prefix argument value h.1 g n v)

-- The two JSON texts that it reads; of the others those with a byte beyond ASCII cannot be decoded.
unfoldable pub parsed_body : Text → Result Bool
parsed_body body =
    if text_eq body (codes "true")
    then ok true
    else if text_eq body (codes "false")
    then ok false
    else if is_ascii body
    then err request_validation_error
    else err (http_exception 400 (codes "There was an error parsing the body"))

parsed_body_refused :
    (body : Text) (exc : BaseException)
    → parsed_body body ≡ err exc
    → (exc ≡ request_validation_error)
      ⊎ (exc ≡ http_exception 400 (codes "There was an error parsing the body"))
unfolding parsed_body
parsed_body_refused body exc e = ground arith

module _ (servers : Health) where
  -- The fields that the answers are made of.
  abbrev base : Fastapi (libraries servers)
  base = record {
    match_path = match_path;
    header = λ alias headers. required (header_get alias headers);
    path_param = λ argument min_length params. elim params [
      | [] ↦ err request_validation_error
      | p ∷ rest ↦
          if text_eq p.0 argument && leb min_length (length p.1)
          then ok p.1
          else err request_validation_error
    ];
    Json = Bool;
    parse_body = parsed_body;
    set_request_body = λ json. ok (record { enabled = json });
    rendered = λ payload. elim payload [ flag value ↦ dump value | probe _ ↦ codes "ok" ];
    detail_body = λ detail. detail;
    validation_body = λ scope. codes "invalid";
    json_headers = λ body. (codes "content-type", codes "application/json") ∷ [];
    expose = λ gzip params scope respond w. (ok tt, w);
    serve = λ app routes scope send w. (ok tt, w);
  }

  -- The answer of a route, if it matches the path and the method, or else the one of the rest.
  unfoldable pub answer_or :
      Route (libraries servers)
      → Option (List (Text × Text))
      → Bool
      → Asgi (libraries servers)
      → Asgi (libraries servers)
  answer_or route none same rest scope send w = rest scope send w
  answer_or route (some params) true rest scope send w =
      handled (libraries servers) base scope send
        (route.endpoint params scope (respond (libraries servers) base route.status_code send) w)
  answer_or route (some params) false rest scope send w = rest scope send w

  unfoldable pub serve_first : List (Route (libraries servers)) → Asgi (libraries servers)
  unfolding answer_or
  serve_first [] scope send w =
      send_all (libraries servers) (json_response (libraries servers) base 404 (codes "Not Found"))
        send (ok tt) w
  serve_first (route ∷ routes) scope send w =
      answer_or route (match_path route.path scope.path) (text_eq route.method scope.method)
        (serve_first routes) scope send w

  abbrev pub fastapi : Fastapi (libraries servers)
  fastapi = record base { serve = λ app routes. serve_first routes }

  -- The two records answer alike.
  handled-base :
      (scope : Scope) (send : Send (libraries servers))
      (r : Result (Unit {0}) × World (libraries servers))
      → handled (libraries servers) base scope send r
        ≡ handled (libraries servers) fastapi scope send r
  unfolding handled error_response
  handled-base scope send (ok u, w) = refl
  handled-base scope send (err exc, w) = refl

  answer_or_missed :
      (route : Route (libraries servers)) (rest : Asgi (libraries servers)) (scope : Scope)
      (send : Send (libraries servers)) (w : World (libraries servers))
      (o : Option (List (Text × Text))) (b : Bool)
      → (o ≡ none) ⊎ (b ≡ false)
      → answer_or route o b rest scope send w ≡ rest scope send w
  unfolding answer_or
  answer_or_missed route rest scope send w none b h = refl
  answer_or_missed route rest scope send w (some params) false h = refl
  answer_or_missed route rest scope send w (some params) true h = absurd (ground arith)

  serve_first-first :
      (before : List (Route (libraries servers))) (route : Route (libraries servers))
      (after : List (Route (libraries servers))) (params : List (Text × Text)) (scope : Scope)
      (send : Send (libraries servers)) (w : World (libraries servers))
      → All (Misses (libraries servers) fastapi scope) before
      → match_path route.path scope.path ≡ some params
      → route.method ≡ scope.method
      → serve_first (before ++ route ∷ after) scope send w
        ≡ handled (libraries servers) fastapi scope send (
            route.endpoint params scope
              (respond (libraries servers) fastapi route.status_code send)
              w)
  unfolding serve_first
  serve_first-first [] route after params scope send w misses m e =
      ap
        (λ o.
          answer_or route o (text_eq route.method scope.method) (serve_first after) scope send w)
        m
      ∙ ap (λ b. answer_or route (some params) b (serve_first after) scope send w)
          ((text_eq_iff route.method scope.method).1 e)
      ∙ (unfold answer_or in handled-base scope send _)
  serve_first-first (r ∷ before) route after params scope send w misses m e =
      answer_or_missed r (serve_first (before ++ route ∷ after)) scope send w
        (match_path r.path scope.path) (text_eq r.method scope.method)
        (elim misses.0 [
          | inl apart ↦ inl apart
          | inr other ↦ inr (elim (Bool-cases (text_eq r.method scope.method)) [
            | inl same ↦ absurd (other ((text_eq_iff r.method scope.method).0 same))
            | inr differs ↦ differs
          ])
        ])
      ∙ serve_first-first before route after params scope send w misses.1 m e

  pub fastapi_contract : FastapiContract (libraries servers) fastapi
  fastapi_contract = record {
    match_literal = match_path_self;
    match_apart = match_path-apart;
    match_param = match_path-param;
    header_given = λ alias value headers e. ap required e;
    header_missing = λ alias headers e. ap required e;
    path_param_given = λ argument value min_length h. rw (text_eq_refl argument) (ground arith);
    parse_body_refused = parsed_body_refused;
    first_match = λ app before route after params scope send w http docs misses m e sends.
        serve_first-first before route after params scope send w misses m e;
    first_match_raised =
        λ app before route after params scope send v w exc http docs misses m e raised.
          serve_first-first before route after params scope send w misses m e
          ∙ ap (handled (libraries servers) fastapi scope send) (raised _);
  }
