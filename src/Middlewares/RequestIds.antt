-- ===== src/Middlewares/RequestIds.antt =====
-- The ids of src/app/middlewares/correlation_id_middleware.py: which one a request gets, in its
-- responses and in its context.
use fastapi_polyrepo_templat.Prelude.{
  ◌≡◌, ◌≢◌, ◌⊎◌, inl, inr, false, text_eq_iff, refl, ap, Option, none, some, List, [], ◌∷◌, ◌++◌,
  map, Text, codes, strip, strip-nil_iff, IsBlank, is_empty, text_eq_refl, lower, All, arith,
}
use fastapi_polyrepo_templat.Effects.{Result}
use fastapi_polyrepo_templat.World.{
  Libraries, World, HeaderList, Message, response_start, response_body, other_event,
  bound_contextvars,
}
use fastapi_polyrepo_templat.World.Contextvars.{bound_contextvars_restores}
use fastapi_polyrepo_templat.Contracts.{ContextContract, HeaderContract}
use fastapi_polyrepo_templat.Asgi.{
  Script, Scope, Asgi, Send, server_send, scripted, send_all-rewriting,
}
use fastapi_polyrepo_templat.Middlewares.CorrelationId.{
  request_id_header, correlation_id_header, state_key, header_value, correlation_id_from_headers,
  with_request_id, correlation_id_middleware,
}

nil_cases : (t : Text) → (t ≡ []) ⊎ (t ≢ [])
nil_cases [] = inl refl
nil_cases (c ∷ t) = inr (λ e. cc)

-- No header, or a blank one.
abbrev pub IsBlankHeader : Option Text → Type 0
IsBlankHeader none = Unit
IsBlankHeader (some value) = IsBlank value

module _ (lib : Libraries) where
  -- The header is there and is not blank.
  abbrev pub IsUsable : HeaderList → Text → Text → Type 0
  IsUsable headers name value = (lib.header_get headers name ≡ some value) × (¬ IsBlank value)

  -- It is not there, or blank.
  abbrev pub IsUnusable : HeaderList → Text → Type 0
  IsUnusable headers name = IsBlankHeader (lib.header_get headers name)

  pub IsUsable-cases :
      (headers : HeaderList) (name : Text)
      → ((value : Text) × IsUsable headers name value) ⊎ IsUnusable headers name
  IsUsable-cases headers name = by_header (lib.header_get headers name) refl
    where
      by_value :
          (v : Text)
          → lib.header_get headers name ≡ some v
          → (strip v ≡ []) ⊎ (strip v ≢ [])
          → ((value : Text) × IsUsable headers name value) ⊎ IsUnusable headers name
      by_value v e (inl blank) = inr (rw (IsUnusable, e) ((strip-nil_iff v).0 blank))
      by_value v e (inr n) = inl (v, (e, λ b. n ((strip-nil_iff v).1 b)))

      by_header :
          (o : Option Text)
          → lib.header_get headers name ≡ o
          → ((value : Text) × IsUsable headers name value) ⊎ IsUnusable headers name
      by_header none e = inr (rw (IsUnusable, e) tt)
      by_header (some v) e = by_value v e (nil_cases (strip v))

  pub header_value_usable :
      (headers : HeaderList) (name value : Text)
      → IsUsable headers name value
      → (header_value lib headers name ≡ strip value) × (is_empty (strip value) ≡ false)
  unfolding header_value is_empty
  header_value_usable headers name value (e, n) =
      let named : strip value ≢ [] = λ s. n ((strip-nil_iff value).0 s) in
      (rw (header_value, e) refl, ground arith)

  pub header_value_unusable :
      (headers : HeaderList) (name : Text)
      → IsUnusable headers name
      → header_value lib headers name ≡ []
  unfolding header_value
  header_value_unusable headers name h = by_header (lib.header_get headers name) refl h
    where
      by_header :
          (o : Option Text)
          → lib.header_get headers name ≡ o
          → IsBlankHeader o
          → header_value lib headers name ≡ []
      by_header none e b = rw (header_value, e) ((strip-nil_iff []).1 tt)
      by_header (some v) e b = rw (header_value, e) ((strip-nil_iff v).1 b)

  -- The chosen id is the stripped X-Request-ID if that is there and not blank; otherwise the
  -- stripped X-Correlation-ID if that is there and not blank; otherwise the new UUID.
  pub correlation_id_from_headers_lem :
      (headers : HeaderList) (uuid : Text)
      → ((value : Text) × (IsUsable headers request_id_header value
            × (correlation_id_from_headers lib headers uuid ≡ strip value)))
        ⊎ ((IsUnusable headers request_id_header
              × ((value : Text) × (IsUsable headers correlation_id_header value
                    × (correlation_id_from_headers lib headers uuid ≡ strip value))))
            ⊎ (IsUnusable headers request_id_header
                × (IsUnusable headers correlation_id_header
                    × (correlation_id_from_headers lib headers uuid ≡ uuid))))
  unfolding correlation_id_from_headers
  correlation_id_from_headers_lem headers uuid = elim (IsUsable-cases headers request_id_header) [
    | inl (value, h) ↦
        inl (value, (h, ground (arith, header_value_usable headers request_id_header value h)))
    | inr h ↦ inr (elim (IsUsable-cases headers correlation_id_header) [
      | inl (value, k) ↦ inl (
        h,
        (
          value,
          (
            k,
            ground (
              arith,
              header_value_unusable headers request_id_header h,
              header_value_usable headers correlation_id_header value k,
            ),
          ),
        ),
      )
      | inr k ↦ inr (
        h,
        (
          k,
          ground (
            arith,
            header_value_unusable headers request_id_header h,
            header_value_unusable headers correlation_id_header k,
          ),
        ),
      )
    ])
  ]

  -- The world the application starts in.
  abbrev pub entered : Text → World lib → World lib
  entered id w = record w { scope_state = (state_key, id) ∷ w.scope_state }

  -- The middleware on an HTTP request whose chosen id is `id`, and on any other scope.
  pub correlation_id_middleware_http :
      (app : Asgi lib) (scope : Scope) (send : Send lib) (w : World lib) (id : Text)
      → scope.kind ≡ codes "http"
      → correlation_id_from_headers lib scope.headers w.uuid ≡ id
      → correlation_id_middleware lib app scope send w
        ≡ bound_contextvars lib
            ((state_key, id) ∷ [])
            (app scope (λ message. send (with_request_id lib id message)))
            (entered id w)
  unfolding correlation_id_middleware
  correlation_id_middleware_http app scope send w id http chosen =
      rw ((text_eq_iff scope.kind (codes "http")).1 http, chosen) refl

  -- Every response start among the events carries the id.
  abbrev pub HasRequestId : Text → Message → Type 0
  HasRequestId id (response_start status headers) =
      lib.header_get headers request_id_header ≡ some id
  HasRequestId id (response_body body) = Unit {0}
  HasRequestId id (other_event kind) = Unit {0}

  module _ (headers : HeaderContract lib) where
    pub with_request_id-HasRequestId :
        (id : Text) (messages : List Message)
        → All (HasRequestId id) (map (with_request_id lib id) messages)
    unfolding with_request_id
    with_request_id-HasRequestId id [] = tt
    with_request_id-HasRequestId id (response_start status hs ∷ messages) = (
      ground (
        arith,
        headers.get-set hs request_id_header id request_id_header,
        text_eq_refl (lower request_id_header),
      ),
      with_request_id-HasRequestId id messages,
    )
    with_request_id-HasRequestId id (response_body body ∷ messages) =
        (tt, with_request_id-HasRequestId id messages)
    with_request_id-HasRequestId id (other_event kind ∷ messages) =
        (tt, with_request_id-HasRequestId id messages)

    -- For an HTTP request whose chosen id is known, the middleware ends as the application does
    -- in the state with that id, and sends the application's events, one for one, each response
    -- start with the id as its X-Request-ID.
    pub correlation_id_middleware_sends :
        (messages : Script (List Message)) (end : Script (Result (Unit {0}))) (scope : Scope)
        (w : World lib) (id : Text)
        → scope.kind ≡ codes "http"
        → correlation_id_from_headers lib scope.headers w.uuid ≡ id
        → ((correlation_id_middleware lib (scripted lib messages end) scope (server_send lib) w).0
            ≡ end scope (entered id w).scope_state)
          × ((correlation_id_middleware lib
                (scripted lib messages end)
                scope
                (server_send lib)
                w).1.sent
              ≡ w.sent ++ map (with_request_id lib id) (messages scope (entered id w).scope_state))
          × All
              (HasRequestId id)
              (map (with_request_id lib id) (messages scope (entered id w).scope_state))
    unfolding scripted
    correlation_id_middleware_sends messages end scope w id http chosen =
        let sends =
          send_all-rewriting lib (with_request_id lib id)
            (messages scope (entered id w).scope_state) (end scope (entered id w).scope_state)
            (record (entered id w) {
              context = lib.bind_contextvars ((state_key, id) ∷ []) w.context;
            }) in
        (
          rw
              (correlation_id_middleware_http (scripted lib messages end) scope (server_send lib) w
                id http chosen)
              (ap (λ r. r.0) sends),
          rw
              (correlation_id_middleware_http (scripted lib messages end) scope (server_send lib) w
                id http chosen)
              (ap (λ r. r.1.sent) sends),
          with_request_id-HasRequestId id (messages scope (entered id w).scope_state),
        )

  module _ (context : ContextContract lib) where
    -- Whatever application runs inside an HTTP request, and whether it returns or raises, the
    -- context variable of the id is afterwards as it was before the request.
    pub correlation_id_middleware-context :
        (app : Asgi lib) (scope : Scope) (send : Send lib) (w : World lib)
        → scope.kind ≡ codes "http"
        → lib.context_get (correlation_id_middleware lib app scope send w).1.context state_key
          ≡ lib.context_get w.context state_key
    correlation_id_middleware-context app scope send w http =
        let id = correlation_id_from_headers lib scope.headers w.uuid in
        rw (correlation_id_middleware_http app scope send w id http refl) (
          bound_contextvars_restores lib context ((state_key, id) ∷ [])
            (app scope (λ message. send (with_request_id lib id message))) (entered id w) state_key
            id (rw (text_eq_refl state_key) refl))
