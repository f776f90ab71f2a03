-- ===== src/Routes/GetUserDetails.antt =====
-- src/app/routes/get_user_details.py: the caller, validated and bound on the log context for the
-- time of the handler. The generator's `yield` is a call of the handler.
use fastapi_polyrepo_templat.Prelude.{
  ◌≡◌, ◌≢◌, refl, sym, ap, ◌∙◌, ◌++◌, ◌⊎◌, inl, inr, List, [], ◌∷◌, Text, codes, strip,
  strip-nil_iff, IsBlank, is_empty, arith,
}
use fastapi_polyrepo_templat.Effects.{
  BaseException, ok-ne-err, validation_error, request_validation_error, Result, ok, err, lift, pure,
  and_then, finish, modify, ◌>>=◌,
}
use fastapi_polyrepo_templat.Models.{UserDetails, make_user_details}
use fastapi_polyrepo_templat.World.{Libraries, World, App, Message, bound_contextvars}

-- `except ValidationError as exc: raise RequestValidationError(exc.errors()) from exc`
translate : Result UserDetails → Result UserDetails
translate (ok user) = ok user
translate (err validation_error) = err request_validation_error
translate (err exc) = err exc

abbrev pub bindings : UserDetails → List (Text × Text)
bindings user = (codes "tenant_id", user.tenant_id) ∷ (codes "user_id", user.user_id) ∷ []

module _ (lib : Libraries) where
  unfoldable pub get_user_details :
      {A : Type 0} → Text → Text → (UserDetails → App lib A) → App lib A
  unfolding translate make_user_details
  get_user_details tenant_id user_id handler = do
    user ← lift (translate (make_user_details (strip tenant_id) (strip user_id)))
    bound_contextvars lib (bindings user) (handler user)

  -- If a caller header is blank, the request is refused before anything is bound: the handler
  -- does not run and nothing changes.
  pub get_user_details_blank :
      {A : Type 0} (tenant_id user_id : Text) (handler : UserDetails → App lib A) (w : World lib)
      → IsBlank tenant_id ⊎ IsBlank user_id
      → get_user_details tenant_id user_id handler w ≡ (err request_validation_error, w)
  unfolding get_user_details is_empty
  get_user_details_blank tenant_id user_id handler w (inl h) =
      ground (arith, (strip-nil_iff tenant_id).1 h)
  get_user_details_blank tenant_id user_id handler w (inr h) =
      ground (arith, (strip-nil_iff user_id).1 h)

  -- Otherwise the handler runs with the stripped ids, bound on the context.
  pub get_user_details_named :
      {A : Type 0} (tenant_id user_id : Text) (handler : UserDetails → App lib A) (w : World lib)
      → ¬ (IsBlank tenant_id)
      → ¬ (IsBlank user_id)
      → get_user_details tenant_id user_id handler w
        ≡ bound_contextvars lib
            (bindings (record { tenant_id = strip tenant_id; user_id = strip user_id }))
            (handler (record { tenant_id = strip tenant_id; user_id = strip user_id }))
            w
  unfolding get_user_details is_empty
  get_user_details_named tenant_id user_id handler w t u =
      let t' : strip tenant_id ≢ [] = λ e. t ((strip-nil_iff tenant_id).0 e) in
      let u' : strip user_id ≢ [] = λ e. u ((strip-nil_iff user_id).0 e) in ground arith

  -- What follows a handler inside of the bound variables may as well follow the binding, if it
  -- returns and only adds events.
  bound_then :
      {A : Type 0} (r : Result A × World lib) (k : A → App lib Unit) (events : A → List Message)
      (reset : lib.Context → lib.Context)
      → ((a : A) (v : World lib) → k a v ≡ (ok tt, record v { sent = v.sent ++ events a }))
      → finish (and_then r k) (modify (λ v. record v { context = reset v.context }))
        ≡ and_then (finish r (modify (λ v. record v { context = reset v.context }))) k
  bound_then (ok a, v) k events reset quiet =
      ap (λ x. finish x (modify (λ u. record u { context = reset u.context }))) (quiet a v)
      ∙ sym (quiet a (record v { context = reset v.context }))
  bound_then (err exc, v) k events reset quiet = refl

  -- The dependency of the caller, likewise.
  pub get_user_details_then :
      {A : Type 0} (tenant_id user_id : Text) (handler : UserDetails → App lib A)
      (k : A → App lib Unit) (events : A → List Message) (w : World lib)
      → ((a : A) (v : World lib) → k a v ≡ (ok tt, record v { sent = v.sent ++ events a }))
      → get_user_details tenant_id user_id (λ user. handler user >>= k) w
        ≡ and_then (get_user_details tenant_id user_id handler w) k
  unfolding get_user_details
  get_user_details_then tenant_id user_id handler k events w quiet =
      by_user (translate (make_user_details (strip tenant_id) (strip user_id)))
    where
      by_user :
          (user : Result UserDetails)
          → (lift user >>= λ u. bound_contextvars lib (bindings u) (handler u >>= k)) w
            ≡ and_then ((lift user >>= λ u. bound_contextvars lib (bindings u) (handler u)) w) k
      by_user (err exc) = refl
      by_user (ok u) =
          bound_then
            (handler u (record w { context = lib.bind_contextvars (bindings u) w.context })) k
            events (lib.reset_contextvars w.context (bindings u)) quiet

  -- The dependency itself sends nothing.
  pub get_user_details-sent :
      {A : Type 0} (tenant_id user_id : Text) (handler : UserDetails → App lib A) (w : World lib)
      → ((user : UserDetails) (v : World lib) → (handler user v).1.sent ≡ v.sent)
      → (get_user_details tenant_id user_id handler w).1.sent ≡ w.sent
  unfolding get_user_details
  get_user_details-sent {A} tenant_id user_id handler w silent =
      by_user (translate (make_user_details (strip tenant_id) (strip user_id)))
    where
      by_run :
          (u : UserDetails) (r : Result A × World lib)
          → r.1.sent ≡ w.sent
          → (finish r (
              modify (λ v. record v {
                context = lib.reset_contextvars w.context (bindings u) v.context;
              }))).1.sent
            ≡ w.sent
      by_run u (ok a, v) e = e
      by_run u (err exc, v) e = e

      by_user :
          (user : Result UserDetails)
          → ((lift user >>= λ u. bound_contextvars lib (bindings u) (handler u)) w).1.sent ≡ w.sent
      by_user (err exc) = refl
      by_user (ok u) =
          let inner : World lib = record w {
            context = lib.bind_contextvars (bindings u) w.context;
          } in
          by_run u (handler u inner) (silent u inner)

  -- Nor does it touch the state of the request.
  pub get_user_details-scope_state :
      {A : Type 0} (tenant_id user_id : Text) (handler : UserDetails → App lib A) (w : World lib)
      → ((user : UserDetails) (v : World lib) → (handler user v).1.scope_state ≡ v.scope_state)
      → (get_user_details tenant_id user_id handler w).1.scope_state ≡ w.scope_state
  unfolding get_user_details
  get_user_details-scope_state {A} tenant_id user_id handler w silent =
      by_user (translate (make_user_details (strip tenant_id) (strip user_id)))
    where
      by_run :
          (u : UserDetails) (r : Result A × World lib)
          → r.1.scope_state ≡ w.scope_state
          → (finish r (
              modify (λ v. record v {
                context = lib.reset_contextvars w.context (bindings u) v.context;
              }))).1.scope_state
            ≡ w.scope_state
      by_run u (ok a, v) e = e
      by_run u (err exc, v) e = e

      by_user :
          (user : Result UserDetails)
          → ((lift user >>= λ u. bound_contextvars lib (bindings u) (handler u)) w).1.scope_state
            ≡ w.scope_state
      by_user (err exc) = refl
      by_user (ok u) =
          let inner : World lib = record w {
            context = lib.bind_contextvars (bindings u) w.context;
          } in
          by_run u (handler u inner) (silent u inner)

  -- If the request raises, so it does with whatever follows its handler.
  pub get_user_details_raised :
      {A : Type 0} (tenant_id user_id : Text) (handler : UserDetails → App lib A)
      (k : A → App lib Unit) (w v : World lib) (exc : BaseException)
      → get_user_details tenant_id user_id handler w ≡ (err exc, v)
      → get_user_details tenant_id user_id (λ user. handler user >>= k) w ≡ (err exc, v)
  unfolding get_user_details
  get_user_details_raised {A} tenant_id user_id handler k w v exc =
      by_user (translate (make_user_details (strip tenant_id) (strip user_id)))
    where
      by_run :
          (reset : lib.Context → lib.Context) (r : Result A × World lib)
          → finish r (modify (λ u. record u { context = reset u.context })) ≡ (err exc, v)
          → finish (and_then r k) (modify (λ u. record u { context = reset u.context }))
            ≡ (err exc, v)
      by_run reset (ok a, z) e = absurd (ok-ne-err (ap (λ r. r.0) e))
      by_run reset (err x, z) e = ap (λ r. and_then r (λ a. pure tt)) e

      by_user :
          (user : Result UserDetails)
          → (lift user >>= λ u. bound_contextvars lib (bindings u) (handler u)) w ≡ (err exc, v)
          → (lift user >>= λ u. bound_contextvars lib (bindings u) (handler u >>= k)) w
            ≡ (err exc, v)
      by_user (err x) e = ap (λ r. and_then r (λ a. pure tt)) e
      by_user (ok u) e =
          by_run (lib.reset_contextvars w.context (bindings u))
            (handler u (record w { context = lib.bind_contextvars (bindings u) w.context })) e
