-- ===== src/Routes/Requests.antt =====
-- The GET request of a feature flag, headers included, against the table of the caller's tenant.
use fastapi_polyrepo_templat.Prelude.{
  ℕ, Bool, ◌≡◌, ◌≢◌, ◌↔◌, refl, sym, ap, ◌∙◌, Option, none, some, Text, strip, IsBlank, arith,
}
use fastapi_polyrepo_templat.Effects.{http_exception, Result, err}
use fastapi_polyrepo_templat.Models.{FeatureFlag, FeatureFlagRow, FeatureFlagConfig, UserDetails}
use fastapi_polyrepo_templat.World.{Libraries, World}
use fastapi_polyrepo_templat.Contracts.{Contracts, IsUp}
use fastapi_polyrepo_templat.Repr.{not_found_message}
use fastapi_polyrepo_templat.Service.{row_to_flag}
use fastapi_polyrepo_templat.Service.Reading.{answer}
use fastapi_polyrepo_templat.Service.Coherence.{IsCoherent, row_of, SameStores-IsCoherent}
use fastapi_polyrepo_templat.Service.Refinement.{get_flag-refines}
use fastapi_polyrepo_templat.Routes.GetUserDetails.{get_user_details_named}
use fastapi_polyrepo_templat.Routes.FeatureFlagRouter.{
  not_found_as_404, get_feature_flag, get_request,
}

-- The caller that the two headers name.
abbrev pub caller : Text → Text → UserDetails
caller tenant_id user_id = record { tenant_id = strip tenant_id; user_id = strip user_id }

found-ne-404 :
    (lib : Libraries) (name : Text) (row : FeatureFlagRow) (detail : Text)
    → not_found_as_404 lib (answer name (some row)) ≢ err (http_exception 404 detail)
unfolding answer row_to_flag not_found_as_404
found-ne-404 lib name row detail = ground arith

-- What a GET answers, given what the table holds.
unfoldable pub response : (ℕ → Bool) → Text → Option FeatureFlagRow → Result FeatureFlag
response printable name none = err (http_exception 404 (not_found_message printable name))
response printable name (some row) = row_to_flag row

answer-response :
    (lib : Libraries) (name : Text) (row : Option FeatureFlagRow)
    → not_found_as_404 lib (answer name row) ≡ response lib.is_printable name row
unfolding answer row_to_flag not_found_as_404 response
answer-response lib name none = refl
answer-response lib name (some row) = ground arith

module _ (lib : Libraries) (laws : Contracts lib) (config : FeatureFlagConfig) where
  open laws use {postgres}

  pub IsCoherent-same :
      (v w : World lib)
      → v.cache ≡ w.cache
      → v.database ≡ w.database
      → IsCoherent lib laws w
      → IsCoherent lib laws v
  IsCoherent-same v w c d h =
      SameStores-IsCoherent lib laws
        (record {
          caches = λ k. ap (λ x. laws.redis.stored x k) c;
          tables = λ k. ap (λ x. postgres.committed x k) d;
        })
        h

  module _ (tenant_id user_id name : Text) (w : World lib) (up : IsUp lib)
      (coherent : IsCoherent lib laws w) (tenant : ¬ IsBlank tenant_id)
      (user : ¬ IsBlank user_id) where
    pub get_request_translated :
        (get_request lib config tenant_id user_id name w).0
        ≡ not_found_as_404 lib (answer name (row_of lib laws w (strip tenant_id) name))
    unfolding get_request get_feature_flag
    get_request_translated =
        rw
          (get_user_details_named lib tenant_id user_id (get_feature_flag lib config name) w tenant
            user)
          (ap (not_found_as_404 lib) (
            get_flag-refines lib laws config name (caller tenant_id user_id) _ up
              (IsCoherent-same _ w refl refl coherent)))

    -- If Redis and PostgreSQL answer and the cache is coherent, a GET with two headers that are
    -- not blank gives the flag of the row of the stripped tenant, or the 404 with its message if
    -- there is none.
    pub get_request-refines :
        (get_request lib config tenant_id user_id name w).0
        ≡ response lib.is_printable name (row_of lib laws w (strip tenant_id) name)
    get_request-refines =
        get_request_translated ∙ answer-response lib name (row_of lib laws w (strip tenant_id) name)

    -- If Redis and PostgreSQL answer, the cache is coherent and the two headers are not blank, a
    -- GET is answered 404 with the message for that name exactly if the tenant has no row of that
    -- name.
    pub get_request_404_iff :
        ((get_request lib config tenant_id user_id name w).0
          ≡ err (http_exception 404 (not_found_message lib.is_printable name)))
        ↔ (row_of lib laws w (strip tenant_id) name ≡ none)
    get_request_404_iff = (to (row_of lib laws w (strip tenant_id) name) refl, from)
      where
        to :
            (row : Option FeatureFlagRow)
            → row_of lib laws w (strip tenant_id) name ≡ row
            → (get_request lib config tenant_id user_id name w).0
              ≡ err (http_exception 404 (not_found_message lib.is_printable name))
            → row_of lib laws w (strip tenant_id) name ≡ none
        to none e h = e
        to (some row) e h = absurd (
            found-ne-404 lib name row (not_found_message lib.is_printable name)
              (cc (h, e, get_request_translated)))

        from :
            row_of lib laws w (strip tenant_id) name ≡ none
            → (get_request lib config tenant_id user_id name w).0
              ≡ err (http_exception 404 (not_found_message lib.is_printable name))
        from e = get_request-refines ∙ (unfold response in rw e)

  -- The answer depends on the two stores alone.
  pub get_request_same :
      (tenant_id user_id name : Text) (v w : World lib)
      → IsUp lib
      → IsCoherent lib laws w
      → ¬ IsBlank tenant_id
      → ¬ IsBlank user_id
      → v.cache ≡ w.cache
      → v.database ≡ w.database
      → (get_request lib config tenant_id user_id name v).0
        ≡ (get_request lib config tenant_id user_id name w).0
  get_request_same tenant_id user_id name v w up h t u cache database =
      get_request-refines tenant_id user_id name v up (IsCoherent-same v w cache database h) t u
      ∙ ap (λ d. response lib.is_printable name (postgres.committed d (strip tenant_id, name)))
          database
      ∙ sym (get_request-refines tenant_id user_id name w up h t u)
