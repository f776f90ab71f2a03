-- ===== src/Routes/Writes.antt =====
-- The PUT request of a feature flag, and a GET after it.
use fastapi_polyrepo_templat.Prelude.{
  ◌≡◌, ◌≢◌, refl, sym, ap, ◌∙◌, some, [], ◌∷◌, Text, codes, strip, strip-nil_iff, IsBlank,
}
use fastapi_polyrepo_templat.Effects.{ok}
use fastapi_polyrepo_templat.Models.{FeatureFlagSetRequest, FeatureFlagConfig}
use fastapi_polyrepo_templat.World.{Libraries, World, LogLevel, log, text, boolean}
use fastapi_polyrepo_templat.Contracts.{Contracts, IsUp}
use fastapi_polyrepo_templat.Service.{set_flag}
use fastapi_polyrepo_templat.Service.Reading.{answer}
use fastapi_polyrepo_templat.Service.Writing.{written_row}
use fastapi_polyrepo_templat.Service.Coherence.{IsCoherent, row_of}
use fastapi_polyrepo_templat.Service.Refinement.{set_flag-refines}
use fastapi_polyrepo_templat.Service.ReadAfterWrite.{written_flag, set_flag_up, overlay_self}
use fastapi_polyrepo_templat.Routes.GetUserDetails.{bindings, get_user_details_named}
use fastapi_polyrepo_templat.Routes.FeatureFlagRouter.{
  not_found_as_404, set_feature_flag, get_request, set_request,
}
use fastapi_polyrepo_templat.Routes.Requests.{caller, IsCoherent-same, get_request_translated}

module _ (lib : Libraries) (laws : Contracts lib) (config : FeatureFlagConfig) where
  open laws use {postgres}

  -- The world in which `set_flag` starts: the caller is bound and the route has logged.
  abbrev pub entered : Text → Text → Text → FeatureFlagSetRequest → World lib → World lib
  entered tenant_id user_id name body w =
      (log lib (codes "feature-flag-router.set") LogLevel.info (codes "feature_flag.set")
        ((codes "name", text name) ∷ (codes "enabled", boolean body.enabled) ∷ [])
        (record w {
          context = lib.bind_contextvars (bindings (caller tenant_id user_id)) w.context;
        })).1

  pub set_request_ran :
      (tenant_id user_id name : Text) (body : FeatureFlagSetRequest) (w : World lib)
      → ¬ IsBlank tenant_id
      → ¬ IsBlank user_id
      → ((set_request lib config tenant_id user_id name body w).0
          ≡ (set_flag lib config name body.enabled
              (caller tenant_id user_id)
              (entered tenant_id user_id name body w)).0)
        × ((set_request lib config tenant_id user_id name body w).1.cache
            ≡ (set_flag lib config name body.enabled
                (caller tenant_id user_id)
                (entered tenant_id user_id name body w)).1.cache)
        × ((set_request lib config tenant_id user_id name body w).1.database
            ≡ (set_flag lib config name body.enabled
                (caller tenant_id user_id)
                (entered tenant_id user_id name body w)).1.database)
  unfolding set_request set_feature_flag
  set_request_ran tenant_id user_id name body w t u =
      let ran =
        get_user_details_named lib tenant_id user_id (set_feature_flag lib config name body) w t
          u in
      (ap (λ p. p.0) ran, ap (λ p. p.1.cache) ran, ap (λ p. p.1.database) ran)

  -- Such a PUT leaves a coherent cache.
  pub set_request-IsCoherent :
      (tenant_id user_id name : Text) (body : FeatureFlagSetRequest) (w : World lib)
      → IsUp lib
      → IsCoherent lib laws w
      → ¬ IsBlank tenant_id
      → ¬ IsBlank user_id
      → name ≢ []
      → IsCoherent lib laws (set_request lib config tenant_id user_id name body w).1
  set_request-IsCoherent tenant_id user_id name body w up h t u n =
      let user = caller tenant_id user_id in
      let started = entered tenant_id user_id name body w in
      let edited : user.user_id ≢ [] = λ e. u ((strip-nil_iff user_id).0 e) in
      let (result, cache, database) = set_request_ran tenant_id user_id name body w t u in
      IsCoherent-same lib laws config (set_request lib config tenant_id user_id name body w).1
        (set_flag lib config name body.enabled user started).1 cache database
        (set_flag-refines lib laws config name body.enabled user started
          (written_flag name body.enabled w.clock user)
          (IsCoherent-same lib laws config started w refl refl h)
          (set_flag_up lib laws config name body.enabled user started up n edited)).2

  -- If Redis and PostgreSQL answer and the cache is coherent, a PUT of a flag with a name and
  -- with two headers that are not blank returns the flag with the value of its body, the time of
  -- the call and the stripped user, and then a GET by any user of that tenant, whose header is
  -- not blank, returns the same flag.
  pub get_request-set_request :
      (tenant_id user_id reader_tenant reader name : Text) (body : FeatureFlagSetRequest)
      (w : World lib)
      → IsUp lib
      → IsCoherent lib laws w
      → ¬ IsBlank tenant_id
      → ¬ IsBlank user_id
      → ¬ IsBlank reader
      → name ≢ []
      → strip reader_tenant ≡ strip tenant_id
      → ((set_request lib config tenant_id user_id name body w).0
          ≡ ok (written_flag name body.enabled w.clock (caller tenant_id user_id)))
        × ((get_request lib config reader_tenant reader name
              (set_request lib config tenant_id user_id name body w).1).0
            ≡ ok (written_flag name body.enabled w.clock (caller tenant_id user_id)))
  get_request-set_request tenant_id user_id reader_tenant reader name body w up h t u r n same =
      let user = caller tenant_id user_id in
      let flag = written_flag name body.enabled w.clock user in
      let row = written_row name body.enabled w.clock user in
      let started = entered tenant_id user_id name body w in
      let after = (set_request lib config tenant_id user_id name body w).1 in
      let edited : user.user_id ≢ [] = λ e. u ((strip-nil_iff user_id).0 e) in
      let returned : (set_flag lib config name body.enabled user started).0 ≡ ok flag =
        set_flag_up lib laws config name body.enabled user started up n edited in
      let (tables, answered, kept) =
        set_flag-refines lib laws config name body.enabled user started flag
          (IsCoherent-same lib laws config started w refl refl h) returned in
      let (result, cache, database) = set_request_ran tenant_id user_id name body w t u in
      let found : row_of lib laws after (strip reader_tenant) name ≡ some row =
        ap (λ d. postgres.committed d (strip reader_tenant, name)) database
        ∙ ap
            (λ z.
              postgres.committed (set_flag lib config name body.enabled user started).1.database
                (z, name))
            same
        ∙ tables (strip tenant_id, name)
        ∙ overlay_self row (postgres.committed w.database) in
      let named : ¬ IsBlank reader_tenant =
        λ e. t ((strip-nil_iff tenant_id).0 (sym same ∙ (strip-nil_iff reader_tenant).1 e)) in
      (
        result ∙ returned,
        get_request_translated lib laws config reader_tenant reader name after up
              (IsCoherent-same lib laws config after
                (set_flag lib config name body.enabled user started).1 cache database kept)
              named r
            ∙ ap (λ o. not_found_as_404 lib (answer name o)) found
            ∙ ap (not_found_as_404 lib) answered
            ∙ (unfold not_found_as_404 in refl),
      )
