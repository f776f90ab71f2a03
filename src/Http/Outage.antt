-- ===== src/Http/Outage.antt =====
-- A PUT of a flag while Redis refuses to write: the row is committed, and the caller gets a 500.
use fastapi_polyrepo_templat.Prelude.{
  ℕ, ◌≡◌, ◌≢◌, ap, ◌∙◌, false, [], ◌∷◌, Text, strip-nil_iff, IsBlank,
}
use fastapi_polyrepo_templat.Effects.{BaseException, ok, err}
use fastapi_polyrepo_templat.Models.{FeatureFlagSetRequest}
use fastapi_polyrepo_templat.World.{Libraries, World, PrimaryKey}
use fastapi_polyrepo_templat.Contracts.{Contracts, IsDatabaseUp, overlay}
use fastapi_polyrepo_templat.Service.{write_cache}
use fastapi_polyrepo_templat.Service.Writing.{written_row, store_flag_up}
use fastapi_polyrepo_templat.Service.ReadAfterWrite.{written_flag, make_feature_flag_named}
use fastapi_polyrepo_templat.Service.Counters.{set_flag_uncounted}
use fastapi_polyrepo_templat.Startup.{Registries, Process}
use fastapi_polyrepo_templat.Startup.Lifecycle.{LifecycleManager}
use fastapi_polyrepo_templat.Startup.Built.{IsAccepting}
use fastapi_polyrepo_templat.Startup.Stack.{Layers}
use fastapi_polyrepo_templat.Startup.Unhandled.{ServerErrorContract}
use fastapi_polyrepo_templat.Routes.FeatureFlagRouter.{set_request}
use fastapi_polyrepo_templat.Routes.Requests.{caller}
use fastapi_polyrepo_templat.Routes.Writes.{entered, set_request_ran}
use fastapi_polyrepo_templat.Http.Fastapi.{Fastapi, FastapiContract}
use fastapi_polyrepo_templat.Http.Application.{LayersContract}

module _ (lib : Libraries) (laws : Contracts lib) (layers : Layers lib)
    (layer_laws : LayersContract lib layers) (server_errors : ServerErrorContract lib layers)
    (fastapi : Fastapi lib) (contract : FastapiContract lib fastapi) (registries : Registries)
    (manager : LifecycleManager) (p : Process registries) (accepting : IsAccepting registries)
    (fresh : p.prometheus.middleware_installed ≡ false) where
  open laws use {postgres}

  -- Redis raises on every write.
  abbrev pub IsReadOnly : BaseException → Type 0
  IsReadOnly exc = (k v : Text) (ttl : ℕ) (r : lib.Redis) → (lib.redis_set k v ttl r).0 ≡ err exc

  -- The request raises that error, with its row in the table.
  pub set_request_outage :
      (tenant_id user_id name : Text) (body : FeatureFlagSetRequest) (exc : BaseException)
      (w : World lib)
      → IsDatabaseUp lib
      → IsReadOnly exc
      → ¬ IsBlank tenant_id
      → ¬ IsBlank user_id
      → name ≢ []
      → let ran = set_request lib manager.app_config.feature_flag tenant_id user_id name body w in
        (ran.0 ≡ err exc)
        × ((k : PrimaryKey)
            → postgres.committed ran.1.database k
              ≡ overlay
                  (written_row name body.enabled w.clock (caller tenant_id user_id) ∷ [])
                  (postgres.committed w.database)
                  k)
  set_request_outage tenant_id user_id name body exc w up refused t u n =
      let cfg = manager.app_config.feature_flag in
      let user = caller tenant_id user_id in
      let started = entered lib laws cfg tenant_id user_id name body w in
      let (result, cache, database) =
        set_request_ran lib laws cfg tenant_id user_id name body w t u in
      let flag = written_flag name body.enabled w.clock user in
      let edited : user.user_id ≢ [] = λ e. u ((strip-nil_iff user_id).0 e) in
      let (raised, counted, tables) =
        set_flag_uncounted lib cfg postgres name body.enabled user started flag exc
          (store_flag_up lib name body.enabled w.clock user started up)
          (make_feature_flag_named name body.enabled w.clock user n edited)
          (unfold write_cache in refused _ _ _ _) in
      (result ∙ raised, λ k. ap (λ d. postgres.committed d k) database ∙ tables k)
