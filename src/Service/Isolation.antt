-- ===== src/Service/Isolation.antt =====
-- `set_flag` and the rows and cache entries of the other flags.
use fastapi_polyrepo_templat.Prelude.{◌≡◌, refl, ap, ◌∙◌, ◌⊎◌, inl, inr, Bool, [], ◌∷◌, Text, arith}
use fastapi_polyrepo_templat.Effects.{Result, ok, err}
use fastapi_polyrepo_templat.Models.{make_feature_flag, FeatureFlag, FeatureFlagConfig, UserDetails}
use fastapi_polyrepo_templat.World.{Libraries, World, PrimaryKey}
use fastapi_polyrepo_templat.Contracts.{Contracts, overlay, overlay_apart}
use fastapi_polyrepo_templat.Service.{cache_key, write_cache, set_flag}
use fastapi_polyrepo_templat.Service.Writing.{
  written_row, stored, store_flag-committed, store_flag-committed_failed, store_flag-cache,
}
use fastapi_polyrepo_templat.Service.Branches.{set_flag_not_stored, set_flag_refused}
use fastapi_polyrepo_templat.Service.Coherence.{cached, row_of, cache_key-injective, set_cases}

module _ (lib : Libraries) (laws : Contracts lib) (config : FeatureFlagConfig) where
  open laws use {redis, postgres}

  module _ (name : Text) (enabled : Bool) (user : UserDetails) (w : World lib) where
    abbrev pub done : Result FeatureFlag × World lib
    done = set_flag lib config name enabled user w

    abbrev pub session : Result (Unit {0}) × World lib
    session = stored lib name enabled w.clock user w

    -- After the session only the cache, the counter and the log change.
    set_flag-database : done.1.database ≡ session.1.database
    unfolding set_flag write_cache
    set_flag-database = ground arith

    -- The cache is as it was, or the flag has been sent to it.
    pub set_flag-cache :
        (done.1.cache ≡ session.1.cache)
        ⊎ ((flag : FeatureFlag) × (done.1.cache
              ≡ (lib.redis_set
                  (cache_key user.tenant_id name)
                  (lib.model_dump_json flag)
                  config.cache_ttl_seconds
                  session.1.cache).1))
    set_flag-cache = by_session session.0 refl
      where
        by_valid :
            session.0 ≡ ok tt
            → (r : Result FeatureFlag) → make_feature_flag name enabled w.clock user.user_id ≡ r
            → (done.1.cache ≡ session.1.cache)
              ⊎ ((flag : FeatureFlag) × (done.1.cache
                    ≡ (lib.redis_set
                        (cache_key user.tenant_id name)
                        (lib.model_dump_json flag)
                        config.cache_ttl_seconds
                        session.1.cache).1))
        by_valid e (err x) g = inl (rw (set_flag_refused lib config name enabled user w e x g))
        by_valid e (ok flag) g = inr (flag, unfold set_flag write_cache in ground arith)

        by_session :
            (r : Result (Unit {0}))
            → session.0 ≡ r
            → (done.1.cache ≡ session.1.cache)
              ⊎ ((flag : FeatureFlag) × (done.1.cache
                    ≡ (lib.redis_set
                        (cache_key user.tenant_id name)
                        (lib.model_dump_json flag)
                        config.cache_ttl_seconds
                        session.1.cache).1))
        by_session (err x) e = inl (rw (set_flag_not_stored lib config name enabled user w x e))
        by_session (ok tt) e = by_valid e (make_feature_flag name enabled w.clock user.user_id) refl

    -- After a write, whether it returns or raises, every row is the one before the call, or the
    -- one of the table with the row that the call writes.
    pub set_flag-committed :
        (k : PrimaryKey)
        → (postgres.committed done.1.database k ≡ postgres.committed w.database k)
          ⊎ (postgres.committed done.1.database k
              ≡ overlay
                  (written_row name enabled w.clock user ∷ [])
                  (postgres.committed w.database)
                  k)
    set_flag-committed k = rw set_flag-database (by_session session.0 refl)
      where
        by_session :
            (r : Result (Unit {0}))
            → session.0 ≡ r
            → (postgres.committed session.1.database k ≡ postgres.committed w.database k)
              ⊎ (postgres.committed session.1.database k
                  ≡ overlay
                      (written_row name enabled w.clock user ∷ [])
                      (postgres.committed w.database)
                      k)
        by_session (ok tt) e =
            inr (store_flag-committed lib postgres name enabled w.clock user w k e)
        by_session (err x) e =
            store_flag-committed_failed lib postgres name enabled w.clock user w k x e

    -- A write of one flag changes neither the row nor the cache entry of a flag of another tenant
    -- or of another name, whether the write returns or raises.
    pub set_flag-isolated :
        (tenant other : Text)
        → ¬ ((user.tenant_id ≡ tenant) × (name ≡ other))
        → (row_of lib laws done.1 tenant other ≡ row_of lib laws w tenant other)
          × (cached lib laws done.1 tenant other ≡ cached lib laws w tenant other)
    set_flag-isolated tenant other apart = (rows, entries)
      where
        rows : row_of lib laws done.1 tenant other ≡ row_of lib laws w tenant other
        rows = elim (set_flag-committed (tenant, other)) [
          | inl same ↦ same
          | inr new ↦
              new
              ∙ overlay_apart (written_row name enabled w.clock user)
                  (postgres.committed w.database) tenant other apart
        ]

        key : Text
        key = cache_key tenant other

        before : redis.stored session.1.cache key ≡ cached lib laws w tenant other
        before = ap (λ c. redis.stored c key) (store_flag-cache lib name enabled w.clock user w)

        entries : cached lib laws done.1 tenant other ≡ cached lib laws w tenant other
        entries = elim set_flag-cache [
          | inl same ↦ ap (λ c. redis.stored c key) same ∙ before
          | inr (flag, sent) ↦
              ap (λ c. redis.stored c key) sent
              ∙ elim (set_cases lib laws (cache_key user.tenant_id name) (lib.model_dump_json flag)
                  config.cache_ttl_seconds session.1.cache key) [
                    | inl same ↦ same ∙ before
                    | inr (same, _) ↦
                        absurd (apart (cache_key-injective user.tenant_id name tenant other same))
                  ]
        ]
