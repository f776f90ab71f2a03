-- ===== src/Service/Coherence.antt =====
-- The invariant between the cache and the table: an entry holds the print of the committed row.
use fastapi_polyrepo_templat.Prelude.{
  ◌≡◌, ℕ, refl, sym, ap, ◌∙◌, ◌⊎◌, inl, inr, Option, none, some, [], ◌∷◌, Text, text_eq,
  text_eq_iff, text_eq_refl, Bool-cases, if◌then◌else◌, arith,
}
use fastapi_polyrepo_templat.Effects.{Result, ok, err}
use fastapi_polyrepo_templat.Models.{FeatureFlag, FeatureFlagRow, FeatureFlagConfig, UserDetails}
use fastapi_polyrepo_templat.World.{Libraries, World, PrimaryKey}
use fastapi_polyrepo_templat.RedisKey.Injective.{create_redis_key-injective}
use fastapi_polyrepo_templat.Contracts.{Contracts, overlay}
use fastapi_polyrepo_templat.Service.{read_through, cache_key, write_cache, get_flag}
use fastapi_polyrepo_templat.Service.Reading.{
  loaded, answer, load_flag_sound, load_flag-committed, load_flag-cache,
}
use fastapi_polyrepo_templat.Service.Branches.{
  missed, looked_up, read_through_found, read_through_failed, get_flag_unreachable, get_flag-hit,
  get_flag_miss,
}

-- Two flags share a cache key only if they have one tenant and one name.
pub cache_key-injective : (t n t' n' : Text) → cache_key t n ≡ cache_key t' n' → (t ≡ t') × (n ≡ n')
unfolding cache_key
cache_key-injective t n t' n' e =
    let parts : t ∷ n ∷ [] ≡ t' ∷ n' ∷ [] = create_redis_key-injective _ _ _ e in (cc, cc)

module _ (lib : Libraries) (laws : Contracts lib) where
  open laws use {redis, postgres}

  abbrev pub cached : World lib → Text → Text → Option Text
  cached w tenant name = redis.stored w.cache (cache_key tenant name)

  abbrev pub row_of : World lib → Text → Text → Option FeatureFlagRow
  row_of w tenant name = postgres.committed w.database (tenant, name)

  -- What the cache holds under a flag's key is the JSON of the flag of the committed row.
  pub record IsCoherent (w : World lib) : Type 0 where
    pub at :
        (tenant name json : Text)
        → cached w tenant name ≡ some json
        → (flag : FeatureFlag) × (answer name (row_of w tenant name) ≡ ok flag)
          × (json ≡ lib.model_dump_json flag)

  -- Two worlds that agree on the cache and on the table.
  pub record SameStores (v w : World lib) : Type 0 where
    pub caches : (k : Text) → redis.stored w.cache k ≡ redis.stored v.cache k
    pub tables :
        (k : PrimaryKey) → postgres.committed w.database k ≡ postgres.committed v.database k

  pub SameStores-IsCoherent : {v w : World lib} → SameStores v w → IsCoherent v → IsCoherent w
  SameStores-IsCoherent same h = record {
    at = λ tenant name json e.
        rw (same.tables (tenant, name))
          (h.at tenant name json (sym (same.caches (cache_key tenant name)) ∙ e));
  }

  -- A `SET`, whether it is answered or not, leaves each key alone or stores its own value.
  pub set_cases :
      (k v : Text) (ttl : ℕ) (r : lib.Redis) (j : Text)
      → (redis.stored (lib.redis_set k v ttl r).1 j ≡ redis.stored r j)
        ⊎ ((k ≡ j) × (redis.stored (lib.redis_set k v ttl r).1 j ≡ some v))
  set_cases k v ttl r j = by_outcome (lib.redis_set k v ttl r).0 refl
    where
      by_outcome :
          (o : Result (Unit {0}))
          → (lib.redis_set k v ttl r).0 ≡ o
          → (redis.stored (lib.redis_set k v ttl r).1 j ≡ redis.stored r j)
            ⊎ ((k ≡ j) × (redis.stored (lib.redis_set k v ttl r).1 j ≡ some v))
      by_outcome (ok tt) e = ground (arith, redis.set_stores k v ttl r j, text_eq_iff k j)
      by_outcome (err x) e = ground (arith, redis.set_failed k v ttl r j x, text_eq_iff k j)

  -- One row and its cache entry replaced together keep the cache coherent.
  pub replaced-IsCoherent :
      (v w : World lib) (row : FeatureFlagRow) (flag : FeatureFlag)
      → IsCoherent w
      → answer row.name (some row) ≡ ok flag
      → ((k : PrimaryKey)
          → postgres.committed v.database k ≡ overlay (row ∷ []) (postgres.committed w.database) k)
      → ((j : Text)
          → redis.stored v.cache j ≡ (
              if text_eq (cache_key row.tenant_id row.name) j
              then some (lib.model_dump_json flag)
              else redis.stored w.cache j))
      → IsCoherent v
  unfolding overlay
  replaced-IsCoherent v w row flag h e tables caches = record {
    at = λ t n json c.
        elim (Bool-cases (text_eq (cache_key row.tenant_id row.name) (cache_key t n))) [
          | inl same ↦
              let (t', n') =
                cache_key-injective row.tenant_id row.name t n ((text_eq_iff _ _).0 same) in
              (
                flag,
                ground (arith, tables (t, n), text_eq_iff row.tenant_id t, text_eq_iff row.name n),
                ground (arith, caches (cache_key t n)),
              )
          | inr other ↦
              let (f, answered, printed) = h.at t n json (ground (arith, caches (cache_key t n))) in
              (
                f,
                ground (
                  arith,
                  tables (t, n),
                  text_eq_iff row.tenant_id t,
                  text_eq_iff row.name n,
                  text_eq_refl (cache_key t n),
                ),
                printed,
              )
        ];
  }

  module _ (config : FeatureFlagConfig) where
    -- Refreshing the cache with the flag of the committed row keeps it coherent, whether or not
    -- Redis answers.
    pub write_cache-IsCoherent :
        (tenant name : Text) (flag : FeatureFlag) (w : World lib)
        → IsCoherent w
        → answer name (row_of w tenant name) ≡ ok flag
        → IsCoherent (write_cache lib config (cache_key tenant name) flag w).1
    unfolding write_cache
    write_cache-IsCoherent tenant name flag w h e = record {
      at = λ t n json c.
          elim (set_cases (cache_key tenant name) (lib.model_dump_json flag)
            config.cache_ttl_seconds w.cache (cache_key t n)) [
              | inl same ↦ h.at t n json (sym same ∙ c)
              | inr (k, new) ↦
                  let (t', n') = cache_key-injective tenant name t n k in
                  (flag, rw (← t', ← n') e, cc)
            ];
    }

    read_through-committed :
        (key name : Text) (user : UserDetails) (w : World lib) (k : PrimaryKey)
        → postgres.committed (read_through lib config key name user w).1.database k
          ≡ postgres.committed w.database k
    unfolding read_through
    read_through-committed key name user w k =
        ground (arith, load_flag-committed lib postgres name user (missed w name) k)

    read_through-IsCoherent :
        (name : Text) (user : UserDetails) (w : World lib)
        → IsCoherent w
        → IsCoherent (read_through lib config (cache_key user.tenant_id name) name user w).1
    read_through-IsCoherent name user w h = by_load (loaded lib name user (missed w name)).0 refl
      where
        kept : SameStores w (loaded lib name user (missed w name)).1
        kept = record {
          caches = λ k. ap (λ c. redis.stored c k) (load_flag-cache lib name user (missed w name));
          tables = λ k. load_flag-committed lib postgres name user (missed w name) k;
        }

        by_load :
            (r : Result FeatureFlag)
            → (loaded lib name user (missed w name)).0 ≡ r
            → IsCoherent (read_through lib config (cache_key user.tenant_id name) name user w).1
        by_load (ok flag) e =
            rw (read_through_found lib config (cache_key user.tenant_id name) name user w flag e) (
              write_cache-IsCoherent user.tenant_id name flag
                (loaded lib name user (missed w name)).1 (SameStores-IsCoherent kept h)
                (rw (kept.tables (user.tenant_id, name))
                  (load_flag_sound lib postgres name user (missed w name) flag e)))
        by_load (err x) e =
            rw (read_through_failed lib config (cache_key user.tenant_id name) name user w x e)
              (SameStores-IsCoherent kept h)

    pub looked_up-SameStores : (w : World lib) (key : Text) → SameStores w (looked_up w key)
    looked_up-SameStores w key = record { caches = redis.get_keeps key w.cache; tables = λ k. refl }

    -- A read leaves every committed row alone.
    pub get_flag-committed :
        (name : Text) (user : UserDetails) (w : World lib) (k : PrimaryKey)
        → postgres.committed (get_flag lib config name user w).1.database k
          ≡ postgres.committed w.database k
    unfolding get_flag
    get_flag-committed name user w k =
        let key = cache_key user.tenant_id name in
        ground (arith, read_through-committed key name user (looked_up w key) k)

    -- A read keeps a coherent cache coherent on every branch, the failing ones included.
    pub get_flag-IsCoherent :
        (name : Text) (user : UserDetails) (w : World lib)
        → IsCoherent w
        → IsCoherent (get_flag lib config name user w).1
    get_flag-IsCoherent name user w h = by_lookup (lib.redis_get key w.cache).0 refl
      where
        key : Text
        key = cache_key user.tenant_id name

        kept : IsCoherent (looked_up w key)
        kept = SameStores-IsCoherent (looked_up-SameStores w key) h

        by_lookup :
            (r : Result (Option Text))
            → (lib.redis_get key w.cache).0 ≡ r
            → IsCoherent (get_flag lib config name user w).1
        by_lookup (err x) e = rw (get_flag_unreachable lib config name user w x e) kept
        by_lookup (ok (some json)) e =
            rw (get_flag-hit lib config name user w json e)
              (SameStores-IsCoherent (record { caches = λ k. refl; tables = λ k. refl }) kept)
        by_lookup (ok none) e =
            rw (get_flag_miss lib config name user w e)
              (read_through-IsCoherent name user (looked_up w key) kept)
