-- ===== src/Service.antt =====
-- src/app/services/feature_flag/feature_flag_service.py
pub mod Reading
pub mod Writing
pub mod Branches
pub mod Coherence
pub mod Refinement
pub mod ReadAfterWrite
pub mod Overlap
pub mod Isolation
pub mod Counters
pub mod Histories
pub mod Staleness
use fastapi_polyrepo_templat.Prelude.{◌+◌, Bool, Option, none, some, List, [], ◌∷◌, Text, codes}
use fastapi_polyrepo_templat.Effects.{
  Result, feature_flag_not_found, pure, raise, lift, modify, ◌>>=◌, ◌>>◌,
}
use fastapi_polyrepo_templat.Models.{
  Datetime, FeatureFlag, make_feature_flag, UserDetails, FeatureFlagRow, FeatureFlagConfig,
}
use fastapi_polyrepo_templat.World.{
  Libraries, World, App, log, on_database, with_database, LogLevel, text, boolean,
}
use fastapi_polyrepo_templat.RedisKey.{create_redis_key}
use fastapi_polyrepo_templat.Clients.Redis.{get_string, set_string}
use fastapi_polyrepo_templat.Clients.Postgres.{with_session}

abbrev pub logger_name : Text
logger_name = codes "FeatureFlagService"

abbrev cache_key_prefix : Text
cache_key_prefix = codes "feature_flag"

unfoldable pub cache_key : Text → Text → Text
cache_key tenant_id name = create_redis_key cache_key_prefix (tenant_id ∷ name ∷ [])

unfoldable pub row_to_flag : FeatureFlagRow → Result FeatureFlag
unfolding make_feature_flag
row_to_flag row = make_feature_flag row.name row.value row.updated_at row.updated_by_user_id

module _ (lib : Libraries) where
  -- The body of `get_flag`'s session: the row of the caller's tenant, or the error.
  unfoldable pub load_flag : Text → UserDetails → App lib FeatureFlag
  unfolding row_to_flag
  load_flag name user = do
    row ← on_database lib (lib.session_get (user.tenant_id, name))
    elim row [
      | none ↦ do
        log lib logger_name LogLevel.info (codes "feature_flag.missing")
            ((codes "name", text name) ∷ [])
        raise (feature_flag_not_found name)
      | some found ↦ lift (row_to_flag found)
    ]

  -- The body of `set_flag`'s session: insert or update, then commit.
  unfoldable pub store_flag : Text → Bool → Datetime → UserDetails → App lib Unit
  store_flag name enabled now user = do
    row ← on_database lib (lib.session_get (user.tenant_id, name))
    with_database lib (elim row [
      | none ↦ lib.session_add (record {
        tenant_id = user.tenant_id;
        name = name;
        value = enabled;
        updated_at = now;
        updated_by_user_id = user.user_id;
      })
      | some found ↦
          lib.session_assign
            (record found { value = enabled; updated_at = now; updated_by_user_id = user.user_id })
    ])
    on_database lib lib.session_commit

module _ (lib : Libraries) (config : FeatureFlagConfig) where
  unfoldable pub write_cache : Text → FeatureFlag → App lib Unit
  unfolding set_string
  write_cache key flag = set_string lib key (lib.model_dump_json flag) config.cache_ttl_seconds

  -- What `get_flag` does after a cache miss: load the row, store its JSON and return it.
  unfoldable pub read_through : Text → Text → UserDetails → App lib FeatureFlag
  unfolding write_cache load_flag
  read_through key name user = do
    log lib logger_name LogLevel.info (codes "feature_flag.cache.miss")
        ((codes "name", text name) ∷ [])
    flag ← with_session lib (load_flag lib name user)
    write_cache key flag
    pure flag

  unfoldable pub get_flag : Text → UserDetails → App lib FeatureFlag
  unfolding get_string read_through
  get_flag name user = do
    let key = cache_key user.tenant_id name
    modify (λ w. record w { reads_total = w.reads_total + 1 })
    cached ← get_string lib key
    elim cached [
      | some json ↦ do
        log lib logger_name LogLevel.info (codes "feature_flag.cache.hit")
            ((codes "name", text name) ∷ [])
        lift (lib.model_validate_json json)
      | none ↦ read_through key name user
    ]

  unfoldable pub set_flag : Text → Bool → UserDetails → App lib FeatureFlag
  unfolding write_cache store_flag make_feature_flag
  set_flag name enabled user = do
    now ← λ w. pure w.clock w
    with_session lib (store_flag lib name enabled now user)
    flag ← lift (make_feature_flag name enabled now user.user_id)
    write_cache (cache_key user.tenant_id name) flag
    modify (λ w. record w { writes_total = w.writes_total + 1 })
    log lib logger_name LogLevel.info (codes "feature_flag.written")
        ((codes "name", text name) ∷ (codes "enabled", boolean enabled) ∷ [])
    pure flag
