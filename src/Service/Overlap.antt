-- ===== src/Service/Overlap.antt =====
-- A read that misses the cache, while another coroutine runs between its session and its refresh
-- of the cache.
use fastapi_polyrepo_templat.Prelude.{
  ◌≡◌, ◌≢◌, refl, ap, ◌∙◌, Bool, some, [], ◌∷◌, Text, codes, text_eq_refl, arith,
}
use fastapi_polyrepo_templat.Effects.{ok, pure, ◌>>=◌, ◌>>◌}
use fastapi_polyrepo_templat.Models.{FeatureFlag, FeatureFlagConfig, UserDetails}
use fastapi_polyrepo_templat.World.{Libraries, World, App, LogLevel, log, text}
use fastapi_polyrepo_templat.Contracts.{Contracts, IsUp}
use fastapi_polyrepo_templat.Clients.Postgres.{with_session}
use fastapi_polyrepo_templat.Service.{
  logger_name, cache_key, load_flag, write_cache, read_through, get_flag, set_flag,
}
use fastapi_polyrepo_templat.Service.ReadAfterWrite.{written_flag, overlay_self, set_flag_up}
use fastapi_polyrepo_templat.Service.Reading.{
  loaded, answer, load_flag-cache, load_flag-clock, load_flag-committed, load_flag-eq-answer,
}
use fastapi_polyrepo_templat.Service.Writing.{written_row}
use fastapi_polyrepo_templat.Service.Branches.{missed, get_flag-hit}
use fastapi_polyrepo_templat.Service.Coherence.{IsCoherent, row_of, SameStores-IsCoherent}
use fastapi_polyrepo_templat.Service.Refinement.{set_flag-refines, answer-ne-nil, refreshed_cache}

module _ (lib : Libraries) (config : FeatureFlagConfig) where
  -- `read_through`, with what another coroutine does before the refresh.
  unfoldable pub overlapped_read : App lib Unit → Text → Text → UserDetails → App lib FeatureFlag
  overlapped_read other key name user = do
    log lib logger_name LogLevel.info (codes "feature_flag.cache.miss")
        ((codes "name", text name) ∷ [])
    flag ← with_session lib (load_flag lib name user)
    other
    write_cache lib config key flag
    pure flag

  -- Where nothing runs in between, that is `read_through`.
  overlapped_read-pure :
      (key name : Text) (user : UserDetails)
      → overlapped_read (pure tt) key name user ≡ read_through lib config key name user
  unfolding overlapped_read read_through
  overlapped_read-pure key name user = refl

  -- Another caller's write, of which only the effects matter here.
  abbrev pub writing : Text → Bool → UserDetails → App lib Unit
  writing name enabled user w = (ok tt, (set_flag lib config name enabled user w).1)

  overlapped_read_found :
      (name key : Text) (reader writer : UserDetails) (enabled : Bool) (w : World lib)
      (old : FeatureFlag)
      → (loaded lib name reader (missed w name)).0 ≡ ok old
      → (overlapped_read (writing name enabled writer) key name reader w).1
        ≡ (write_cache lib config key old
            (set_flag lib config name enabled writer
              (loaded lib name reader (missed w name)).1).1).1
  unfolding overlapped_read
  overlapped_read_found name key reader writer enabled w old e = ground arith

module _ (lib : Libraries) (laws : Contracts lib) (config : FeatureFlagConfig) where
  open laws use {redis, postgres, json}

  -- An entry that was just stored is what the next read returns.
  read_of_refreshed :
      (name : Text) (user : UserDetails) (w : World lib) (flag : FeatureFlag)
      → IsUp lib
      → flag.name ≢ []
      → flag.updated_by_user_id ≢ []
      → (get_flag lib config name user
          (write_cache lib config (cache_key user.tenant_id name) flag w).1).0
        ≡ ok flag
  read_of_refreshed name user w flag up n u =
      let key = cache_key user.tenant_id name in
      let after = (write_cache lib config key flag w).1 in
      let sent : (write_cache lib config key flag w).0 ≡ ok tt =
        unfold write_cache in
        up.redis_set key (lib.model_dump_json flag) config.cache_ttl_seconds w.cache in
      let (v, got) = up.redis_get key after.cache in
      let value : v ≡ some (lib.model_dump_json flag) = ground (
        arith,
        redis.get_value key after.cache v,
        refreshed_cache lib laws config key flag w key sent,
        text_eq_refl key,
      ) in
      let hit : (lib.redis_get key after.cache).0 ≡ ok (some (lib.model_dump_json flag)) =
        cc (got, value) in
      ap (λ r. r.0) (get_flag-hit lib config name user after (lib.model_dump_json flag) hit)
      ∙ json.validate-dump flag n u

  -- If Redis and PostgreSQL answer and the cache is coherent, a write, with a name and a user id,
  -- that runs between the session of a read of the same tenant's flag that found an old flag and
  -- its refresh of the cache leaves the old flag in the cache: the next read returns it, though
  -- the table answers with the new one.
  pub overlapped_read_is_stale :
      (name : Text) (reader writer : UserDetails) (enabled : Bool) (w : World lib)
      (old : FeatureFlag)
      → IsUp lib
      → IsCoherent lib laws w
      → name ≢ []
      → writer.user_id ≢ []
      → reader.tenant_id ≡ writer.tenant_id
      → answer name (row_of lib laws w reader.tenant_id name) ≡ ok old
      → ((get_flag lib config name reader
            (overlapped_read lib config
              (writing lib config name enabled writer)
              (cache_key reader.tenant_id name)
              name
              reader
              w).1).0
          ≡ ok old)
        × (answer name (
              row_of lib laws
                (overlapped_read lib config
                  (writing lib config name enabled writer)
                  (cache_key reader.tenant_id name)
                  name
                  reader
                  w).1
                reader.tenant_id
                name)
            ≡ ok (written_flag name enabled w.clock writer))
  overlapped_read_is_stale name reader writer enabled w old up h n u same answered =
      let key = cache_key reader.tenant_id name in
      let session = (loaded lib name reader (missed w name)).1 in
      let written = (set_flag lib config name enabled writer session).1 in
      let (row, opened) = up.session_get (reader.tenant_id, name) (lib.open_session w.database) in
      let found : (loaded lib name reader (missed w name)).0 ≡ ok old =
        load_flag-eq-answer lib postgres name reader (missed w name) row opened ∙ answered in
      let ran = overlapped_read_found lib config name key reader writer enabled w old found in
      let (named, edited) = answer-ne-nil name _ old answered in
      let clock : session.clock ≡ w.clock = load_flag-clock lib name reader (missed w name) in
      let kept : IsCoherent lib laws session =
        SameStores-IsCoherent lib laws
          (record {
            caches =
                λ k. ap (λ c. redis.stored c k) (load_flag-cache lib name reader (missed w name));
            tables = λ k. load_flag-committed lib postgres name reader (missed w name) k;
          })
          h in
      let (tables, now, _) =
        set_flag-refines lib laws config name enabled writer session
          (written_flag name enabled session.clock writer) kept
          (set_flag_up lib laws config name enabled writer session up n u) in
      let new_row = written_row name enabled session.clock writer in
      (
        rw ran (read_of_refreshed name reader written old up named edited),
        rw ran (
            unfold write_cache in
            ap (λ t. answer name (postgres.committed written.database (t, name))) same
            ∙ ap (answer name) (
                tables (writer.tenant_id, name)
                ∙ overlay_self new_row (postgres.committed session.database))
            ∙ now
            ∙ ap (λ c. ok (written_flag name enabled c writer)) clock),
      )
