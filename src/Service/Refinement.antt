-- ===== src/Service/Refinement.antt =====
-- `FeatureFlagService` against its specification, a table of rows.
use fastapi_polyrepo_templat.Prelude.{
  ◌≡◌, ◌≢◌, refl, sym, ap, ◌∙◌, Bool, Option, none, some, [], ◌∷◌, Text, is_empty, text_eq,
  if◌then◌else◌, arith,
}
use fastapi_polyrepo_templat.Effects.{Result, ok, err}
use fastapi_polyrepo_templat.Models.{FeatureFlag, FeatureFlagRow, FeatureFlagConfig, UserDetails}
use fastapi_polyrepo_templat.World.{Libraries, World, PrimaryKey}
use fastapi_polyrepo_templat.Clients.Redis.{get_string}
use fastapi_polyrepo_templat.Contracts.{Contracts, overlay, IsUp}
use fastapi_polyrepo_templat.Service.{row_to_flag, cache_key, write_cache, get_flag, set_flag}
use fastapi_polyrepo_templat.Service.Reading.{answer, load_flag_sound, load_flag-eq-answer}
use fastapi_polyrepo_templat.Service.Writing.{
  written_row, stored, store_flag-committed, store_flag-cache,
}
use fastapi_polyrepo_templat.Service.Branches.{
  missed, looked_up, read_through_sound, read_through_up, get_flag_unreachable, get_flag-hit,
  get_flag_miss, set_flag_done, set_flag_sound,
}
use fastapi_polyrepo_templat.Service.Coherence.{IsCoherent, row_of, replaced-IsCoherent}

-- A flag that the model accepted has a name and a last editor.
flag_of_row-ne-nil :
    (row : FeatureFlagRow) (flag : FeatureFlag)
    → row_to_flag row ≡ ok flag
    → (flag.name ≢ []) × (flag.updated_by_user_id ≢ [])
unfolding row_to_flag is_empty
flag_of_row-ne-nil row flag e = ground arith

pub answer-ne-nil :
    (name : Text) (row : Option FeatureFlagRow) (flag : FeatureFlag)
    → answer name row ≡ ok flag
    → (flag.name ≢ []) × (flag.updated_by_user_id ≢ [])
unfolding answer
answer-ne-nil name none flag e = cc
answer-ne-nil name (some row) flag e = flag_of_row-ne-nil row flag e

module _ (lib : Libraries) (laws : Contracts lib) (config : FeatureFlagConfig) where
  open laws use {redis, postgres, json}

  -- What a hit returns is what the table answers.
  hit-eq-answer :
      (name : Text) (user : UserDetails) (w : World lib) (text : Text)
      → IsCoherent lib laws w
      → (lib.redis_get (cache_key user.tenant_id name) w.cache).0 ≡ ok (some text)
      → lib.model_validate_json text ≡ answer name (row_of lib laws w user.tenant_id name)
  hit-eq-answer name user w text h e =
      let (flag, answered, printed) =
        h.at user.tenant_id name text
          (sym (redis.get_value (cache_key user.tenant_id name) w.cache (some text) e)) in
      let (named, edited) = answer-ne-nil name _ flag answered in
      cc (printed, answered, json.validate-dump flag named edited)

  -- Whatever the libraries do, a flag that a read returns is the one of the caller's tenant in
  -- the table.
  pub get_flag_sound :
      (name : Text) (user : UserDetails) (w : World lib) (flag : FeatureFlag)
      → IsCoherent lib laws w
      → (get_flag lib config name user w).0 ≡ ok flag
      → answer name (row_of lib laws w user.tenant_id name) ≡ ok flag
  get_flag_sound name user w flag h e = by_lookup (lib.redis_get key w.cache).0 refl
    where
      key : Text
      key = cache_key user.tenant_id name

      by_lookup :
          (r : Result (Option Text))
          → (lib.redis_get key w.cache).0 ≡ r
          → answer name (row_of lib laws w user.tenant_id name) ≡ ok flag
      by_lookup (err x) g = cc (e, get_flag_unreachable lib config name user w x g)
      by_lookup (ok (some text)) g =
          cc (e, get_flag-hit lib config name user w text g, hit-eq-answer name user w text h g)
      by_lookup (ok none) g =
          load_flag_sound lib postgres name user (missed (looked_up w key) name) flag (
            read_through_sound lib config key name user (looked_up w key) flag
              (cc (e, get_flag_miss lib config name user w g)))

  -- If Redis and PostgreSQL answer and the cache is coherent with the table, a read gives exactly
  -- what the table of the caller's tenant answers: the flag of the row, or the error that there
  -- is none.
  pub get_flag-refines :
      (name : Text) (user : UserDetails) (w : World lib)
      → IsUp lib
      → IsCoherent lib laws w
      → (get_flag lib config name user w).0 ≡ answer name (row_of lib laws w user.tenant_id name)
  get_flag-refines name user w up h =
      by_lookup (up.redis_get key w.cache).0 (up.redis_get key w.cache).1
    where
      key : Text
      key = cache_key user.tenant_id name

      writes : (flag : FeatureFlag) (v : World lib) → (write_cache lib config key flag v).0 ≡ ok tt
      writes flag v =
          unfold write_cache in
          up.redis_set key (lib.model_dump_json flag) config.cache_ttl_seconds v.cache

      by_lookup :
          (o : Option Text)
          → (lib.redis_get key w.cache).0 ≡ ok o
          → (get_flag lib config name user w).0
            ≡ answer name (row_of lib laws w user.tenant_id name)
      by_lookup (some text) g =
          cc (get_flag-hit lib config name user w text g, hit-eq-answer name user w text h g)
      by_lookup none g =
          let opened = lib.open_session w.database in
          let (row, found) = up.session_get (user.tenant_id, name) opened in
          cc (
            get_flag_miss lib config name user w g,
            read_through_up lib config key name user (looked_up w key) writes,
            load_flag-eq-answer lib postgres name user (missed (looked_up w key) name) row
                (unfold get_string in found),
          )

  pub refreshed_cache :
      (key : Text) (flag : FeatureFlag) (v : World lib) (j : Text)
      → (write_cache lib config key flag v).0 ≡ ok tt
      → redis.stored (write_cache lib config key flag v).1.cache j
        ≡ (if text_eq key j then some (lib.model_dump_json flag) else redis.stored v.cache j)
  unfolding write_cache
  refreshed_cache key flag v j e =
      redis.set_stores key (lib.model_dump_json flag) config.cache_ttl_seconds v.cache j e

  -- If the cache is coherent, a write that returns has put the caller's row into the table, left
  -- every other row alone, and left a coherent cache; the flag that it returns is the one of that
  -- row.
  pub set_flag-refines :
      (name : Text) (enabled : Bool) (user : UserDetails) (w : World lib) (flag : FeatureFlag)
      → IsCoherent lib laws w
      → (set_flag lib config name enabled user w).0 ≡ ok flag
      → ((k : PrimaryKey)
          → postgres.committed (set_flag lib config name enabled user w).1.database k
            ≡ overlay
                (written_row name enabled w.clock user ∷ [])
                (postgres.committed w.database)
                k)
        × (answer name (some (written_row name enabled w.clock user)) ≡ ok flag)
        × IsCoherent lib laws (set_flag lib config name enabled user w).1
  set_flag-refines name enabled user w flag h e =
      let (done, valid, refreshed) = set_flag_sound lib config name enabled user w flag e in
      let ran = set_flag_done lib config name enabled user w done flag valid refreshed in
      let tables : (k : PrimaryKey)
          → postgres.committed (set_flag lib config name enabled user w).1.database k
            ≡ overlay (written_row name enabled w.clock user ∷ []) (postgres.committed w.database)
                k =
        λ k. rw ran (
          unfold write_cache in
          store_flag-committed lib postgres name enabled w.clock user w k done) in
      let answered : answer name (some (written_row name enabled w.clock user)) ≡ ok flag =
        unfold answer row_to_flag in valid in
      (
        tables,
        answered,
        replaced-IsCoherent lib laws (set_flag lib config name enabled user w).1 w
            (written_row name enabled w.clock user) flag h answered tables
            (λ j. rw ran (
              refreshed_cache (cache_key user.tenant_id name) flag
                (stored lib name enabled w.clock user w).1 j refreshed
              ∙ ap
                  (λ c.
                    if text_eq (cache_key user.tenant_id name) j
                    then some (lib.model_dump_json flag)
                    else redis.stored c j)
                  (store_flag-cache lib name enabled w.clock user w))),
      )
