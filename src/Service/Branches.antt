-- ===== src/Service/Branches.antt =====
-- `get_flag` branch by branch: Redis raises, the key is there, or it is not; and in the last case
-- the session finds the flag or raises.
use fastapi_polyrepo_templat.Prelude.{◌+◌, ◌≡◌, refl, Bool, none, some, [], ◌∷◌, Text, codes, arith}
use fastapi_polyrepo_templat.Effects.{BaseException, Result, ok, err}
use fastapi_polyrepo_templat.Models.{make_feature_flag, FeatureFlag, FeatureFlagConfig, UserDetails}
use fastapi_polyrepo_templat.World.{Libraries, World, LogLevel, log, text, boolean}
use fastapi_polyrepo_templat.Service.{
  logger_name, cache_key, write_cache, read_through, get_flag, set_flag,
}
use fastapi_polyrepo_templat.Service.Reading.{loaded}
use fastapi_polyrepo_templat.Service.Writing.{stored}

module _ {lib : Libraries} where
  -- The world in which a read that missed opens its session.
  abbrev pub missed : World lib → Text → World lib
  missed w name =
      (log lib logger_name LogLevel.info (codes "feature_flag.cache.miss")
        ((codes "name", text name) ∷ []) w).1

  -- The world after a read's lookup in the cache.
  abbrev pub looked_up : World lib → Text → World lib
  looked_up w key = record w {
    cache = (lib.redis_get key w.cache).1;
    reads_total = w.reads_total + 1;
  }

  -- The world after a read that hit.
  abbrev pub hit : World lib → Text → World lib
  hit w name =
      (log lib logger_name LogLevel.info (codes "feature_flag.cache.hit")
        ((codes "name", text name) ∷ []) w).1

module _ (lib : Libraries) (config : FeatureFlagConfig) where
  module _ (key name : Text) (user : UserDetails) (w : World lib) where
    pub read_through_found :
        (flag : FeatureFlag)
        → (loaded lib name user (missed w name)).0 ≡ ok flag
        → (read_through lib config key name user w).1
          ≡ (write_cache lib config key flag (loaded lib name user (missed w name)).1).1
    unfolding read_through
    read_through_found flag e = ground arith

    -- The flag that a read returns after a miss is the one that its session found.
    pub read_through_sound :
        (flag : FeatureFlag)
        → (read_through lib config key name user w).0 ≡ ok flag
        → (loaded lib name user (missed w name)).0 ≡ ok flag
    unfolding read_through
    read_through_sound flag e = ground arith

    pub read_through_up :
        ((flag : FeatureFlag) (v : World lib) → (write_cache lib config key flag v).0 ≡ ok tt)
        → (read_through lib config key name user w).0 ≡ (loaded lib name user (missed w name)).0
    read_through_up up = by_load (loaded lib name user (missed w name)).0 refl
      where
        by_load :
            (r : Result FeatureFlag)
            → (loaded lib name user (missed w name)).0 ≡ r
            → (read_through lib config key name user w).0 ≡ (loaded lib name user (missed w name)).0
        by_load (ok flag) e =
            unfold read_through in ground (arith, up flag (loaded lib name user (missed w name)).1)
        by_load (err x) e = unfold read_through in ground arith

    pub read_through_failed :
        (x : BaseException)
        → (loaded lib name user (missed w name)).0 ≡ err x
        → (read_through lib config key name user w).1 ≡ (loaded lib name user (missed w name)).1
    unfolding read_through
    read_through_failed x e = ground arith

  module _ (name : Text) (user : UserDetails) (w : World lib) where
    abbrev key_of : Text
    key_of = cache_key user.tenant_id name

    pub get_flag_unreachable :
        (x : BaseException)
        → (lib.redis_get key_of w.cache).0 ≡ err x
        → get_flag lib config name user w ≡ (err x, looked_up w key_of)
    unfolding get_flag
    get_flag_unreachable x e = ground arith

    pub get_flag-hit :
        (json : Text)
        → (lib.redis_get key_of w.cache).0 ≡ ok (some json)
        → get_flag lib config name user w
          ≡ (lib.model_validate_json json, hit (looked_up w key_of) name)
    unfolding get_flag
    get_flag-hit json e = ground arith

    pub get_flag_miss :
        (lib.redis_get key_of w.cache).0 ≡ ok none
        → get_flag lib config name user w
          ≡ read_through lib config key_of name user (looked_up w key_of)
    unfolding get_flag
    get_flag_miss e = ground arith

-- `set_flag` branch by branch: the session raises, the model refuses the name or the user, the
-- cache is not refreshed, or all is done.
module _ (lib : Libraries) (config : FeatureFlagConfig) where
  module _ (name : Text) (enabled : Bool) (user : UserDetails) (w : World lib) where
    abbrev committed_world : World lib
    committed_world = (stored lib name enabled w.clock user w).1

    abbrev refresh : FeatureFlag → Result (Unit {0}) × World lib
    refresh flag = write_cache lib config (cache_key user.tenant_id name) flag committed_world

    abbrev counted : World lib → World lib
    counted v =
        (log lib logger_name LogLevel.info (codes "feature_flag.written")
          ((codes "name", text name) ∷ (codes "enabled", boolean enabled) ∷ [])
          (record v { writes_total = v.writes_total + 1 })).1

    pub set_flag_not_stored :
        (x : BaseException)
        → (stored lib name enabled w.clock user w).0 ≡ err x
        → set_flag lib config name enabled user w ≡ (err x, committed_world)
    unfolding set_flag
    set_flag_not_stored x e = ground arith

    module _ (committed : (stored lib name enabled w.clock user w).0 ≡ ok tt) where
      pub set_flag_refused :
          (x : BaseException)
          → make_feature_flag name enabled w.clock user.user_id ≡ err x
          → set_flag lib config name enabled user w ≡ (err x, committed_world)
      unfolding set_flag
      set_flag_refused x e = ground arith

      module _ (flag : FeatureFlag)
          (valid : make_feature_flag name enabled w.clock user.user_id ≡ ok flag) where
        pub set_flag_not_cached :
            (x : BaseException)
            → (refresh flag).0 ≡ err x
            → set_flag lib config name enabled user w ≡ (err x, (refresh flag).1)
        unfolding set_flag
        set_flag_not_cached x e = ground arith

        pub set_flag_done :
            (refresh flag).0 ≡ ok tt
            → set_flag lib config name enabled user w ≡ (ok flag, counted (refresh flag).1)
        unfolding set_flag
        set_flag_done e = ground arith

    pub set_flag_sound :
        (flag : FeatureFlag)
        → (set_flag lib config name enabled user w).0 ≡ ok flag
        → ((stored lib name enabled w.clock user w).0 ≡ ok tt)
          × (make_feature_flag name enabled w.clock user.user_id ≡ ok flag)
          × ((refresh flag).0 ≡ ok tt)
    unfolding set_flag
    set_flag_sound flag e = ground arith
