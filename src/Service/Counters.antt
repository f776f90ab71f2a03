-- ===== src/Service/Counters.antt =====
-- The counters, and what the service does when Redis or PostgreSQL fails.
use fastapi_polyrepo_templat.Prelude.{ℕ, ◌+◌, ◌≡◌, ◌≢◌, ap, ◌∙◌, Bool, none, [], ◌∷◌, Text, arith}
use fastapi_polyrepo_templat.Effects.{BaseException, Result, ok, err}
use fastapi_polyrepo_templat.Models.{make_feature_flag, FeatureFlag, FeatureFlagConfig, UserDetails}
use fastapi_polyrepo_templat.World.{Libraries, World, PrimaryKey}
use fastapi_polyrepo_templat.Contracts.{PostgresContract, overlay}
use fastapi_polyrepo_templat.Service.{cache_key, write_cache, get_flag, set_flag}
use fastapi_polyrepo_templat.Service.Writing.{written_row, stored, store_flag-committed}
use fastapi_polyrepo_templat.Service.Branches.{set_flag_not_cached}

abbrev pub count_of : Result FeatureFlag → ℕ
count_of (ok flag) = 1
count_of (err x) = 0

module _ (lib : Libraries) (config : FeatureFlagConfig) where
  -- A read counts itself, and only itself, whether it returns or raises.
  pub get_flag-counters :
      (name : Text) (user : UserDetails) (w : World lib)
      → ((get_flag lib config name user w).1.reads_total ≡ w.reads_total + 1)
        × ((get_flag lib config name user w).1.writes_total ≡ w.writes_total)
  unfolding get_flag
  get_flag-counters name user w = (ground arith, ground arith)

  -- A write is counted exactly if it returns, and counts no read.
  pub set_flag-counters :
      (name : Text) (enabled : Bool) (user : UserDetails) (w : World lib)
      → ((set_flag lib config name enabled user w).1.reads_total ≡ w.reads_total)
        × ((set_flag lib config name enabled user w).1.writes_total
            ≡ w.writes_total + count_of (set_flag lib config name enabled user w).0)
  unfolding set_flag
  set_flag-counters name enabled user w = (ground arith, ground arith)

  -- A read that finds the flag in Redis, or cannot reach Redis, does not touch the database; the
  -- answer is the parsed entry, or the exception.
  pub get_flag-database :
      (name : Text) (user : UserDetails) (w : World lib)
      → (lib.redis_get (cache_key user.tenant_id name) w.cache).0 ≢ ok none
      → ((get_flag lib config name user w).1.database ≡ w.database)
  unfolding get_flag
  get_flag-database name user w h = ground arith

  module _ (table : PostgresContract lib) where
    -- If Redis fails after the commit of a write whose flag is valid, the write raises that
    -- error: the row has been replaced, and the write is not counted.
    pub set_flag_uncounted :
        (name : Text) (enabled : Bool) (user : UserDetails) (w : World lib) (flag : FeatureFlag)
        (x : BaseException)
        → (stored lib name enabled w.clock user w).0 ≡ ok tt
        → make_feature_flag name enabled w.clock user.user_id ≡ ok flag
        → (write_cache lib config
            (cache_key user.tenant_id name)
            flag
            (stored lib name enabled w.clock user w).1).0
          ≡ err x
        → ((set_flag lib config name enabled user w).0 ≡ err x)
          × ((set_flag lib config name enabled user w).1.writes_total ≡ w.writes_total)
          × ((k : PrimaryKey)
              → table.committed (set_flag lib config name enabled user w).1.database k
                ≡ overlay
                    (written_row name enabled w.clock user ∷ [])
                    (table.committed w.database)
                    k)
    set_flag_uncounted name enabled user w flag x done valid failed =
        let ran = set_flag_not_cached lib config name enabled user w done flag valid x failed in
        (
          ap (λ r. r.0) ran,
          (set_flag-counters name enabled user w).1 ∙ rw ran (omega arith),
          λ k. rw ran (
              unfold write_cache in
              store_flag-committed lib table name enabled w.clock user w k done),
        )
