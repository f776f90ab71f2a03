-- ===== src/Tests/Service.antt =====
-- Runs of the cache keys and of the feature-flag service.
use fastapi_polyrepo_templat.Prelude.{
  ◌≡◌, ◌⊎◌, refl, true, false, some, [], ◌∷◌, ◌+◌, Text, codes, text_eq, arith,
}
use fastapi_polyrepo_templat.Effects.{ok, err, feature_flag_not_found, library_error}
use fastapi_polyrepo_templat.Models.{
  make_feature_flag, FeatureFlagRow, FeatureFlagConfig, UserDetails,
}
use fastapi_polyrepo_templat.World.{World, PrimaryKey}
use fastapi_polyrepo_templat.Contracts.{overlay}
use fastapi_polyrepo_templat.RedisKey.{create_redis_key}
use fastapi_polyrepo_templat.RedisKey.Injective.{create_redis_key-injective}
use fastapi_polyrepo_templat.Sample.{libraries, world, healthy, read_only}
use fastapi_polyrepo_templat.Sample.Lawful.{contracts, IsUp-healthy, postgres_contract}
use fastapi_polyrepo_templat.Service.{cache_key, store_flag, write_cache, get_flag, set_flag}
use fastapi_polyrepo_templat.Service.Reading.{answer}
use fastapi_polyrepo_templat.Service.Writing.{written_row, stored}
use fastapi_polyrepo_templat.Service.Coherence.{IsCoherent, row_of, cached, get_flag-IsCoherent}
use fastapi_polyrepo_templat.Service.Refinement.{get_flag-refines, set_flag-refines}
use fastapi_polyrepo_templat.Service.ReadAfterWrite.{written_flag, get_flag-set_flag}
use fastapi_polyrepo_templat.Service.Isolation.{set_flag-isolated, set_flag-committed}
use fastapi_polyrepo_templat.Service.Counters.{get_flag-counters, set_flag_uncounted}

abbrev pub config : FeatureFlagConfig
config = record { cache_ttl_seconds = 300 }

abbrev pub ann : UserDetails
ann = record { tenant_id = codes "t"; user_id = codes "ann" }

abbrev pub bob : UserDetails
bob = record { tenant_id = codes "t"; user_id = codes "bob" }

abbrev pub dark_mode : Text
dark_mode = codes "dark"

abbrev pub row : FeatureFlagRow
row = record {
  tenant_id = codes "t";
  name = codes "dark";
  value = true;
  updated_at = 1;
  updated_by_user_id = codes "bob";
}

abbrev pub start : World (libraries healthy)
start = world healthy (row ∷ [])

pub IsCoherent-start : IsCoherent (libraries healthy) (contracts healthy) start
IsCoherent-start = record { at = λ t n json c. cc }

unfoldable pub run : Unit {0}
unfolding get_flag set_flag cache_key create_redis_key answer overlay make_feature_flag text_eq
run = tt

get_flag-refines_example :
    (get_flag (libraries healthy) config dark_mode ann start).0
    ≡ answer dark_mode (row_of (libraries healthy) (contracts healthy) start (codes "t") dark_mode)
get_flag-refines_example =
    get_flag-refines (libraries healthy) (contracts healthy) config dark_mode ann start IsUp-healthy
      IsCoherent-start

pub set_flag_runs :
    (set_flag (libraries healthy) config dark_mode false ann start).0
    ≡ ok (record {
      name = codes "dark";
      enabled = false;
      updated_at = 5;
      updated_by_user_id = codes "ann";
    })
unfolding run
set_flag_runs = refl

get_flag_runs :
    (get_flag (libraries healthy) config (codes "other") ann start).0
    ≡ err (feature_flag_not_found (codes "other"))
unfolding run
get_flag_runs = refl

get_flag-set_flag_example :
    ((set_flag (libraries healthy) config dark_mode false ann start).0
      ≡ ok (written_flag dark_mode false 5 ann))
    × ((get_flag
          (libraries healthy)
          config
          dark_mode
          bob
          (set_flag (libraries healthy) config dark_mode false ann start).1).0
        ≡ ok (written_flag dark_mode false 5 ann))
get_flag-set_flag_example =
    get_flag-set_flag (libraries healthy) (contracts healthy) config dark_mode false ann bob start
      IsUp-healthy IsCoherent-start (λ e. cc) (λ e. cc) refl

get_flag-IsCoherent_example :
    IsCoherent
      (libraries healthy)
      (contracts healthy)
      (get_flag (libraries healthy) config dark_mode ann start).1
get_flag-IsCoherent_example =
    get_flag-IsCoherent (libraries healthy) (contracts healthy) config dark_mode ann start
      IsCoherent-start

set_flag-refines_example :
    ((k : PrimaryKey)
      → (contracts healthy).postgres.committed
          (set_flag (libraries healthy) config dark_mode false ann start).1.database
          k
        ≡ overlay
            (written_row dark_mode false 5 ann ∷ [])
            ((contracts healthy).postgres.committed start.database)
            k)
    × (answer dark_mode (some (written_row dark_mode false 5 ann))
        ≡ ok (written_flag dark_mode false 5 ann))
    × IsCoherent
        (libraries healthy)
        (contracts healthy)
        (set_flag (libraries healthy) config dark_mode false ann start).1
set_flag-refines_example =
    set_flag-refines (libraries healthy) (contracts healthy) config dark_mode false ann start
      (written_flag dark_mode false 5 ann) IsCoherent-start set_flag_runs

set_flag-isolated_example :
    (row_of
        (libraries healthy)
        (contracts healthy)
        (set_flag (libraries healthy) config dark_mode false ann start).1
        (codes "u")
        dark_mode
      ≡ row_of (libraries healthy) (contracts healthy) start (codes "u") dark_mode)
    × (cached
          (libraries healthy)
          (contracts healthy)
          (set_flag (libraries healthy) config dark_mode false ann start).1
          (codes "u")
          dark_mode
        ≡ cached (libraries healthy) (contracts healthy) start (codes "u") dark_mode)
set_flag-isolated_example =
    set_flag-isolated (libraries healthy) (contracts healthy) config dark_mode false ann start
      (codes "u") dark_mode (λ (e, same). ground arith)

get_flag-counters_example :
    ((get_flag (libraries healthy) config dark_mode ann start).1.reads_total ≡ 0 + 1)
    × ((get_flag (libraries healthy) config dark_mode ann start).1.writes_total ≡ 0)
get_flag-counters_example = get_flag-counters (libraries healthy) config dark_mode ann start

-- Redis takes no writes.
abbrev unwritable : World (libraries read_only)
unwritable = world read_only (row ∷ [])

stored_unwritable : (stored (libraries read_only) dark_mode false 5 ann unwritable).0 ≡ ok tt
unfolding run store_flag
stored_unwritable = refl

refused_unwritable :
    (write_cache
      (libraries read_only)
      config
      (cache_key (codes "t") dark_mode)
      (written_flag dark_mode false 5 ann)
      (stored (libraries read_only) dark_mode false 5 ann unwritable).1).0
    ≡ err (library_error (codes "redis"))
unfolding run write_cache
refused_unwritable = refl

written_by_ann :
    make_feature_flag dark_mode false 5 (codes "ann") ≡ ok (written_flag dark_mode false 5 ann)
unfolding run
written_by_ann = refl

set_flag_uncounted_example :
    ((set_flag (libraries read_only) config dark_mode false ann unwritable).0
      ≡ err (library_error (codes "redis")))
    × ((set_flag (libraries read_only) config dark_mode false ann unwritable).1.writes_total ≡ 0)
    × ((k : PrimaryKey)
        → (postgres_contract read_only).committed
            (set_flag (libraries read_only) config dark_mode false ann unwritable).1.database
            k
          ≡ overlay
              (written_row dark_mode false 5 ann ∷ [])
              ((postgres_contract read_only).committed unwritable.database)
              k)
set_flag_uncounted_example =
    set_flag_uncounted (libraries read_only) config (postgres_contract read_only) dark_mode false
      ann unwritable (written_flag dark_mode false 5 ann) (library_error (codes "redis"))
      stored_unwritable written_by_ann refused_unwritable

create_redis_key-injective_example : codes "t" ∷ codes "a:b" ∷ [] ≡ codes "t" ∷ codes "a:b" ∷ []
create_redis_key-injective_example =
    create_redis_key-injective (codes "feature_flag") (codes "t" ∷ codes "a:b" ∷ [])
      (codes "t" ∷ codes "a:b" ∷ []) refl

set_flag-committed_example :
    ((contracts healthy).postgres.committed
        (set_flag (libraries healthy) config dark_mode false ann start).1.database
        (codes "t", dark_mode)
      ≡ (contracts healthy).postgres.committed start.database (codes "t", dark_mode))
    ⊎ ((contracts healthy).postgres.committed
          (set_flag (libraries healthy) config dark_mode false ann start).1.database
          (codes "t", dark_mode)
        ≡ overlay
            (written_row dark_mode false 5 ann ∷ [])
            ((contracts healthy).postgres.committed start.database)
            (codes "t", dark_mode))
set_flag-committed_example =
    set_flag-committed (libraries healthy) (contracts healthy) config dark_mode false ann start
      (codes "t", dark_mode)
