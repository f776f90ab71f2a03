-- ===== src/Service/Reading.antt =====
-- The session of `get_flag`: what it answers, and that it leaves the table alone.
use fastapi_polyrepo_templat.Prelude.{◌≡◌, refl, Option, none, some, Text, arith}
use fastapi_polyrepo_templat.Effects.{feature_flag_not_found, Result, ok, err}
use fastapi_polyrepo_templat.Models.{FeatureFlag, FeatureFlagRow, UserDetails}
use fastapi_polyrepo_templat.World.{Libraries, World, PrimaryKey}
use fastapi_polyrepo_templat.Contracts.{PostgresContract}
use fastapi_polyrepo_templat.Clients.Postgres.{with_session}
use fastapi_polyrepo_templat.Service.{load_flag, row_to_flag}

-- What a read answers, given what the table holds: the specification of `get_flag`.
unfoldable pub answer : Text → Option FeatureFlagRow → Result FeatureFlag
answer name none = err (feature_flag_not_found name)
answer name (some row) = row_to_flag row

module _ (lib : Libraries) where
  abbrev pub loaded : Text → UserDetails → World lib → Result FeatureFlag × World lib
  loaded name user w = with_session lib (load_flag lib name user) w

  abbrev answer_to : Text → Result (Option FeatureFlagRow) → Result FeatureFlag
  answer_to name (ok row) = answer name row
  answer_to name (err e) = err e

  load_flag_result :
      (name : Text) (user : UserDetails) (w : World lib)
      → (loaded name user w).0
        ≡ answer_to name (lib.session_get (user.tenant_id, name) (lib.open_session w.database)).0
  unfolding load_flag answer
  load_flag_result name user w = ground arith

  -- A read session leaves the cache alone.
  pub load_flag-cache :
      (name : Text) (user : UserDetails) (w : World lib) → (loaded name user w).1.cache ≡ w.cache
  unfolding load_flag
  load_flag-cache name user w = ground arith

  pub load_flag-clock :
      (name : Text) (user : UserDetails) (w : World lib) → (loaded name user w).1.clock ≡ w.clock
  unfolding load_flag
  load_flag-clock name user w = ground arith

module _ (lib : Libraries) (table : PostgresContract lib) where
  pub load_flag-committed :
      (name : Text) (user : UserDetails) (w : World lib) (k : PrimaryKey)
      → table.committed (loaded lib name user w).1.database k ≡ table.committed w.database k
  unfolding load_flag
  load_flag-committed name user w k =
      let key : PrimaryKey = (user.tenant_id, name) in
      let opened = lib.open_session w.database in
      ground (
        arith,
        table.close_committed (lib.session_get key opened).1 k,
        table.get_committed key opened k,
        table.open_committed w.database k,
      )

  -- If the database answers, a read session answers as the table does.
  pub load_flag-eq-answer :
      (name : Text) (user : UserDetails) (w : World lib) (row : Option FeatureFlagRow)
      → (lib.session_get (user.tenant_id, name) (lib.open_session w.database)).0 ≡ ok row
      → (loaded lib name user w).0 ≡ answer name (table.committed w.database (user.tenant_id, name))
  load_flag-eq-answer name user w row h =
      let key : PrimaryKey = (user.tenant_id, name) in
      ground (
        arith,
        load_flag_result lib name user w,
        table.get_value key (lib.open_session w.database) row,
        table.open_pending w.database,
        table.open_committed w.database key,
      )

  -- Whatever else fails, a flag that a read session returns is the one of the table.
  pub load_flag_sound :
      (name : Text) (user : UserDetails) (w : World lib) (flag : FeatureFlag)
      → (loaded lib name user w).0 ≡ ok flag
      → answer name (table.committed w.database (user.tenant_id, name)) ≡ ok flag
  load_flag_sound name user w flag h =
      by_outcome (lib.session_get (user.tenant_id, name) (lib.open_session w.database)).0 refl
    where
      by_outcome :
          (r : Result (Option FeatureFlagRow))
          → (lib.session_get (user.tenant_id, name) (lib.open_session w.database)).0 ≡ r
          → answer name (table.committed w.database (user.tenant_id, name)) ≡ ok flag
      by_outcome (ok row) e = cc (load_flag-eq-answer name user w row e)
      by_outcome (err x) e = ground (arith, load_flag_result lib name user w)
