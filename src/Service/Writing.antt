-- ===== src/Service/Writing.antt =====
-- The session of `set_flag`: the one row that it puts into the table.
use fastapi_polyrepo_templat.Prelude.{
  ◌≡◌, refl, ◌⊎◌, inl, Bool, Option, none, some, [], ◌∷◌, Text, arith,
}
use fastapi_polyrepo_templat.Effects.{BaseException, Result, ok, err}
use fastapi_polyrepo_templat.Models.{Datetime, FeatureFlagRow, UserDetails}
use fastapi_polyrepo_templat.World.{Libraries, World, PrimaryKey}
use fastapi_polyrepo_templat.Contracts.{PostgresContract, IsDatabaseUp, overlay}
use fastapi_polyrepo_templat.Clients.Postgres.{with_session}
use fastapi_polyrepo_templat.Service.{store_flag}

-- The row that a write leaves: the specification of `set_flag`.
abbrev pub written_row : Text → Bool → Datetime → UserDetails → FeatureFlagRow
written_row name enabled now user = record {
  tenant_id = user.tenant_id;
  name = name;
  value = enabled;
  updated_at = now;
  updated_by_user_id = user.user_id;
}

module _ (lib : Libraries) where
  abbrev pub stored :
      Text → Bool → Datetime → UserDetails → World lib → Result (Unit {0}) × World lib
  stored name enabled now user w = with_session lib (store_flag lib name enabled now user) w

  -- A write session leaves the cache alone.
  pub store_flag-cache :
      (name : Text) (enabled : Bool) (now : Datetime) (user : UserDetails) (w : World lib)
      → (stored name enabled now user w).1.cache ≡ w.cache
  unfolding store_flag
  store_flag-cache name enabled now user w = ground arith

  -- It returns if the database answers.
  pub store_flag_up :
      (name : Text) (enabled : Bool) (now : Datetime) (user : UserDetails) (w : World lib)
      → IsDatabaseUp lib
      → (stored name enabled now user w).0 ≡ ok tt
  unfolding store_flag
  store_flag_up name enabled now user w up =
      let key : PrimaryKey = (user.tenant_id, name) in
      let opened = lib.open_session w.database in
      let got = (lib.session_get key opened).1 in
      by_row (up.session_get key opened).0 (up.session_get key opened).1
    where
      by_row :
          (row : Option FeatureFlagRow)
          → (lib.session_get (user.tenant_id, name) (lib.open_session w.database)).0 ≡ ok row
          → (stored name enabled now user w).0 ≡ ok tt
      by_row none e = ground (
        arith,
        up.session_commit (
            lib.session_add (written_row name enabled now user)
              (lib.session_get (user.tenant_id, name) (lib.open_session w.database)).1),
      )
      by_row (some found) e = ground (
        arith,
        up.session_commit (
            lib.session_assign
              (record found {
                value = enabled;
                updated_at = now;
                updated_by_user_id = user.user_id;
              })
              (lib.session_get (user.tenant_id, name) (lib.open_session w.database)).1),
      )

module _ (lib : Libraries) (table : PostgresContract lib) where
  module _ (name : Text) (enabled : Bool) (now : Datetime) (user : UserDetails) (w : World lib)
      (k : PrimaryKey) where
    abbrev key : PrimaryKey
    key = (user.tenant_id, name)

    abbrev opened : lib.Postgres
    opened = lib.open_session w.database

    abbrev got : lib.Postgres
    got = (lib.session_get key opened).1

    -- The rows of the table after the session's only row is written.
    abbrev after : Option FeatureFlagRow
    after = overlay (written_row name enabled now user ∷ []) (table.committed w.database) k

    abbrev before : Option FeatureFlagRow
    before = table.committed w.database k

    -- The object that is assigned is the row of the key.
    assigned_row :
        (found : FeatureFlagRow)
        → (lib.session_get key opened).0 ≡ ok (some found)
        → record found { value = enabled; updated_at = now; updated_by_user_id = user.user_id }
          ≡ written_row name enabled now user
    assigned_row found h = ground (
      arith,
      table.get_value key opened (some found),
      table.open_pending w.database,
      table.committed_key opened key found,
    )

    -- A database whose session holds that one row, over the same table.
    record Holds (p : lib.Postgres) : Type 0 where
      pending : table.pending p ≡ written_row name enabled now user ∷ []
      same : table.committed p k ≡ before

    commit_holding :
        (p : lib.Postgres)
        → Holds p
        → (lib.session_commit p).0 ≡ ok tt
        → table.committed (lib.close_session (lib.session_commit p).1) k ≡ after
    unfolding overlay
    commit_holding p holds h =
        ground (arith, table.close_committed (lib.session_commit p).1 k, table.commit_writes p k)

    commit_holding_failed :
        (p : lib.Postgres) (e : BaseException)
        → Holds p
        → (lib.session_commit p).0 ≡ err e
        → (table.committed (lib.close_session (lib.session_commit p).1) k ≡ before)
          ⊎ (table.committed (lib.close_session (lib.session_commit p).1) k ≡ after)
    unfolding overlay
    commit_holding_failed p e holds h =
        ground (arith, table.close_committed (lib.session_commit p).1 k, table.commit_failed p k e)

    add-Holds : Holds (lib.session_add (written_row name enabled now user) got)
    add-Holds =
        let row = written_row name enabled now user in
        record {
          pending = ground (
            arith,
            table.add_pending row got,
            table.get_pending key opened,
            table.open_pending w.database,
          );
          same = ground (
            arith,
            table.add_committed row got k,
            table.get_committed key opened k,
            table.open_committed w.database k,
          );
        }

    assign-Holds : Holds (lib.session_assign (written_row name enabled now user) got)
    assign-Holds =
        let row = written_row name enabled now user in
        record {
          pending = ground (
            arith,
            table.assign_pending row got,
            table.get_pending key opened,
            table.open_pending w.database,
          );
          same = ground (
            arith,
            table.assign_committed row got k,
            table.get_committed key opened k,
            table.open_committed w.database k,
          );
        }

    abbrev run : Result (Unit {0}) × World lib
    run = stored lib name enabled now user w

    -- A write session that returns has put exactly one row into the table.
    pub store_flag-committed : run.0 ≡ ok tt → table.committed run.1.database k ≡ after
    unfolding store_flag
    store_flag-committed h = by_row (lib.session_get key opened).0 refl
      where
        by_row :
            (r : Result (Option FeatureFlagRow))
            → (lib.session_get key opened).0 ≡ r
            → table.committed run.1.database k ≡ after
        by_row (err e) g = ground arith
        by_row (ok none) g = ground (
          arith,
          commit_holding (lib.session_add (written_row name enabled now user) got) add-Holds,
        )
        by_row (ok (some found)) g = ground (
          arith,
          assigned_row found g,
          commit_holding (lib.session_assign (written_row name enabled now user) got) assign-Holds,
        )

    -- One that raises may still have committed it, if the connection was lost at that moment.
    pub store_flag-committed_failed :
        (e : BaseException)
        → run.0 ≡ err e
        → (table.committed run.1.database k ≡ before) ⊎ (table.committed run.1.database k ≡ after)
    unfolding store_flag
    store_flag-committed_failed e h = by_row (lib.session_get key opened).0 refl
      where
        by_row :
            (r : Result (Option FeatureFlagRow))
            → (lib.session_get key opened).0 ≡ r
            → (table.committed run.1.database k ≡ before)
              ⊎ (table.committed run.1.database k ≡ after)
        by_row (err x) g = inl (
            ground (
              arith,
              table.close_committed got k,
              table.get_committed key opened k,
              table.open_committed w.database k,
            ))
        by_row (ok none) g = ground (
          arith,
          commit_holding_failed (lib.session_add (written_row name enabled now user) got) e
              add-Holds,
        )
        by_row (ok (some found)) g = ground (
          arith,
          assigned_row found g,
          commit_holding_failed (lib.session_assign (written_row name enabled now user) got) e
              assign-Holds,
        )
