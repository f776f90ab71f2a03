-- ===== src/Tests/Migrations.antt =====
-- Databases that are migrated, and runs of the migrations.
use fastapi_polyrepo_templat.Prelude.{
  ℕ, ◌+◌, ◌-◌, ◌≡◌, refl, Bool, false, Option, none, some, List, Text, codes, text_eq,
  if◌then◌else◌,
}
use fastapi_polyrepo_templat.Effects.{BaseException, Result, ok, err, library_error, Exec}
use fastapi_polyrepo_templat.Migrations.{Table, MappedColumn, Operations}
use fastapi_polyrepo_templat.Migrations.CreateFeatureFlags.{
  upgrade, downgrade, tablename, mapped_columns,
}
use fastapi_polyrepo_templat.Migrations.SameSchema.{
  stored, OperationsContract, declared, declared_key, DeclarativeContract, upgrade-same_as_orm,
  downgrade-upgrade,
}
use fastapi_polyrepo_templat.Migrations.Env.{Alembic, EngineArgs, env_main}
use fastapi_polyrepo_templat.Migrations.Resources.{Counts, env_main-closed}
use fastapi_polyrepo_templat.Migrations.Modes.{rebounded, env_main-bounds}
use fastapi_polyrepo_templat.Tests.Configurations.{app_config, build}

-- A database is its tables by name.
abbrev Tables : Type 0
Tables = Text → Option Table

abbrev set_table : Text → Option Table → Tables → Tables
set_table n t db m = if text_eq m n then t else db m

abbrev create : Table → Option Table → Tables → Result (Unit {0}) × Tables
create t none db = (ok tt, set_table t.name (some (stored t)) db)
create t (some u) db = (err (library_error (codes "DuplicateTable")), db)

abbrev drop : Text → Option Table → Tables → Result (Unit {0}) × Tables
drop n none db = (err (library_error (codes "UndefinedTable")), db)
drop n (some t) db = (ok tt, set_table n none db)

abbrev operations : Operations
operations = record {
  Database = Tables;
  table = λ n db. db n;
  create_table = λ t db. create t (db t.name) db;
  drop_table = λ n db. drop n (db n) db;
}

operations_contract : OperationsContract operations
operations_contract = record {
  created = λ t db absent. rw absent (refl, λ n. refl);
  create_present = λ t u db present. (library_error (codes "DuplicateTable"), rw present refl);
  dropped = λ n t db present. rw present (refl, λ m. refl);
}

abbrev declarative : Text → List MappedColumn → Table
declarative name columns = record {
  name = name;
  columns = declared columns;
  primary_key = declared_key columns;
}

declarative_contract : DeclarativeContract declarative
unfolding DeclarativeContract
declarative_contract name columns = refl

abbrev empty : Tables
empty n = none

upgrade-same_as_orm_example :
    ((upgrade operations empty).0 ≡ ok tt)
    × ((n : Text)
        → (upgrade operations empty).1 n
          ≡ (if text_eq n tablename then some (declarative tablename mapped_columns) else none))
upgrade-same_as_orm_example =
    upgrade-same_as_orm operations operations_contract declarative declarative_contract empty refl

downgrade-upgrade_example :
    (((downgrade operations (upgrade operations empty).1).0 ≡ ok tt)
      × ((n : Text) → (downgrade operations (upgrade operations empty).1).1 n ≡ none))
    × ((exc : BaseException) × (upgrade operations (upgrade operations empty).1
          ≡ (err exc, (upgrade operations empty).1)))
downgrade-upgrade_example = downgrade-upgrade operations operations_contract empty refl

-- The state counts what is open; the migrations fail.
abbrev alembic : Bool → Alembic
alembic offline = record {
  State = ℕ;
  is_offline_mode = offline;
  config_file_name = some (codes "alembic.ini");
  file_config = λ file s. (ok tt, s);
  app_config = λ s. ok app_config;
  build_dsn = build;
  Metadata = Unit {0};
  metadata = tt;
  Connection = Unit {0};
  configure = λ metadata args s. (ok tt, s);
  begin_transaction = λ s. (ok tt, s + 1);
  end_transaction = λ r s. (ok tt, s - 1);
  run_migrations = λ s. (err (library_error (codes "DuplicateTable")), s);
  Engine = EngineArgs;
  create_engine = λ args s. (ok args, s);
  connect = λ engine s. (ok tt, s + 1);
  close = λ connection s. (ok tt, s - 1);
}

counts : Counts (alembic false) (λ s. s)
counts = record {
  connect = λ engine s. refl;
  close = λ connection s. refl;
  begin_transaction = λ s. refl;
  end_transaction = λ r s. refl;
  file_config = λ file s. refl;
  configure = λ args s. refl;
  run_migrations = λ s. refl;
  create_engine = λ args s. refl;
}

env_main-closed_example : (env_main (alembic false) 3).1 ≡ 3
env_main-closed_example = env_main-closed (alembic false) (λ s. s) counts 3

env_main-bounds_example : env_main (rebounded 1 1 (alembic false)) 3 ≡ env_main (alembic false) 3
env_main-bounds_example = env_main-bounds (alembic false) 1 1 3

-- Nothing can be connected to.
abbrev refuse : {A : Type 0} → Exec ℕ A
refuse s = (err (library_error (codes "refused")), s + 7)
