-- ===== src/Migrations/Env.antt =====
-- src/alembic/env.py
use fastapi_polyrepo_templat.Prelude.{
  Bool, true, false, Option, none, some, List, [], ◌∷◌, Text, codes, if◌then◌else◌,
}
use fastapi_polyrepo_templat.Effects.{Result, ok, Exec, pure, and_then, after_finally, ◌>>=◌, ◌>>◌}
use fastapi_polyrepo_templat.Config.{AppConfig, PostgresConfig, ConnectArg, int_arg}
use fastapi_polyrepo_templat.Config.Credentials.{DsnParts, postgres_dsn_parts}

-- SQLAlchemy's `pool.NullPool`, and its default.
pub data PoolClass : Type 0 where
  null_pool queue_pool : PoolClass

-- The arguments of `create_engine`.
pub record EngineArgs : Type 0 where
  pub url : Text
  pub poolclass : PoolClass
  pub connect_args : List (Text × ConnectArg)

-- The arguments of `context.configure`, without `target_metadata`, which is one value.
pub record ContextArgs (Connection : Type 0) : Type 0 where
  pub connection : Option Connection
  pub url : Option Text
  pub literal_binds : Bool
  pub paramstyle : Option Text

-- Alembic's context, SQLAlchemy's engines and the environment that `AppConfig()` reads.
pub record Alembic : Type 1 where
  pub State : Type 0
  pub is_offline_mode : Bool
  pub config_file_name : Option Text
  pub file_config : Text → Exec State (Unit {0})
  pub app_config : State → Result AppConfig
  -- `str(PostgresDsn.build(…))`
  pub build_dsn : DsnParts → Text
  pub Metadata : Type 0
  -- `PostgresBase.metadata`
  pub metadata : Metadata
  pub Connection : Type 0
  pub configure : Metadata → ContextArgs Connection → Exec State (Unit {0})
  -- `context.begin_transaction()` on the way in, and on the way out, given what the body ended with.
  pub begin_transaction : Exec State (Unit {0})
  pub end_transaction : Result (Unit {0}) → Exec State (Unit {0})
  pub run_migrations : Exec State (Unit {0})
  pub Engine : Type 0
  pub create_engine : EngineArgs → Exec State Engine
  -- `connectable.connect()`, and the end of the connection's `with` block
  pub connect : Engine → Exec State Connection
  pub close : Connection → Exec State (Unit {0})

module _ (alembic : Alembic) where
  -- `with …: body`, behind the entry
  abbrev pub leave :
      Result (Unit {0}) × alembic.State
      → (Result (Unit {0}) → Exec alembic.State (Unit {0}))
      → Result (Unit {0}) × alembic.State
  leave (r, s) exit = after_finally r (exit r s)

  unfoldable pub postgres_settings : Exec alembic.State PostgresConfig
  postgres_settings s = and_then (alembic.app_config s, s) (λ config t. (ok config.postgres, t))

  abbrev pub dsn : PostgresConfig → Text
  dsn postgres = alembic.build_dsn (postgres_dsn_parts postgres)

  -- `with context.begin_transaction(): context.run_migrations()`
  unfoldable pub migrate : Exec alembic.State (Unit {0})
  migrate =
      alembic.begin_transaction >>= λ _ s. leave (alembic.run_migrations s) alembic.end_transaction

  abbrev pub offline_args : PostgresConfig → ContextArgs alembic.Connection
  offline_args postgres = record {
    connection = none;
    url = some (dsn postgres);
    literal_binds = true;
    paramstyle = some (codes "named");
  }

  abbrev pub online_args : alembic.Connection → ContextArgs alembic.Connection
  online_args connection = record {
    connection = some connection;
    url = none;
    literal_binds = false;
    paramstyle = none;
  }

  unfoldable pub run_migrations_offline : Exec alembic.State (Unit {0})
  unfolding postgres_settings migrate
  run_migrations_offline = do
    postgres ← postgres_settings
    alembic.configure alembic.metadata (offline_args postgres)
    migrate

  unfoldable pub do_run_migrations : alembic.Connection → Exec alembic.State (Unit {0})
  unfolding migrate
  do_run_migrations connection = do
    alembic.configure alembic.metadata (online_args connection)
    migrate

  abbrev pub engine_args : PostgresConfig → EngineArgs
  engine_args postgres = record {
    url = dsn postgres;
    poolclass = null_pool;
    connect_args = (codes "connect_timeout", int_arg postgres.connect_timeout_seconds) ∷ [];
  }

  unfoldable pub run_migrations_online : Exec alembic.State (Unit {0})
  unfolding postgres_settings do_run_migrations
  run_migrations_online = do
    postgres ← postgres_settings
    connectable ← alembic.create_engine (engine_args postgres)
    connection ← alembic.connect connectable
    λ s. leave (do_run_migrations connection s) (λ r. alembic.close connection)

  abbrev pub configure_logging : Option Text → Exec alembic.State (Unit {0})
  configure_logging none = pure tt
  configure_logging (some file) = alembic.file_config file

  -- The module's statements.
  unfoldable pub env_main : Exec alembic.State (Unit {0})
  unfolding run_migrations_offline run_migrations_online
  env_main = do
    configure_logging alembic.config_file_name
    if alembic.is_offline_mode then run_migrations_offline else run_migrations_online
