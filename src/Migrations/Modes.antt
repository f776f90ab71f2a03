-- ===== src/Migrations/Modes.antt =====
-- The settings that src/alembic/env.py uses, and the calls it makes in its two modes.
use fastapi_polyrepo_templat.Prelude.{ℕ, ◌≡◌, refl, Bool, true, false, if◌then◌else◌}
use fastapi_polyrepo_templat.Effects.{Result, ok, err, Exec, and_then, ◌>>=◌, ◌>>◌}
use fastapi_polyrepo_templat.Config.{AppConfig, PostgresConfig}
use fastapi_polyrepo_templat.Config.Credentials.{postgres_dsn_parts}
use fastapi_polyrepo_templat.Migrations.Env.{
  Alembic, EngineArgs, postgres_settings, engine_args, offline_args, configure_logging, leave,
  migrate, run_migrations_offline, do_run_migrations, run_migrations_online, env_main,
}

-- The same settings with other bounds on the application's statements and on its pool.
abbrev pub with_bounds : ℕ → ℕ → AppConfig → AppConfig
with_bounds statement_ms pool_s config = record config {
  postgres = record config.postgres {
    statement_timeout_ms = statement_ms;
    pool_timeout_seconds = pool_s;
  };
}

abbrev pub map_result : {A : Type 0} → (A → A) → Result A → Result A
map_result f (ok a) = ok (f a)
map_result f (err e) = err e

-- The environment with those settings.
abbrev pub rebounded : ℕ → ℕ → Alembic → Alembic
rebounded statement_ms pool_s alembic = record alembic {
  app_config = λ s. map_result (with_bounds statement_ms pool_s) (alembic.app_config s);
}

-- What follows the settings runs on the settings with other bounds as on those without.
settings-bounds :
    {S : Type 0} (statement_ms pool_s : ℕ) (f g : PostgresConfig → Exec S (Unit {0}))
    (r : Result AppConfig) (s : S)
    → ((config : AppConfig) (t : S)
        → f (with_bounds statement_ms pool_s config).postgres t ≡ g config.postgres t)
    → and_then
        (and_then
          (map_result (with_bounds statement_ms pool_s) r, s)
          (λ config t. (ok config.postgres, t)))
        f
      ≡ and_then (and_then (r, s) (λ config t. (ok config.postgres, t))) g
settings-bounds statement_ms pool_s f g (ok config) s same = same config s
settings-bounds statement_ms pool_s f g (err e) s same = refl

module _ (alembic : Alembic) (statement_ms pool_s : ℕ) where
  abbrev other : Alembic
  other = rebounded statement_ms pool_s alembic

  run_migrations_offline-bounds :
      (s : alembic.State) → run_migrations_offline other s ≡ run_migrations_offline alembic s
  unfolding run_migrations_offline postgres_settings migrate postgres_dsn_parts
  run_migrations_offline-bounds s =
      settings-bounds statement_ms pool_s
        (λ p. other.configure other.metadata (offline_args other p) >> migrate other)
        (λ p. alembic.configure alembic.metadata (offline_args alembic p) >> migrate alembic)
        (alembic.app_config s) s (λ config t. refl)

  run_migrations_online-bounds :
      (s : alembic.State) → run_migrations_online other s ≡ run_migrations_online alembic s
  unfolding run_migrations_online postgres_settings do_run_migrations migrate postgres_dsn_parts
  run_migrations_online-bounds s =
      settings-bounds statement_ms pool_s
        (λ p. other.create_engine (engine_args other p) >>= λ engine.
          other.connect engine >>= λ c t.
          leave other (do_run_migrations other c t) (λ r. other.close c))
        (λ p. alembic.create_engine (engine_args alembic p) >>= λ engine.
          alembic.connect engine >>= λ c t.
          leave alembic (do_run_migrations alembic c t) (λ r. alembic.close c))
        (alembic.app_config s) s (λ config t. refl)

  mode-bounds :
      (offline : Bool) (s : alembic.State)
      → (if offline then run_migrations_offline other else run_migrations_online other) s
        ≡ (if offline then run_migrations_offline alembic else run_migrations_online alembic) s
  mode-bounds true = run_migrations_offline-bounds
  mode-bounds false = run_migrations_online-bounds

  then-bounds :
      (r : Result (Unit {0}) × alembic.State)
      → and_then r (λ _.
        if alembic.is_offline_mode
        then run_migrations_offline other
        else run_migrations_online other)
        ≡ and_then r (λ _.
          if alembic.is_offline_mode
          then run_migrations_offline alembic
          else run_migrations_online alembic)
  then-bounds (ok u, s) = mode-bounds alembic.is_offline_mode s
  then-bounds (err e, s) = refl

  -- A run of the migrations, online or offline, is the same whatever bounds the settings have for
  -- the application's statements and for its pool.
  pub env_main-bounds : (s : alembic.State) → env_main other s ≡ env_main alembic s
  unfolding env_main
  env_main-bounds s = then-bounds (configure_logging alembic alembic.config_file_name s)

-- In offline mode a run of the migrations is the same whatever creating an engine, connecting and
-- closing a connection do.
pub env_main-offline :
    (alembic : Alembic) (create_engine : EngineArgs → Exec alembic.State alembic.Engine)
    (connect : alembic.Engine → Exec alembic.State alembic.Connection)
    (close : alembic.Connection → Exec alembic.State (Unit {0})) (s : alembic.State)
    → alembic.is_offline_mode ≡ true
    → env_main
        (record alembic { create_engine = create_engine; connect = connect; close = close })
        s
      ≡ env_main alembic s
unfolding env_main run_migrations_offline postgres_settings migrate
env_main-offline alembic create_engine connect close s h = rw h refl
