-- ===== src/Migrations/Resources.antt =====
-- The connections and transactions of src/alembic/env.py.
use fastapi_polyrepo_templat.Prelude.{
  ℕ, ◌+◌, ◌-◌, ◌≡◌, refl, ◌∙◌, Bool, true, false, Option, none, some, Text, if◌then◌else◌, arith,
}
use fastapi_polyrepo_templat.Effects.{Result, ok, err, Exec, and_then, after_finally, ◌>>=◌, ◌>>◌}
use fastapi_polyrepo_templat.Config.{AppConfig}
use fastapi_polyrepo_templat.Migrations.Env.{
  Alembic, ContextArgs, EngineArgs, postgres_settings, migrate, leave, run_migrations_offline,
  do_run_migrations, engine_args, offline_args, online_args, configure_logging,
  run_migrations_online, env_main,
}

-- One more if it succeeds.
abbrev pub one_if_ok : {A : Type 0} → Result A → ℕ
one_if_ok (ok a) = 1
one_if_ok (err e) = 0

-- How the libraries count what is open: an entry that succeeds opens one, an exit closes one even
-- if it raises, and the other calls open and close nothing.
pub record Counts (alembic : Alembic) (opened : alembic.State → ℕ) : Type 0 where
  pub connect :
      (engine : alembic.Engine) (s : alembic.State)
      → opened (alembic.connect engine s).1 ≡ opened s + one_if_ok (alembic.connect engine s).0
  pub close :
      (connection : alembic.Connection) (s : alembic.State)
      → opened (alembic.close connection s).1 ≡ opened s - 1
  pub begin_transaction :
      (s : alembic.State)
      → opened (alembic.begin_transaction s).1
        ≡ opened s + one_if_ok (alembic.begin_transaction s).0
  pub end_transaction :
      (r : Result (Unit {0})) (s : alembic.State)
      → opened (alembic.end_transaction r s).1 ≡ opened s - 1
  pub file_config :
      (file : Text) (s : alembic.State) → opened (alembic.file_config file s).1 ≡ opened s
  pub configure :
      (args : ContextArgs alembic.Connection) (s : alembic.State)
      → opened (alembic.configure alembic.metadata args s).1 ≡ opened s
  pub run_migrations : (s : alembic.State) → opened (alembic.run_migrations s).1 ≡ opened s
  pub create_engine :
      (args : EngineArgs) (s : alembic.State) → opened (alembic.create_engine args s).1 ≡ opened s

module _ (alembic : Alembic) (opened : alembic.State → ℕ) where
  abbrev Keeps : {A : Type 0} → Exec alembic.State A → Type 0
  Keeps m = (s : alembic.State) → opened (m s).1 ≡ opened s

  >>=-Keeps :
      {A B : Type 0} (m : Exec alembic.State A) (f : A → Exec alembic.State B)
      → Keeps m
      → ((a : A) → Keeps (f a))
      → Keeps (m >>= f)
  >>=-Keeps {A} {B} m f hm hf s = by_outcome (m s) (hm s)
    where
      by_outcome :
          (r : Result A × alembic.State)
          → opened r.1 ≡ opened s
          → opened (and_then r f).1 ≡ opened s
      by_outcome (ok a, t) h = hf a t ∙ h
      by_outcome (err e, t) h = h

  -- A `with` block closes what it opened.
  with-Keeps :
      {A : Type 0} (enter : Exec alembic.State A) (body : A → Exec alembic.State (Unit {0}))
      (exit : A → Result (Unit {0}) → Exec alembic.State (Unit {0}))
      → ((s : alembic.State) → opened (enter s).1 ≡ opened s + one_if_ok (enter s).0)
      → ((a : A) → Keeps (body a))
      → ((a : A) (r : Result (Unit {0})) (s : alembic.State) → opened (exit a r s).1 ≡ opened s - 1)
      → Keeps (enter >>= λ a t. leave alembic (body a t) (exit a))
  with-Keeps {A} enter body exit opens keeps closes s = by_outcome (enter s) (opens s)
    where
      leave_count :
          (r : Result (Unit {0})) (exited : Result (Unit {0}) × alembic.State)
          → opened (after_finally r exited).1 ≡ opened exited.1
      leave_count r (ok u, t) = refl
      leave_count r (err e, t) = refl

      by_outcome :
          (r : Result A × alembic.State)
          → opened r.1 ≡ opened s + one_if_ok r.0
          → opened (and_then r (λ a t. leave alembic (body a t) (exit a))).1 ≡ opened s
      by_outcome (ok a, t) h =
          let (r, u) = body a t in
          leave_count r (exit a r u) ∙ closes a r u ∙ omega (arith, keeps a t, h)
      by_outcome (err e, t) h = omega (arith, h)

module _ (alembic : Alembic) (opened : alembic.State → ℕ) (counts : Counts alembic opened) where
  migrate-Keeps : Keeps alembic opened (migrate alembic)
  unfolding migrate
  migrate-Keeps =
      with-Keeps alembic opened alembic.begin_transaction (λ _. alembic.run_migrations)
        (λ _. alembic.end_transaction) counts.begin_transaction (λ _. counts.run_migrations)
        (λ _. counts.end_transaction)

  postgres_settings-Keeps : Keeps alembic opened (postgres_settings alembic)
  unfolding postgres_settings
  postgres_settings-Keeps s = by_outcome (alembic.app_config s)
    where
      by_outcome :
          (r : Result AppConfig)
          → opened (and_then (r, s) (λ config t. (ok config.postgres, t))).1 ≡ opened s
      by_outcome (ok config) = refl
      by_outcome (err e) = refl

  configure-migrate-Keeps :
      (args : ContextArgs alembic.Connection)
      → Keeps alembic opened (alembic.configure alembic.metadata args >> migrate alembic)
  configure-migrate-Keeps args =
      >>=-Keeps alembic opened (alembic.configure alembic.metadata args) (λ _. migrate alembic)
        (counts.configure args) (λ _. migrate-Keeps)

  run_migrations_offline-Keeps : Keeps alembic opened (run_migrations_offline alembic)
  unfolding run_migrations_offline
  run_migrations_offline-Keeps =
      >>=-Keeps alembic opened (postgres_settings alembic)
        (λ postgres.
          alembic.configure alembic.metadata (offline_args alembic postgres) >> migrate alembic)
        postgres_settings-Keeps
        (λ postgres. configure-migrate-Keeps (offline_args alembic postgres))

  do_run_migrations-Keeps :
      (connection : alembic.Connection)
      → Keeps alembic opened (do_run_migrations alembic connection)
  unfolding do_run_migrations
  do_run_migrations-Keeps connection = configure-migrate-Keeps (online_args alembic connection)

  connected : alembic.Engine → Exec alembic.State (Unit {0})
  connected engine = alembic.connect engine >>= λ connection s.
      leave alembic (do_run_migrations alembic connection s) (λ r. alembic.close connection)

  connected-Keeps : (engine : alembic.Engine) → Keeps alembic opened (connected engine)
  unfolding connected
  connected-Keeps engine =
      with-Keeps alembic opened (alembic.connect engine) (do_run_migrations alembic)
        (λ connection r. alembic.close connection) (counts.connect engine) do_run_migrations-Keeps
        (λ connection r. counts.close connection)

  run_migrations_online-Keeps : Keeps alembic opened (run_migrations_online alembic)
  unfolding run_migrations_online connected
  run_migrations_online-Keeps =
      >>=-Keeps alembic opened (postgres_settings alembic)
        (λ postgres. alembic.create_engine (engine_args alembic postgres) >>= connected)
        postgres_settings-Keeps
        (λ postgres.
          >>=-Keeps alembic opened (alembic.create_engine (engine_args alembic postgres)) connected
            (counts.create_engine (engine_args alembic postgres)) connected-Keeps)

  configure_logging-Keeps :
      (file : Option Text) → Keeps alembic opened (configure_logging alembic file)
  configure_logging-Keeps none s = refl
  configure_logging-Keeps (some file) s = counts.file_config file s

  mode : Bool → Exec alembic.State (Unit {0})
  mode offline = if offline then run_migrations_offline alembic else run_migrations_online alembic

  mode-Keeps : (offline : Bool) → Keeps alembic opened (mode offline)
  unfolding mode
  mode-Keeps true = run_migrations_offline-Keeps
  mode-Keeps false = run_migrations_online-Keeps

  -- If an entry that succeeds opens one thing and an exit closes one, then whatever a run of the
  -- migrations ends with, as many connections and transactions are open after it as before.
  pub env_main-closed : (s : alembic.State) → opened (env_main alembic s).1 ≡ opened s
  unfolding env_main mode
  env_main-closed =
      >>=-Keeps alembic opened (configure_logging alembic alembic.config_file_name)
        (λ _. mode alembic.is_offline_mode) (configure_logging-Keeps alembic.config_file_name)
        (λ _. mode-Keeps alembic.is_offline_mode)
