-- ===== src/Lifecycle/Lifespan.antt =====
-- The lifespan of src/app/lifecycle/lifecycle_manager.py: when it serves, what it releases, and
-- the handler of the event loop.
use fastapi_polyrepo_templat.Prelude.{◌≡◌, ◌↔◌, refl, true, some, codes, length, arith}
use fastapi_polyrepo_templat.Effects.{BaseException, is_exception, Result, ok, err, finish}
use fastapi_polyrepo_templat.World.{Libraries, World, App}
use fastapi_polyrepo_templat.Clients.Redis.{ping, start, stop}
use fastapi_polyrepo_templat.Clients.Postgres
use fastapi_polyrepo_templat.Lifecycle.{
  flush, init_by_topological_order, teardown_by_reverse_topological_order, set_exception_handler,
  lifespan,
}

module _ (lib : Libraries) where
  -- The exception that leaves a shutdown: that of Redis, or that of PostgreSQL.
  abbrev pub closed : Result (Unit {0}) → Result (Unit {0}) → Result (Unit {0})
  closed redis postgres = elim redis [ ok _ ↦ postgres | err e ↦ err e ]

  -- A shutdown disposes the pool of PostgreSQL and closes Redis, whether or not the first raises,
  -- flushes the log after the last record of both, and raises what Redis raised or, if nothing,
  -- what PostgreSQL raised.
  pub teardown_by_reverse_topological_order_lem :
      (w : World lib)
      → ((teardown_by_reverse_topological_order lib w).0
          ≡ closed (lib.redis_aclose w.cache).0 (lib.dispose w.database).0)
        × ((teardown_by_reverse_topological_order lib w).1.cache ≡ (lib.redis_aclose w.cache).1)
        × ((teardown_by_reverse_topological_order lib w).1.database ≡ (lib.dispose w.database).1)
        × ((teardown_by_reverse_topological_order lib w).1.flushed
            ≡ length (teardown_by_reverse_topological_order lib w).1.log)
  unfolding teardown_by_reverse_topological_order flush stop Postgres.stop
  teardown_by_reverse_topological_order_lem w = ground arith

  -- Startup succeeds exactly if Redis answers PING with True and PostgreSQL answers SELECT 1.
  pub init-ok_iff :
      (w : World lib)
      → ((init_by_topological_order lib w).0 ≡ ok tt)
        ↔ (((lib.redis_ping w.cache).0 ≡ ok true) × ((lib.select_one w.database).0 ≡ ok tt))
  unfolding init_by_topological_order start ping Postgres.start Postgres.ping is_exception
  init-ok_iff w = ground arith

  -- A `finally` block leaves its own state, whatever it and the block before ended with.
  finish-state :
      (r : Result (Unit {0}) × World lib) (last : App lib Unit) → (finish r last).1 ≡ (last r.1).1
  finish-state (r, w) last = ground arith

  module _ (serve : App lib Unit) (w : World lib) where
    -- The world in which startup runs.
    abbrev pub entered : World lib
    entered = record w { loop_handler = some (codes "asyncio") }

    -- If startup raises, the server does not serve and nothing is stopped: the lifespan ends with
    -- startup's exception, in the world that startup left, with the old handler.
    pub lifespan_not_started :
        (e : BaseException)
        → (init_by_topological_order lib entered).0 ≡ err e
        → lifespan lib serve w ≡ (
          err e,
          record (init_by_topological_order lib entered).1 { loop_handler = w.loop_handler },
        )
    unfolding lifespan set_exception_handler
    lifespan_not_started e failed = ground arith

    lifespan_served :
        (init_by_topological_order lib entered).0 ≡ ok tt
        → (lifespan lib serve w).1
          ≡ record (finish
              (serve (init_by_topological_order lib entered).1)
              (teardown_by_reverse_topological_order lib)).1 { loop_handler = w.loop_handler }
    unfolding lifespan set_exception_handler
    lifespan_served started = ground arith

    -- If startup succeeds, then however serving ends, both clients are closed and all of the log
    -- is flushed; and the handler of the event loop is the one from before.
    pub lifespan_released :
        (init_by_topological_order lib entered).0 ≡ ok tt
        → ((lifespan lib serve w).1.cache
            ≡ (lib.redis_aclose (serve (init_by_topological_order lib entered).1).1.cache).1)
          × ((lifespan lib serve w).1.database
              ≡ (lib.dispose (serve (init_by_topological_order lib entered).1).1.database).1)
          × ((lifespan lib serve w).1.flushed ≡ length (lifespan lib serve w).1.log)
          × ((lifespan lib serve w).1.loop_handler ≡ w.loop_handler)
    lifespan_released started =
        rw
          (
            lifespan_served started,
            finish-state (serve (init_by_topological_order lib entered).1)
                (teardown_by_reverse_topological_order lib),
          )
          (let (r, cache, database, flushed) =
              teardown_by_reverse_topological_order_lem
                (serve (init_by_topological_order lib entered).1).1 in
            (cache, database, flushed, refl))
