-- ===== src/Clients/Postgres.antt =====
-- src/app/clients/postgres/postgres_client.py
use fastapi_polyrepo_templat.Prelude.{[], ◌∷◌, Text, codes}
use fastapi_polyrepo_templat.Effects.{raise, ◌>>◌, try_except, try_finally}
use fastapi_polyrepo_templat.World.{
  Libraries, App, log, on_database, with_database, LogLevel, exception,
}

abbrev pub logger_name : Text
logger_name = codes "PostgresClient"

module _ (lib : Libraries) where
  unfoldable pub ping : App lib Unit
  ping = try_except (on_database lib lib.select_one) (λ exc. do
    log lib logger_name LogLevel.error (codes "postgres.ping.failed")
        ((codes "exc_info", exception exc) ∷ [])
    raise exc)

  unfoldable pub start : App lib Unit
  unfolding ping
  start = do
    log lib logger_name LogLevel.info (codes "postgres.starting") []
    ping
    log lib logger_name LogLevel.info (codes "postgres.started") []

  unfoldable pub stop : App lib Unit
  stop = do
    log lib logger_name LogLevel.info (codes "postgres.stopping") []
    on_database lib lib.dispose
    log lib logger_name LogLevel.info (codes "postgres.stopped") []

  -- `async with self._postgres.create_session() as session: body`
  abbrev pub with_session : {A : Type 0} → App lib A → App lib A
  with_session body = do
    with_database lib lib.open_session
    try_finally body (with_database lib lib.close_session)
